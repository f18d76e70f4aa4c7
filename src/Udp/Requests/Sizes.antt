-- ===== src/Udp/Requests/Sizes.antt =====
-- Every request that a client may send fits the server's receive buffer.
use rc.Base.{
  ℕ, zero, suc, ◌+◌, ◌*◌, ◌≤◌, ◌≡◌, refl, [], ◌∷◌, ◌++◌, arith, Bytes, length, length-append,
}
use rc.Constants.{sock_buffer_size}
use rc.Text.Decimal.{length-decimal}
use rc.Udp.Parser.Reads.{IsPlayerId}
use rc.Udp.Parser.{spaced}
use rc.Udp.Requests.Accepts.{IsStart, IsTry, IsDebug}
use rc.Udp.Requests.{
  StartNewGamePacket, TryPacket, QuitPacket, DebugPacket, encode_start, encode_try, encode_quit,
  encode_debug,
}

pub length-spaced : (n : ℕ) (k : Bytes) → length (spaced n k) ≡ 2 * n
unfolding spaced
length-spaced zero k = refl
length-spaced (suc n) [] = omega (arith, length-spaced n [])
length-spaced (suc n) (c ∷ k) = omega (arith, length-spaced n k)

pub length-append_bytes : (xs ys : Bytes) → length (xs ++ ys) ≡ length xs + length ys
length-append_bytes xs ys = length-append xs ys

pub ruleset lengths = (arith, length-append_bytes, length-spaced)

-- Each encoded request is no longer than the buffer of 32 bytes that `recvfrom` cuts it to.
pub requests_fit :
    (s : StartNewGamePacket) (t : TryPacket) (q : QuitPacket) (d : DebugPacket)
    → IsStart s
    → IsTry t
    → IsPlayerId q.player_id
    → IsDebug d
    → (length (encode_start s) ≤ sock_buffer_size)
      × (length (encode_try t) ≤ sock_buffer_size)
      × (length (encode_quit q) ≤ sock_buffer_size)
      × (length (encode_debug d) ≤ sock_buffer_size)
unfolding encode_start encode_try encode_quit encode_debug
requests_fit s t q d hs ht hq hd = (
  omega (lengths, hs.0.six, length-decimal 2 s.time (omega arith)),
  omega (lengths, ht.0.six, length-decimal 9 t.trial (omega arith)),
  omega (lengths, hq.six),
  omega (lengths, hd.0.six, length-decimal 2 d.time (omega arith)),
)
