-- ===== src/Play/Texts.antt =====
-- The packets of a game hold no NUL byte, and fit the buffers on both sides.
use rc.Base.{
  ℕ, zero, suc, ◌≤◌, ◌<◌, [], ◌∷◌, ◌++◌, ◌≡◌, refl, arith, Bytes, length, All, All-append,
}
use rc.Constants.{secret_key_len, sock_buffer_size}
use rc.Play.Network.{NotNul}
use rc.Text.Decimal.{is_digit, IsDigit, decimal, decimal-IsDigit, length-decimal}
use rc.Text.Words.Reads.{All-mono}
use rc.Udp.Parser.Reads.{IsPlayerId, IsKey, IsColor}
use rc.Udp.Parser.{spaced, has_byte}
use rc.Udp.Replies.{
  Status, TryStatus, ReplyTryPacket, ReplyQuitPacket, encode_reply_try, encode_reply_quit,
}
use rc.Udp.Requests.Sizes.{lengths}
use rc.Udp.Requests.{
  StartNewGamePacket, TryPacket, QuitPacket, DebugPacket, encode_start, encode_try, encode_quit,
  encode_debug,
}

pub digit_NotNul : (c : ℕ) → IsDigit c → NotNul c
unfolding is_digit
digit_NotNul c h = ground arith

color_NotNul : (c : ℕ) → IsColor c → NotNul c
unfolding has_byte
color_NotNul c h = ground arith

spaced-NotNul : (n : ℕ) (k : Bytes) → length k ≡ n → All IsColor k → All NotNul (spaced n k)
unfolding spaced
spaced-NotNul zero k e h = tt
spaced-NotNul (suc n) [] e h = absurd (omega arith)
spaced-NotNul (suc n) (c ∷ k) e h =
    (refl, (color_NotNul c h.0, spaced-NotNul n k (omega arith) h.1))

plid-NotNul : (p : Bytes) → IsPlayerId p → All NotNul p
plid-NotNul p v = All-mono digit_NotNul p v.digits

decimal-NotNul : (n : ℕ) → All NotNul (decimal n)
decimal-NotNul n = All-mono digit_NotNul (decimal n) (decimal-IsDigit n)

pub encode_try-NotNul :
    (p : TryPacket) → IsPlayerId p.player_id → IsKey p.key → All NotNul (encode_try p)
unfolding encode_try
encode_try-NotNul p v k =
    let end =
      All-append NotNul (decimal p.trial) (b'\n' ∷ []) (decimal-NotNul p.trial) (refl, tt) in
    let key =
      All-append NotNul (spaced secret_key_len p.key) (b' ' ∷ (decimal p.trial ++ b'\n' ∷ []))
        (spaced-NotNul secret_key_len p.key k.four k.colors) (refl, end) in
    (
      refl,
      (
        refl,
        (
          refl,
          (
            refl,
            All-append NotNul p.player_id
                (spaced secret_key_len p.key ++ (b' ' ∷ (decimal p.trial ++ b'\n' ∷ [])))
                (plid-NotNul p.player_id v) key,
          ),
        ),
      ),
    )

pub encode_start-NotNul :
    (p : StartNewGamePacket) → IsPlayerId p.player_id → All NotNul (encode_start p)
unfolding encode_start
encode_start-NotNul p v =
    let end = All-append NotNul (decimal p.time) (b'\n' ∷ []) (decimal-NotNul p.time) (refl, tt) in
    let player =
      All-append NotNul p.player_id (b' ' ∷ (decimal p.time ++ b'\n' ∷ []))
        (plid-NotNul p.player_id v) (refl, end) in
    (refl, (refl, (refl, (refl, player))))

pub encode_debug-NotNul :
    (p : DebugPacket) → IsPlayerId p.player_id → IsKey p.key → All NotNul (encode_debug p)
unfolding encode_debug
encode_debug-NotNul p v k =
    let end =
      All-append NotNul (spaced secret_key_len p.key) (b'\n' ∷ [])
        (spaced-NotNul secret_key_len p.key k.four k.colors) (refl, tt) in
    let time =
      All-append NotNul (decimal p.time) (spaced secret_key_len p.key ++ b'\n' ∷ [])
        (decimal-NotNul p.time) end in
    let player =
      All-append NotNul p.player_id
        (b' ' ∷ (decimal p.time ++ (spaced secret_key_len p.key ++ b'\n' ∷ [])))
        (plid-NotNul p.player_id v) (refl, time) in
    (refl, (refl, (refl, (refl, player))))

pub encode_quit-NotNul : (p : QuitPacket) → IsPlayerId p.player_id → All NotNul (encode_quit p)
unfolding encode_quit
encode_quit-NotNul p v =
    let end = All-append NotNul p.player_id (b'\n' ∷ []) (plid-NotNul p.player_id v) (refl, tt) in
    (refl, (refl, (refl, (refl, end))))

-- What the numbers and the key of a reply may be.
abbrev pub IsSmall : ReplyTryPacket → Type 0
IsSmall p = (p.trial < 10) × (p.blacks < 10) × (p.whites < 10)

pub encode_reply_try-short :
    (s : TryStatus) (p : ReplyTryPacket)
    → IsSmall p
    → length (encode_reply_try (record p { status = s })) ≤ sock_buffer_size
unfolding encode_reply_try
encode_reply_try-short TryStatus.ok p h =
    let trial = length-decimal 0 p.trial (omega (arith, h.0)) in
    let blacks = length-decimal 0 p.blacks (omega (arith, h.1)) in
    let whites = length-decimal 0 p.whites (omega (arith, h.2)) in
    omega (lengths, trial, blacks, whites)
encode_reply_try-short TryStatus.dup p h = omega arith
encode_reply_try-short TryStatus.inv p h = omega arith
encode_reply_try-short TryStatus.nok p h = omega arith
encode_reply_try-short TryStatus.ent p h = omega lengths
encode_reply_try-short TryStatus.etm p h = omega lengths
encode_reply_try-short TryStatus.err p h = omega arith

pub encode_reply_quit-short :
    (s : Status) (p : ReplyQuitPacket)
    → length (encode_reply_quit (record p { status = s })) ≤ sock_buffer_size
unfolding encode_reply_quit
encode_reply_quit-short Status.ok p = omega lengths
encode_reply_quit-short Status.nok p = omega arith
encode_reply_quit-short Status.err p = omega arith
