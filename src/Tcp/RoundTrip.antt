-- ===== src/Tcp/RoundTrip.antt =====
-- What the client and the server read of each other's TCP packets.
use rc.Base.{
  ℕ, zero, suc, ◌-◌, ◌*◌, ◌^◌, ◌≤◌, ◌<◌, [], ◌∷◌, ◌++◌, ◌==◌, ltb, ◌≡◌, refl, sym, ap, ◌∙◌, subst,
  true, false, some, Bytes, length, length-append, take, drop, arith, All, append_assoc, append-nil,
  Bool-cases, inl, inr,
}
use rc.Base.Int.{pos}
use rc.Constants.{fsize_max, fsize_str_max}
use rc.Exceptions.{Exception, return, throw, invalid_packet}
use rc.Store.{◌>>=◌}
use rc.Tcp.Packets.{ShowTrialsPacket, send_show_trials, read_show_trials}
use rc.Tcp.Parser.{
  all_digits, zeros, cons_to, digits_value, stoul, read_bytes, parse_fixed_string,
  parse_fixed_digit_string, parse_variable_string, check_next_char, next, end_packet,
  parse_packet_id, parse_status, parse_player_id, sized, parse_file_size,
}
use rc.Text.Decimal.{
  is_digit, IsDigit, scan, Ends, decimal, scan-decimal, decimal_cons, length-decimal,
  decimal-IsDigit,
}
use rc.Text.Words.Reads.{NotSpace, decimal-IsWord}
use rc.Text.Words.{is_space}
use rc.Udp.Parser.Reads.{IsPlayerId, scan-lt}

take-append : (w r : Bytes) → take (length w) (w ++ r) ≡ w
take-append [] r = refl
take-append (c ∷ w) r = ap (λ s. c ∷ s) (take-append w r)

drop-append : (w r : Bytes) → drop (length w) (w ++ r) ≡ r
drop-append [] r = refl
drop-append (c ∷ w) r = drop-append w r

all_digits_of : (w : Bytes) → All IsDigit w → all_digits w ≡ true
unfolding all_digits
all_digits_of [] h = refl
all_digits_of (c ∷ w) h = ground (arith, all_digits_of w)

eq_refl : (n : ℕ) → (n == n) ≡ true
eq_refl n = ground arith

zeros-Ends : (m : ℕ) → Ends (zeros m)
unfolding zeros is_digit
zeros-Ends zero = tt
zeros-Ends (suc m) = refl

stoul_digits : (c : ℕ) (s : Bytes) → IsDigit c → stoul (c ∷ s) ≡ some (pos (scan (c ∷ s) 0).0)
unfolding stoul digits_value is_digit
stoul_digits c s h = ground arith

stoul-decimal : (k m : ℕ) → stoul (decimal k ++ zeros m) ≡ some (pos k)
stoul-decimal k m =
    let (c, s, e, first) = decimal_cons k in
    ap (λ t. stoul (t ++ zeros m)) e
    ∙ stoul_digits c (s ++ zeros m) first
    ∙ ap (λ t. some (pos (scan (t ++ zeros m) 0).0)) (sym e)
    ∙ ap (λ x. some (pos x.0)) (scan-decimal k (zeros m) (zeros-Ends m))

stoul_whole : (k : ℕ) → stoul (decimal k) ≡ some (pos k)
unfolding zeros
stoul_whole k = subst (λ t. stoul t ≡ some (pos k)) (append-nil (decimal k)) (stoul-decimal k 0)

value_lem : (k : ℕ) → (scan (decimal k) 0).0 ≡ k
value_lem k =
    ap (λ x. x.0) (subst (λ t. scan t 0 ≡ (k, [])) (append-nil (decimal k)) (scan-decimal k [] tt))

below_thousand : (m k : ℕ) → m ≤ 3 → k < 1 * 10 ^ m → k ≤ 999
below_thousand zero k h b = omega arith
below_thousand (suc zero) k h b = omega arith
below_thousand (suc (suc zero)) k h b = omega arith
below_thousand (suc (suc (suc zero))) k h b = omega arith
below_thousand (suc (suc (suc (suc m)))) k h b = absurd (omega arith)

four_digits : (k : ℕ) → 999 < k → k ≤ fsize_max → length (decimal k) ≡ 4
four_digits k many fits =
    let most = length-decimal 3 k (omega arith) in
    let value = rw (value_lem k) at (scan-lt (decimal k) 1 0 (decimal-IsDigit k) (omega arith)) in
    elim (Bool-cases (ltb (length (decimal k)) 4)) [
      | inl less ↦ absurd (
          let k_small = below_thousand (length (decimal k)) k (ground arith) value in
          omega (arith, k_small))
      | inr enough ↦ ground (arith, most)
    ]

module _ (closing : Exception) where
  pub read_bytes-append : (w r : Bytes) → read_bytes closing (length w) (w ++ r) ≡ (return w, r)
  unfolding read_bytes
  read_bytes-append w r = rw (enough, take-append w r, drop-append w r)
    where
      enough : ltb (length (w ++ r)) (length w) ≡ false
      enough = ground (arith, length-append w r)

  pub variable_word :
      (n e : ℕ) (w r : Bytes)
      → All NotSpace w
      → length w < n
      → is_space e ≡ true
      → parse_variable_string closing n e (w ++ e ∷ r) ≡ (return (w ++ zeros (n - length w)), r)
  unfolding parse_variable_string zeros
  variable_word zero e w r h room blank = absurd (omega arith)
  variable_word (suc n) e [] r h room blank =
      rw (blank, eq_refl e)
        (ap (λ k. (return (zeros k), r)) {x = suc n} {y = suc n - 0} (omega arith))
  variable_word (suc n) e (c ∷ w) r h room blank =
      rw (h.0, variable_word n e w r h.1 (omega arith) blank)
        (ap (λ k. (return (c ∷ (w ++ zeros k)), r)) {x = n - length w} {y = suc n - suc (length w)}
          (omega arith))

  variable_full :
      (w r : Bytes) (e : ℕ)
      → All NotSpace w
      → parse_variable_string closing (length w) e (w ++ r) ≡ (return w, r)
  unfolding parse_variable_string
  variable_full [] r e h = refl
  variable_full (c ∷ w) r e h = rw h.0 (ap (cons_to c) (variable_full w r e h.1))

  pub size_short :
      (k : ℕ) (r : Bytes)
      → 0 < k
      → k ≤ 999
      → parse_file_size closing (decimal k ++ b' ' ∷ r) ≡ (return k, r)
  unfolding parse_file_size sized is_space
  size_short k r some_bytes few =
      let short = length-decimal 2 k (omega arith) in
      rw
        (
          variable_word fsize_str_max b' ' (decimal k) r (decimal-IsWord k).solid
              (omega (arith, short)) refl,
          stoul-decimal k (fsize_str_max - length (decimal k)),
        )
        (ground arith)

  pub size_long :
      (k : ℕ) (r : Bytes)
      → 999 < k
      → k ≤ fsize_max
      → (parse_file_size closing (decimal k ++ b' ' ∷ r)).0 ≡ throw invalid_packet
  unfolding parse_file_size sized check_next_char
  size_long k r many fits =
      let four = four_digits k many fits in
      let full =
        subst
          (λ n.
            parse_variable_string closing n b' ' (decimal k ++ b' ' ∷ r)
            ≡ (return (decimal k), b' ' ∷ r))
          four (variable_full (decimal k) (b' ' ∷ r) b' ' (decimal-IsWord k).solid) in
      rw (full, stoul_whole k) (ground arith)

  pub id_lem :
      (a b c : ℕ) (r : Bytes)
      → parse_packet_id closing (a ∷ b ∷ c ∷ r) ≡ (return (a ∷ b ∷ c ∷ []), r)
  unfolding parse_packet_id parse_fixed_string
  id_lem a b c r = read_bytes-append (a ∷ b ∷ c ∷ []) r

  pub status_lem :
      (a b c : ℕ) (r : Bytes) → parse_status closing (a ∷ b ∷ c ∷ r) ≡ (return (a ∷ b ∷ c ∷ []), r)
  unfolding parse_status parse_fixed_string
  status_lem a b c r = read_bytes-append (a ∷ b ∷ c ∷ []) r

  char_lem : (c : ℕ) (r : Bytes) → check_next_char closing c (c ∷ r) ≡ (return tt, r)
  unfolding check_next_char
  char_lem c r = rw (eq_refl c)

  pub next_lem : (r : Bytes) → next closing (b' ' ∷ r) ≡ (return tt, r)
  unfolding next
  next_lem r = char_lem b' ' r

  pub end_lem : (r : Bytes) → end_packet closing (b'\n' ∷ r) ≡ (return tt, r)
  unfolding end_packet
  end_lem r = char_lem b'\n' r

  player_lem : (p r : Bytes) → IsPlayerId p → parse_player_id closing (p ++ r) ≡ (return p, r)
  unfolding parse_player_id parse_fixed_digit_string
  player_lem p r v =
      let read =
        subst (λ n. read_bytes closing n (p ++ r) ≡ (return p, r)) v.six (read_bytes-append p r) in
      let value = rw v.six at (scan-lt p 1 0 v.digits (omega arith)) in
      rw (read, all_digits_of p v.digits) (ground (arith, value))

  -- What stands behind the identifier of a `STR` request.
  pub read_show_trials-player :
      (plid rest : Bytes)
      → IsPlayerId plid
      → read_show_trials closing (b' ' ∷ (plid ++ b'\n' ∷ rest))
        ≡ (return (record { player_id = plid }), rest)
  unfolding read_show_trials
  read_show_trials-player plid rest v =
      rw (next_lem (plid ++ b'\n' ∷ rest), player_lem plid (b'\n' ∷ rest) v, end_lem rest)

  -- The server reads back the `STR` request that a client sends, and what stands behind it is left.
  pub read_show_trials-send_show_trials :
      (p : ShowTrialsPacket) (rest : Bytes)
      → IsPlayerId p.player_id
      → (parse_packet_id closing >>= λ packet_id. read_show_trials closing)
          (send_show_trials p ++ rest)
        ≡ (return p, rest)
  unfolding read_show_trials send_show_trials
  read_show_trials-send_show_trials p rest v = rw (
    id_lem b'S' b'T' b'R',
    next_lem,
    append_assoc,
    player_lem p.player_id (b'\n' ∷ rest) v,
    end_lem,
  )
