-- ===== src/Transfer/Whole.antt =====
-- A block is moved whole and in order, whatever the pieces are.
use rc.Base.{
  ℕ, zero, suc, ◌+◌, ◌-◌, ◌≤◌, ◌<◌, [], ◌∷◌, ◌++◌, ◌≡◌, refl, sym, ap, ◌∙◌, List, Bytes, length,
  take, drop, arith, All, true, false, append-nil, append_assoc, take-append-drop, drop-drop,
  length-drop, length-take,
}
use rc.Exceptions.{connection_reset}
use rc.Transfer.{Answer, Transfer, moved, safe_read, safe_write}

-- A call that moves bytes.
abbrev pub Moves : Answer → Type 0
Moves (Answer.ready k) = Unit
Moves a = true ≡ false

moved-le : (k n : ℕ) → moved k n ≤ n
moved-le k n = ground arith

moved_some : (k n : ℕ) → suc n - moved k (suc n) ≤ n
moved_some k n = ground arith

moved_one : (k n : ℕ) → 0 < moved k (suc n)
moved_one k n = ground arith

-- What is taken and what is left make up the whole.
length-take_less : (m : ℕ) (xs : Bytes) → length (take m xs) + (length xs - m) ≡ length xs
length-take_less zero xs = omega arith
length-take_less (suc m) [] = omega arith
length-take_less (suc m) (x ∷ xs) = omega (arith, length-take_less m xs)

rest_lem : (k n : ℕ) → moved k (suc n) + (suc n - moved k (suc n)) ≡ suc n
rest_lem k n = ground arith

pieces_lem :
    (m r n : ℕ) (xs buffer : Bytes)
    → m + r ≡ n
    → (buffer ++ take m xs) ++ take r (drop m xs) ≡ buffer ++ take n xs
pieces_lem m r n xs buffer e =
    append_assoc buffer (take m xs) (take r (drop m xs))
    ∙ ap (λ ys. buffer ++ ys) (take-append-drop m r xs ∙ ap (λ k. take k xs) e)

-- Enough calls that move bytes read the block whole: of a connection that brings at least `n` bytes
-- exactly the first `n` are read, in order, whatever pieces the calls move.
pub safe_read_whole :
    (answers : List Answer) (n : ℕ) (incoming buffer : Bytes)
    → All Moves answers
    → n ≤ length answers
    → n ≤ length incoming
    → safe_read answers n incoming buffer
      ≡ Transfer.done (buffer ++ take n incoming) (drop n incoming)
unfolding safe_read
safe_read_whole [] zero incoming buffer h enough there =
    ap (λ b. Transfer.done b incoming) (sym (append-nil buffer))
safe_read_whole (a ∷ answers) zero incoming buffer h enough there =
    ap (λ b. Transfer.done b incoming) (sym (append-nil buffer))
safe_read_whole [] (suc n) incoming buffer h enough there = absurd (omega arith)
safe_read_whole (Answer.ready k ∷ answers) (suc n) [] buffer h enough there = absurd (omega arith)
safe_read_whole (Answer.ready k ∷ answers) (suc n) (c ∷ incoming) buffer h enough there =
    let m = moved k (suc n) in
    let xs = c ∷ incoming in
    let r = suc n - m in
    let size : length (take m xs) ≡ m = length-take m xs (omega (arith, moved-le k (suc n))) in
    ap (λ l. safe_read answers (suc n - l) (drop m xs) (buffer ++ take m xs)) size
    ∙ safe_read_whole answers r (drop m xs) (buffer ++ take m xs) h.1
        (omega (arith, moved_some k n)) (omega (arith, length-drop m xs))
    ∙ ap (λ b. Transfer.done b (drop r (drop m xs)))
        (pieces_lem m r (suc n) xs buffer (rest_lem k n))
    ∙ ap (Transfer.done (buffer ++ take (suc n) xs))
        (drop-drop m r xs ∙ ap (λ j. drop j xs) (rest_lem k n))
safe_read_whole (Answer.nothing ∷ answers) (suc n) incoming buffer h enough there = absurd (cc)
safe_read_whole (Answer.again ∷ answers) (suc n) incoming buffer h enough there = absurd (cc)
safe_read_whole (Answer.reset ∷ answers) (suc n) incoming buffer h enough there = absurd (cc)
safe_read_whole (Answer.broken ∷ answers) (suc n) incoming buffer h enough there = absurd (cc)

-- Where the peer closes the connection before it has sent `n` bytes, the read never returns as if it
-- had them: with enough calls that move bytes it ends in `ConnectionResetError`.
pub safe_read_short :
    (answers : List Answer) (n : ℕ) (incoming buffer : Bytes)
    → All Moves answers
    → length incoming < length answers
    → length incoming < n
    → safe_read answers n incoming buffer ≡ Transfer.failed connection_reset
unfolding safe_read
safe_read_short answers zero incoming buffer h enough short = absurd (omega arith)
safe_read_short [] (suc n) incoming buffer h enough short = absurd (omega arith)
safe_read_short (Answer.ready k ∷ answers) (suc n) [] buffer h enough short = refl
safe_read_short (Answer.ready k ∷ answers) (suc n) (c ∷ incoming) buffer h enough short =
    let m = moved k (suc n) in
    let xs = c ∷ incoming in
    safe_read_short answers (suc n - length (take m xs)) (drop m xs) (buffer ++ take m xs) h.1
      (omega (arith, length-drop m xs, moved_one k n))
      (omega (arith, length-drop m xs, length-take_less m xs))
safe_read_short (Answer.nothing ∷ answers) (suc n) incoming buffer h enough short = absurd (cc)
safe_read_short (Answer.again ∷ answers) (suc n) incoming buffer h enough short = absurd (cc)
safe_read_short (Answer.reset ∷ answers) (suc n) incoming buffer h enough short = absurd (cc)
safe_read_short (Answer.broken ∷ answers) (suc n) incoming buffer h enough short = absurd (cc)

-- Enough calls that move bytes write the block whole, in order, whatever pieces the calls move.
pub safe_write_whole :
    (answers : List Answer) (n : ℕ) (block sent : Bytes)
    → All Moves answers
    → n ≤ length answers
    → safe_write answers n block sent ≡ Transfer.done (sent ++ take n block) (drop n block)
unfolding safe_write
safe_write_whole [] zero block sent h enough =
    ap (λ b. Transfer.done b block) (sym (append-nil sent))
safe_write_whole (a ∷ answers) zero block sent h enough =
    ap (λ b. Transfer.done b block) (sym (append-nil sent))
safe_write_whole [] (suc n) block sent h enough = absurd (omega arith)
safe_write_whole (Answer.ready k ∷ answers) (suc n) block sent h enough =
    let m = moved k (suc n) in
    let r = suc n - m in
    safe_write_whole answers r (drop m block) (sent ++ take m block) h.1
      (omega (arith, moved_some k n))
    ∙ ap (λ b. Transfer.done b (drop r (drop m block)))
        (pieces_lem m r (suc n) block sent (rest_lem k n))
    ∙ ap (Transfer.done (sent ++ take (suc n) block))
        (drop-drop m r block ∙ ap (λ j. drop j block) (rest_lem k n))
safe_write_whole (Answer.nothing ∷ answers) (suc n) block sent h enough = absurd (cc)
safe_write_whole (Answer.again ∷ answers) (suc n) block sent h enough = absurd (cc)
safe_write_whole (Answer.reset ∷ answers) (suc n) block sent h enough = absurd (cc)
safe_write_whole (Answer.broken ∷ answers) (suc n) block sent h enough = absurd (cc)
