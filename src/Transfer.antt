-- ===== src/Transfer.antt =====
-- common/utils.cpp: `safe_read` and `safe_write`, the loops that move a whole block over a TCP
-- connection whatever pieces the system calls move. The answers of `read` and `write` to successive
-- calls are an argument; where it ends, the call blocks.
pub mod Whole
use rc.Base.{ℕ, zero, suc, ◌-◌, [], ◌∷◌, ◌++◌, ltb, List, Bytes, length, take, drop, if◌then◌else◌}
use rc.Exceptions.{
  Exception, connection_timeout, connection_reset, connection_read, connection_write,
}

-- What a call answers: it moves at most `k + 1` bytes, or fails with `EAGAIN`, `ECONNRESET` or another
-- error; `nothing` is a `write` that moves no byte.
pub data Answer : Type 0 where
  ready : ℕ → Answer
  nothing again reset broken : Answer

-- The bytes that a call moves of `n` asked for.
abbrev pub moved : ℕ → ℕ → ℕ
moved k n = if ltb k n then suc k else n

-- How a loop ends: with what it has moved and what is left in the connection or of the block, with an
-- exception, or not before another answer comes.
pub data Transfer : Type 0 where
  done : Bytes → Bytes → Transfer
  failed : Exception → Transfer
  blocked : Transfer

-- `incoming` is what the peer has sent and not been read; once it is used up, the peer has closed.
unfoldable pub safe_read : List Answer → ℕ → Bytes → Bytes → Transfer
safe_read answers zero incoming buffer = Transfer.done buffer incoming
safe_read [] (suc n) incoming buffer = Transfer.blocked
safe_read (Answer.again ∷ answers) (suc n) incoming buffer = Transfer.failed connection_timeout
safe_read (Answer.reset ∷ answers) (suc n) incoming buffer = Transfer.failed connection_reset
safe_read (Answer.broken ∷ answers) (suc n) incoming buffer = Transfer.failed connection_read
safe_read (Answer.nothing ∷ answers) (suc n) incoming buffer = Transfer.failed connection_reset
safe_read (Answer.ready k ∷ answers) (suc n) [] buffer = Transfer.failed connection_reset
safe_read (Answer.ready k ∷ answers) (suc n) (c ∷ incoming) buffer =
    let piece = take (moved k (suc n)) (c ∷ incoming) in
    safe_read answers (suc n - length piece) (drop (moved k (suc n)) (c ∷ incoming))
      (buffer ++ piece)

-- `sent` is what the connection has taken.
unfoldable pub safe_write : List Answer → ℕ → Bytes → Bytes → Transfer
safe_write answers zero block sent = Transfer.done sent block
safe_write [] (suc n) block sent = Transfer.blocked
safe_write (Answer.again ∷ answers) (suc n) block sent = Transfer.failed connection_timeout
safe_write (Answer.reset ∷ answers) (suc n) block sent = Transfer.failed connection_reset
safe_write (Answer.broken ∷ answers) (suc n) block sent = Transfer.failed connection_write
safe_write (Answer.nothing ∷ answers) (suc n) block sent = Transfer.done sent block
safe_write (Answer.ready k ∷ answers) (suc n) block sent =
    safe_write answers (suc n - moved k (suc n)) (drop (moved k (suc n)) block)
      (sent ++ take (moved k (suc n)) block)
