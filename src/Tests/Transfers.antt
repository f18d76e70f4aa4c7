-- ===== src/Tests/Transfers.antt =====
-- Blocks moved over a connection in pieces.
use rc.Base.{[], ◌∷◌, List, ◌≡◌, codes, arith}
use rc.Transfer.Whole.{safe_read_whole, safe_write_whole}
use rc.Transfer.{Answer, Transfer, safe_read, safe_write}

abbrev answers : List Answer
answers = Answer.ready 1 ∷ Answer.ready 0 ∷ Answer.ready 9 ∷ Answer.ready 9 ∷ Answer.ready 9 ∷ []

safe_read_whole_example :
    safe_read answers 5 (codes "RSS ACT") [] ≡ Transfer.done (codes "RSS A") (codes "CT")
safe_read_whole_example =
    safe_read_whole answers 5 (codes "RSS ACT") [] (tt, (tt, (tt, (tt, (tt, tt))))) (omega arith)
      (omega arith)

safe_write_whole_example :
    safe_write answers 4 (codes "SSB\n") [] ≡ Transfer.done (codes "SSB\n") []
safe_write_whole_example =
    safe_write_whole answers 4 (codes "SSB\n") [] (tt, (tt, (tt, (tt, (tt, tt))))) (omega arith)
