-- ===== src/Store/Reports/Board.antt =====
-- The scoreboard, from the files that won games leave.
use mathlib.Core.List.Permᴰ
use mathlib.Core.List.{Permᴰ}
use rc.Base.{
  ℕ, zero, suc, ◌+◌, ◌≤◌, [], ◌∷◌, ◌++◌, ◌≡◌, ◌≢◌, refl, true, List, Bytes, All, Bool-cases, inl,
  inr, ap, ◌∙◌, subst, if◌then◌else◌,
}
use rc.Base.Int.{pos}
use rc.Constants.{uint32_max, scoreboard_max_entries}
use rc.Exceptions.{return}
use rc.Store.Files.{score_text}
use rc.Store.Games.Active.{working}
use rc.Store.Records.Sessions.{read_mode_char, char_to_game_mode_char}
use rc.Store.Records.{GameMode}
use rc.Store.Reports.Sorted.{Descending, sort_files-Descending}
use rc.Store.Reports.Scoreboard.{
  LeaderboardEntry, leaderboard_entry, scoreboard_row, scoreboard_rows, scoreboard_head,
  get_scoreboard,
}
use rc.Store.Reports.{bytes_lt, is_txt, txt_files, insert_file, sort_files}
use rc.Store.{Calendar}
use rc.Text.Decimal.{space-Ends}
use rc.Text.Words.Reads.{
  IsWord, read_word-append, read_word_blank, read_uint_blank, read_uint-decimal, read_int-decimal,
}
use rc.Text.Words.{show_int}

-- A won game on the scoreboard, with the name of its file.
pub record Score : Type 0 where
  pub name : Bytes
  pub n : ℕ
  pub plid : Bytes
  pub key : Bytes
  pub used_atts : ℕ
  pub mode : GameMode

-- Numbers fit their types, and the texts are words.
pub record IsScore (s : Score) : Type 0 where
  pub txt : is_txt s.name ≡ true
  pub int_score : s.n ≤ 2147483647
  pub plid_word : IsWord s.plid
  pub key_word : IsWord s.key
  pub few_atts : s.used_atts ≤ uint32_max

abbrev pub entry_of : Score → LeaderboardEntry
entry_of s = record {
  score = pos s.n;
  plid = s.plid;
  key = s.key;
  used_atts = s.used_atts;
  mode = s.mode;
}

-- The rows of at most `n` scores, counted from `i` on.
abbrev pub board : ℕ → ℕ → List Score → Bytes
board zero i scores = []
board (suc n) i [] = []
board (suc n) i (s ∷ scores) = scoreboard_row i (entry_of s) ++ board n (i + 1) scores

insert_score : Score → List Score → List Score
unfolding bytes_lt
insert_score s [] = s ∷ []
insert_score s (t ∷ scores) =
    if bytes_lt s.name t.name then t ∷ insert_score s scores else s ∷ t ∷ scores

sort_scores : List Score → List Score
unfolding insert_score
sort_scores [] = []
sort_scores (s ∷ scores) = insert_score s (sort_scores scores)

insert_score-Perm : (s : Score) (scores : List Score) → Permᴰ (insert_score s scores) (s ∷ scores)
unfolding insert_score
insert_score-Perm s [] = Permᴰ.refl _
insert_score-Perm s (t ∷ scores) = elim (Bool-cases (bytes_lt s.name t.name)) [
  | inl before ↦
      rw before (Permᴰ.trans (Permᴰ.cons refl (insert_score-Perm s scores)) (Permᴰ.swap refl refl))
  | inr not_before ↦ rw not_before (Permᴰ.refl _)
]

sort_scores-Perm : (scores : List Score) → Permᴰ (sort_scores scores) scores
unfolding sort_scores
sort_scores-Perm [] = Permᴰ.nil
sort_scores-Perm (s ∷ scores) =
    Permᴰ.trans (insert_score-Perm s (sort_scores scores))
      (Permᴰ.cons refl (sort_scores-Perm scores))

module _ (P : Score → Type 0) where
  All-insert_score :
      (s : Score) (scores : List Score) → P s → All P scores → All P (insert_score s scores)
  unfolding insert_score
  All-insert_score s [] p h = (p, tt)
  All-insert_score s (t ∷ scores) p h = elim (Bool-cases (bytes_lt s.name t.name)) [
    | inl before ↦ rw before (h.0, All-insert_score s scores p h.1)
    | inr not_before ↦ rw not_before (p, h)
  ]

  All-sort_scores : (scores : List Score) → All P scores → All P (sort_scores scores)
  unfolding sort_scores
  All-sort_scores [] h = tt
  All-sort_scores (s ∷ scores) h =
      All-insert_score s (sort_scores scores) h.0 (All-sort_scores scores h.1)

module _ (cal : Calendar) where
  -- The text that `saveGameScore` writes.
  abbrev pub text_of : Score → Bytes
  text_of s = score_text cal working (pos s.n) s.plid s.key s.used_atts s.mode

  abbrev pub files_of : List Score → List (Bytes × Bytes)
  files_of [] = []
  files_of (s ∷ scores) = (s.name, text_of s) ∷ files_of scores

  insert_file-files_of :
      (s : Score) (scores : List Score)
      → insert_file (s.name, text_of s) (files_of scores) ≡ files_of (insert_score s scores)
  unfolding insert_file insert_score
  insert_file-files_of s [] = refl
  insert_file-files_of s (t ∷ scores) = elim (Bool-cases (bytes_lt s.name t.name)) [
    | inl before ↦ rw before (ap (λ fs. (t.name, text_of t) ∷ fs) (insert_file-files_of s scores))
    | inr not_before ↦ rw not_before refl
  ]

  sort_files-files_of :
      (scores : List Score) → sort_files (files_of scores) ≡ files_of (sort_scores scores)
  unfolding sort_files sort_scores
  sort_files-files_of [] = refl
  sort_files-files_of (s ∷ scores) =
      ap (insert_file (s.name, text_of s)) (sort_files-files_of scores)
      ∙ insert_file-files_of s (sort_scores scores)

  txt_files-files_of :
      (scores : List Score) → All IsScore scores → txt_files (files_of scores) ≡ files_of scores
  unfolding txt_files
  txt_files-files_of [] h = refl
  txt_files-files_of (s ∷ scores) h =
      rw h.0.txt (ap (λ fs. (s.name, text_of s) ∷ fs) (txt_files-files_of scores h.1))

  -- A row of the scoreboard holds what was saved when the game was won.
  leaderboard_entry-score_text :
      (s : Score) → IsScore s → leaderboard_entry (text_of s) ≡ return (entry_of s)
  unfolding leaderboard_entry score_text show_int
  leaderboard_entry-score_text s v =
      rw
        (
          read_int-decimal (pos 0) s.n _ (space-Ends []) v.int_score,
          read_word_blank,
          read_word-append [] s.plid _ v.plid_word,
          read_word_blank,
          read_word-append [] s.key _ v.key_word,
          read_uint_blank,
          read_uint-decimal 0 s.used_atts _ (space-Ends []) v.few_atts,
          read_mode_char s.mode _,
          char_to_game_mode_char s.mode,
        )
        refl

  scoreboard_rows-board :
      (n i : ℕ) (scores : List Score)
      → All IsScore scores
      → scoreboard_rows n i (files_of scores) ≡ return (board n i scores)
  unfolding scoreboard_rows
  scoreboard_rows-board zero i scores h = refl
  scoreboard_rows-board (suc n) i [] h = refl
  scoreboard_rows-board (suc n) i (s ∷ scores) h =
      rw (leaderboard_entry-score_text s h.0, scoreboard_rows-board n (i + 1) scores h.1) refl

  -- The scoreboard of the files that won games have left, at least one, is its head and a row for
  -- each of the first ten of them in the order of their names, from the greatest down, with the
  -- score, the player, the key, the number of attempts and the mode that were saved. The files have
  -- names with the extension .txt, their numbers fit their types, and player and key are words.
  pub get_scoreboard-board :
      (scores : List Score)
      → scores ≢ []
      → All IsScore scores
      → (top : List Score) × Permᴰ top scores
        × Descending (files_of top)
        × (get_scoreboard (files_of scores)
            ≡ return (scoreboard_head ++ board scoreboard_max_entries 0 top))
  unfolding get_scoreboard
  get_scoreboard-board [] some_scores h = absurd (some_scores refl)
  get_scoreboard-board (s ∷ scores) some_scores h =
      let top = sort_scores (s ∷ scores) in
      let sorted = sort_files-files_of (s ∷ scores) in
      (
        top,
        sort_scores-Perm (s ∷ scores),
        subst Descending sorted (sort_files-Descending (files_of (s ∷ scores))),
        rw
            (
              txt_files-files_of (s ∷ scores) h,
              sorted,
              scoreboard_rows-board scoreboard_max_entries 0 top
                  (All-sort_scores IsScore (s ∷ scores) h),
            )
            refl,
      )
