-- ===== src/Store/Reports/Latest.antt =====
-- The game that has just ended is the one that is reported.
use rc.Base.{
  ℕ, ◌-◌, ◌≤◌, [], ◌∷◌, ◌≡◌, refl, true, false, List, Bytes, bytes_eq, bytes_eq_iff, All,
  Bool-cases, inl, inr, none, ap, sym, ◌∙◌, subst, arith,
}
use rc.Base.Int.{pos}
use rc.Constants.{uint32_max}
use rc.Exceptions.{return}
use rc.Store.Files.{Call, finished_fname}
use rc.Store.Games.Active.{working, IsActive, ended, update_self}
use rc.Store.Games.Ended.{quit_active}
use rc.Store.Games.{quit_game}
use rc.Store.Records.Sessions.{Session, session_text, IsCalendar, IsSession}
use rc.Store.Records.{Endings, initial, ending_to_repr}
use rc.Store.Reports.Finished.{
  Outcome, finished_text, finished_game, IsDated, get_last_game_finished,
}
use rc.Store.Reports.Parsed.{IsRecorded}
use rc.Store.Reports.Sorted.{not_lt_refl, is_txt-append}
use rc.Store.Reports.{
  GameStatus, bytes_lt, is_txt, txt_files, insert_file, sort_files, first_file,
  find_last_finished_game, report, get_last_game,
}
use rc.Store.{Store, Calendar, put, game_fname}

-- Every name of the list comes before this one.
abbrev pub AllBefore : Bytes → List (Bytes × Bytes) → Type 0
AllBefore name files = All (λ f. bytes_lt f.0 name ≡ true) files

-- The list begins with this file.
abbrev First : Bytes × Bytes → List (Bytes × Bytes) → Type 0
First f files = (rest : List (Bytes × Bytes)) × (files ≡ f ∷ rest)

before_differs : (name k : Bytes) → bytes_lt k name ≡ true → bytes_eq name k ≡ false
before_differs name k h = elim (Bool-cases (bytes_eq name k)) [
  | inl same ↦
      let e : name ≡ k = (bytes_eq_iff name k).0 same in
      let no : bytes_lt k name ≡ false =
        subst (λ x. bytes_lt k x ≡ false) (sym e) (not_lt_refl k) in
      absurd (cc)
  | inr differ ↦ differ
]

insert_before :
    (f g : Bytes × Bytes) (files : List (Bytes × Bytes))
    → bytes_lt f.0 g.0 ≡ true
    → First g files
    → First g (insert_file f files)
unfolding insert_file
insert_before f g files h (rest, e) = (insert_file f rest, rw (e, h) refl)

sort_files-First :
    (name text : Bytes) (files : List (Bytes × Bytes))
    → is_txt name ≡ true
    → AllBefore name files
    → First (name, text) (sort_files (txt_files (put name text files)))
unfolding sort_files txt_files put insert_file
sort_files-First name text [] txt h = ([], rw txt refl)
sort_files-First name text ((k, v) ∷ files) txt h =
    rw (before_differs name k h.0) (elim (Bool-cases (is_txt k)) [
      | inl counts ↦
          rw counts
            (insert_before (k, v) (name, text) _ h.0 (sort_files-First name text files txt h.1))
      | inr left_out ↦ rw left_out (sort_files-First name text files txt h.1)
    ])

-- A file whose name comes after all others is the last one once it is put into the directory.
find_last-put :
    (name text : Bytes) (files : List (Bytes × Bytes))
    → is_txt name ≡ true
    → AllBefore name files
    → find_last_finished_game (put name text files) ≡ return (name, text)
unfolding find_last_finished_game
find_last-put name text files txt h =
    let (rest, e) = sort_files-First name text files txt h in ap first_file e

is_txt-finished_fname :
    (cal : Calendar) (tstamp : ℕ) (reason : Endings)
    → is_txt (finished_fname cal working tstamp reason) ≡ true
unfolding finished_fname
is_txt-finished_fname cal tstamp reason =
    is_txt-append (cal.compact tstamp) b'_' (initial (ending_to_repr reason))

module _ (cal : Calendar) (ok_cal : IsCalendar cal) (dated : IsDated cal) where
  pub ended_reported :
      (g : Session) (o : Outcome) (later : ℕ) (c : Call) (s : Store)
      → c.store ≡ ended cal g.plid o.reason o.tstamp (pos o.used_time) (session_text cal g) s
      → AllBefore (finished_fname cal working o.tstamp o.reason) (s.finished g.plid)
      → IsSession g
      → All IsRecorded g.trials
      → o.used_time ≤ uint32_max
      → (text : Bytes) × (report g.plid later GameStatus.fin (finished_game cal g o) ≡ return text)
        × (get_last_game cal working g.plid later c ≡ (return (GameStatus.fin, text), c))
  unfolding finished_text
  ended_reported g o later c s files before v h b =
      let name = finished_fname cal working o.tstamp o.reason in
      let gone : c.store.games (game_fname g.plid) ≡ none =
        ap (λ x. x.games (game_fname g.plid)) files
        ∙ update_self s.games (game_fname g.plid) none in
      let moved =
        ap (λ x. find_last_finished_game (x.finished g.plid)) files
        ∙ ap find_last_finished_game
            (update_self s.finished g.plid (put name (finished_text cal g o) (s.finished g.plid)))
        ∙ find_last-put name (finished_text cal g o) (s.finished g.plid)
            (is_txt-finished_fname cal o.tstamp o.reason) before in
      get_last_game_finished cal ok_cal dated g o name later c gone moved v h b

  -- On a disk that works, a player who gives up an active game and then asks for the last game, at
  -- any later time, gets the report of this game with its secret key, all its attempts, QUIT as its
  -- end and the time from its start. The names of the player's finished games come before that of
  -- the new one, the numbers in the file have 32 bits, and the calendar prints words, no date with a
  -- T in front.
  pub quit_then_report :
      (g : Session) (now later : ℕ) (c : Call)
      → IsActive cal g now c.store
      → All IsRecorded g.trials
      → AllBefore (finished_fname cal working now Endings.quit) (c.store.finished g.plid)
      → (text : Bytes) × (report g.plid later GameStatus.fin (
            finished_game cal g
              (record { reason = Endings.quit; tstamp = now; used_time = now - g.start }))
          ≡ return text)
        × (get_last_game cal working g.plid later (quit_game cal working g.plid now c).1
            ≡ (return (GameStatus.fin, text), (quit_game cal working g.plid now c).1))
  quit_then_report g now later c a h before =
      let bound = a.int_time in
      ended_reported g (record { reason = Endings.quit; tstamp = now; used_time = now - g.start })
        later (quit_game cal working g.plid now c).1 c.store
        (ap (λ r. r.1.store) (quit_active cal ok_cal g now c a)) before a.session h
        (omega (arith, bound))
