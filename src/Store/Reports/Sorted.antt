-- ===== src/Store/Reports/Sorted.antt =====
-- The order in which files are listed.
use mathlib.Core.List.{Memᴰ}
use rc.Base.{
  append_assoc, ℕ, Bool, ◌++◌, ◌||◌, ◌⊎◌, [], ◌∷◌, ◌≡◌, refl, sym, ap, true, false, List, Bytes,
  bytes_eq, bytes_eq_iff, codes, arith, All, Bool-cases, inl, inr, subst,
}
use rc.Exceptions.{return, throw, never_played}
use rc.Store.Reports.{
  bytes_lt, insert_file, sort_files, find_last_finished_game, first_file, txt_files, ends_txt,
  is_txt,
}

bytes_lt_asym : (a b : Bytes) → bytes_lt a b ≡ true → bytes_lt b a ≡ false
unfolding bytes_lt
bytes_lt_asym [] [] h = refl
bytes_lt_asym [] (y ∷ b) h = refl
bytes_lt_asym (x ∷ a) [] h = absurd (cc)
bytes_lt_asym (x ∷ a) (y ∷ b) h = ground (arith, bytes_lt_asym a b)

not_lt_trans : (a b c : Bytes) → bytes_lt a b ≡ false → bytes_lt b c ≡ false → bytes_lt a c ≡ false
unfolding bytes_lt
not_lt_trans [] [] c h k = k
not_lt_trans [] (y ∷ b) c h k = absurd (cc)
not_lt_trans (x ∷ a) b [] h k = refl
not_lt_trans (x ∷ a) [] (z ∷ c) h k = absurd (cc)
not_lt_trans (x ∷ a) (y ∷ b) (z ∷ c) h k = ground (arith, not_lt_trans a b c)

pub not_lt_refl : (a : Bytes) → bytes_lt a a ≡ false
unfolding bytes_lt
not_lt_refl [] = refl
not_lt_refl (x ∷ a) = ground (arith, not_lt_refl a)

-- No file of the list has a name behind that of `f`.
abbrev pub IsLast : Bytes × Bytes → List (Bytes × Bytes) → Type 0
IsLast f files = All (λ g. bytes_lt f.0 g.0 ≡ false) files

abbrev pub Descending : List (Bytes × Bytes) → Type 0
Descending [] = Unit
Descending (f ∷ files) = IsLast f files × Descending files

IsLast-trans :
    (f g : Bytes × Bytes) (files : List (Bytes × Bytes))
    → bytes_lt f.0 g.0 ≡ false
    → IsLast g files
    → IsLast f files
IsLast-trans f g [] h k = tt
IsLast-trans f g (x ∷ files) h k = (not_lt_trans f.0 g.0 x.0 h k.0, IsLast-trans f g files h k.1)

module _ (P : Bytes × Bytes → Type 0) where
  All-insert_file :
      (f : Bytes × Bytes) (files : List (Bytes × Bytes))
      → P f
      → All P files
      → All P (insert_file f files)
  unfolding insert_file
  All-insert_file f [] p h = (p, tt)
  All-insert_file f (g ∷ files) p h = elim (Bool-cases (bytes_lt f.0 g.0)) [
    | inl before ↦ rw before (h.0, All-insert_file f files p h.1)
    | inr not_before ↦ rw not_before (p, h)
  ]

  All-sort_files : (files : List (Bytes × Bytes)) → All P files → All P (sort_files files)
  unfolding sort_files
  All-sort_files [] h = tt
  All-sort_files (f ∷ files) h = All-insert_file f (sort_files files) h.0 (All-sort_files files h.1)

  All-of-insert_file :
      (f : Bytes × Bytes) (files : List (Bytes × Bytes))
      → All P (insert_file f files)
      → P f × All P files
  unfolding insert_file
  All-of-insert_file f [] h = h
  All-of-insert_file f (g ∷ files) h = elim (Bool-cases (bytes_lt f.0 g.0)) [
    | inl before ↦
        let k = rw before at h in let (p, rest) = All-of-insert_file f files k.1 in (p, (k.0, rest))
    | inr not_before ↦ rw not_before at h
  ]

  All-of-sort_files : (files : List (Bytes × Bytes)) → All P (sort_files files) → All P files
  unfolding sort_files
  All-of-sort_files [] h = h
  All-of-sort_files (f ∷ files) h =
      let (p, rest) = All-of-insert_file f (sort_files files) h in (p, All-of-sort_files files rest)

insert_file-Descending :
    (f : Bytes × Bytes) (files : List (Bytes × Bytes))
    → Descending files
    → Descending (insert_file f files)
unfolding insert_file
insert_file-Descending f [] d = (tt, tt)
insert_file-Descending f (g ∷ files) d = elim (Bool-cases (bytes_lt f.0 g.0)) [
  | inl before ↦ rw before (
    All-insert_file (λ x. bytes_lt g.0 x.0 ≡ false) f files (bytes_lt_asym f.0 g.0 before) d.0,
    insert_file-Descending f files d.1,
  )
  | inr not_before ↦ rw not_before ((not_before, IsLast-trans f g files not_before d.0), d)
]

-- The scoreboard's files are sorted: no name comes before one that is behind it in the order.
pub sort_files-Descending : (files : List (Bytes × Bytes)) → Descending (sort_files files)
unfolding sort_files
sort_files-Descending [] = tt
sort_files-Descending (f ∷ files) =
    insert_file-Descending f (sort_files files) (sort_files-Descending files)

-- A file name with the extension `.txt`, behind one byte at least.
abbrev pub HasTxt : Bytes → Type 0
HasTxt name = (c : ℕ) × (stem : Bytes) × (name ≡ c ∷ (stem ++ codes ".txt"))

or_true : (b : Bool) → (b || true) ≡ true
or_true true = refl
or_true false = refl

ends_txt-append : (w : Bytes) → ends_txt (w ++ codes ".txt") ≡ true
unfolding ends_txt bytes_eq
ends_txt-append [] = refl
ends_txt-append (c ∷ w) =
    rw (ends_txt-append w) (or_true (bytes_eq (c ∷ (w ++ codes ".txt")) (codes ".txt")))

pub is_txt-append : (w : Bytes) (c : ℕ) (s : Bytes) → is_txt (w ++ c ∷ (s ++ codes ".txt")) ≡ true
unfolding is_txt
is_txt-append [] c s = ends_txt-append s
is_txt-append (x ∷ w) c s =
    subst (λ t. ends_txt t ≡ true) (append_assoc w (c ∷ s) (codes ".txt"))
      (ends_txt-append (w ++ c ∷ s))

ends_txt-cases : (s : Bytes) → ends_txt s ≡ true → (stem : Bytes) × (s ≡ stem ++ codes ".txt")
unfolding ends_txt
ends_txt-cases [] h = absurd (cc)
ends_txt-cases (c ∷ s) h = elim (Bool-cases (bytes_eq (c ∷ s) (codes ".txt"))) [
  | inl whole ↦ ([], (bytes_eq_iff (c ∷ s) (codes ".txt")).0 whole)
  | inr longer ↦ let (stem, e) = ends_txt-cases s (rw longer at h) in (c ∷ stem, ap (λ t. c ∷ t) e)
]

is_txt-HasTxt : (name : Bytes) → is_txt name ≡ true → HasTxt name
unfolding is_txt
is_txt-HasTxt [] h = absurd (cc)
is_txt-HasTxt (c ∷ name) h = let (stem, e) = ends_txt-cases name h in (c, stem, ap (λ t. c ∷ t) e)

HasTxt-is_txt : (name : Bytes) → HasTxt name → is_txt name ≡ true
HasTxt-is_txt name (c, stem, e) = subst (λ n. is_txt n ≡ true) (sym e) (is_txt-append [] c stem)

-- A file of the directory, with the extension.
abbrev IsTxtOf : List (Bytes × Bytes) → Bytes × Bytes → Type 0
IsTxtOf directory f = Memᴰ f directory × HasTxt f.0

All-map :
    {P Q : Bytes × Bytes → Type 0}
    → ((f : Bytes × Bytes) → P f → Q f)
    → (files : List (Bytes × Bytes)) → All P files
    → All Q files
All-map h [] a = tt
All-map h (f ∷ files) a = (h f a.0, All-map h files a.1)

txt_files-IsTxtOf : (files : List (Bytes × Bytes)) → All (IsTxtOf files) (txt_files files)
unfolding txt_files
txt_files-IsTxtOf [] = tt
txt_files-IsTxtOf ((name, file) ∷ files) =
    let rest = All-map (λ f h. (Memᴰ.tail h.0, h.1)) (txt_files files) (txt_files-IsTxtOf files) in
    elim (Bool-cases (is_txt name)) [
      | inl counts ↦ rw counts ((Memᴰ.head refl, is_txt-HasTxt name counts), rest)
      | inr left_out ↦ rw left_out rest
    ]

-- What holds of the files with the extension holds of all files, if they have it.
of_txt_files :
    (P : Bytes × Bytes → Type 0) (files : List (Bytes × Bytes))
    → All P (txt_files files)
    → All (λ g. HasTxt g.0 → P g) files
unfolding txt_files
of_txt_files P [] h = tt
of_txt_files P ((name, file) ∷ files) h = elim (Bool-cases (is_txt name)) [
  | inl counts ↦ let k = rw counts at h in (λ t. k.0, of_txt_files P files k.1)
  | inr left_out ↦ (
    λ t. let counts = HasTxt-is_txt name t in absurd (cc),
    of_txt_files P files (rw left_out at h),
  )
]

-- The file that is found: it is in the directory, with its contents, has the extension, and no file
-- with the extension has a greater name.
abbrev pub IsLatest : List (Bytes × Bytes) → Bytes × Bytes → Type 0
IsLatest files f =
    Memᴰ f files × HasTxt f.0 × All (λ g. HasTxt g.0 → bytes_lt f.0 g.0 ≡ false) files

-- Of a player's directory, in whatever order it is listed, the file with the greatest name of those
-- with the extension .txt is found, with its contents; only where no file has the extension,
-- NeverPlayedException is thrown.
pub find_last_finished_game-IsLast :
    (files : List (Bytes × Bytes))
    → ((find_last_finished_game files ≡ throw never_played) × All (λ g. ¬ HasTxt g.0) files)
      ⊎ ((f : Bytes × Bytes) × (find_last_finished_game files ≡ return f) × IsLatest files f)
unfolding find_last_finished_game
find_last_finished_game-IsLast files =
    go (sort_files (txt_files files)) refl (sort_files-Descending (txt_files files))
      (All-sort_files (IsTxtOf files) (txt_files files) (txt_files-IsTxtOf files))
  where
    go :
        (sorted : List (Bytes × Bytes))
        → sort_files (txt_files files) ≡ sorted
        → Descending sorted
        → All (IsTxtOf files) sorted
        → ((first_file sorted ≡ throw never_played) × All (λ g. ¬ HasTxt g.0) files)
          ⊎ ((f : Bytes × Bytes) × (first_file sorted ≡ return f) × IsLatest files f)
    go [] e d h = inl (
      refl,
      of_txt_files (λ g. ⊥) files
          (All-of-sort_files (λ g. ⊥) (txt_files files) (subst (All (λ g. ⊥)) (sym e) tt)),
    )
    go (f ∷ sorted) e d h =
        let least = subst (IsLast f) (sym e) (not_lt_refl f.0, d.0) in
        inr (
          f,
          refl,
          (
            h.0.0,
            h.0.1,
            of_txt_files (λ g. bytes_lt f.0 g.0 ≡ false) files
                (All-of-sort_files (λ g. bytes_lt f.0 g.0 ≡ false) (txt_files files) least),
          ),
        )
