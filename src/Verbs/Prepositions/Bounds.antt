-- ===== src/Verbs/Prepositions/Bounds.antt =====
-- What `db_find_prep` and `db_match_prep` of src/db_verbs.c find.
use lambda_moo_plus_foo.Prelude.{
  if◌then◌else◌, Bool-cases, Option-cases, length, drop, some_injective, ℕ, zero, suc, ◌+◌, ◌-◌,
  ◌≤◌, ◌<◌, ◌≡◌, refl, sym, ap, ◌∙◌, ◌⊎◌, inl, inr, Bool, true, false, Option, none, some, List, [],
  ◌∷◌, arith,
}
use lambda_moo_plus_foo.Text.{Text, after}
use lambda_moo_plus_foo.Verbs.Prepositions.{
  prep_list, Phrases, dbpriv_build_prep_table, phrase_starts, phrase_fits, find_alias, find_entry,
  find_prep_from, db_find_prep,
}

-- No phrase is empty.
abbrev pub HaveWords : Phrases → Type 0
HaveWords [] = Unit
HaveWords (p ∷ ps) = (0 < length p) × HaveWords ps

abbrev pub IsTable : List Phrases → Type 0
IsTable [] = Unit
IsTable (e ∷ es) = HaveWords e × IsTable es

length-phrase_starts :
    (argv phrase : List Text) → phrase_starts argv phrase ≡ true → length phrase ≤ length argv
unfolding phrase_starts
length-phrase_starts argv [] h = omega arith
length-phrase_starts [] (w ∷ phrase) h = cc
length-phrase_starts (a ∷ argv) (w ∷ phrase) h =
    omega (arith, length-phrase_starts argv phrase (ground arith))

-- The phrase stands at the start of `argv`, which it fills if the match is exact.
abbrev pub Fits : Bool → List Text → ℕ → Phrases → Type 0
Fits exact argv n [] = ⊥
Fits exact argv n (p ∷ ps) =
    ((phrase_fits exact argv p ≡ true) × (n ≡ length p)) ⊎ Fits exact argv n ps

find_alias-Fits :
    (exact : Bool) (argv : List Text) (ps : Phrases) (n : ℕ)
    → HaveWords ps
    → find_alias exact argv ps ≡ some n
    → (0 < n) × (n ≤ length argv) × Fits exact argv n ps
unfolding find_alias
find_alias-Fits exact argv [] n h e = cc
find_alias-Fits exact argv (p ∷ ps) n h e = elim (Bool-cases (phrase_fits exact argv p)) [
  | inl f ↦
      let is : length p ≡ n = some_injective (rw f at e) in
      let fit = length-phrase_starts argv p (ground arith) in
      (omega (arith, h.0), omega arith, inl (f, sym is))
  | inr f ↦
      let (low, high, at) = find_alias-Fits exact argv ps n h.1 (rw f at e) in (low, high, inr at)
]

-- Entry `j` of the table has a phrase of `n` words that fits.
abbrev pub FitsEntry : Bool → List Text → ℕ → ℕ → List Phrases → Type 0
FitsEntry exact argv n j [] = ⊥
FitsEntry exact argv n zero (e ∷ es) = Fits exact argv n e
FitsEntry exact argv n (suc j) (e ∷ es) = FitsEntry exact argv n j es

find_entry-FitsEntry :
    (exact : Bool) (argv : List Text) (j : ℕ) (es : List Phrases) (k n : ℕ)
    → IsTable es
    → find_entry exact argv j es ≡ some (k, n)
    → (i : ℕ) × (k ≡ j + i)
      × (i < length es)
      × (0 < n)
      × (n ≤ length argv)
      × FitsEntry exact argv n i es
unfolding find_entry
find_entry-FitsEntry exact argv j [] k n h e = cc
find_entry-FitsEntry exact argv j (a ∷ es) k n h e = elim (Option-cases (find_alias exact argv a)) [
  | inl f ↦
      let (i, is, low, more, most, fits) =
        find_entry-FitsEntry exact argv (j + 1) es k n h.1 (rw f at e) in
      (suc i, omega arith, omega arith, more, most, fits)
  | inr (m, f) ↦
      let is : (j, m) ≡ (k, n) = some_injective (rw f at e) in
      let same : m ≡ n = ap (λ r. r.1) is in
      let (more, most, fits) = find_alias-Fits exact argv a m h.0 f in
      (
        0,
        sym (ap (λ r. r.0) is) ∙ omega arith,
        omega arith,
        rw (sym same) more,
        rw (sym same) most,
        rw (sym same) fits,
      )
]

-- What the loop over the words finds, at word `i` and behind it.
abbrev pub Finds : List Phrases → Bool → ℕ → List Text → ℕ × ℕ × ℕ → Type 0
Finds table exact i argv (j, first, last) =
    (j < length table)
    × (i ≤ first)
    × (first ≤ last)
    × (last < i + length argv)
    × FitsEntry exact (drop (first - i) argv) (last - first + 1) j table

Finds-here :
    (table : List Phrases) (exact : Bool) (i : ℕ) (argv : List Text) (j n : ℕ)
    → j < length table
    → 0 < n
    → n ≤ length argv
    → FitsEntry exact argv n j table
    → Finds table exact i argv (j, i, i + n - 1)
Finds-here table exact i argv j n low more most fits =
    let start : i - i ≡ 0 = omega arith in
    let count : i + n - 1 - i + 1 ≡ n = omega arith in
    (low, omega arith, omega arith, omega arith, rw (start, count) fits)

Finds-later :
    (table : List Phrases) (exact : Bool) (i : ℕ) (a : Text) (argv : List Text) (j first last : ℕ)
    → Finds table exact (i + 1) argv (j, first, last)
    → Finds table exact i (a ∷ argv) (j, first, last)
Finds-later table exact i a argv j first last (low, after, order, most, fits) =
    let there : first - i ≡ suc (first - (i + 1)) = omega arith in
    (low, omega arith, order, omega arith, rw there fits)

unless_exact {ℓ} :
    {A : Type ℓ} (exact : Bool) (later : Option A) (r : A)
    → (if exact then none else later) ≡ some r
    → later ≡ some r
unless_exact true later r h = cc
unless_exact false later r h = h

find_prep_from-Finds :
    (table : List Phrases) (exact : Bool) (i : ℕ) (argv : List Text) (r : ℕ × ℕ × ℕ)
    → IsTable table
    → find_prep_from table exact i argv ≡ some r
    → Finds table exact i argv r
unfolding find_prep_from
find_prep_from-Finds table exact i [] r h e = cc
find_prep_from-Finds table exact i (a ∷ argv) r h e =
    elim (Option-cases (find_entry exact (a ∷ argv) 0 table)) [
      | inr (q, f) ↦
          let is : (q.0, i, i + q.1 - 1) ≡ r = some_injective (rw f at e) in
          let (k, same, low, more, most, fits) =
            find_entry-FitsEntry exact (a ∷ argv) 0 table q.0 q.1 h f in
          let k_is : q.0 ≡ k = omega arith in
          rw (sym is)
            (Finds-here table exact i (a ∷ argv) q.0 q.1 (omega arith) more most (rw k_is fits))
      | inl f ↦
          Finds-later table exact i a argv r.0 r.1 r.2
            (find_prep_from-Finds table exact (i + 1) argv r h (unless_exact exact _ r (rw f at e)))
    ]

-- In a table without empty phrases, what `db_find_prep` finds is an entry of the table, and a first
-- and a last word among the arguments, in this order; the words from the first on begin with the
-- words of a phrase of that entry, and there are as many of these. With an exact match they are all
-- the words that there are.
pub db_find_prep-Finds :
    (table : List Phrases) (exact : Bool) (argv : List Text) (r : ℕ × ℕ × ℕ)
    → IsTable table
    → db_find_prep table exact argv ≡ some r
    → (r.0 < length table)
      × (r.1 ≤ r.2)
      × (r.2 < length argv)
      × FitsEntry exact (drop r.1 argv) (r.2 - r.1 + 1) r.0 table
unfolding db_find_prep
db_find_prep-Finds table exact argv r h e =
    let (low, after, order, most, fits) = find_prep_from-Finds table exact 0 argv r h e in
    let start : r.1 - 0 ≡ r.1 = omega arith in (low, order, omega arith, rw start at fits)

-- The table that `dbpriv_build_prep_table` builds.
abbrev entries : Option (List Phrases) → List Phrases
entries none = []
entries (some t) = t

unfoldable pub prep_table : List Phrases
unfolding dbpriv_build_prep_table
prep_table = entries dbpriv_build_prep_table

-- Building the table ends without a fault, with an entry for each element of the list of
-- prepositions, and no phrase in it is empty.
pub dbpriv_build_prep_table-IsTable :
    (table : List Phrases) × (dbpriv_build_prep_table ≡ some table)
    × (length table ≡ length prep_list)
    × IsTable table
unfolding dbpriv_build_prep_table prep_table
dbpriv_build_prep_table-IsTable = (prep_table, refl, refl, omega arith)
