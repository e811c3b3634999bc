-- ===== src/Text/Verbs.antt =====
-- Matching a word against the names of a verb: `verbcasecmp` of src/utils.c. Whether the two
-- pointers are equal is an argument.
pub mod Words
use lambda_moo_plus_foo.Prelude.{
  ◌==◌, if◌then◌else◌, Bool-cases, ◌==ℤ◌, ==ℤ_iff, pos, ℕ, zero, suc, ◌≡◌, refl, sym, ap, inl, inr,
  Bool, true, false, not, ◌||◌, Option, none, some, [], ◌∷◌, arith,
}
use lambda_moo_plus_foo.Text.Case.{fold, ascii_tolower_pos, mystrcasecmp-of_fold}
use lambda_moo_plus_foo.Text.{Text, IsText, ascii_tolower, char_diff, mystrcasecmp}

-- The variable `star`.
pub data Star : Type 0 where
  no_star inner at_end : Star

-- Is this the end of one of the names?
abbrev pub name_ends : Text → Bool
name_ends [] = true
name_ends (c ∷ s) = c == b' '

-- `while (*v == '*')`
unfoldable pub skip_stars : Star → Text → Text × Star
skip_stars star [] = ([], star)
skip_stars star (c ∷ v) =
    let rest = skip_stars (if name_ends v then at_end else inner) v in
    if c == b'*' then rest else (c ∷ v, star)

-- The test after the inner loop.
unfoldable pub accepts : Text × Star → Text → Bool
accepts (v, no_star) [] = name_ends v
accepts (v, inner) [] = true
accepts (v, at_end) [] = true
accepts (v, at_end) (c ∷ w) = true
accepts (v, no_star) (c ∷ w) = false
accepts (v, inner) (c ∷ w) = false

-- One round of the inner loop, behind the stars; `next` is the rounds that follow.
abbrev pub verb_step :
    ℕ → Text → Text × Star → (Star → Text → (Text × Star) × Text) → (Text × Star) × Text
verb_step c w ([], star) next = (([], star), c ∷ w)
verb_step c w (d ∷ v, star) next =
    if d == b' ' || not (ascii_tolower d == ascii_tolower c)
    then ((d ∷ v, star), c ∷ w)
    else next star v

-- The inner loop: where it stands in the names, `star`, and the rest of the word.
unfoldable pub match_verb : Star → Text → Text → (Text × Star) × Text
unfolding skip_stars
match_verb star v [] = (skip_stars star v, [])
match_verb star v (c ∷ w) = verb_step c w (skip_stars star v) (λ s v'. match_verb s v' w)

-- The loops that go to the next name.
unfoldable pub skip_name : Text → Text
skip_name [] = []
skip_name (c ∷ v) = if c == b' ' then c ∷ v else skip_name v

unfoldable pub skip_blanks : Text → Text
skip_blanks [] = []
skip_blanks (c ∷ v) = if c == b' ' then skip_blanks v else c ∷ v

-- The outer loop, on fuel.
unfoldable pub verb_loop : ℕ → Text → Text → Option Bool
unfolding match_verb accepts skip_name skip_blanks
verb_loop zero verb word = none
verb_loop (suc fuel) [] word = some false
verb_loop (suc fuel) (c ∷ v) word =
    let r = match_verb no_star (c ∷ v) word in
    let rest = verb_loop fuel (skip_blanks (skip_name r.0.0)) word in
    if accepts r.0 r.1 then some true else rest

-- `if (verb == word) return 1;` and the loop. `same` says that the pointers are equal.
unfoldable pub verbcasecmp : (same : Bool) → ℕ → Text → Text → Option Bool
unfolding verb_loop
verbcasecmp same fuel verb word = if same then some true else verb_loop fuel verb word

-- A name of a verb without stars and spaces.
abbrev pub IsPlainName : Text → Type 0
IsPlainName [] = Unit
IsPlainName (c ∷ s) = ((c == b'*') ≡ false) × ((c == b' ') ≡ false) × IsPlainName s

skip_name_plain : (v : Text) → IsPlainName v → skip_blanks (skip_name v) ≡ []
unfolding skip_name skip_blanks
skip_name_plain [] p = refl
skip_name_plain (c ∷ v) p = rw p.1 (skip_name_plain v p.2)

match_verb-IsPlainName :
    (v word : Text) → IsPlainName v → IsPlainName (match_verb no_star v word).0.0
unfolding match_verb skip_stars
match_verb-IsPlainName [] [] p = tt
match_verb-IsPlainName [] (d ∷ w) p = tt
match_verb-IsPlainName (c ∷ v) [] p = rw p.0 p
match_verb-IsPlainName (c ∷ v) (d ∷ w) p = elim (Bool-cases (ascii_tolower c == ascii_tolower d)) [
  | inl e ↦ rw (p.0, p.1, e) (match_verb-IsPlainName v w p.2)
  | inr e ↦ rw (p.0, p.1, e) p
]

not_equal : (a b : ℕ) → (a == b) ≡ false → (char_diff a b ==ℤ pos 0) ≡ false
unfolding char_diff
not_equal a b h = ground arith

accepts-mystrcasecmp :
    (v word : Text)
    → IsPlainName v
    → IsText v
    → IsText word
    → accepts (match_verb no_star v word).0 (match_verb no_star v word).1
      ≡ (mystrcasecmp v word ==ℤ pos 0)
unfolding match_verb skip_stars accepts mystrcasecmp
accepts-mystrcasecmp [] [] p h k = refl
accepts-mystrcasecmp [] (d ∷ w) p h k =
    sym (not_equal 0 (ascii_tolower d) (ground (arith, ascii_tolower_pos d k.0)))
accepts-mystrcasecmp (c ∷ v) [] p h k =
    rw (p.0, p.1, not_equal (ascii_tolower c) 0 (ground (arith, ascii_tolower_pos c h.0))) refl
accepts-mystrcasecmp (c ∷ v) (d ∷ w) p h k =
    elim (Bool-cases (ascii_tolower c == ascii_tolower d)) [
      | inl e ↦ rw (p.0, p.1, e) (accepts-mystrcasecmp v w p.2 h.2 k.2)
      | inr e ↦ rw (p.0, p.1, e, not_equal (ascii_tolower c) (ascii_tolower d) e) refl
    ]

-- The loop, on one name.
verb_loop-mystrcasecmp :
    (fuel : ℕ) (c : ℕ) (v word : Text)
    → IsPlainName (c ∷ v)
    → IsText (c ∷ v)
    → IsText word
    → verb_loop (suc (suc fuel)) (c ∷ v) word ≡ some (mystrcasecmp (c ∷ v) word ==ℤ pos 0)
unfolding verb_loop
verb_loop-mystrcasecmp fuel c v word p h k =
    elim (Bool-cases (mystrcasecmp (c ∷ v) word ==ℤ pos 0)) [
      | inl e ↦ rw (accepts-mystrcasecmp (c ∷ v) word p h k, e) refl
      | inr e ↦
          rw
            (
              accepts-mystrcasecmp (c ∷ v) word p h k,
              skip_name_plain _ (match_verb-IsPlainName (c ∷ v) word p),
              e,
            )
            refl
    ]

-- A verb with one name, which is not empty and has no stars and no spaces, is matched exactly by
-- the words that are this name but for case, where equal pointers point to equal strings. Two
-- rounds are enough.
pub verbcasecmp-mystrcasecmp :
    (same : Bool) (fuel : ℕ) (c : ℕ) (v word : Text)
    → IsPlainName (c ∷ v)
    → IsText (c ∷ v)
    → IsText word
    → (same ≡ true → c ∷ v ≡ word)
    → verbcasecmp same (suc (suc fuel)) (c ∷ v) word ≡ some (mystrcasecmp (c ∷ v) word ==ℤ pos 0)
unfolding verbcasecmp
verbcasecmp-mystrcasecmp false fuel c v word p h k e = verb_loop-mystrcasecmp fuel c v word p h k
verbcasecmp-mystrcasecmp true fuel c v word p h k e =
    let one : mystrcasecmp (c ∷ v) word ≡ pos 0 =
      mystrcasecmp-of_fold (c ∷ v) word (ap fold (e refl)) in
    ap some (sym ((==ℤ_iff (mystrcasecmp (c ∷ v) word) (pos 0)).1 one))
