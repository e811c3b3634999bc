-- ===== src/Text/Verbs/Words.antt =====
-- The words that match the names of a verb: `verbcasecmp` of src/utils.c ends, and does not look at
-- the case of the word.
use lambda_moo_plus_foo.Prelude.{
  ◌==◌, if◌then◌else◌, Bool-cases, length, ℕ, zero, suc, ◌≤◌, ◌<◌, ◌≡◌, refl, inl, inr, Bool, true,
  false, not, ◌||◌, some, [], ◌∷◌, arith,
}
use lambda_moo_plus_foo.Text.{Text, ascii_tolower}
use lambda_moo_plus_foo.Text.Case.{fold, fold_head, fold_tail}
use lambda_moo_plus_foo.Text.Verbs.{
  Star, name_ends, skip_stars, accepts, verb_step, match_verb, skip_name, skip_blanks, verb_loop,
  verbcasecmp, no_star, inner, at_end,
}

length-skip_stars : (s : Star) (v : Text) → length (skip_stars s v).0 ≤ length v
unfolding skip_stars
length-skip_stars s [] = omega arith
length-skip_stars s (c ∷ v) =
    ground (arith, length-skip_stars (if name_ends v then at_end else inner) v)

length-verb_step :
    (c : ℕ) (w : Text) (r : Text × Star) (next : Star → Text → (Text × Star) × Text)
    → ((s : Star) (v : Text) → length (next s v).0.0 ≤ length v)
    → length (verb_step c w r next).0.0 ≤ length r.0
length-verb_step c w ([], s) next h = omega arith
length-verb_step c w (d ∷ v, s) next h = ground (arith, h s v)

length-match_verb : (s : Star) (v w : Text) → length (match_verb s v w).0.0 ≤ length v
unfolding match_verb
length-match_verb s v [] = length-skip_stars s v
length-match_verb s v (c ∷ w) = omega (
  arith,
  length-skip_stars s v,
  length-verb_step c w (skip_stars s v) (λ s' v'. match_verb s' v' w)
      (λ s' v'. length-match_verb s' v' w),
)

length-skip_blanks : (v : Text) → length (skip_blanks v) ≤ length v
unfolding skip_blanks
length-skip_blanks [] = omega arith
length-skip_blanks (c ∷ v) = ground (arith, length-skip_blanks v)

length-skip_name : (v : Text) → length (skip_name v) ≤ length v
unfolding skip_name
length-skip_name [] = omega arith
length-skip_name (c ∷ v) = ground (arith, length-skip_name v)

-- Going to the next name leaves at least one character behind.
next_name_shorter :
    (v : Text) (n : ℕ) → length v ≤ n → 0 < n → length (skip_blanks (skip_name v)) < n
unfolding skip_name skip_blanks
next_name_shorter [] n h k = k
next_name_shorter (c ∷ v) n h k = elim (Bool-cases (c == b' ')) [
  | inl e ↦ rw e (ground (arith, length-skip_blanks v))
  | inr e ↦ rw e (ground (arith, length-skip_blanks (skip_name v), length-skip_name v))
]

-- The loop ends, within one round more than the names have characters.
verb_loop_total :
    (fuel : ℕ) (names word : Text)
    → length names < fuel
    → (b : Bool) × (verb_loop fuel names word ≡ some b)
unfolding verb_loop
verb_loop_total zero names word h = absurd (omega arith)
verb_loop_total (suc fuel) [] word h = (false, refl)
verb_loop_total (suc fuel) (c ∷ v) word h =
    let r = match_verb no_star (c ∷ v) word in
    elim (Bool-cases (accepts r.0 r.1)) [
      | inl e ↦ (true, rw e refl)
      | inr e ↦
          let shorter =
            next_name_shorter r.0.0 (suc (length v)) (length-match_verb no_star (c ∷ v) word)
              (omega arith) in
          let (b, is) = verb_loop_total fuel (skip_blanks (skip_name r.0.0)) word (omega arith) in
          (b, rw e is)
    ]

-- Two ways on that stop at the same place and accept alike.
abbrev SameEnd : (Text × Star) × Text → (Text × Star) × Text → Type 0
SameEnd r r' = (r.0 ≡ r'.0) × (accepts r.0 r.1 ≡ accepts r'.0 r'.1)

SameEnd-accepts : (r : Text × Star) (c d : ℕ) (w w' : Text) → SameEnd (r, c ∷ w) (r, d ∷ w')
unfolding accepts
SameEnd-accepts (v, no_star) c d w w' = (refl, refl)
SameEnd-accepts (v, inner) c d w w' = (refl, refl)
SameEnd-accepts (v, at_end) c d w w' = (refl, refl)

SameEnd-verb_step :
    (c d : ℕ) (w w' : Text) (r : Text × Star) (next next' : Star → Text → (Text × Star) × Text)
    → ascii_tolower c ≡ ascii_tolower d
    → ((s : Star) (v : Text) → SameEnd (next s v) (next' s v))
    → SameEnd (verb_step c w r next) (verb_step d w' r next')
SameEnd-verb_step c d w w' ([], s) next next' e h = SameEnd-accepts ([], s) c d w w'
SameEnd-verb_step c d w w' (a ∷ v, s) next next' e h =
    rw e (elim (Bool-cases (a == b' ' || not (ascii_tolower a == ascii_tolower d))) [
      | inl f ↦ rw f (SameEnd-accepts (a ∷ v, s) c d w w')
      | inr f ↦ rw f (h s v)
    ])

match_verb-fold :
    (s : Star) (v w w' : Text) → fold w ≡ fold w' → SameEnd (match_verb s v w) (match_verb s v w')
unfolding match_verb
match_verb-fold s v [] [] h = (refl, refl)
match_verb-fold s v [] (c ∷ w) h = cc
match_verb-fold s v (c ∷ w) [] h = cc
match_verb-fold s v (c ∷ w) (d ∷ w') h =
    SameEnd-verb_step c d w w' (skip_stars s v) _ _ (fold_head c d w w' h)
      (λ s' v'. match_verb-fold s' v' w w' (fold_tail c d w w' h))

-- Words that are the same but for case match the same names.
verb_loop-fold :
    (fuel : ℕ) (names w w' : Text)
    → fold w ≡ fold w'
    → verb_loop fuel names w ≡ verb_loop fuel names w'
unfolding verb_loop
verb_loop-fold zero names w w' h = refl
verb_loop-fold (suc fuel) [] w w' h = refl
verb_loop-fold (suc fuel) (c ∷ v) w w' h =
    let (stop, accept) = match_verb-fold no_star (c ∷ v) w w' h in
    rw
      (
        accept,
        stop,
        verb_loop-fold fuel (skip_blanks (skip_name (match_verb no_star (c ∷ v) w').0.0)) w w' h,
      )
      refl

-- Words that are the same but for case, and both or neither of which are the very string, match alike.
pub verbcasecmp-fold :
    (same : Bool) (fuel : ℕ) (names w w' : Text)
    → fold w ≡ fold w'
    → verbcasecmp same fuel names w ≡ verbcasecmp same fuel names w'
unfolding verbcasecmp
verbcasecmp-fold true fuel names w w' h = refl
verbcasecmp-fold false fuel names w w' h = verb_loop-fold fuel names w w' h

-- `verbcasecmp` ends, within one round more than the names have characters.
pub verbcasecmp_total :
    (same : Bool) (fuel : ℕ) (names word : Text)
    → length names < fuel
    → (b : Bool) × (verbcasecmp same fuel names word ≡ some b)
unfolding verbcasecmp
verbcasecmp_total true fuel names word h = (true, refl)
verbcasecmp_total false fuel names word h = verb_loop_total fuel names word h
