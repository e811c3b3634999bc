-- ===== src/Text/Sub.antt =====
-- `strsub`: replacing every occurrence, from left to right.
use lambda_moo_plus_foo.Prelude.{
  Bool-cases, length, drop, length-drop, ℕ, zero, suc, ◌<◌, ◌≡◌, refl, inl, inr, Bool, true, false,
  Option, none, some, [], ◌∷◌, ◌++◌, arith,
}
use lambda_moo_plus_foo.Text.{Text, mystrncasecmp, same_start, strsub_loop, strsub}

-- `out` is `source` with the occurrences of `what` that a scan from the left meets replaced by
-- `piece`. An occurrence is skipped whole; a character that starts none is kept.
pub data Replaced (b : Bool) (what piece : Text) : Text → Text → Type 0 where
  finish : Replaced b what piece [] []
  replace :
      {c : ℕ} {s rest : Text}
      → same_start b (c ∷ s) what ≡ true
      → Replaced b what piece (drop (length what) (c ∷ s)) rest
      → Replaced b what piece (c ∷ s) (piece ++ rest)
  keep :
      {c : ℕ} {s rest : Text}
      → same_start b (c ∷ s) what ≡ false
      → Replaced b what piece s rest
      → Replaced b what piece (c ∷ s) (c ∷ rest)

abbrev pub Substitutes : Bool → Text → Text → Text → Option Text → Type 0
Substitutes b what piece source r = (out : Text) × (r ≡ some out) × Replaced b what piece source out

strsub_loop-Substitutes :
    (fuel : ℕ) (b : Bool) (what piece source : Text)
    → 0 < length what
    → length source < fuel
    → Substitutes b what piece source (strsub_loop fuel b what piece source)
unfolding strsub_loop
strsub_loop-Substitutes zero b what piece source h f = absurd (omega arith)
strsub_loop-Substitutes (suc fuel) b what piece [] h f = ([], refl, finish)
strsub_loop-Substitutes (suc fuel) b what piece (c ∷ s) h f =
    elim (Bool-cases (same_start b (c ∷ s) what)) [
      | inl e ↦
          let (out, is, r) =
            strsub_loop-Substitutes fuel b what piece (drop (length what) (c ∷ s)) h
              (omega (arith, length-drop (length what) (c ∷ s))) in
          (piece ++ out, rw (e, is), replace e r)
      | inr e ↦
          let (out, is, r) = strsub_loop-Substitutes fuel b what piece s h (omega arith) in
          (c ∷ out, rw (e, is), keep e r)
    ]

-- Given a text `what` that is not empty, and as many rounds as the source has characters and one
-- more, the loop of `strsub` ends, and its result is the source with every occurrence that the
-- scan from the left meets replaced.
pub strsub-Replaced :
    (fuel : ℕ) (source what piece : Text) (b : Bool)
    → 0 < length what
    → length source < fuel
    → Substitutes b what piece source (strsub fuel source what piece b)
unfolding strsub
strsub-Replaced fuel source what piece b h f = strsub_loop-Substitutes fuel b what piece source h f

strsub_loop_empty :
    (fuel : ℕ) (b : Bool) (piece : Text) (c : ℕ) (s : Text)
    → strsub_loop fuel b [] piece (c ∷ s) ≡ none
unfolding strsub_loop same_start mystrncasecmp
strsub_loop_empty zero b piece c s = refl
strsub_loop_empty (suc fuel) true piece c s = rw (strsub_loop_empty fuel true piece c s)
strsub_loop_empty (suc fuel) false piece c s = rw (strsub_loop_empty fuel false piece c s)

-- With an empty `what` and a source that is not empty, no number of rounds is enough: the loop of
-- `strsub` does not end.
pub strsub_empty :
    (fuel : ℕ) (source piece : Text) (b : Bool)
    → 0 < length source
    → strsub fuel source [] piece b ≡ none
unfolding strsub
strsub_empty fuel [] piece b h = elim h [ ]
strsub_empty fuel (c ∷ s) piece b h = strsub_loop_empty fuel b piece c s
