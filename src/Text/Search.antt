-- ===== src/Text/Search.antt =====
-- `strindex` and `strrindex`: the first and the last place where a text occurs.
use lambda_moo_plus_foo.Prelude.{
  leb, ◌==◌, leb→le, leb-false, ==_iff, Bool-cases, length, drop, drop-nil, ℕ, zero, suc, ◌+◌, ◌-◌,
  ◌≤◌, ◌<◌, ◌≡◌, refl, ◌⊎◌, inl, inr, Bool, true, false, [], ◌∷◌, arith,
}
use lambda_moo_plus_foo.Text.{Text, same_start, strindex_from, strindex, strrindex_down, strrindex}

-- `what` occurs in `source` at index `i`: enough bytes are left, and they are the same.
abbrev pub OccursAt : Bool → Text → Text → ℕ → Type 0
OccursAt b source what i =
    (i + length what ≤ length source) × (same_start b (drop i source) what ≡ true)

-- What a search from the left, begun at index `k`, answers: 0, and there is no place in what is
-- left, or the first place there, counted from 1 at the start of the text.
abbrev pub IsFirst : Bool → Text → ℕ → Text → ℕ → Type 0
IsFirst b what k s r =
    ((r ≡ 0) × ((i : ℕ) → ¬ OccursAt b s what i))
    ⊎ ((i : ℕ) × (r ≡ k + i + 1) × OccursAt b s what i × ((j : ℕ) → j < i → ¬ OccursAt b s what j))

IsFirst-nil : (b : Bool) (what : Text) (k : ℕ) → IsFirst b what k [] (strindex_from b what k [])
unfolding strindex_from
IsFirst-nil b [] k = elim (Bool-cases (same_start b [] [])) [
  | inl e ↦ inr (0, rw e (omega arith), (omega arith, e), λ j h. absurd (omega arith))
  | inr e ↦ inl (rw e refl, λ i o. cc (e, drop-nil {0} {A = ℕ} i, o.1))
]
IsFirst-nil b (w ∷ what) k = inl (ground arith, λ i o. omega arith)

IsFirst-skip :
    (b : Bool) (what : Text) (k c : ℕ) (s : Text) (r : ℕ)
    → ¬ OccursAt b (c ∷ s) what 0
    → IsFirst b what (k + 1) s r
    → IsFirst b what k (c ∷ s) r
IsFirst-skip b what k c s r no_zero (inl (e, none_later)) = inl (e, λ i. not_at i)
  where
    not_at : (i : ℕ) → ¬ OccursAt b (c ∷ s) what i
    not_at zero = no_zero
    not_at (suc i) = λ o. none_later i (omega arith, o.1)
IsFirst-skip b what k c s r no_zero (inr (i, e, o, before)) =
    inr (suc i, omega arith, (omega arith, o.1), λ j. not_at j)
  where
    not_at : (j : ℕ) → j < suc i → ¬ OccursAt b (c ∷ s) what j
    not_at zero h = no_zero
    not_at (suc j) h = λ o'. before j (omega arith) (omega arith, o'.1)

strindex_from-IsFirst :
    (b : Bool) (what : Text) (k : ℕ) (s : Text) → IsFirst b what k s (strindex_from b what k s)
unfolding strindex_from
strindex_from-IsFirst b what k [] = IsFirst-nil b what k
strindex_from-IsFirst b what k (c ∷ s) = elim (Bool-cases (leb (length what) (length (c ∷ s)))) [
  | inr short ↦ inl (rw short refl, λ i o. leb-false _ _ short (omega arith))
  | inl fits ↦ rw fits (elim (Bool-cases (same_start b (c ∷ s) what)) [
    | inl e ↦
        rw e
          (inr (0, omega arith, (omega (arith, leb→le _ _ fits), e), λ j h. absurd (omega arith)))
    | inr e ↦
        rw e
          (IsFirst-skip b what k c s _ (λ o. cc (e, o.1)) (strindex_from-IsFirst b what (k + 1) s))
  ])
]

-- `strindex` returns 0 exactly if `what` occurs nowhere in `source`, and otherwise the position of
-- its first occurrence, counted from 1.
pub strindex-IsFirst :
    (source what : Text) (b : Bool) → IsFirst b what 0 source (strindex source what b)
unfolding strindex
strindex-IsFirst source what b = strindex_from-IsFirst b what 0 source

-- What a search from the right answers.
abbrev pub IsLast : Bool → Text → Text → ℕ → Type 0
IsLast b source what r =
    ((r ≡ 0) × ((i : ℕ) → ¬ OccursAt b source what i))
    ⊎ ((i : ℕ) × (r ≡ i + 1)
        × OccursAt b source what i
        × ((j : ℕ) → i < j → ¬ OccursAt b source what j))

-- Every place above `i` has been tried.
strrindex_down-IsLast :
    (b : Bool) (source what : Text) (i : ℕ)
    → i + length what ≤ length source
    → ((j : ℕ) → i < j → ¬ OccursAt b source what j)
    → IsLast b source what (strrindex_down b source what i)
unfolding strrindex_down
strrindex_down-IsLast b source what zero h above = elim (Bool-cases (same_start b source what)) [
  | inl e ↦ rw e (inr (0, omega arith, (h, e), above))
  | inr e ↦ rw e (inl (refl, λ i. not_at e i))
]
  where
    not_at : same_start b source what ≡ false → (i : ℕ) → ¬ OccursAt b source what i
    not_at e zero = λ o. cc (e, o.1)
    not_at e (suc i) = above (suc i) (omega arith)
strrindex_down-IsLast b source what (suc i) h above =
    elim (Bool-cases (same_start b (drop (suc i) source) what)) [
      | inl e ↦ rw e (inr (suc i, refl, (h, e), above))
      | inr e ↦ rw e (
          strrindex_down-IsLast b source what i (omega arith) λ j lt.
            elim (Bool-cases (j == suc i)) [
              | inl at ↦ λ o. cc (e, rw ((==_iff _ _).0 at) at o.1)
              | inr other ↦ above j (ground arith)
            ])
    ]

-- `strrindex` returns 0 exactly if `what` occurs nowhere in `source`, and otherwise the position of
-- its last occurrence, counted from 1.
pub strrindex-IsLast :
    (source what : Text) (b : Bool) → IsLast b source what (strrindex source what b)
unfolding strrindex
strrindex-IsLast source what b = elim (Bool-cases (leb (length what) (length source))) [
  | inl fits ↦ rw fits (
      strrindex_down-IsLast b source what (length source - length what)
        (omega (arith, leb→le _ _ fits)) (λ j lt o. omega (arith, leb→le _ _ fits)))
  | inr short ↦ inl (rw short refl, λ i o. leb-false _ _ short (omega arith))
]
