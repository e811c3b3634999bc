-- ===== src/CodeGen/Chains.antt =====
-- The chain of a label, for `define_label` of src/code_gen.c: where each link goes back in the
-- array, a walk with as many rounds as there are fixups reaches its end.
use lambda_moo_plus_foo.Prelude.{
  ◌==◌, Bool-cases, length, get_elem?, set, get_elem?-set_self, get_elem?-set_ne, get_elem?-some,
  some_injective, ℕ, zero, suc, ◌≤◌, ◌<◌, ◌≡◌, refl, sym, ap, ◌∙◌, ◌≢◌, ◌⊎◌, inl, inr, Option, none,
  some, List, [], ◌∷◌, ◌++◌, arith,
}
use lambda_moo_plus_foo.CodeGen.State.{Fixup, below, next_of, retarget_one, retarget}

abbrev pub GoesBelow : Option ℕ → ℕ → Type 0
GoesBelow none i = Unit
GoesBelow (some l) i = l < i

-- Each link goes back.
abbrev pub IsLinked : List Fixup → Type 0
IsLinked fs = (i : ℕ) (f : Fixup) → get_elem? fs i ≡ some f → GoesBelow f.next i

IsLinked-set :
    (t : Fixup → Fixup) (fs : List Fixup) (l : ℕ) (f : Fixup)
    → ((g : Fixup) → (t g).next ≡ g.next)
    → get_elem? fs l ≡ some f
    → IsLinked fs
    → IsLinked (set fs l (t f))
IsLinked-set t fs l f keeps e h i g at = elim (Bool-cases (l == i)) [
  | inl q ↦
      let l≡i : l ≡ i = ground arith in
      let low : l < length fs = get_elem?-some fs l e in
      let same : t f ≡ g =
        some_injective (sym (get_elem?-set_self fs l (t f) low) ∙ rw (← l≡i) at at) in
      let n : g.next ≡ f.next = rw (← same) (keeps f) in rw (n, ← l≡i) (h l f e)
  | inr q ↦ let l≢i : l ≢ i = ground arith in h i g (sym (get_elem?-set_ne fs (t f) l≢i) ∙ at)
]

retarget-none : (t : Fixup → Fixup) (n : ℕ) (fs : List Fixup) → retarget t n none fs ≡ fs
unfolding retarget
retarget-none t zero fs = refl
retarget-none t (suc n) fs = refl

-- One round, when the walks along the lower links agree.
round_same :
    (t : Fixup → Fixup) (n m l : ℕ) (fs : List Fixup) (f : Option Fixup) (link : Option ℕ)
    → ((g : Fixup) → (t g).next ≡ g.next)
    → IsLinked fs
    → get_elem? fs l ≡ f
    → next_of f ≡ link
    → ((k : ℕ) (gs : List Fixup)
        → IsLinked gs
        → k < l
        → retarget t m (some k) gs ≡ retarget t n (some k) gs)
    → retarget t m link (retarget_one t l f fs) ≡ retarget t n link (retarget_one t l f fs)
round_same t n m l fs f none keeps h e x below = retarget-none t m _ ∙ sym (retarget-none t n _)
round_same t n m l fs none (some k) keeps h e x below = cc
round_same t n m l fs (some f) (some k) keeps h e x below =
    below k (set fs l (t f)) (IsLinked-set t fs l f keeps e h) (rw x at (h l f e))

-- A walk from a fixup along links that go back ends in as many rounds as its number and one.
pub retarget_enough :
    (t : Fixup → Fixup) (n m l : ℕ) (fs : List Fixup)
    → ((g : Fixup) → (t g).next ≡ g.next)
    → IsLinked fs
    → l < n
    → n ≤ m
    → retarget t m (some l) fs ≡ retarget t n (some l) fs
unfolding retarget
retarget_enough t zero m l fs keeps h low le = absurd (omega arith)
retarget_enough t (suc n) zero l fs keeps h low le = absurd (omega arith)
retarget_enough t (suc n) (suc m) l fs keeps h low le =
    round_same t n m l fs (get_elem? fs l) _ keeps h refl refl
      λ k gs lk below. retarget_enough t n m k gs keeps lk (omega arith) (omega arith)

get_elem?-append_cases :
    (fs : List Fixup) (f : Fixup) (i : ℕ) {g : Fixup}
    → get_elem? (fs ++ f ∷ []) i ≡ some g
    → (get_elem? fs i ≡ some g) ⊎ ((i ≡ length fs) × (g ≡ f))
get_elem?-append_cases [] f zero at = inr (refl, sym (some_injective at))
get_elem?-append_cases [] f (suc i) at = cc
get_elem?-append_cases (x ∷ fs) f zero at = inl at
get_elem?-append_cases (x ∷ fs) f (suc i) at = elim (get_elem?-append_cases fs f i at) [
  | inl e ↦ inl e
  | inr (n, e) ↦ inr (ap suc n, e)
]

-- A new fixup whose link is a number given out before keeps the links going back.
pub IsLinked-append :
    (fs : List Fixup) (f : Fixup)
    → IsLinked fs
    → GoesBelow f.next (length fs)
    → IsLinked (fs ++ f ∷ [])
IsLinked-append fs f h b i g at = elim (get_elem?-append_cases fs f i at) [
  | inl e ↦ h i g e
  | inr (n, e) ↦ rw (n, e) b
]
