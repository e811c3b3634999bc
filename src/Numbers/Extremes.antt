-- ===== src/Numbers/Extremes.antt =====
-- `min` and `max` of integers.
use lambda_moo_plus_foo.Prelude.{
  if◌then◌else◌, Bool-cases, ◌≡◌, refl, ◌≢◌, ◌⊎◌, inl, inr, Bool, true, false, List, [], ◌∷◌, ◌++◌,
  map, arith,
}
use lambda_moo_plus_foo.Int32.{Int32, to_ℤ, less}
use lambda_moo_plus_foo.Value.{Var, e_type, int}
use lambda_moo_plus_foo.ListOps.Builtins.{Package, returned, raised}
use lambda_moo_plus_foo.Numbers.{FloatOps, extreme_ints, bf_min, bf_max}

-- No element is better than `r`.
abbrev pub Beaten : (Int32 → Int32 → Bool) → Int32 → List Int32 → Type 0
Beaten better r [] = Unit
Beaten better r (n ∷ ns) = (better n r ≡ false) × Beaten better r ns

abbrev pub IsIn : Int32 → List Int32 → Type 0
IsIn r [] = ⊥
IsIn r (n ∷ ns) = (r ≡ n) ⊎ IsIn r ns

-- What a comparison must satisfy: it is transitive, so is its negation, and nothing is better than
-- itself.
abbrev pub IsOrder : (Int32 → Int32 → Bool) → Type 0
IsOrder better =
    ((x y z : Int32) → better x y ≡ true → better x z ≡ false → better y z ≡ false)
    × ((x y z : Int32) → better x y ≡ false → better y z ≡ false → better x z ≡ false)
    × ((x : Int32) → better x x ≡ false)

less-IsOrder : IsOrder less
unfolding less to_ℤ
less-IsOrder = ((λ x y z h k. ground arith), (λ x y z h k. ground arith), (λ x. ground arith))

abbrev pub greater : Int32 → Int32 → Bool
greater a b = less b a

greater-IsOrder : IsOrder greater
unfolding less to_ℤ
greater-IsOrder = ((λ x y z h k. ground arith), (λ x y z h k. ground arith), (λ x. ground arith))

module _ {F : Type 0} (fl : FloatOps F) (better : Int32 → Int32 → Bool) (o : IsOrder better) where
  abbrev Best : Int32 → List Int32 → Package (Var F) → Type 0
  Best r ns p = (m : Int32) × (p ≡ returned (int m)) × IsIn m (r ∷ ns) × Beaten better m (r ∷ ns)

  extreme_ints-Best :
      (r : Int32) (ns : List Int32) → Best r ns (extreme_ints fl better false r (map int ns))
  unfolding extreme_ints
  extreme_ints-Best r [] = (r, refl, inl refl, (o.2 r, tt))
  extreme_ints-Best r (n ∷ ns) = elim (Bool-cases (better n r)) [
    | inl e ↦
        let (m, is, at, (head, rest)) = extreme_ints-Best n ns in
        (m, rw (extreme_ints, e) is, inr at, (o.0 n r m e head, (head, rest)))
    | inr e ↦
        let (m, is, at, (head, rest)) = extreme_ints-Best r ns in
        (m, rw (extreme_ints, e) is, in_front m at, (head, (o.1 n r m e head, rest)))
  ]
    where
      in_front : (m : Int32) → IsIn m (r ∷ ns) → IsIn m (r ∷ n ∷ ns)
      in_front m (inl at) = inl at
      in_front m (inr at) = inr (inr at)

  -- A value of another type spoils the result, wherever it stands.
  extreme_ints-bad :
      (r : Int32) (vs : List (Var F)) → extreme_ints fl better true r vs ≡ raised e_type
  unfolding extreme_ints
  extreme_ints-bad r [] = refl
  extreme_ints-bad r (int n ∷ vs) = extreme_ints-bad (if better n r then n else r) vs
  extreme_ints-bad r (_ ∷ vs) = extreme_ints-bad r vs

  extreme_ints-mixed :
      (r : Int32) (ns : List Int32) (v : Var F) (vs : List (Var F))
      → ((n : Int32) → v ≢ int n)
      → extreme_ints fl better false r (map int ns ++ v ∷ vs) ≡ raised e_type
  unfolding extreme_ints
  extreme_ints-mixed r [] (int n) vs h = absurd (h n refl)
  extreme_ints-mixed r [] _ vs h = extreme_ints-bad r vs
  extreme_ints-mixed r (n ∷ ns) v vs h = extreme_ints-mixed (if better n r then n else r) ns v vs h

-- `min` of integers returns one of its arguments, and none is less; `max` returns one of them, and
-- none is greater. If a later argument is not an integer, both raise E_TYPE.
pub bf_min-bf_max :
    {F : Type 0} (fl : FloatOps F) (r : Int32) (ns : List Int32) (v : Var F) (vs : List (Var F))
    → ((n : Int32) → v ≢ int n)
    → ((m : Int32) × (bf_min fl (int r) (map int ns) ≡ returned (int m))
        × IsIn m (r ∷ ns)
        × Beaten less m (r ∷ ns))
      × ((m : Int32) × (bf_max fl (int r) (map int ns) ≡ returned (int m))
          × IsIn m (r ∷ ns)
          × Beaten greater m (r ∷ ns))
      × (bf_min fl (int r) (map int ns ++ v ∷ vs) ≡ raised e_type)
      × (bf_max fl (int r) (map int ns ++ v ∷ vs) ≡ raised e_type)
unfolding bf_min bf_max
bf_min-bf_max fl r ns v vs h = (
  extreme_ints-Best fl less less-IsOrder r ns,
  extreme_ints-Best fl greater greater-IsOrder r ns,
  extreme_ints-mixed fl less less-IsOrder r ns v vs h,
  extreme_ints-mixed fl greater greater-IsOrder r ns v vs h,
)
