-- ===== src/ListOps/Builtins.antt =====
-- The built-in functions of src/list.c on lists. The dispatcher has checked the number and the
-- types of the arguments; an optional argument is an `Option`. The argument list holds a reference
-- to each list, so `refs` is the count that `var_ref` leaves.
use lambda_moo_plus_foo.Prelude.{
  ltb, leb, if◌then◌else◌, ltb→lt, lt→ltb, ltb-false, Bool-cases, length, set, take, drop, pos,
  negsuc, ℕ, zero, suc, ◌+◌, ◌-◌, ◌%◌, ◌^◌, ◌<◌, min, ◌≡◌, refl, ap, ◌⊎◌, inl, inr, Bool, true,
  false, ◌||◌, Option, none, some, List, ◌∷◌, ◌++◌, arith,
}
use lambda_moo_plus_foo.Value.{Error, Var, count, e_type, e_range, str, list}
use lambda_moo_plus_foo.Int32.{Int32, int_max, is_negative, to_ℤ, add}
use lambda_moo_plus_foo.ListOps.{listset, listinsert, listappend, listdelete}
use lambda_moo_plus_foo.ListOps.Slices.{listinsert_lem, listdelete_lem}

-- `package`: a value, or an error that the interpreter raises; `fault` is a panic or an access
-- outside an array.
pub data Package (A : Type 0) : Type 0 where
  returned : A → Package A
  raised : Error → Package A
  fault : Package A

-- `make_var_pack` of what a primitive gives.
abbrev pub var_pack : {A : Type 0} → Option A → Package A
var_pack none = fault
var_pack (some a) = returned a

module _ {F : Type 0} where
  -- `bf_length`.
  unfoldable pub bf_length : Var F → Package ℕ
  bf_length (list vs) = returned (count vs)
  bf_length (str s) = returned (length s)
  bf_length _ = raised e_type

-- Where `listappend(xs, v, p)` puts the new element: after the first `p` elements.
abbrev pub append_index : Int32 → ℕ → ℕ
append_index p n = if ltb p int_max then min p n else 0

module _ {A : Type 0} where
  unfoldable pub bf_listappend : ℕ → List A → A → Option Int32 → Package (List A)
  bf_listappend refs xs v none = var_pack (listappend refs xs v)
  bf_listappend refs xs v (some p) = var_pack (listinsert refs xs v (to_ℤ (add p 1)))

  unfoldable pub bf_listinsert : ℕ → List A → A → Option Int32 → Package (List A)
  bf_listinsert refs xs v none = var_pack (listinsert refs xs v (pos 1))
  bf_listinsert refs xs v (some p) = var_pack (listinsert refs xs v (to_ℤ p))

  -- `p <= 0 || p > length`
  unfoldable pub out_of_range : List A → Int32 → Bool
  out_of_range xs p = leb p 0 || is_negative p || ltb (length xs) p

  unfoldable pub bf_listdelete : List A → Int32 → Package (List A)
  unfolding out_of_range
  bf_listdelete xs p = if out_of_range xs p then raised e_range else var_pack (listdelete xs p)

  unfoldable pub bf_listset : List A → A → Int32 → Package (List A)
  unfolding out_of_range
  bf_listset xs v p = if out_of_range xs p then raised e_range else var_pack (listset xs v p)

  range_cases :
      (xs : List A) (p : Int32)
      → length xs < 2 ^ 31
      → (((i : ℕ) → p ≡ suc i → ¬ (i < length xs)) × (out_of_range xs p ≡ true))
        ⊎ ((i : ℕ) × (p ≡ suc i) × (i < length xs) × (out_of_range xs p ≡ false))
  unfolding out_of_range is_negative
  range_cases xs zero h = inl (λ i e. absurd (omega arith), refl)
  range_cases xs (suc i) h = elim (Bool-cases (out_of_range xs (suc i))) [
    | inl e ↦ inl (λ j is lt. ground arith, e)
    | inr e ↦ inr (i, refl, ground arith, e)
  ]

  -- On a list of fewer than 2^31 elements `listdelete` and `listset` raise E_RANGE exactly when the
  -- position is not one of the list's, and otherwise give the list without the element there, or
  -- with the new element there. Neither faults.
  pub bf_listdelete-listset :
      (xs : List A) (v : A) (p : Int32)
      → length xs < 2 ^ 31
      → (((i : ℕ) → p ≡ suc i → ¬ (i < length xs))
          × (bf_listdelete xs p ≡ raised e_range)
          × (bf_listset xs v p ≡ raised e_range))
        ⊎ ((i : ℕ) × (p ≡ suc i)
            × (i < length xs)
            × (bf_listdelete xs p ≡ returned (take i xs ++ drop (suc i) xs))
            × (bf_listset xs v p ≡ returned (set xs i v)))
  unfolding bf_listdelete bf_listset listset
  bf_listdelete-listset xs v p h = elim (range_cases xs p h) [
    | inl (out, e) ↦ inl (out, rw e, rw e)
    | inr (i, is, lt, e) ↦ inr (
      i,
      is,
      lt,
      rw (e, is) (ap var_pack (listdelete_lem xs i lt)),
      rw (e, is, lt→ltb i (length xs) lt),
    )
  ]

  -- `listappend` with a position that is not negative puts the element behind the first `p`
  -- elements, or at the end if the list is shorter, but at the START of the list for the largest
  -- integer, whose successor overflows.
  pub bf_listappend_lem :
      (refs : ℕ) (xs : List A) (v : A) (p : Int32)
      → p < 2 ^ 31
      → bf_listappend refs xs v (some p)
        ≡ returned
            (take (append_index p (length xs)) xs ++ v ∷ drop (append_index p (length xs)) xs)
  unfolding bf_listappend to_ℤ add
  bf_listappend_lem refs xs v p h = elim (Bool-cases (ltb p int_max)) [
    | inl e ↦
        let sum : (p + 1) % 2 ^ 32 ≡ suc p = omega (arith, ltb→lt _ _ e) in
        let small : ltb (suc p) (2 ^ 31) ≡ true = lt→ltb _ _ (omega (arith, ltb→lt _ _ e)) in
        let at : suc p - 1 ≡ p = omega arith in
        rw (e, sum, small) (ap var_pack (rw at at (listinsert_lem refs xs v (pos (suc p)))))
    | inr e ↦
        let top : p ≡ int_max = omega (arith, ltb-false _ _ e) in
        rw top (ap var_pack (listinsert_lem refs xs v (negsuc (2 ^ 31 - 1))))
  ]
