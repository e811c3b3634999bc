-- ===== src/Prelude/Slices.antt =====
-- Copy loops over an array: read `n` elements from index `i` on, `none` where a read leaves it.
use Prim.Native.Nat.{ℕ, zero, suc, ◌+◌, ◌≤◌}
use mathlib.Core.Path.{◌≡◌, refl, ◌∙◌, ap}
use mathlib.Core.List.{List, [], ◌∷◌}
use mathlib.Core.Option.{Option, none, some}
use native.Mathlib.Omega.{arith}
use lambda_moo_plus_foo.Prelude.Lists.{length, get_elem?, take, drop, length-drop, take_all}

module _ {ℓ} {A : Type ℓ} where
  abbrev pub push : A → Option (List A) → Option (List A)
  push a none = none
  push a (some r) = some (a ∷ r)

  abbrev pub read_then : Option A → Option (List A) → Option (List A)
  read_then none r = none
  read_then (some a) r = push a r

  -- `for (k = 0; k < n; k++) new[k] = xs[i + k];`
  unfoldable pub copy : List A → ℕ → ℕ → Option (List A)
  copy xs i zero = some []
  copy xs i (suc n) = read_then (get_elem? xs i) (copy xs (suc i) n)

  copy-cons : (x : A) (xs : List A) (i n : ℕ) → copy (x ∷ xs) (suc i) n ≡ copy xs i n
  unfolding copy
  copy-cons x xs i zero = refl
  copy-cons x xs i (suc n) = λ k. read_then (get_elem? xs i) (copy-cons x xs (suc i) n k)

  copy-zero : (xs : List A) (n : ℕ) → n ≤ length xs → copy xs 0 n ≡ some (take n xs)
  unfolding copy
  copy-zero xs zero h = refl
  copy-zero [] (suc n) h = elim h [ ]
  copy-zero (x ∷ xs) (suc n) h = λ k. push x ((copy-cons x xs 0 n ∙ copy-zero xs n (omega arith)) k)

  -- Inside the array the loop is a slice.
  pub copy_lem :
      (xs : List A) (i n : ℕ) → i + n ≤ length xs → copy xs i n ≡ some (take n (drop i xs))
  unfolding copy
  copy_lem xs zero n h = copy-zero xs n (omega arith)
  copy_lem [] (suc i) zero h = refl
  copy_lem [] (suc i) (suc n) h = absurd (omega arith)
  copy_lem (x ∷ xs) (suc i) n h = copy-cons x xs i n ∙ copy_lem xs i n (omega arith)

  pub copy_all : (xs : List A) → copy xs 0 (length xs) ≡ some xs
  copy_all xs =
      copy_lem xs 0 (length xs) (omega arith) ∙ ap some (take_all xs (length xs) (omega arith))

  -- The loop that copies all from index `i` on.
  pub copy_rest : (xs : List A) (i n : ℕ) → i + n ≡ length xs → copy xs i n ≡ some (drop i xs)
  copy_rest xs i n h =
      copy_lem xs i n (omega arith)
      ∙ ap some (take_all (drop i xs) n (omega (arith, length-drop i xs)))

  pub copy_none : (xs : List A) (i : ℕ) → copy xs i 0 ≡ some []
  unfolding copy
  copy_none xs i = refl
