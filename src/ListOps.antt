-- ===== src/ListOps.antt =====
-- The list and string primitives of src/list.c. A MOO list is the list of its elements, and its
-- positions are counted from 1. A result `none` is an access outside the array, a call of
-- `server_panic`, or a fault of `equality`. The copying loops are `copy`, whose index counts from 0.
pub mod Slices
pub mod Sets
pub mod Builtins
pub mod Strings
use lambda_moo_plus_foo.Prelude.{
  ltb, ◌==◌, if◌then◌else◌, length, set, ℤ, pos, negsuc, copy, ℕ, zero, suc, ◌+◌, ◌-◌, Bool, true,
  false, ◌&&◌, Option, none, some, List, [], ◌∷◌, ◌++◌,
}
use lambda_moo_plus_foo.Text.{Text}
use lambda_moo_plus_foo.Value.{Var, FloatEq, equality}

-- `(from > 1) ? from - 1 : 0`
abbrev pub left_length : ℤ → ℕ
left_length (pos f) = f - 1
left_length (negsuc f) = 0

module _ {A : Type 0} where
  -- What is written into the fresh array, in order.
  abbrev pub join : Option (List A) → Option (List A) → Option (List A)
  join (some xs) (some ys) = some (xs ++ ys)
  join (some xs) none = none
  join none ys = none

  unfoldable pub listset : List A → A → ℕ → Option (List A)
  listset xs value zero = none
  listset xs value (suc i) = if ltb i (length xs) then some (set xs i value) else none

  -- `refs` is the reference count of the array; with the only reference the array grows in place.
  unfoldable pub doinsert : ℕ → List A → A → ℕ → Option (List A)
  doinsert refs xs value zero = none
  doinsert refs xs value (suc i) =
      if refs == 1 && suc i == length xs + 1
      then some (xs ++ value ∷ [])
      else join (copy xs 0 i) (join (some (value ∷ [])) (copy xs i (length xs - i)))

  unfoldable pub listinsert : ℕ → List A → A → ℤ → Option (List A)
  unfolding doinsert
  listinsert refs xs value (negsuc p) = doinsert refs xs value 1
  listinsert refs xs value (pos zero) = doinsert refs xs value 1
  listinsert refs xs value (pos (suc i)) =
      if ltb (length xs) (suc i)
      then doinsert refs xs value (length xs + 1)
      else doinsert refs xs value (suc i)

  unfoldable pub listappend : ℕ → List A → A → Option (List A)
  unfolding doinsert
  listappend refs xs value = doinsert refs xs value (length xs + 1)

  -- `new_list` panics at a negative size.
  unfoldable pub listdelete : List A → ℕ → Option (List A)
  listdelete xs zero = none
  listdelete [] (suc i) = none
  listdelete (x ∷ xs) (suc i) =
      join (copy (x ∷ xs) 0 i) (copy (x ∷ xs) (suc i) (length (x ∷ xs) - suc i))

  unfoldable pub listconcat : List A → List A → Option (List A)
  listconcat first second = join (copy first 0 (length first)) (copy second 0 (length second))

  -- The last of the three loops copies `base_len - to` elements from `base.v.list[to + 1]` on.
  abbrev pub right_part : List A → ℤ → Option (List A)
  right_part base (pos t) = copy base t (length base - t)
  right_part base (negsuc t) = none

  unfoldable pub listrangeset : List A → ℤ → ℤ → List A → Option (List A)
  listrangeset base from to value =
      join (copy base 0 (left_length from))
        (join (copy value 0 (length value)) (right_part base to))

  unfoldable pub sublist : List A → ℕ → ℕ → Option (List A)
  sublist xs lower upper =
      if ltb upper lower
      then some []
      else elim lower [ zero ↦ none | suc i ↦ copy xs i (upper - i) ]

-- Strings: the same loops over characters.
unfoldable pub strrangeset : Text → ℤ → ℤ → Text → Option Text
strrangeset base from to value =
    join (copy base 0 (left_length from)) (join (copy value 0 (length value)) (right_part base to))

unfoldable pub substr : Text → ℕ → ℕ → Option Text
substr s lower upper =
    if ltb upper lower then some [] else elim lower [ zero ↦ none | suc i ↦ copy s i (upper - i) ]

unfoldable pub strget : Text → ℕ → Option Text
strget s zero = none
strget s (suc i) = copy s i 1

-- One round of the loop of `ismember`: the answer, or that of the rounds that follow.
abbrev pub this_or_next : Option Bool → ℕ → Option ℕ → Option ℕ
this_or_next none i rest = none
this_or_next (some true) i rest = some i
this_or_next (some false) i rest = rest

-- Sets are lists; membership ignores case.
module _ {F : Type 0} (fl : FloatEq F) where
  -- The `for` loop of `ismember`, at index `i`: 0 if there is no such element.
  unfoldable pub ismember_from : Bool → Var F → ℕ → List (Var F) → Option ℕ
  ismember_from m v i [] = some 0
  ismember_from m v i (x ∷ xs) = this_or_next (equality fl m v x) i (ismember_from m v (i + 1) xs)

  unfoldable pub ismember : Var F → List (Var F) → Bool → Option ℕ
  unfolding ismember_from
  ismember v xs m = ismember_from m v 1 xs

  abbrev pub setadd_at : ℕ → List (Var F) → Var F → Option ℕ → Option (List (Var F))
  setadd_at refs xs v none = none
  setadd_at refs xs v (some zero) = listappend refs xs v
  setadd_at refs xs v (some (suc i)) = some xs

  unfoldable pub setadd : ℕ → List (Var F) → Var F → Option (List (Var F))
  setadd refs xs v = setadd_at refs xs v (ismember v xs false)

  abbrev pub setremove_at : List (Var F) → Option ℕ → Option (List (Var F))
  setremove_at xs none = none
  setremove_at xs (some zero) = some xs
  setremove_at xs (some (suc i)) = listdelete xs (suc i)

  unfoldable pub setremove : List (Var F) → Var F → Option (List (Var F))
  setremove xs v = setremove_at xs (ismember v xs false)
