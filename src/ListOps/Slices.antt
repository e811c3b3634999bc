-- ===== src/ListOps/Slices.antt =====
-- The list primitives against slices of the list.
use lambda_moo_plus_foo.Prelude.{
  ltb, leb, ◌==◌, ltb→lt, leb→le, ltb-false, leb-false, Bool-cases, length, get_elem?,
  length-append, take, drop, length-take, length-drop, take_all, drop_all, ℤ, pos, negsuc, copy_lem,
  copy_all, copy_rest, copy_none, ℕ, zero, suc, ◌+◌, ◌-◌, ◌≤◌, ◌<◌, min, ◌≡◌, refl, ap, ◌∙◌, inl,
  inr, ◌&&◌, some, List, [], ◌∷◌, ◌++◌, arith,
}
use lambda_moo_plus_foo.ListOps.{
  doinsert, listinsert, listappend, listdelete, listconcat, right_part, listrangeset, sublist,
}

-- Where `listinsert` puts the new element: the number of elements in front of it.
abbrev pub insert_index : ℤ → ℕ → ℕ
insert_index (pos p) n = min (p - 1) n
insert_index (negsuc p) n = 0

module _ {A : Type 0} where
  doinsert_lem :
      (refs : ℕ) (xs : List A) (v : A) (i : ℕ)
      → i ≤ length xs
      → doinsert refs xs v (suc i) ≡ some (take i xs ++ v ∷ drop i xs)
  unfolding doinsert
  doinsert_lem refs xs v i h = elim (Bool-cases (refs == 1 && suc i == length xs + 1)) [
    | inl e ↦
        let at_end : i ≡ length xs = ground arith in
        rw (e, take_all xs i (omega arith), drop_all xs i (omega arith))
    | inr e ↦ rw (e, copy_lem xs 0 i (omega arith), copy_rest xs i (length xs - i) (omega arith))
  ]

  -- `listinsert` puts the element in front of position `p`, at the start if `p` is not positive and
  -- at the end if it is past the end, whatever the reference count of the list, and never faults.
  pub listinsert_lem :
      (refs : ℕ) (xs : List A) (v : A) (p : ℤ)
      → listinsert refs xs v p
        ≡ some (take (insert_index p (length xs)) xs ++ v ∷ drop (insert_index p (length xs)) xs)
  unfolding listinsert
  listinsert_lem refs xs v (negsuc p) = doinsert_lem refs xs v 0 (omega arith)
  listinsert_lem refs xs v (pos zero) =
      let e : min (0 - 1) (length xs) ≡ 0 = omega arith in
      rw e (doinsert_lem refs xs v 0 (omega arith))
  listinsert_lem refs xs v (pos (suc i)) = elim (Bool-cases (ltb (length xs) (suc i))) [
    | inl e ↦
        let at : min (suc i - 1) (length xs) ≡ length xs = omega (arith, ltb→lt _ _ e) in
        let one : length xs + 1 ≡ suc (length xs) = omega arith in
        rw (e, at, one) (doinsert_lem refs xs v (length xs) (omega arith))
    | inr e ↦
        let at : min (suc i - 1) (length xs) ≡ i = omega (arith, ltb-false _ _ e) in
        rw (e, at) (doinsert_lem refs xs v i (omega (arith, ltb-false _ _ e)))
  ]

  pub listappend_lem : (refs : ℕ) (xs : List A) (v : A) → listappend refs xs v ≡ some (xs ++ v ∷ [])
  unfolding listappend
  listappend_lem refs xs v =
      let one : length xs + 1 ≡ suc (length xs) = omega arith in
      rw one (
        doinsert_lem refs xs v (length xs) (omega arith)
        ∙ rw (take_all xs (length xs) (omega arith), drop_all xs (length xs) (omega arith)))

  -- `listdelete` at a position of the list gives the elements before and after it.
  pub listdelete_lem :
      (xs : List A) (i : ℕ)
      → i < length xs
      → listdelete xs (suc i) ≡ some (take i xs ++ drop (suc i) xs)
  unfolding listdelete
  listdelete_lem [] i h = elim h [ ]
  listdelete_lem (x ∷ xs) i h = rw (
    copy_lem (x ∷ xs) 0 i (omega arith),
    copy_rest (x ∷ xs) (suc i) (length (x ∷ xs) - suc i) (omega arith),
  )

  insert_then_delete :
      (i : ℕ) (xs : List A) (v : A)
      → i ≤ length xs
      → take i (take i xs ++ v ∷ drop i xs) ++ drop (suc i) (take i xs ++ v ∷ drop i xs) ≡ xs
  insert_then_delete zero xs v h = refl
  insert_then_delete (suc i) [] v h = absurd (omega arith)
  insert_then_delete (suc i) (x ∷ xs) v h = λ k. x ∷ insert_then_delete i xs v (omega arith) k

  length_inserted :
      (i : ℕ) (xs : List A) (v : A)
      → i ≤ length xs
      → length (take i xs ++ v ∷ drop i xs) ≡ suc (length xs)
  length_inserted i xs v h =
      omega (arith, length-append (take i xs) (v ∷ drop i xs), length-take i xs, length-drop i xs)

  inserted_there :
      (i : ℕ) (xs : List A) (v : A)
      → i ≤ length xs
      → get_elem? (take i xs ++ v ∷ drop i xs) i ≡ some v
  inserted_there zero xs v h = refl
  inserted_there (suc i) [] v h = absurd (omega arith)
  inserted_there (suc i) (x ∷ xs) v h = inserted_there i xs v (omega arith)

  -- For a position from 1 to one past the end, inserting an element there succeeds, makes the list
  -- one longer and puts the element at that position, and deleting it there gives the list back.
  pub listdelete-listinsert :
      (refs : ℕ) (xs : List A) (v : A) (i : ℕ)
      → i ≤ length xs
      → (ys : List A) × (listinsert refs xs v (pos (suc i)) ≡ some ys)
        × (length ys ≡ suc (length xs))
        × (get_elem? ys i ≡ some v)
        × (listdelete ys (suc i) ≡ some xs)
  listdelete-listinsert refs xs v i h =
      let at : min (suc i - 1) (length xs) ≡ i = omega arith in
      (
        take i xs ++ v ∷ drop i xs,
        rw at at (listinsert_lem refs xs v (pos (suc i))),
        length_inserted i xs v h,
        inserted_there i xs v h,
        listdelete_lem (take i xs ++ v ∷ drop i xs) i (omega (arith, length_inserted i xs v h))
            ∙ ap some (insert_then_delete i xs v h),
      )

  pub listconcat_lem : (xs ys : List A) → listconcat xs ys ≡ some (xs ++ ys)
  unfolding listconcat
  listconcat_lem xs ys = rw (copy_all xs, copy_all ys)

  -- `sublist` of a range that lies in the list is that slice, and of an empty range the empty list.
  pub sublist_lem :
      (xs : List A) (i upper : ℕ)
      → upper ≤ length xs
      → sublist xs (suc i) upper ≡ some (take (upper - i) (drop i xs))
  unfolding sublist
  sublist_lem xs i upper h = elim (Bool-cases (ltb upper (suc i))) [
    | inl e ↦ let none_left : upper - i ≡ 0 = omega (arith, ltb→lt _ _ e) in rw (e, none_left)
    | inr e ↦ rw e (copy_lem xs i (upper - i) (omega (arith, ltb-false _ _ e)))
  ]

  right_lem : (base : List A) (t : ℕ) → right_part base (pos t) ≡ some (drop t base)
  right_lem base t = elim (Bool-cases (leb t (length base))) [
    | inl e ↦ copy_rest base t (length base - t) (omega (arith, leb→le _ _ e))
    | inr e ↦
        let past : length base ≤ t = omega (arith, leb-false _ _ e) in
        let none_left : length base - t ≡ 0 = omega arith in
        rw (none_left, drop_all base t past) (copy_none base t)
  ]

  -- `listrangeset` with `from` at most one past the end of the list keeps what stands before
  -- `from` and after `to`, with the new elements between; it reads no element outside the lists.
  pub listrangeset_lem :
      (base value : List A) (f t : ℕ)
      → f ≤ length base
      → listrangeset base (pos (suc f)) (pos t) value ≡ some (take f base ++ (value ++ drop t base))
  unfolding listrangeset
  listrangeset_lem base value f t h =
      let left : suc f - 1 ≡ f = omega arith in
      rw (left, copy_lem base 0 f (omega arith), copy_all value, right_lem base t)
