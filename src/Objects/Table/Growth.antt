-- ===== src/Objects/Table/Growth.antt =====
-- Growing the table, the free slots, and new objects.
use lambda_moo_plus_foo.Prelude.{
  ltb, ◌==◌, lt→ltb, ==_iff, Bool-cases, pos, ◌>>=◌, ℕ, zero, suc, ◌+◌, ◌-◌, ◌≤◌, ◌<◌, ◌≡◌, refl,
  ◌⊎◌, inl, inr, true, false, ◌||◌, Option, none, some, arith,
}
use lambda_moo_plus_foo.Value.{nothing}
use lambda_moo_plus_foo.Objects.{
  Object, Db, Link, same_link, get, put, is_some, valid, changed, load, id, owner,
}
use lambda_moo_plus_foo.Objects.Table.{
  last_used_from, db_reset_last_used_objid, ensure_new_object, blank, db_create_object, move_slot,
  db_set_object_number, free_slot, db_renumber_object, db_create_object_with_num,
}

module _ {F : Type 0} where
  -- Some slot below `n` holds an object.
  abbrev pub InUse : (ℕ → Option (Object F)) → ℕ → Type 0
  InUse objects n = (k : ℕ) × (k < n) × (is_some (objects k) ≡ true)

  -- `r` is one past the last slot below `n` that holds an object.
  abbrev pub LastUsed : (ℕ → Option (Object F)) → ℕ → ℕ → Type 0
  LastUsed objects n r =
      (0 < r)
      × (r ≤ n)
      × (is_some (objects (r - 1)) ≡ true)
      × ((k : ℕ) → r ≤ k → k < n → is_some (objects k) ≡ false)

  last_used_from-LastUsed :
      (objects : ℕ → Option (Object F)) (n : ℕ)
      → InUse objects n
      → (r : ℕ) × (last_used_from objects n ≡ some r) × LastUsed objects n r
  unfolding last_used_from
  last_used_from-LastUsed objects zero (k, lt, u) = absurd (omega arith)
  last_used_from-LastUsed objects (suc n) (k, lt, u) = elim (Bool-cases (is_some (objects n))) [
    | inl e ↦
        let top : suc n - 1 ≡ n = omega arith in
        (suc n, rw e refl, (omega arith, omega arith, rw top e, λ j ge below. absurd (omega arith)))
    | inr e ↦
        let (r, is, (p, le, used, free)) = last_used_from-LastUsed objects n (k, below_top e, u) in
        (r, rw e is, (p, omega arith, used, λ j ge below. free_up_to e r free j ge below))
  ]
    where
      below_top : is_some (objects n) ≡ false → k < n
      below_top e = elim (Bool-cases (k == n)) [
        | inl at ↦ cc (u, e, (==_iff k n).0 at)
        | inr ne ↦ ground arith
      ]

      free_up_to :
          is_some (objects n) ≡ false
          → (r : ℕ) → ((j : ℕ) → r ≤ j → j < n → is_some (objects j) ≡ false)
          → (j : ℕ) → r ≤ j
          → j < suc n
          → is_some (objects j) ≡ false
      free_up_to e r free j ge below = elim (Bool-cases (j == n)) [
        | inl at ↦ rw ((==_iff j n).0 at) e
        | inr ne ↦ free j ge (ground arith)
      ]

  -- If any slot is in use, `db_reset_last_used_objid` ends, changes nothing but the number of slots,
  -- and sets that to one past the last slot in use.
  pub db_reset_last_used_objid_lem :
      (db : Db F)
      → InUse db.objects db.num_objects
      → (r : ℕ) × (db_reset_last_used_objid db ≡ some (record db { num_objects = r }))
        × LastUsed db.objects db.num_objects r
  unfolding db_reset_last_used_objid
  db_reset_last_used_objid_lem db u =
      let (r, is, l) = last_used_from-LastUsed db.objects db.num_objects u in (r, rw is refl, l)

  -- With at most as many objects as slots, growing leaves room for one more and drops no object.
  pub ensure_new_object_lem :
      (db : Db F)
      → db.num_objects ≤ db.max_objects
      → (db.num_objects < (ensure_new_object db).max_objects)
        × (db.max_objects ≤ (ensure_new_object db).max_objects)
  unfolding ensure_new_object
  ensure_new_object_lem db h = ground arith

  -- In a table with no more objects than slots, a new object takes the number behind the last one
  -- in use. That number is valid afterwards and was not before, every link of the object but its
  -- number and its owner is NOTHING, no other slot changes, and there are still no more objects than
  -- slots.
  pub db_create_object_lem :
      (raw : Object F) (db : Db F)
      → db.num_objects ≤ db.max_objects
      → ((db_create_object raw db).0 ≡ pos db.num_objects)
        × (valid db (pos db.num_objects) ≡ false)
        × (valid (db_create_object raw db).1 (pos db.num_objects) ≡ true)
        × ((g : Link)
            → (same_link g id || same_link g owner) ≡ false
            → load g (pos db.num_objects) (db_create_object raw db).1 ≡ some nothing)
        × ((n : ℕ)
            → (n == db.num_objects) ≡ false
            → (db_create_object raw db).1.objects n ≡ db.objects n)
        × ((db_create_object raw db).1.num_objects ≤ (db_create_object raw db).1.max_objects)
  unfolding db_create_object changed valid load ensure_new_object
  db_create_object_lem raw db h =
      let self : (db.num_objects == db.num_objects) ≡ true = (==_iff _ _).1 refl in
      let inside : ltb db.num_objects (db.num_objects + 1) ≡ true = lt→ltb _ _ (omega arith) in
      let outside : ltb db.num_objects db.num_objects ≡ false = ground arith in
      (
        refl,
        rw outside refl,
        rw (inside, self) refl,
        λ g out. rw self (linked_to_nothing g out),
        λ n ne. rw ne refl,
        ground arith,
      )
    where
      linked_to_nothing :
          (g : Link)
          → (same_link g id || same_link g owner) ≡ false
          → some (get g (blank (put id (pos db.num_objects) raw))) ≡ some nothing
      linked_to_nothing id h = cc
      linked_to_nothing owner h = cc
      linked_to_nothing _ h = refl

  -- The least free slot from `new` on, if any of the `n` slots there is free.
  free_slot_lem :
      (db : Db F) (new n : ℕ)
      → ((free_slot db new n ≡ none)
          × ((k : ℕ) → new ≤ k → k < new + n → is_some (db.objects k) ≡ true))
        ⊎ ((k : ℕ) × (free_slot db new n ≡ some k)
            × (new ≤ k)
            × (k < new + n)
            × (is_some (db.objects k) ≡ false)
            × ((j : ℕ) → new ≤ j → j < k → is_some (db.objects j) ≡ true))
  unfolding free_slot
  free_slot_lem db new zero = inl (refl, λ k ge lt. absurd (omega arith))
  free_slot_lem db new (suc n) = elim (Bool-cases (is_some (db.objects new))) [
    | inr e ↦ inr (new, rw e refl, omega arith, omega arith, e, λ j ge lt. absurd (omega arith))
    | inl e ↦ elim (free_slot_lem db (suc new) n) [
      | inl (is, all) ↦ inl (rw e is, λ k ge lt. from_next k ge (λ ge'. all k ge' (omega arith)) e)
      | inr (k, is, ge, lt, free, before) ↦ inr (
        k,
        rw e is,
        omega arith,
        omega arith,
        free,
        λ j ge' lt'. from_next j ge' (λ ge''. before j ge'' lt') e,
      )
    ]
  ]
    where
      from_next :
          (k : ℕ)
          → new ≤ k
          → (suc new ≤ k → is_some (db.objects k) ≡ true)
          → is_some (db.objects new) ≡ true
          → is_some (db.objects k) ≡ true
      from_next k ge later e = elim (Bool-cases (k == new)) [
        | inl at ↦ rw ((==_iff k new).0 at) e
        | inr ne ↦ later (ground arith)
      ]

  -- `db_renumber_object` changes nothing if every slot below `old` is in use; otherwise it renumbers
  -- the object to the least free slot below `old`, by `db_set_object_number`.
  pub db_renumber_object_lem :
      (fuel old : ℕ) (db : Db F)
      → ((db_renumber_object fuel old db ≡ some (pos old, db))
          × ((k : ℕ) → k < old → is_some (db.objects k) ≡ true))
        ⊎ ((new : ℕ) × (new < old)
            × (is_some (db.objects new) ≡ false)
            × ((j : ℕ) → j < new → is_some (db.objects j) ≡ true)
            × (db_renumber_object fuel old db
                ≡ (db_set_object_number fuel old new db >>= λ db'. some (pos new, db'))))
  unfolding db_renumber_object
  db_renumber_object_lem fuel old db = elim (free_slot_lem db 0 old) [
    | inl (is, all) ↦ inl (rw is refl, λ k lt. all k (omega arith) (omega arith))
    | inr (k, is, ge, lt, free, before) ↦
        inr (k, omega arith, free, λ j lt'. before j (omega arith) lt', rw is refl)
  ]

  move_slot_self : (n : ℕ) (db : Db F) → move_slot n n db ≡ none
  unfolding move_slot
  move_slot_self n db = rw ((==_iff n n).1 refl) refl

  set_object_number_self : (fuel n : ℕ) (db : Db F) → db_set_object_number fuel n n db ≡ none
  unfolding db_set_object_number
  set_object_number_self fuel n db = elim (Bool-cases (valid db (pos n))) [
    | inl e ↦ rw e refl
    | inr e ↦ rw (e, move_slot_self n db) refl
  ]

  next_not_valid : (db : Db F) → valid db (pos db.num_objects) ≡ false
  unfolding valid
  next_not_valid db =
      let out : ltb db.num_objects db.num_objects ≡ false = ground arith in rw out refl

  -- Asking for exactly the number behind the last one in use passes the test of the number and then
  -- faults: the new object is moved from its slot to that same slot, which is cleared before its
  -- number is written through it.
  pub db_create_object_with_num-next :
      (fuel : ℕ) (raw : Object F) (db : Db F)
      → db_create_object_with_num fuel raw (pos db.num_objects) db ≡ none
  unfolding db_create_object_with_num
  db_create_object_with_num-next fuel raw db =
      let out : ltb db.num_objects db.num_objects ≡ false = ground arith in
      rw (out, next_not_valid db, set_object_number_self fuel db.num_objects _) refl
