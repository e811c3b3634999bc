-- ===== src/Objects/Users/Laws.antt =====
-- Setting and clearing flags, and the list of all users.
use lambda_moo_plus_foo.Prelude.{
  ltb, ◌==◌, ==_iff, Bool-cases, Option-cases, length, ◌==ℤ◌, pos, ℕ, suc, ◌+◌, ◌<◌, ◌≡◌, refl, sym,
  ap, ◌∙◌, ◌⊎◌, inl, inr, true, false, ◌&&◌, some, List, [], ◌∷◌, ◌++◌, arith,
}
use lambda_moo_plus_foo.Value.{Objid, Var, FloatEq, equality_flat, equality, obj}
use lambda_moo_plus_foo.Value.Equality.{equality_refl}
use lambda_moo_plus_foo.ListOps.{ismember_from, ismember, setadd}
use lambda_moo_plus_foo.ListOps.Slices.{listappend_lem}
use lambda_moo_plus_foo.ListOps.Sets.{Lacks, ismember_from-append, ismember_from-ge}
use lambda_moo_plus_foo.Objects.{Object, Db, valid, changed, change}
use lambda_moo_plus_foo.Objects.Flags.{
  Flag, flag_bit, same_flag, has_bit, set_bit, has_bit-set_bit, user, programmer, wizard,
  obsolete_1, read_flag, write_flag, obsolete_2, fertile,
}
use lambda_moo_plus_foo.Objects.Users.{
  set_flags, is_user_flag, db_object_has_flag, update_users, db_set_object_flag,
}

-- The list of users holds object numbers only.
abbrev pub AreObjects : {F : Type 0} → List (Var F) → Type 0
AreObjects [] = Unit
AreObjects (v ∷ vs) = ((o : Objid) × (v ≡ obj o)) × AreObjects vs

module _ {F : Type 0} (fl : FloatEq F) where
  AreObjects-append :
      (xs : List (Var F)) (o : Objid) → AreObjects xs → AreObjects (xs ++ obj o ∷ [])
  AreObjects-append [] o h = ((o, refl), tt)
  AreObjects-append (x ∷ xs) o h = (h.0, AreObjects-append xs o h.1)

  -- The search for an object number ends, at 0 or at a position.
  ismember_from-total :
      (o : Objid) (k : ℕ) (xs : List (Var F))
      → AreObjects xs
      → (ismember_from fl false (obj o) k xs ≡ some 0)
        ⊎ ((i : ℕ) × (ismember_from fl false (obj o) k xs ≡ some (k + i)) × (i < length xs))
  unfolding ismember_from equality equality_flat
  ismember_from-total o k [] h = inl refl
  ismember_from-total o k (x ∷ xs) ((p, is), h) = elim (Bool-cases (o ==ℤ p)) [
    | inl e ↦ inr (0, rw (is, e) (ap some (omega arith)), omega arith)
    | inr e ↦ elim (ismember_from-total o (k + 1) xs h) [
      | inl r ↦ inl (rw (is, e) r)
      | inr (i, r, lt) ↦ inr (suc i, rw (is, e) (r ∙ ap some (omega arith)), omega arith)
    ]
  ]

  Lacks-of_zero :
      (o : Objid) (k : ℕ) (xs : List (Var F))
      → AreObjects xs
      → 0 < k
      → ismember_from fl false (obj o) k xs ≡ some 0
      → Lacks fl false (obj o) xs
  Lacks-of_zero o k xs h pos_k e = elim (ismember_from-ge fl false (obj o) k xs 0 pos_k e) [
    | inl l ↦ l
    | inr (i, is, lt) ↦ absurd (omega arith)
  ]

  obj_eq : (o : Objid) → equality fl false (obj o) (obj o) ≡ some true
  obj_eq o = equality_refl fl false (obj o) tt

  -- Adding a user: the list holds object numbers still, and the new one is found in it.
  setadd_user :
      (refs : ℕ) (xs : List (Var F)) (o : Objid)
      → AreObjects xs
      → (us : List (Var F)) × (setadd fl refs xs (obj o) ≡ some us)
        × AreObjects us
        × ((k : ℕ) × (ismember fl (obj o) us false ≡ some (suc k)))
  unfolding setadd ismember
  setadd_user refs xs o h = elim (ismember_from-total o 1 xs h) [
    | inl r ↦
        let lacks = Lacks-of_zero o 1 xs h (omega arith) r in
        (
          xs ++ obj o ∷ [],
          rw r (listappend_lem refs xs (obj o)),
          AreObjects-append xs o h,
          (
            length xs,
            ismember_from-append fl false (obj o) 1 xs [] (obj o) lacks (obj_eq o)
                ∙ ap some (omega arith),
          ),
        )
    | inr (i, r, lt) ↦
        let at : ismember_from fl false (obj o) 1 xs ≡ some (suc i) = r ∙ ap some (omega arith) in
        (xs, rw at refl, h, (i, at))
  ]

  -- The object that a valid number names.
  object_of_valid :
      (db : Db F) (m : ℕ) → valid db (pos m) ≡ true → (o : Object F) × (db.objects m ≡ some o)
  unfolding valid
  object_of_valid db m h = elim (Bool-cases (ltb m db.num_objects)) [
    | inr e ↦ cc (rw e at h)
    | inl e ↦ elim (Option-cases (db.objects m)) [
      | inl gone ↦ cc (rw (e, gone) at h)
      | inr found ↦ found
    ]
  ]

  change-valid :
      (db : Db F) (m : ℕ) (h : Object F → Object F)
      → valid db (pos m) ≡ true
      → change (pos m) h db ≡ some (changed m h db)
  unfolding change
  change-valid db m h ok = rw (object_of_valid db m ok).1 refl

  -- The flags of the objects after the flags of one have changed.
  flag_there :
      (db : Db F) (m : ℕ) (h : ℕ → ℕ) (g : Flag) (o : Object F)
      → db.objects m ≡ some o
      → db_object_has_flag (changed m (set_flags h) db) (pos m) g ≡ some (has_bit (h o.flags) g)
  unfolding db_object_has_flag changed
  flag_there db m h g o is = rw ((==_iff m m).1 refl, is) refl

  flag_elsewhere :
      (db : Db F) (m : ℕ) (h : ℕ → ℕ) (n : ℕ) (g : Flag)
      → (n == m) ≡ false
      → db_object_has_flag (changed m (set_flags h) db) (pos n) g ≡ db_object_has_flag db (pos n) g
  unfolding db_object_has_flag changed
  flag_elsewhere db m h n g e = rw e refl

  flag_before :
      (db : Db F) (m : ℕ) (g : Flag) (o : Object F)
      → db.objects m ≡ some o
      → db_object_has_flag db (pos m) g ≡ some (has_bit o.flags g)
  unfolding db_object_has_flag
  flag_before db m g o is = rw is refl

  -- What becomes of the list of users.
  users_step :
      (refs : ℕ) (o : Objid) (f : Flag) (db : Db F)
      → AreObjects db.all_users
      → (us : List (Var F)) × (update_users fl (is_user_flag f) (λ us. setadd fl refs us (obj o)) db
          ≡ some (record db { all_users = us }))
        × AreObjects us
        × (f ≡ user → (k : ℕ) × (ismember fl (obj o) us false ≡ some (suc k)))
  users_step refs o user db h =
      let (us, is, objs, found) = setadd_user refs db.all_users o h in
      (us, rw is refl, objs, λ _. found)
  users_step refs o programmer db h = (db.all_users, refl, h, λ e. cc)
  users_step refs o wizard db h = (db.all_users, refl, h, λ e. cc)
  users_step refs o obsolete_1 db h = (db.all_users, refl, h, λ e. cc)
  users_step refs o read_flag db h = (db.all_users, refl, h, λ e. cc)
  users_step refs o write_flag db h = (db.all_users, refl, h, λ e. cc)
  users_step refs o obsolete_2 db h = (db.all_users, refl, h, λ e. cc)
  users_step refs o fertile db h = (db.all_users, refl, h, λ e. cc)

  flags_ignore_users :
      (db : Db F) (us : List (Var F)) (n : ℕ) (g : Flag)
      → db_object_has_flag (record db { all_users = us }) (pos n) g
        ≡ db_object_has_flag db (pos n) g
  unfolding db_object_has_flag
  flags_ignore_users db us n g = refl

  -- Setting a flag of a valid object, in a table whose list of users holds object numbers only, runs
  -- without a fault. After it that object has the flag, every other flag of every object is as
  -- before, the list of users still holds object numbers only, and if the flag is the one that marks
  -- a user, the object is found in that list.
  pub db_set_object_flag_lem :
      (refs : ℕ) (m : ℕ) (f : Flag) (db : Db F)
      → valid db (pos m) ≡ true
      → AreObjects db.all_users
      → (db' : Db F) × (db_set_object_flag fl refs (pos m) f db ≡ some db')
        × (db_object_has_flag db' (pos m) f ≡ some true)
        × ((n : ℕ) (g : Flag)
            → (n == m && same_flag f g) ≡ false
            → db_object_has_flag db' (pos n) g ≡ db_object_has_flag db (pos n) g)
        × AreObjects db'.all_users
        × (f ≡ user → (k : ℕ) × (ismember fl (obj (pos m)) db'.all_users false ≡ some (suc k)))
  unfolding db_set_object_flag changed
  db_set_object_flag_lem refs m f db ok us =
      let (o, is) = object_of_valid db m ok in
      let db₁ = changed m (set_flags (λ n. set_bit n f)) db in
      let (us', step, objs, found) = users_step refs (pos m) f db₁ us in
      (
        record db₁ { all_users = us' },
        rw (change-valid db m (set_flags (λ n. set_bit n f)) ok) step,
        flags_ignore_users db₁ us' m f
            ∙ flag_there db m (λ n. set_bit n f) f o is
            ∙ ap some
                (has_bit-set_bit o.flags f f ∙ rw ((==_iff (flag_bit f) (flag_bit f)).1 refl)),
        λ n g out. flags_ignore_users db₁ us' n g ∙ elim (Bool-cases (n == m)) [
          | inr e ↦ flag_elsewhere db m (λ n. set_bit n f) n g e
          | inl e ↦
              let other : same_flag f g ≡ false = rw e at out in
              rw ((==_iff n m).0 e) (
                flag_there db m (λ n. set_bit n f) g o is
                ∙ ap some (has_bit-set_bit o.flags f g ∙ rw other)
                ∙ sym (flag_before db m g o is))
        ],
        objs,
        found,
      )
