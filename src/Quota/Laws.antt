-- ===== src/Quota/Laws.antt =====
-- Lowering and raising a quota: src/quota.c.
use lambda_moo_plus_foo.Verbs.Edit.Laws.{lt-of_get_elem?}
use lambda_moo_plus_foo.Verbs.Edit.Adding.{in_slot}
use lambda_moo_plus_foo.Properties.Writes.{changed_here, changed_elsewhere}
use lambda_moo_plus_foo.Properties.Values.{value_of, with_propval, edit_pval, db_set_property_value}
use lambda_moo_plus_foo.Prelude.{
  ◌==◌, ==_iff, Bool-cases, Option-cases, length, get_elem?, set, get_elem?-set_self, pos, negsuc,
  >>=-eq-some, some_injective, ℕ, zero, suc, ◌+◌, ◌-◌, ◌<◌, ◌≡◌, refl, sym, ap, ◌∙◌, ◌⊎◌, inl, inr,
  true, false, ◌||◌, Option, none, some, List, arith,
}
use lambda_moo_plus_foo.Text.{Text}
use lambda_moo_plus_foo.Int32.{Int32, IsInt32, is_negative, add, sub}
use lambda_moo_plus_foo.Value.{
  Objid, Var, FloatEq, int, obj, err, str, float, list, clear, uninit, catch, finally,
}
use lambda_moo_plus_foo.Objects.{Propdef, Pval, Object, Db, dbpriv_find_object, valid, changed}
use lambda_moo_plus_foo.Properties.{
  PropHandle, find_from, db_find_property, skip_clear, stored_value, stored,
}
use lambda_moo_plus_foo.Quota.{
  quota_name, int_of, found_quota, read_quota, set_quota, decr_quota, incr_quota,
}

module _ {F : Type 0} where
  -- What the search for a property looks at in an object.
  shape : Option (Object F) → Option (Objid × List Propdef × Objid)
  shape none = none
  shape (some o) = some (o.id, o.propdefs, o.parent)

  find_from-shape :
      (db db' : Db F) (asked : Objid) (name : Text)
      → ((q : Objid) → shape (dbpriv_find_object db' q) ≡ shape (dbpriv_find_object db q))
      → (fuel n : ℕ) (a b : Option (Object F)) → shape a ≡ shape b
      → find_from fuel db' asked name n a ≡ find_from fuel db asked name n b
  unfolding find_from shape
  find_from-shape db db' asked name same zero n a b h = refl
  find_from-shape db db' asked name same (suc fuel) n none none h = refl
  find_from-shape db db' asked name same (suc fuel) n none (some b) h = cc
  find_from-shape db db' asked name same (suc fuel) n (some a) none h = cc
  find_from-shape db db' asked name same (suc fuel) n (some a) (some b) h =
      let e : a.id ≡ b.id = cc in
      let f : a.propdefs ≡ b.propdefs = cc in
      let g : a.parent ≡ b.parent = cc in
      let rest =
        find_from-shape db db' asked name same fuel (n + length b.propdefs)
          (dbpriv_find_object db' b.parent) (dbpriv_find_object db b.parent) (same b.parent) in
      rw (e, f, g, rest) refl

  db_find_property-shape :
      (db db' : Db F) (most : ℕ) (oid : Objid) (name : Text)
      → ((q : Objid) → shape (dbpriv_find_object db' q) ≡ shape (dbpriv_find_object db q))
      → db_find_property most db' oid name ≡ db_find_property most db oid name
  unfolding db_find_property
  db_find_property-shape db db' most oid name same =
      rw
        (find_from-shape db db' oid name same most 0 (dbpriv_find_object db' oid)
          (dbpriv_find_object db oid) (same oid))
        refl

  int_of-inverse :
      (h h' : PropHandle) (v : Var F) (q : Int32)
      → int_of h v ≡ some (h', q)
      → (h ≡ h') × (v ≡ int q)
  int_of-inverse h h' (int n) q e = (cc, cc)
  int_of-inverse h h' (obj x) q e = cc
  int_of-inverse h h' (err x) q e = cc
  int_of-inverse h h' (str x) q e = cc
  int_of-inverse h h' (float x) q e = cc
  int_of-inverse h h' (list x) q e = cc
  int_of-inverse h h' clear q e = cc
  int_of-inverse h h' uninit q e = cc
  int_of-inverse h h' (catch x) q e = cc
  int_of-inverse h h' (finally x) q e = cc

  read_quota-inverse :
      (db : Db F) (most : ℕ) (oid : Objid) (h : PropHandle) (q : Int32)
      → read_quota most db oid ≡ some (some (h, q))
      → (valid db oid ≡ true)
        × (db_find_property most db oid quota_name ≡ some (some h))
        × (value_of most db h ≡ some (int q))
  unfolding read_quota
  read_quota-inverse db most oid h q e = elim (Bool-cases (valid db oid)) [
    | inr f ↦ cc (rw f at e)
    | inl f ↦
        let (a, b) = found (db_find_property most db oid quota_name) refl (rw f at e) in (f, a, b)
  ]
    where
      found :
          (r : Option (Option PropHandle))
          → db_find_property most db oid quota_name ≡ r
          → found_quota most db r ≡ some (some (h, q))
          → (db_find_property most db oid quota_name ≡ some (some h))
            × (value_of most db h ≡ some (int q))
      found none g k = cc
      found (some none) g k = cc
      found (some (some x)) g k =
          let (v, is, same) = >>=-eq-some (value_of most db x) _ k in
          let (a, b) = int_of-inverse x h v q (some_injective same) in
          (g ∙ ap (λ y. some (some y)) a, sym (ap (value_of most db) a) ∙ is ∙ ap some b)

module _ {F : Type 0} (fl : FloatEq F) (most n : ℕ) (d : Objid) (i : ℕ) where
  -- The quota of the object is `q`, and stands at index `i` of its array or is clear there.
  abbrev pub HasQuota : Db F → Int32 → Type 0
  HasQuota db q = read_quota most db (pos n) ≡ some (some (stored d (pos n) i, q))

  module _ (db : Db F) (q : Int32) (has : HasQuota db q) (m : Int32) (o : Object F)
      (at : dbpriv_find_object db (pos n) ≡ some o) (v : Pval F)
      (there : get_elem? o.propval i ≡ some v) where
    abbrev replaced : List (Pval F)
    replaced = set o.propval i (record v { var = int m })

    abbrev after : Db F
    after = changed n (with_propval replaced) db

    at_after : dbpriv_find_object after (pos n) ≡ some (with_propval replaced o)
    at_after = changed_here (with_propval replaced) db n o at

    shape-after : (x : Objid) → shape (dbpriv_find_object after x) ≡ shape (dbpriv_find_object db x)
    unfolding shape
    shape-after (negsuc x) =
        ap shape (changed_elsewhere (with_propval replaced) db n o (negsuc x) cc)
    shape-after (pos x) = elim (Bool-cases (x == n)) [
      | inl e ↦ let same : x ≡ n = (==_iff x n).0 e in rw (same, at_after, at) refl
      | inr e ↦ ap shape (
          changed_elsewhere (with_propval replaced) db n o (pos x)
            (λ f. cc (f, e, (==_iff n n).1 refl)))
    ]

    set_quota-after : set_quota fl (stored d (pos n) i) m db ≡ some after
    unfolding db_set_property_value edit_pval
    set_quota-after = rw ((in_slot db n o at).1, there) refl

    value_after : 0 < most → value_of most after (stored d (pos n) i) ≡ some (int m)
    unfolding value_of stored_value skip_clear
    value_after h = rw at_after (first_value most h)
      where
        first_value :
            (rounds : ℕ)
            → 0 < rounds
            → skip_clear rounds after i (with_propval replaced o) ≡ some (int m)
        first_value zero h = absurd (omega arith)
        first_value (suc rounds) h =
            rw
              (get_elem?-set_self o.propval i (record v { var = int m })
                (lt-of_get_elem? o.propval i v there))
              refl

    HasQuota-after : 0 < most → HasQuota after m
    unfolding read_quota valid
    HasQuota-after h =
        rw
          (
            db_find_property-shape db after most (pos n) quota_name shape-after,
            (read_quota-inverse db most (pos n) (stored d (pos n) i) q has).1,
            value_after h,
            at_after,
          )
          refl

  skip_clear-bound :
      (rounds : ℕ) (db : Db F) (o : Object F) (w : Var F)
      → skip_clear rounds db i o ≡ some w
      → (v : Pval F) × (0 < rounds) × (get_elem? o.propval i ≡ some v)
  unfolding skip_clear
  skip_clear-bound zero db o w h = cc
  skip_clear-bound (suc rounds) db o w h = elim (Option-cases (get_elem? o.propval i)) [
    | inl e ↦ cc (rw e at h)
    | inr (v, e) ↦ (v, omega arith, e)
  ]

  -- The quota can be set to any number.
  set_quota_total :
      (db : Db F) (q m : Int32)
      → HasQuota db q
      → (db' : Db F) × (set_quota fl (stored d (pos n) i) m db ≡ some db') × HasQuota db' m
  unfolding value_of stored_value valid
  set_quota_total db q m has =
      let (ok, found, is) = read_quota-inverse db most (pos n) (stored d (pos n) i) q has in
      elim (Option-cases (dbpriv_find_object db (pos n))) [
        | inl e ↦ cc (rw e at ok)
        | inr (o, e) ↦
            let (v, h, there) = skip_clear-bound most db o (int q) (rw e at is) in
            (
              after db q has m o e v there,
              set_quota-after db q has m o e v there,
              HasQuota-after db q has m o e v there h,
            )
      ]

  -- A player with an integer for a quota: with none left, or less, `decr_quota` answers 0 and changes
  -- nothing; otherwise it answers 1 and the quota is one less, and `incr_quota` then gives the old
  -- quota back.
  pub incr_quota-decr_quota :
      (db : Db F) (q : Int32)
      → IsInt32 q
      → HasQuota db q
      → (((q == 0 || is_negative q) ≡ true) × (decr_quota fl most (pos n) db ≡ some (false, db)))
        ⊎ (((q == 0 || is_negative q) ≡ false)
            × (db' db'' : Db F) × (decr_quota fl most (pos n) db ≡ some (true, db'))
            × HasQuota db' (q - 1)
            × (incr_quota fl most (pos n) db' ≡ some db'')
            × HasQuota db'' q)
  unfolding decr_quota incr_quota sub add is_negative
  incr_quota-decr_quota db q small has = elim (Bool-cases (q == 0 || is_negative q)) [
    | inl e ↦ inl (e, rw (has, e) refl)
    | inr e ↦
        let less : sub q 1 ≡ q - 1 = ground arith in
        let more : add (q - 1) 1 ≡ q = ground arith in
        let (db', is, has') = set_quota_total db q (q - 1) has in
        let (db'', is', has'') = set_quota_total db' (q - 1) q has' in
        inr (e, db', db'', rw (has, e, less, is) refl, has', rw (has', more, is') refl, has'')
  ]
