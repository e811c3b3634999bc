-- ===== src/Properties/Writes.antt =====
-- A write to one object: what the loops of src/db_properties.c over its ancestors, and over the
-- definitions at and below it, find after or before it.
use lambda_moo_plus_foo.Prelude.{
  ◌==◌, ==_iff, Bool-cases, Option-cases, length, pos, negsuc, ◌>>=◌, >>=-eq-some, some_injective,
  ℕ, zero, suc, ◌+◌, ◌<◌, ◌≡◌, refl, ap, ◌≢◌, inl, inr, Bool, true, false, Option, none, some,
  arith,
}
use lambda_moo_plus_foo.Text.{Text, str_hash}
use lambda_moo_plus_foo.Value.{Objid, nothing}
use lambda_moo_plus_foo.Objects.{Object, Db, set_slot, dbpriv_find_object, changed, change}
use lambda_moo_plus_foo.Objects.Table.{dbpriv_count_properties}
use lambda_moo_plus_foo.Objects.Ancestors.{Ranked}
use lambda_moo_plus_foo.Verbs.Edit.Adding.{in_slot}
use lambda_moo_plus_foo.Properties.{
  BuiltIn, ptable, find_built_in, find_propdef, PropHandle, built_in_or, db_find_property,
}
use lambda_moo_plus_foo.Properties.Edit.{
  or_else, is_found, is_handle, each_child, property_defined_at_or_below, clashes,
}

-- The table after a write to one object.
module _ {F : Type 0} (f : Object F → Object F) (db : Db F) (n : ℕ) (o : Object F) where
  pub changed_here :
      dbpriv_find_object db (pos n) ≡ some o
      → dbpriv_find_object (changed n f db) (pos n) ≡ some (f o)
  unfolding dbpriv_find_object changed set_slot
  changed_here at = let (low, e) = in_slot db n o at in rw (low, (==_iff n n).1 refl, e) refl

  pub change-changed :
      dbpriv_find_object db (pos n) ≡ some o → change (pos n) f db ≡ some (changed n f db)
  unfolding change
  change-changed at = let (low, e) = in_slot db n o at in rw e refl

  pub changed_elsewhere :
      (q : Objid) → q ≢ pos n → dbpriv_find_object (changed n f db) q ≡ dbpriv_find_object db q
  unfolding dbpriv_find_object changed set_slot
  changed_elsewhere (pos m) h = elim (Bool-cases (m == n)) [
    | inl e ↦ absurd (h (ap pos ((==_iff m n).0 e)))
    | inr e ↦ rw e refl
  ]
  changed_elsewhere (negsuc m) h = refl

module _ {F : Type 0} (db db' : Db F) (rank : Object F → ℕ) (most : ℕ) (k : Ranked db rank most)
    (n : ℕ) (o : Object F) (at : dbpriv_find_object db (pos n) ≡ some o)
    (same : (q : Objid) → q ≢ pos n → dbpriv_find_object db' q ≡ dbpriv_find_object db q) where
  -- Counting the properties above an object does not look at the object.
  count_above :
      (fuel : ℕ) (q : Objid)
      → ((x : Object F) → dbpriv_find_object db q ≡ some x → rank x < rank o)
      → dbpriv_count_properties fuel db' q ≡ dbpriv_count_properties fuel db q
  unfolding dbpriv_count_properties
  count_above zero q h = refl
  count_above (suc fuel) q h = elim (Option-cases (dbpriv_find_object db q)) [
    | inl e ↦ rw (same q (λ f. cc (e, f, at)), e) refl
    | inr (x, e) ↦
        let less = h x e in
        let apart : q ≢ pos n = λ f.
          let same_object : x ≡ o = cc (e, f, at) in absurd (omega (arith, ap rank same_object)) in
        rw (same q apart, e)
          (λ i. count_above fuel x.parent (λ y f. omega (arith, k.falls q x y e f)) i >>= λ m.
            some (length x.propdefs + m))
  ]

  -- Counting the object's own, when it has `m` definitions more.
  pub count_here :
      (o' : Object F) (m fuel c : ℕ)
      → dbpriv_find_object db' (pos n) ≡ some o'
      → o'.parent ≡ o.parent
      → length o'.propdefs ≡ length o.propdefs + m
      → dbpriv_count_properties fuel db (pos n) ≡ some c
      → dbpriv_count_properties fuel db' (pos n) ≡ some (c + m)
  unfolding dbpriv_count_properties
  count_here o' m zero c here up long h = cc
  count_here o' m (suc fuel) c here up long h =
      let (a, e, f) =
        >>=-eq-some (dbpriv_count_properties fuel db o.parent) (λ a. some (length o.propdefs + a))
          (rw at at h) in
      rw (here, up, count_above fuel o.parent (λ y g. k.falls (pos n) o y at g), e)
        (ap some (omega (arith, some_injective f)))

pub each_child_none :
    {F : Type 0} (most : ℕ) (f : Objid → Db F → Option (Db F)) (c : Objid) (db : Db F)
    → 0 < most
    → c ≡ nothing
    → each_child most f c db ≡ some db
unfolding each_child
each_child_none zero f c db h e = absurd (omega arith)
each_child_none (suc most) f c db h e = rw e refl

or_else-false : (b : Bool) (r : Option Bool) → or_else (some b) r ≡ some false → b ≡ false
or_else-false true r h = cc
or_else-false false r h = refl

or_else_rest : (b : Bool) (r : Option Bool) → or_else (some b) r ≡ some false → r ≡ some false
or_else_rest true r h = cc
or_else_rest false r h = h

none_found : (r : Option ℕ) → is_found r ≡ false → r ≡ none
none_found none h = refl
none_found (some i) h = cc

no_handle : (r : Option PropHandle) → is_handle r ≡ false → r ≡ none
no_handle none h = refl
no_handle (some i) h = cc

built_in_none :
    (oid : Objid) (b : Option BuiltIn) (r : Option (Option PropHandle))
    → built_in_or oid b r ≡ some none
    → b ≡ none
built_in_none oid none r h = refl
built_in_none oid (some b) r h = cc

module _ {F : Type 0} (db : Db F) (most fuel n : ℕ) (o : Object F)
    (at : dbpriv_find_object db (pos n) ≡ some o) (pname : Text)
    (free : clashes most (suc fuel) db (pos n) pname ≡ some false) where
  free_below :
      property_defined_at_or_below most (suc fuel) db pname (str_hash pname) (pos n) ≡ some false
  unfolding clashes
  free_below =
      let (h, e, f) = >>=-eq-some (db_find_property most db (pos n) pname) _ free in
      or_else_rest (is_handle h) _ f

  pub free_here : find_propdef pname (str_hash pname) 0 o.propdefs ≡ none
  unfolding property_defined_at_or_below
  free_here =
      let h = free_below in
      none_found (find_propdef pname (str_hash pname) 0 o.propdefs) (or_else-false _ _ (rw at at h))

  pub free_built_in : find_built_in pname ptable ≡ none
  unfolding clashes db_find_property
  free_built_in =
      let (h, e, f) = >>=-eq-some (db_find_property most db (pos n) pname) _ free in
      let none_there : h ≡ none = no_handle h (or_else-false (is_handle h) _ f) in
      built_in_none (pos n) (find_built_in pname ptable) _ (rw none_there at e)
