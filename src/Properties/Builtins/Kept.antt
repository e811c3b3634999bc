-- ===== src/Properties/Builtins/Kept.antt =====
-- The operations of src/db_properties.c that answer 0 leave the table as it was.
use lambda_moo_plus_foo.Prelude.{
  Option-cases, ℕ, ◌≡◌, refl, inl, inr, Bool, true, false, Option, none, some,
}
use lambda_moo_plus_foo.Text.{Text, str_hash}
use lambda_moo_plus_foo.Value.{Objid, Var}
use lambda_moo_plus_foo.Objects.{Object, Db, dbpriv_find_object, change}
use lambda_moo_plus_foo.Properties.{find_propdef}
use lambda_moo_plus_foo.Properties.Edit.{
  clashes, unless, db_add_propdef, may_not_rename, rename_at, db_rename_propdef,
  remove_prop_recursively, without_propdef, delete_propdef_at, db_delete_propdef,
}

-- The answer 0 leaves the table as it was.
unfoldable pub IsKept : {F : Type 0} → Db F → Option (Bool × Db F) → Type 0
IsKept db none = Unit
IsKept db (some (true, db')) = Unit
IsKept db (some (false, db')) = db' ≡ db

module _ {F : Type 0} (db : Db F) where
  unless-IsKept : (b : Bool) (r : Option (Db F)) → IsKept db (unless b db r)
  unfolding IsKept
  unless-IsKept true r = refl
  unless-IsKept false none = tt
  unless-IsKept false (some db') = tt

  pub db_add_propdef-IsKept :
      (most fuel : ℕ) (oid : Objid) (pname : Text) (value : Var F) (owned_by : Objid) (flags : ℕ)
      → IsKept db (db_add_propdef most fuel oid pname value owned_by flags db)
  unfolding db_add_propdef IsKept
  db_add_propdef-IsKept most fuel oid pname value owned_by flags =
      elim (Option-cases (clashes most fuel db oid pname)) [
        | inl e ↦ rw e tt
        | inr (b, e) ↦ rw e (unless-IsKept b _)
      ]

  pub db_delete_propdef-IsKept :
      (most fuel : ℕ) (oid : Objid) (pname : Text)
      → IsKept db (db_delete_propdef most fuel oid pname db)
  unfolding db_delete_propdef IsKept
  db_delete_propdef-IsKept most fuel oid pname = elim (Option-cases (dbpriv_find_object db oid)) [
    | inl e ↦ rw e tt
    | inr (o, e) ↦ rw e (at_index (find_propdef pname (str_hash pname) 0 o.propdefs))
  ]
    where
      at_index : (i : Option ℕ) → IsKept db (delete_propdef_at most fuel oid i db)
      at_index none = refl
      at_index (some i) = elim (Option-cases (change oid (without_propdef i) db)) [
        | inl e ↦ rw e tt
        | inr (db', e) ↦ elim (Option-cases (remove_prop_recursively most fuel oid i db')) [
          | inl f ↦ rw (e, f) tt
          | inr (db'', f) ↦ rw (e, f) tt
        ]
      ]

  pub db_rename_propdef-IsKept :
      (most fuel : ℕ) (oid : Objid) (old new : Text)
      → IsKept db (db_rename_propdef most fuel oid old new db)
  unfolding db_rename_propdef IsKept
  db_rename_propdef-IsKept most fuel oid old new = elim (Option-cases (dbpriv_find_object db oid)) [
    | inl e ↦ rw e tt
    | inr (o, e) ↦ rw e (at_index o (find_propdef old (str_hash old) 0 o.propdefs))
  ]
    where
      at_index : (o : Object F) (i : Option ℕ) → IsKept db (rename_at most fuel oid old new o i db)
      at_index o none = refl
      at_index o (some i) = elim (Option-cases (may_not_rename most fuel db oid old new)) [
        | inl e ↦ rw e tt
        | inr (b, e) ↦ rw e (unless-IsKept b _)
      ]
