-- ===== src/Properties/Adding.antt =====
-- Adding a property to an object without children, and deleting it again: src/db_properties.c.

use lambda_moo_plus_foo.Properties.Steps.{
  find_last, with_value, table_added, at_added, elsewhere_added, add_propdef-added, table_deleted,
  at_deleted, deleted_resized, elsewhere_deleted, stored_added, db_delete_propdef-deleted,
}
use lambda_moo_plus_foo.Properties.Writes.{free_here, free_built_in}
use lambda_moo_plus_foo.Properties.Layout.{Laid}
use lambda_moo_plus_foo.Prelude.{
  length, pos, ℕ, zero, suc, ◌+◌, ◌<◌, ◌≡◌, refl, ap, ◌∙◌, ◌≢◌, true, false, none, some, arith,
}
use lambda_moo_plus_foo.Value.{Objid, nothing, Var}
use lambda_moo_plus_foo.Objects.{short_bits, Pval, Object, Db, dbpriv_find_object}
use lambda_moo_plus_foo.Objects.Ancestors.{Ranked}
use lambda_moo_plus_foo.Text.{Text, str_hash}
use lambda_moo_plus_foo.Properties.{
  ptable, find_built_in, find_propdef, is_clear, find_from, db_find_property, stored_value, stored,
}
use lambda_moo_plus_foo.Properties.Edit.{room, shrunk, clashes, db_add_propdef, db_delete_propdef}

module _ {F : Type 0} (db : Db F) (rank : Object F → ℕ) (most fuel n : ℕ) (k : Ranked db rank most)
    (laid : Laid db) (o : Object F) (at : dbpriv_find_object db (pos n) ≡ some o) where
  find_first :
      (most : ℕ) (db : Db F) (o : Object F) (pname : Text) (i : ℕ)
      → find_built_in pname ptable ≡ none
      → dbpriv_find_object db (pos n) ≡ some o
      → find_propdef pname (str_hash pname) 0 o.propdefs ≡ some i
      → 0 < most
      → db_find_property most db (pos n) pname ≡ some (some (stored o.id (pos n) i))
  unfolding db_find_property find_from
  find_first zero db o pname i b at h p = absurd (omega arith)
  find_first (suc most) db o pname i b at h p = rw (b, at, h) refl

  -- Take a table with the layout, in which no object is its own ancestor and no line of ancestors is
  -- as long as `most`, and a valid object without children. Adding a property that no object above
  -- or below has, with a value that is not clear, succeeds. The property is then found with that
  -- value, and other objects are as before. Deleting it succeeds, and leaves the object as it was,
  -- but for the size of its array of definitions, and the other objects as they were.
  pub db_delete_propdef-db_add_propdef :
      (pname : Text) (value : Var F) (owned_by : Objid) (flags : ℕ)
      → o.child ≡ nothing
      → is_clear value ≡ false
      → clashes most (suc fuel) db (pos n) pname ≡ some false
      → (db' db'' : Db F) × (db_add_propdef most (suc fuel) (pos n) pname value owned_by flags db
          ≡ some (true, db'))
        × (db_find_property most db' (pos n) pname
            ≡ some (some (stored o.id (pos n) (length o.propdefs))))
        × (stored_value most db' (pos n) (length o.propdefs) ≡ some value)
        × (db_delete_propdef most (suc fuel) (pos n) pname db' ≡ some (true, db''))
        × (dbpriv_find_object db'' (pos n)
            ≡ some (record o {
              max_length = shrunk (length o.propdefs + 1) (room (length o.propdefs) o.max_length);
            }))
        × ((q : Objid)
            → q ≢ pos n
            → (dbpriv_find_object db' q ≡ dbpriv_find_object db q)
              × (dbpriv_find_object db'' q ≡ dbpriv_find_object db q))
  unfolding db_add_propdef
  db_delete_propdef-db_add_propdef pname value owned_by flags bare solid free =
      let pv : Pval F = record { var = value; owner = owned_by; perms = short_bits flags } in
      let last = length o.propdefs in
      let added = at_added db rank most fuel n k laid o at pname pv in
      (
        table_added db rank most fuel n k laid o at pname pv,
        table_deleted db rank most fuel n k laid o at pname pv,
        rw (free, add_propdef-added db rank most fuel n k laid o at pname pv bare) refl,
        find_first most _ (with_value db rank most fuel n k laid o at pname pv) pname last
            (free_built_in db most fuel n o at pname free) added
            (find_last pname o.propdefs (free_here db most fuel n o at pname free))
            (omega (arith, k.below (pos n) o at)),
        stored_added db rank most fuel n k laid o at pname pv solid,
        db_delete_propdef-deleted db rank most fuel n k laid o at pname pv bare
            (free_here db most fuel n o at pname free),
        at_deleted db rank most fuel n k laid o at pname pv
            ∙ ap some (deleted_resized db rank most fuel n k laid o at pname pv),
        λ q h. (
          elsewhere_added db rank most fuel n k laid o at pname pv q h,
          elsewhere_deleted db rank most fuel n k laid o at pname pv q h,
        ),
      )
