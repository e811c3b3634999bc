-- ===== src/Objects/Ancestors.antt =====
-- Tables in which the loops over the ancestors of an object, of src/db_verbs.c and
-- src/db_properties.c, come to an end.
use lambda_moo_plus_foo.Prelude.{ℕ, ◌+◌, ◌<◌, ◌≡◌, some}
use lambda_moo_plus_foo.Value.{Objid}
use lambda_moo_plus_foo.Objects.{Object, Db, dbpriv_find_object}

module _ {F : Type 0} (db : Db F) where
  -- Each object stands in the slot of its number.
  abbrev pub IsNumbered : Type 0
  IsNumbered = (oid : Objid) (o : Object F) → dbpriv_find_object db oid ≡ some o → o.id ≡ oid

  -- No object is its own ancestor, and no line of ancestors is as long as `fuel`.
  pub record Ranked (rank : Object F → ℕ) (fuel : ℕ) : Type 0 where
    pub falls :
        (oid : Objid) (o p : Object F)
        → dbpriv_find_object db oid ≡ some o
        → dbpriv_find_object db o.parent ≡ some p
        → rank p < rank o
    pub below :
        (oid : Objid) (o : Object F) → dbpriv_find_object db oid ≡ some o → rank o + 1 < fuel
