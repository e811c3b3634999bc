-- ===== src/Properties/Builtins/Changes.antt =====
-- The built-in functions of src/property.c that change the table. Each gives the error that it ends
-- with, E_NONE for a success, and the table then; a fault is `none`.
use lambda_moo_plus_foo.Prelude.{◌==ℤ◌, ◌>>=◌, ℕ, Bool, true, false, not, ◌||◌, Option, none, some}
use lambda_moo_plus_foo.Text.{Text}
use lambda_moo_plus_foo.Value.{
  Objid, Error, Var, FloatEq, e_none, e_type, e_perm, e_propnf, e_invarg, clear,
}
use lambda_moo_plus_foo.ListOps.Builtins.{Package, returned, raised, fault}
use lambda_moo_plus_foo.Objects.{Db, valid}
use lambda_moo_plus_foo.Objects.Flags.{write_flag}
use lambda_moo_plus_foo.Objects.Users.{is_wizard, db_object_allows}
use lambda_moo_plus_foo.Properties.{PropHandle, db_find_property, built_in, stored}
use lambda_moo_plus_foo.Properties.Values.{
  db_property_owner, db_set_property_owner, db_set_property_flags, db_property_allows,
  db_set_property_value,
}
use lambda_moo_plus_foo.Properties.Edit.{db_add_propdef, db_rename_propdef, db_delete_propdef}
use lambda_moo_plus_foo.Properties.Builtins.{pf_write, PropInfo, validate_prop_info}

abbrev pub is_missing : Option Text → Bool
is_missing none = true
is_missing (some t) = false

module _ {F : Type 0} where
  -- A test that ends a function with an error, and the table as it is, when it fails.
  abbrev pub or_error : Error → Db F → Option Bool → Option (Error × Db F) → Option (Error × Db F)
  or_error e db none r = none
  or_error e db (some false) r = some (e, db)
  or_error e db (some true) r = r

  -- The error that stands for the answer 0.
  abbrev pub error_if : Error → Option (Bool × Db F) → Option (Error × Db F)
  error_if e none = none
  error_if e (some (false, db)) = some (e, db)
  error_if e (some (true, db)) = some (e_none, db)

  abbrev pub no_error : Option (Db F) → Option (Error × Db F)
  no_error none = none
  no_error (some db) = some (e_none, db)

  -- The two writes at the end of `set_prop_info`.
  abbrev pub set_info : PropInfo → Option (Option PropHandle) → Db F → Option (Db F)
  set_info info (some (some h)) db =
      db_set_property_owner h info.owned_by db >>= db_set_property_flags h info.perms
  set_info info _ db = none

  -- After the renaming the property is looked up again, by its new name.
  abbrev pub renamed_info :
      ℕ → Objid → Text → PropInfo → Option (Bool × Db F) → Option (Error × Db F)
  renamed_info most oid t info none = none
  renamed_info most oid t info (some (false, db)) = some (e_invarg, db)
  renamed_info most oid t info (some (true, db)) =
      no_error (set_info info (db_find_property most db oid t) db)

  abbrev pub rename_first :
      ℕ → ℕ → Db F → Objid → Text → PropInfo → PropHandle → Option Text → Option (Error × Db F)
  rename_first most fuel db oid pname info h none = no_error (set_info info (some (some h)) db)
  rename_first most fuel db oid pname info h (some t) =
      renamed_info most oid t info (db_rename_propdef most fuel oid pname t db)

  -- `!is_wizard(progr) && db_property_owner(h) != new_owner` is false.
  abbrev pub may_own : Db F → Objid → Objid → Option Objid → Option Bool
  may_own db progr new_owner none = none
  may_own db progr new_owner (some q) = some (is_wizard db progr || q ==ℤ new_owner)

  abbrev pub set_found_info :
      ℕ
      → ℕ
      → Db F
      → Objid
      → Text
      → Objid
      → PropInfo
      → Option (Option PropHandle)
      → Option (Error × Db F)
  set_found_info most fuel db oid pname progr info none = none
  set_found_info most fuel db oid pname progr info (some none) = some (e_propnf, db)
  set_found_info most fuel db oid pname progr info (some (some (built_in b q))) =
      some (e_propnf, db)
  set_found_info most fuel db oid pname progr info (some (some (stored d q n))) =
      or_error e_perm db (db_property_allows db (stored d q n) progr pf_write) (
        or_error e_perm db (may_own db progr info.owned_by (db_property_owner db (stored d q n)))
          (rename_first most fuel db oid pname info (stored d q n) info.new_name))

  abbrev pub with_info :
      Db F → Package PropInfo → (PropInfo → Option (Error × Db F)) → Option (Error × Db F)
  with_info db fault f = none
  with_info db (raised e) f = some (e, db)
  with_info db (returned info) f = f info

  unfoldable pub set_prop_info : ℕ → ℕ → Db F → Objid → Text → Var F → Objid → Option (Error × Db F)
  unfolding valid validate_prop_info db_find_property db_property_allows db_property_owner is_wizard
      db_rename_propdef db_set_property_owner db_set_property_flags
  set_prop_info most fuel db oid pname info progr = or_error e_invarg db (some (valid db oid)) (
      with_info db (validate_prop_info db info)
        (λ i. set_found_info most fuel db oid pname progr i (db_find_property most db oid pname)))

  -- `bf_set_prop_info` packs what `set_prop_info` ends with.
  unfoldable pub bf_set_prop_info :
      ℕ → ℕ → Db F → Objid → Text → Var F → Objid → Option (Error × Db F)
  unfolding set_prop_info
  bf_set_prop_info most fuel db oid pname info progr =
      set_prop_info most fuel db oid pname info progr

  unfoldable pub bf_add_prop :
      ℕ → ℕ → Db F → Objid → Text → Var F → Var F → Objid → Option (Error × Db F)
  unfolding valid validate_prop_info db_object_allows is_wizard db_add_propdef
  bf_add_prop most fuel db oid pname value info progr =
      with_info db (validate_prop_info db info) (λ i.
        or_error e_type db (some (is_missing i.new_name)) (
          or_error e_invarg db (some (valid db oid)) (
            or_error e_perm db (db_object_allows db oid progr write_flag) (
              or_error e_perm db (some (progr ==ℤ i.owned_by || is_wizard db progr)) (
                error_if e_invarg
                  (db_add_propdef most fuel oid pname value i.owned_by i.perms db))))))

  unfoldable pub bf_delete_prop : ℕ → ℕ → Db F → Objid → Text → Objid → Option (Error × Db F)
  unfolding valid db_object_allows db_delete_propdef
  bf_delete_prop most fuel db oid pname progr = or_error e_invarg db (some (valid db oid)) (
      or_error e_perm db (db_object_allows db oid progr write_flag)
        (error_if e_propnf (db_delete_propdef most fuel oid pname db)))

  abbrev pub owner_or_wizard : Db F → Objid → Option Objid → Option Bool
  owner_or_wizard db progr none = none
  owner_or_wizard db progr (some q) = some (progr ==ℤ q || is_wizard db progr)

module _ {F : Type 0} (fl : FloatEq F) where
  abbrev pub clear_found : Db F → Objid → Objid → Option (Option PropHandle) → Option (Error × Db F)
  clear_found db oid progr none = none
  clear_found db oid progr (some none) = some (e_propnf, db)
  clear_found db oid progr (some (some (built_in b q))) = some (e_perm, db)
  clear_found db oid progr (some (some (stored d q n))) =
      or_error e_perm db (owner_or_wizard db progr (db_property_owner db (stored d q n))) (
        or_error e_invarg db (some (not (d ==ℤ oid)))
          (no_error (db_set_property_value fl 1 (stored d q n) clear db)))

  unfoldable pub bf_clear_prop : ℕ → Db F → Objid → Text → Objid → Option (Error × Db F)
  unfolding valid db_find_property db_property_owner is_wizard db_set_property_value
  bf_clear_prop most db oid pname progr =
      or_error e_invarg db (some (valid db oid))
        (clear_found db oid progr (db_find_property most db oid pname))
