-- ===== src/Properties/Builtins.antt =====
-- The built-in functions on properties: src/property.c. The dispatcher has checked the number and
-- the types of the arguments.
pub mod Changes
pub mod Kept
pub mod Safety
use lambda_moo_plus_foo.Prelude.{
  ◌==◌, if◌then◌else◌, ◌>>=◌, ℕ, ◌+◌, ◌/◌, ◌%◌, Bool, true, false, ◌||◌, Option, none, some, List,
  [], ◌∷◌,
}
use lambda_moo_plus_foo.Text.{Text}
use lambda_moo_plus_foo.Value.{
  Objid, Error, Var, Vars, e_type, e_perm, e_propnf, e_invarg, obj, str, list, nil, cons,
}
use lambda_moo_plus_foo.ListOps.Builtins.{Package, returned, raised, fault}
use lambda_moo_plus_foo.Objects.{Propdef, Object, Db, dbpriv_find_object, valid}
use lambda_moo_plus_foo.Objects.Flags.{read_flag}
use lambda_moo_plus_foo.Objects.Users.{db_object_allows}
use lambda_moo_plus_foo.Properties.{PropHandle, is_clear, db_find_property, built_in, stored}
use lambda_moo_plus_foo.Properties.Values.{
  db_property_value, db_property_owner, db_property_flags, db_property_allows,
}

-- A test that raises an error when it fails.
abbrev pub test_or : {A : Type 0} → Error → Option Bool → Package A → Package A
test_or e none r = fault
test_or e (some false) r = raised e
test_or e (some true) r = r

-- PF_READ and PF_WRITE.
abbrev pub pf_read : ℕ
pf_read = 1

abbrev pub pf_write : ℕ
pf_write = 2

abbrev pub pf_chown : ℕ
pf_chown = 4

abbrev pub has_perm : ℕ → ℕ → Bool
has_perm perms bit = perms / bit % 2 == 1

abbrev pub or_perm : ℕ → ℕ → ℕ
or_perm perms bit = if has_perm perms bit then perms else perms + bit

-- The letters of the three permissions, small and capital.
unfoldable pub perm_of : ℕ → Option ℕ
perm_of c =
    if c == 114 || c == 82
    then some pf_read
    else (if c == 119 || c == 87
        then some pf_write
        else (if c == 99 || c == 67 then some pf_chown else none))

-- `for (*flags = 0, s = ...; *s; s++)`; another character gives none.
unfoldable pub perms_from : ℕ → Text → Option ℕ
unfolding perm_of
perms_from perms [] = some perms
perms_from perms (c ∷ s) = perm_of c >>= λ bit. perms_from (or_perm perms bit) s

-- The letters of permissions, as `bf_prop_info` writes them.
abbrev pub letter_if : Bool → ℕ → Text → Text
letter_if true c s = c ∷ s
letter_if false c s = s

unfoldable pub perm_letters : ℕ → Text
perm_letters perms =
    letter_if (has_perm perms pf_read) 114
      (letter_if (has_perm perms pf_write) 119 (letter_if (has_perm perms pf_chown) 99 []))

-- What `validate_prop_info` stores.
pub record PropInfo : Type 0 where
  pub owned_by : Objid
  pub perms : ℕ
  pub new_name : Option Text

abbrev pub info_of : Objid → Option Text → Option ℕ → Package PropInfo
info_of q new_name none = raised e_invarg
info_of q new_name (some perms) =
    returned (record { owned_by = q; perms = perms; new_name = new_name })

module _ {F : Type 0} where
  abbrev pub checked_info : Db F → Objid → Text → Option Text → Package PropInfo
  checked_info db q s new_name =
      test_or e_invarg (some (valid db q)) (info_of q new_name (perms_from 0 s))

  -- The elements of a list of an object, a text and perhaps a second text.
  abbrev pub shape_of : Var F → Option (Objid × Text × Option Text)
  shape_of (list (cons (obj q) (cons (str s) nil))) = some (q, s, none)
  shape_of (list (cons (obj q) (cons (str s) (cons (str t) nil)))) = some (q, s, some t)
  shape_of v = none

  abbrev pub info_from : Db F → Option (Objid × Text × Option Text) → Package PropInfo
  info_from db none = raised e_type
  info_from db (some (q, s, new_name)) = checked_info db q s new_name

  unfoldable pub validate_prop_info : Db F → Var F → Package PropInfo
  unfolding valid perms_from
  validate_prop_info db v = info_from db (shape_of v)

  -- `db_for_all_propdefs` with `add_to_list`.
  abbrev pub names_of : List Propdef → Vars F
  names_of [] = nil
  names_of (p ∷ ps) = cons (str p.name) (names_of ps)

  abbrev pub names_pack : Option (Object F) → Package (Var F)
  names_pack none = fault
  names_pack (some o) = returned (list (names_of o.propdefs))

  unfoldable pub bf_properties : Db F → Objid → Objid → Package (Var F)
  unfolding valid db_object_allows dbpriv_find_object
  bf_properties db oid progr = test_or e_invarg (some (valid db oid)) (
      test_or e_perm (db_object_allows db oid progr read_flag)
        (names_pack (dbpriv_find_object db oid)))

  abbrev pub info_pack : Option Objid → Option ℕ → Package (Var F)
  info_pack (some q) (some perms) =
      returned (list (cons (obj q) (cons (str (perm_letters perms)) nil)))
  info_pack _ _ = fault

  -- `bf_prop_info` from the handle on.
  unfoldable pub prop_info : Db F → Objid → Option (Option PropHandle) → Package (Var F)
  unfolding db_property_allows db_property_owner db_property_flags perm_letters
  prop_info db progr none = fault
  prop_info db progr (some none) = raised e_propnf
  prop_info db progr (some (some (built_in b oid))) = raised e_propnf
  prop_info db progr (some (some (stored d oid n))) =
      test_or e_perm (db_property_allows db (stored d oid n) progr pf_read)
        (info_pack (db_property_owner db (stored d oid n)) (db_property_flags db (stored d oid n)))

  unfoldable pub bf_prop_info : ℕ → Db F → Objid → Text → Objid → Package (Var F)
  unfolding valid db_find_property prop_info
  bf_prop_info most db oid pname progr =
      test_or e_invarg (some (valid db oid))
        (prop_info db progr (db_find_property most db oid pname))

  abbrev pub clear_value : Option (Var F) → Package Bool
  clear_value none = fault
  clear_value (some v) = returned (is_clear v)

  abbrev pub is_clear_found : ℕ → Db F → Objid → Option (Option PropHandle) → Package Bool
  is_clear_found most db progr none = fault
  is_clear_found most db progr (some none) = raised e_propnf
  is_clear_found most db progr (some (some (built_in b q))) = returned false
  is_clear_found most db progr (some (some (stored d q n))) =
      test_or e_perm (db_property_allows db (stored d q n) progr pf_read)
        (clear_value (db_property_value most db (stored d q n)))

  unfoldable pub bf_is_clear_prop : ℕ → Db F → Objid → Text → Objid → Package Bool
  unfolding valid db_find_property db_property_allows db_property_value
  bf_is_clear_prop most db oid pname progr =
      test_or e_invarg (some (valid db oid))
        (is_clear_found most db progr (db_find_property most db oid pname))
