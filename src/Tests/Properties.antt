-- ===== src/Tests/Properties.antt =====
-- Properties and quotas in the family.
use lambda_moo_plus_foo.Properties.Values.{value_of}
use lambda_moo_plus_foo.Prelude.{
  ◌==◌, pos, ℕ, ◌≡◌, refl, ◌≢◌, ◌⊎◌, true, false, ◌||◌, Option, some, arith,
}
use lambda_moo_plus_foo.Text.{Text, ascii_tolower, char_diff, mystrcasecmp, hash_step, str_hash}
use lambda_moo_plus_foo.Value.{Objid, Var, int, obj, str, list, nil, cons}
use lambda_moo_plus_foo.Int32.{is_negative}
use lambda_moo_plus_foo.Objects.{Db, dbpriv_find_object, valid}
use lambda_moo_plus_foo.Verbs.Prepositions.{bytes}
use lambda_moo_plus_foo.Properties.{
  ptable, find_built_in, dbpriv_new_propdef, find_propdef, PropHandle, find_from, db_find_property,
  skip_clear, stored_value, stored,
}
use lambda_moo_plus_foo.Properties.Edit.{
  room, shrunk, any_child, property_defined_at_or_below, clashes, db_add_propdef, db_delete_propdef,
}
use lambda_moo_plus_foo.Properties.Layout.{IsReadable, db_find_property-IsReadable}
use lambda_moo_plus_foo.Properties.Adding.{db_delete_propdef-db_add_propdef}
use lambda_moo_plus_foo.Properties.Builtins.Changes.{
  set_prop_info, bf_add_prop, bf_delete_prop, bf_clear_prop,
}
use lambda_moo_plus_foo.Properties.Builtins.Safety.{
  IsSafe, MayDelete, MayAdd, MaySet, MayClear, set_prop_info-IsSafe,
}
use lambda_moo_plus_foo.Quota.{quota_name, read_quota, decr_quota, incr_quota}
use lambda_moo_plus_foo.Quota.Laws.{HasQuota, incr_quota-decr_quota}
use lambda_moo_plus_foo.Tests.World.{floats}
use lambda_moo_plus_foo.Tests.Family.{leaf, family, depth, leaf_at, family-Ranked, family-Laid}

db_find_property-IsReadable_example :
    (h : Option PropHandle) × (db_find_property 3 family (pos 1) quota_name ≡ some h)
    × IsReadable family depth 3 family-Ranked family-Laid (pos 1) h
db_find_property-IsReadable_example =
    db_find_property-IsReadable family depth 3 family-Ranked family-Laid (pos 1) leaf quota_name
      leaf_at

abbrev size : Text
size = bytes "size"

size_free : clashes 3 1 family (pos 1) size ≡ some false
unfolding clashes db_find_property property_defined_at_or_below dbpriv_find_object find_propdef
    find_built_in ptable find_from dbpriv_new_propdef quota_name any_child str_hash hash_step
    ascii_tolower
size_free = refl

db_delete_propdef-db_add_propdef_example :
    (db' db'' : Db ℕ) × (db_add_propdef 3 1 (pos 1) size (int 7) (pos 0) 7 family
      ≡ some (true, db'))
    × (db_find_property 3 db' (pos 1) size ≡ some (some (stored (pos 1) (pos 1) 1)))
    × (stored_value 3 db' (pos 1) 1 ≡ some (int 7))
    × (db_delete_propdef 3 1 (pos 1) size db' ≡ some (true, db''))
    × (dbpriv_find_object db'' (pos 1) ≡ some (record leaf { max_length = shrunk 2 (room 1 8) }))
    × ((q : Objid)
        → q ≢ pos 1
        → (dbpriv_find_object db' q ≡ dbpriv_find_object family q)
          × (dbpriv_find_object db'' q ≡ dbpriv_find_object family q))
db_delete_propdef-db_add_propdef_example =
    db_delete_propdef-db_add_propdef family depth 3 0 1 family-Ranked family-Laid leaf leaf_at size
      (int 7) (pos 0) 7 refl refl size_free

abbrev info : Var ℕ
info = list (cons (obj (pos 0)) (cons (str (bytes "rc")) nil))

set_prop_info-IsSafe_example :
    IsSafe family
      (MayAdd family (pos 1) (pos 0) info)
      (bf_add_prop 3 1 family (pos 1) size (int 7) info (pos 0))
    × IsSafe family
        (MayDelete family (pos 1) (pos 0))
        (bf_delete_prop 3 1 family (pos 1) size (pos 0))
    × IsSafe family
        (MaySet family 3 (pos 1) size (pos 0) info)
        (set_prop_info 3 1 family (pos 1) size info (pos 0))
    × IsSafe family
        (MayClear family 3 (pos 1) size (pos 0))
        (bf_clear_prop floats 3 family (pos 1) size (pos 0))
set_prop_info-IsSafe_example =
    set_prop_info-IsSafe family floats 3 1 (pos 1) size (int 7) info (pos 0)

child_quota : HasQuota floats 3 1 (pos 0) 1 family 5
unfolding read_quota valid db_find_property dbpriv_find_object find_propdef find_built_in ptable
    find_from dbpriv_new_propdef quota_name value_of stored_value skip_clear str_hash hash_step
    ascii_tolower mystrcasecmp char_diff
child_quota = refl

incr_quota-decr_quota_example :
    (((5 == 0 || is_negative 5) ≡ true)
      × (decr_quota floats 3 (pos 1) family ≡ some (false, family)))
    ⊎ (((5 == 0 || is_negative 5) ≡ false)
        × (db' db'' : Db ℕ) × (decr_quota floats 3 (pos 1) family ≡ some (true, db'))
        × HasQuota floats 3 1 (pos 0) 1 db' 4
        × (incr_quota floats 3 (pos 1) db' ≡ some db'')
        × HasQuota floats 3 1 (pos 0) 1 db'' 5)
incr_quota-decr_quota_example =
    incr_quota-decr_quota floats 3 1 (pos 0) 1 family 5 (omega arith) child_quota
