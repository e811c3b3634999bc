-- ===== src/Quota.antt =====
-- The quota of objects that a player may own: src/quota.c. It is the property "ownership_quota".
pub mod Laws
use lambda_moo_plus_foo.Prelude.{
  ◌==◌, if◌then◌else◌, ◌>>=◌, ℕ, Bool, true, false, ◌||◌, Option, none, some,
}
use lambda_moo_plus_foo.Text.{Text}
use lambda_moo_plus_foo.Int32.{Int32, is_negative, add, sub}
use lambda_moo_plus_foo.Value.{Objid, Var, FloatEq, int}
use lambda_moo_plus_foo.Objects.{Db, valid}
use lambda_moo_plus_foo.Verbs.Prepositions.{bytes}
use lambda_moo_plus_foo.Properties.{PropHandle, db_find_property}
use lambda_moo_plus_foo.Properties.Values.{value_of, db_set_property_value}

unfoldable pub quota_name : Text
quota_name = bytes "ownership_quota"

module _ {F : Type 0} where
  -- The handle and the value of the quota: a fault, or no valid player, no property or no integer,
  -- or the two.
  abbrev pub int_of : PropHandle → Var F → Option (PropHandle × Int32)
  int_of h (int n) = some (h, n)
  int_of h _ = none

  abbrev pub found_quota :
      ℕ → Db F → Option (Option PropHandle) → Option (Option (PropHandle × Int32))
  found_quota most db none = none
  found_quota most db (some none) = some none
  found_quota most db (some (some h)) = value_of most db h >>= λ v. some (int_of h v)

  unfoldable pub read_quota : ℕ → Db F → Objid → Option (Option (PropHandle × Int32))
  unfolding valid db_find_property quota_name value_of
  read_quota most db player =
      if valid db player
      then found_quota most db (db_find_property most db player quota_name)
      else some none

module _ {F : Type 0} (fl : FloatEq F) where
  abbrev pub set_quota : PropHandle → Int32 → Db F → Option (Db F)
  set_quota h n = db_set_property_value fl 1 h (int n)

  -- Whether one more object may be owned, with the number lowered by one.
  abbrev pub lowered : Db F → Option (Option (PropHandle × Int32)) → Option (Bool × Db F)
  lowered db none = none
  lowered db (some none) = some (true, db)
  lowered db (some (some (h, n))) =
      if n == 0 || is_negative n
      then some (false, db)
      else (set_quota h (sub n 1) db >>= λ db'. some (true, db'))

  unfoldable pub decr_quota : ℕ → Objid → Db F → Option (Bool × Db F)
  unfolding read_quota db_set_property_value is_negative sub
  decr_quota most player db = lowered db (read_quota most db player)

  abbrev pub raised_by_one : Db F → Option (Option (PropHandle × Int32)) → Option (Db F)
  raised_by_one db none = none
  raised_by_one db (some none) = some db
  raised_by_one db (some (some (h, n))) = set_quota h (add n 1) db

  unfoldable pub incr_quota : ℕ → Objid → Db F → Option (Db F)
  unfolding read_quota db_set_property_value add
  incr_quota most player db = raised_by_one db (read_quota most db player)
