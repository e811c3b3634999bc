-- ===== src/Objects/Users.antt =====
-- `db_set_object_flag`, `db_clear_object_flag` and the tests on flags, with the list of all users.
pub mod Laws
use lambda_moo_plus_foo.Prelude.{
  if◌then◌else◌, ◌==ℤ◌, ◌>>=◌, ℕ, Bool, true, false, ◌&&◌, ◌||◌, Option, none, some, List,
}
use lambda_moo_plus_foo.Value.{Objid, Var, FloatEq, obj}
use lambda_moo_plus_foo.ListOps.{setadd, setremove}
use lambda_moo_plus_foo.Objects.{Object, Db, slot, valid, change, read, load, owner}
use lambda_moo_plus_foo.Objects.Flags.{Flag, has_bit, set_bit, clear_bit, user, programmer, wizard}

abbrev pub set_flags : {F : Type 0} → (ℕ → ℕ) → Object F → Object F
set_flags f o = record o { flags = f o.flags }

abbrev pub is_user_flag : Flag → Bool
is_user_flag user = true
is_user_flag _ = false

module _ {F : Type 0} where
  unfoldable pub db_object_has_flag : Db F → Objid → Flag → Option Bool
  unfolding slot
  db_object_has_flag db oid f = read (λ o. has_bit o.flags f) (slot db oid)

  -- `valid(oid) && db_object_has_flag(oid, ...)`
  abbrev pub valid_with : Db F → Objid → Flag → Bool
  valid_with db oid f =
      valid db oid && elim (db_object_has_flag db oid f) [ none ↦ false | some b ↦ b ]

  unfoldable pub is_wizard : Db F → Objid → Bool
  is_wizard db oid = valid_with db oid wizard

  unfoldable pub is_programmer : Db F → Objid → Bool
  is_programmer db oid = valid_with db oid programmer

  unfoldable pub is_user : Db F → Objid → Bool
  is_user db oid = valid_with db oid user

  -- The three tests are made in this order, and the last only if the others fail.
  unfoldable pub db_object_allows : Db F → Objid → Objid → Flag → Option Bool
  unfolding is_wizard
  db_object_allows db oid progr f = do
    o ← load owner oid db
    if progr ==ℤ o || is_wizard db progr then some true else db_object_has_flag db oid f

module _ {F : Type 0} (fl : FloatEq F) where
  abbrev pub update_users : Bool → (List (Var F) → Option (List (Var F))) → Db F → Option (Db F)
  update_users false f db = some db
  update_users true f db = f db.all_users >>= λ us. some (record db { all_users = us })

  unfoldable pub db_set_object_flag : ℕ → Objid → Flag → Db F → Option (Db F)
  unfolding change
  db_set_object_flag refs oid f db = do
    db ← change oid (set_flags (λ n. set_bit n f)) db
    update_users (is_user_flag f) (λ us. setadd fl refs us (obj oid)) db

  unfoldable pub db_clear_object_flag : Objid → Flag → Db F → Option (Db F)
  unfolding change
  db_clear_object_flag oid f db = do
    db ← change oid (set_flags (λ n. clear_bit n f)) db
    update_users (is_user_flag f) (λ us. setremove fl us (obj oid)) db
