-- ===== src/Properties.antt =====
-- The properties of objects: src/db_properties.c. The values of an object's properties stand in one
-- array: first those of the properties that it defines, then those of its parent's, and so on up.
-- An access outside an array, a null pointer that is followed, a call of `server_panic` and a loop
-- that uses up its fuel give `none`.
pub mod Layout
pub mod Values
pub mod Edit
pub mod Builtins
pub mod Parents
pub mod Arrays
pub mod Writes
pub mod Steps
pub mod Adding
use lambda_moo_plus_foo.Prelude.{
  ltb, ◌==◌, if◌then◌else◌, length, get_elem?, ◌==ℤ◌, pos, ◌>>=◌, ℕ, zero, suc, ◌+◌, ◌-◌, Bool,
  true, false, ◌&&◌, Option, none, some, List, [], ◌∷◌,
}
use lambda_moo_plus_foo.Text.{Text, mystrcasecmp, str_hash}
use lambda_moo_plus_foo.Value.{Objid, Var, clear}
use lambda_moo_plus_foo.Objects.{
  Propdef, Pval, Object, Db, dbpriv_find_object, id, owner, location, contents, parent,
}
use lambda_moo_plus_foo.Verbs.Prepositions.{bytes}

-- `enum bi_prop`, without BP_NONE.
pub data BuiltIn : Type 0 where
  bp_name bp_owner bp_programmer bp_wizard bp_r bp_w bp_f bp_location bp_contents : BuiltIn

-- The names in the table `ptable`, in its order.
unfoldable pub ptable : List (Text × BuiltIn)
ptable =
    (bytes "name", bp_name)
    ∷ (bytes "owner", bp_owner)
    ∷ (bytes "programmer", bp_programmer)
    ∷ (bytes "wizard", bp_wizard)
    ∷ (bytes "r", bp_r)
    ∷ (bytes "w", bp_w)
    ∷ (bytes "f", bp_f)
    ∷ (bytes "location", bp_location)
    ∷ (bytes "contents", bp_contents)
    ∷ []

-- `hash == h && !mystrcasecmp(s, t)`
abbrev pub same_name : ℕ → ℕ → Text → Text → Bool
same_name h k s t = h == k && (mystrcasecmp s t ==ℤ pos 0)

unfoldable pub find_built_in : Text → List (Text × BuiltIn) → Option BuiltIn
find_built_in name [] = none
find_built_in name ((s, b) ∷ ps) =
    if same_name (str_hash s) (str_hash name) name s then some b else find_built_in name ps

unfoldable pub dbpriv_new_propdef : Text → Propdef
dbpriv_new_propdef name = record { name = name; hash = str_hash name }

abbrev pub names_prop : Text → ℕ → Propdef → Bool
names_prop name hash p = same_name p.hash hash p.name name

-- The loop over the definitions of one object, at index `i`.
unfoldable pub find_propdef : Text → ℕ → ℕ → List Propdef → Option ℕ
find_propdef name hash i [] = none
find_propdef name hash i (p ∷ ps) =
    if names_prop name hash p then some i else find_propdef name hash (i + 1) ps

-- `db_prop_handle`: a built-in property of an object, or the place of a value in the array of an
-- object, with the object that defines the property. A null handle is `none`.
pub data PropHandle : Type 0 where
  built_in : BuiltIn → Objid → PropHandle
  stored : (definer oid : Objid) → ℕ → PropHandle

abbrev pub is_clear : {F : Type 0} → Var F → Bool
is_clear clear = true
is_clear _ = false

abbrev pub defined_or :
    (definer oid : Objid) → Option ℕ → Option (Option PropHandle) → Option (Option PropHandle)
defined_or definer oid none rest = rest
defined_or definer oid (some n) rest = some (some (stored definer oid n))

abbrev pub built_in_or :
    Objid → Option BuiltIn → Option (Option PropHandle) → Option (Option PropHandle)
built_in_or oid none rest = rest
built_in_or oid (some b) rest = some (some (built_in b oid))

module _ {F : Type 0} where
  -- The loops over the object and its ancestors; `n` is the number of definitions passed so far.
  unfoldable pub find_from :
      ℕ → Db F → Objid → Text → ℕ → Option (Object F) → Option (Option PropHandle)
  unfolding find_propdef
  find_from zero db oid name n o = none
  find_from (suc fuel) db oid name n none = some none
  find_from (suc fuel) db oid name n (some o) =
      let rest =
        find_from fuel db oid name (n + length o.propdefs) (dbpriv_find_object db o.parent) in
      defined_or o.id oid (find_propdef name (str_hash name) n o.propdefs) rest

  -- `db_find_property(oid, name, 0)`
  unfoldable pub db_find_property : ℕ → Db F → Objid → Text → Option (Option PropHandle)
  unfolding find_from find_built_in ptable
  db_find_property fuel db oid name =
      built_in_or oid (find_built_in name ptable)
        (find_from fuel db oid name 0 (dbpriv_find_object db oid))

  -- The value itself, or what stands further up when it is clear.
  abbrev pub unless_clear : Option (Var F) → Option (Pval F) → Option (Var F)
  unless_clear up none = none
  unless_clear up (some p) = if is_clear p.var then up else some p.var

  -- `while (prop->var.type == TYPE_CLEAR)`: up to the parent's value of the same property.
  unfoldable pub skip_clear : ℕ → Db F → ℕ → Object F → Option (Var F)
  skip_clear zero db n o = none
  skip_clear (suc fuel) db n o =
      let up =
        dbpriv_find_object db o.parent >>= λ p. skip_clear fuel db (n - length o.propdefs) p in
      unless_clear (if ltb n (length o.propdefs) then none else up) (get_elem? o.propval n)

  -- The value that `db_find_property` stores for a property that is not built in.
  unfoldable pub stored_value : ℕ → Db F → Objid → ℕ → Option (Var F)
  unfolding skip_clear
  stored_value fuel db oid n = dbpriv_find_object db oid >>= λ o. skip_clear fuel db n o
