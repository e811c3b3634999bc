-- ===== src/Properties/Edit.antt =====
-- Adding, renaming and deleting properties, and the arrays after a change of parents:
-- src/db_properties.c. `most` bounds the rounds of a loop over ancestors or over the children of one
-- object, and `fuel` the depth of the tree below an object.
use lambda_moo_plus_foo.Prelude.{
  ltb, leb, ◌==◌, if◌then◌else◌, length, get_elem?, set, take, drop, ◌==ℤ◌, pos, ◌>>=◌, push, copy,
  ℕ, zero, suc, ◌+◌, ◌-◌, ◌*◌, ◌/◌, ◌%◌, Bool, true, false, ◌&&◌, Option, none, some, List, [], ◌∷◌,
  ◌++◌,
}
use lambda_moo_plus_foo.Text.{Text, mystrcasecmp, str_hash}
use lambda_moo_plus_foo.Value.{Objid, nothing, Var, clear}
use lambda_moo_plus_foo.Objects.{short_bits, Propdef, Pval, Object, Db, dbpriv_find_object, change}
use lambda_moo_plus_foo.Objects.Table.{dbpriv_count_properties}
use lambda_moo_plus_foo.Properties.{dbpriv_new_propdef, find_propdef, PropHandle, db_find_property}
use lambda_moo_plus_foo.Properties.Values.{with_propval}

-- `perms & PF_CHOWN`
abbrev pub is_chown : ℕ → Bool
is_chown perms = perms / 4 % 2 == 1

abbrev pub append_to {ℓ} : {A : Type ℓ} → Option (List A) → Option (List A) → Option (List A)
append_to none r = none
append_to (some xs) none = none
append_to (some xs) (some ys) = some (xs ++ ys)

abbrev pub or_else : Option Bool → Option Bool → Option Bool
or_else none r = none
or_else (some true) r = some true
or_else (some false) r = r

abbrev pub is_found : Option ℕ → Bool
is_found none = false
is_found (some i) = true

-- A handle, or a definition at or below the object.
abbrev pub is_handle : Option PropHandle → Bool
is_handle none = false
is_handle (some h) = true

-- The size of the array of definitions that has room for one more.
abbrev pub room : ℕ → ℕ → ℕ
room used size = if used == size then (if size == 0 then 8 else 2 * size) else size

abbrev pub delete_elem {ℓ} : {A : Type ℓ} → List A → ℕ → List A
delete_elem xs i = take i xs ++ drop (i + 1) xs

-- The size of the array of definitions after a deletion, when `used` were in use before it.
abbrev pub shrunk : ℕ → ℕ → ℕ
shrunk used size = if ltb 8 size && leb used (size * 3 / 8) then size / 2 else size

module _ {F : Type 0} where
  abbrev pub sibling_of : Db F → Objid → Option Objid
  sibling_of db oid = dbpriv_find_object db oid >>= λ o. some o.sibling

  -- `for (c = ...; c != NOTHING; c = dbpriv_find_object(c)->sibling) if (test(c)) return 1`
  unfoldable pub any_child : ℕ → (Objid → Option Bool) → Objid → Db F → Option Bool
  any_child zero test c db = none
  any_child (suc most) test c db =
      let rest = sibling_of db c >>= λ s. any_child most test s db in
      if c ==ℤ nothing then some false else or_else (test c) rest

  -- The same loop, with an operation on each child.
  unfoldable pub each_child : ℕ → (Objid → Db F → Option (Db F)) → Objid → Db F → Option (Db F)
  each_child zero f c db = none
  each_child (suc most) f c db =
      let rest = f c db >>= λ db. sibling_of db c >>= λ s. each_child most f s db in
      if c ==ℤ nothing then some db else rest

  unfoldable pub property_defined_at_or_below : ℕ → ℕ → Db F → Text → ℕ → Objid → Option Bool
  unfolding find_propdef any_child
  property_defined_at_or_below most zero db pname phash oid = none
  property_defined_at_or_below most (suc fuel) db pname phash oid =
      dbpriv_find_object db oid >>= λ o.
      or_else (some (is_found (find_propdef pname phash 0 o.propdefs)))
        (any_child most (λ c. property_defined_at_or_below most fuel db pname phash c) o.child db)

  abbrev pub chowned : Objid → Pval F → Pval F
  chowned owned_by pv = if is_chown pv.perms then record pv { owner = owned_by } else pv

  -- The array of `nprops` values with one more at `n`.
  unfoldable pub inserted : ℕ → ℕ → Pval F → List (Pval F) → Option (List (Pval F))
  unfolding copy
  inserted nprops n pv ps =
      if ltb n nprops
      then append_to (copy ps 0 n) (push pv (copy ps n (nprops - (n + 1))))
      else none

  unfoldable pub insert_prop : ℕ → Objid → ℕ → Pval F → Db F → Option (Db F)
  unfolding dbpriv_count_properties inserted change
  insert_prop most oid n pv db = do
    nprops ← dbpriv_count_properties most db oid
    o ← dbpriv_find_object db oid
    ps ← inserted nprops n (chowned o.owner pv) o.propval
    change oid (with_propval ps) db

  unfoldable pub insert_prop_recursively : ℕ → ℕ → Objid → ℕ → Pval F → Db F → Option (Db F)
  unfolding insert_prop each_child
  insert_prop_recursively most zero root n pv db = none
  insert_prop_recursively most (suc fuel) root n pv db = do
    db ← insert_prop most root n pv db
    o ← dbpriv_find_object db root
    each_child most
        (λ c db. dbpriv_find_object db c >>= λ o.
          insert_prop_recursively most fuel c (length o.propdefs + n) (record pv { var = clear })
            db)
        o.child db

  unfoldable pub clashes : ℕ → ℕ → Db F → Objid → Text → Option Bool
  unfolding db_find_property property_defined_at_or_below
  clashes most fuel db oid pname = do
    h ← db_find_property most db oid pname
    or_else (some (is_handle h))
        (property_defined_at_or_below most fuel db pname (str_hash pname) oid)

  abbrev pub with_propdef : Propdef → Object F → Object F
  with_propdef p o = record o {
    propdefs = o.propdefs ++ p ∷ [];
    max_length = room (length o.propdefs) o.max_length;
  }

  abbrev pub unless : Bool → Db F → Option (Db F) → Option (Bool × Db F)
  unless true db r = some (false, db)
  unless false db none = none
  unless false db (some db') = some (true, db')

  abbrev pub add_propdef : ℕ → ℕ → Objid → Text → Pval F → Db F → Option (Db F)
  add_propdef most fuel oid pname pv db = do
    o ← dbpriv_find_object db oid
    db ← change oid (with_propdef (dbpriv_new_propdef pname)) db
    insert_prop_recursively most fuel oid (length o.propdefs) pv db

  unfoldable pub db_add_propdef :
      ℕ → ℕ → Objid → Text → Var F → Objid → ℕ → Db F → Option (Bool × Db F)
  unfolding clashes change dbpriv_new_propdef insert_prop_recursively short_bits
  db_add_propdef most fuel oid pname value owned_by flags db =
      clashes most fuel db oid pname >>= λ b. unless b db (
        add_propdef most fuel oid pname
          (record { var = value; owner = owned_by; perms = short_bits flags }) db)

  abbrev pub with_propdefs : List Propdef → Object F → Object F
  with_propdefs ps o = record o { propdefs = ps }

  -- The tests before a renaming; a change of case alone passes.
  abbrev pub may_not_rename : ℕ → ℕ → Db F → Objid → Text → Text → Option Bool
  may_not_rename most fuel db oid old new =
      if mystrcasecmp old new ==ℤ pos 0 then some false else clashes most fuel db oid new

  abbrev pub rename_at :
      ℕ → ℕ → Objid → Text → Text → Object F → Option ℕ → Db F → Option (Bool × Db F)
  rename_at most fuel oid old new o none db = some (false, db)
  rename_at most fuel oid old new o (some i) db = may_not_rename most fuel db oid old new >>= λ b.
      unless b db (change oid (with_propdefs (set o.propdefs i (dbpriv_new_propdef new))) db)

  unfoldable pub db_rename_propdef : ℕ → ℕ → Objid → Text → Text → Db F → Option (Bool × Db F)
  unfolding clashes change dbpriv_new_propdef find_propdef
  db_rename_propdef most fuel oid old new db = dbpriv_find_object db oid >>= λ o.
      rename_at most fuel oid old new o (find_propdef old (str_hash old) 0 o.propdefs) db

  -- The array without the value at `n`, when `nprops` are left.
  unfoldable pub removed : ℕ → ℕ → List (Pval F) → Option (List (Pval F))
  unfolding copy
  removed nprops n ps = get_elem? ps n >>= λ p.
      if nprops == 0
      then some []
      else (if leb n nprops then append_to (copy ps 0 n) (copy ps (n + 1) (nprops - n)) else none)

  unfoldable pub remove_prop : ℕ → Objid → ℕ → Db F → Option (Db F)
  unfolding dbpriv_count_properties removed change
  remove_prop most oid n db = do
    o ← dbpriv_find_object db oid
    nprops ← dbpriv_count_properties most db oid
    ps ← removed nprops n o.propval
    change oid (with_propval ps) db

  unfoldable pub remove_prop_recursively : ℕ → ℕ → Objid → ℕ → Db F → Option (Db F)
  unfolding remove_prop each_child
  remove_prop_recursively most zero root n db = none
  remove_prop_recursively most (suc fuel) root n db = do
    db ← remove_prop most root n db
    o ← dbpriv_find_object db root
    each_child most
        (λ c db. dbpriv_find_object db c >>= λ o.
          remove_prop_recursively most fuel c (length o.propdefs + n) db)
        o.child db

  abbrev pub without_propdef : ℕ → Object F → Object F
  without_propdef i o = record o {
    propdefs = delete_elem o.propdefs i;
    max_length = shrunk (length o.propdefs) o.max_length;
  }

  abbrev pub delete_propdef_at : ℕ → ℕ → Objid → Option ℕ → Db F → Option (Bool × Db F)
  delete_propdef_at most fuel oid none db = some (false, db)
  delete_propdef_at most fuel oid (some i) db = do
    db ← change oid (without_propdef i) db
    db ← remove_prop_recursively most fuel oid i db
    some (true, db)

  unfoldable pub db_delete_propdef : ℕ → ℕ → Objid → Text → Db F → Option (Bool × Db F)
  unfolding change find_propdef remove_prop_recursively
  db_delete_propdef most fuel oid pname db = dbpriv_find_object db oid >>= λ o.
      delete_propdef_at most fuel oid (find_propdef pname (str_hash pname) 0 o.propdefs) db

  unfoldable pub db_count_propdefs : Db F → Objid → Option ℕ
  db_count_propdefs db oid = dbpriv_find_object db oid >>= λ o. some (length o.propdefs)
