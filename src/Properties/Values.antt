-- ===== src/Properties/Values.antt =====
-- The values, owners and permissions of properties: src/db_properties.c, with the counts of contents
-- and children of src/db_objects.c. The number of the object that a handle of a built-in property
-- points to is part of the handle; in the code it stands in a static variable that the next search
-- for a built-in property overwrites.
use lambda_moo_plus_foo.Prelude.{
  ◌==◌, if◌then◌else◌, length, get_elem?, set, ◌==ℤ◌, ◌>>=◌, push, ℕ, zero, suc, ◌/◌, ◌%◌, Bool,
  true, false, ◌||◌, Option, none, some, List, [],
}
use lambda_moo_plus_foo.Text.{Text}
use lambda_moo_plus_foo.Value.{Objid, nothing, Var, vars, FloatEq, is_true, int, obj, str, list}
use lambda_moo_plus_foo.Objects.{
  short_bits, of_short_bits, Pval, Object, Db, Link, slot, change, read, load, store, owner,
  location, contents, next, child, sibling,
}
use lambda_moo_plus_foo.Objects.Flags.{Flag, programmer, wizard, read_flag, write_flag, fertile}
use lambda_moo_plus_foo.Objects.Users.{
  db_object_has_flag, is_wizard, db_set_object_flag, db_clear_object_flag,
}
use lambda_moo_plus_foo.Properties.{
  BuiltIn, PropHandle, stored_value, bp_name, bp_owner, bp_wizard, bp_r, bp_w, bp_f, bp_location,
  bp_contents, built_in, stored,
}

abbrev pub bi_flag : BuiltIn → Flag
bi_flag bp_wizard = wizard
bi_flag bp_r = read_flag
bi_flag bp_w = write_flag
bi_flag bp_f = fertile
bi_flag _ = programmer

module _ {F : Type 0} where
  -- `for (c = ...; c != NOTHING; c = objects[c]->nextname) i++`
  unfoldable pub count_links : ℕ → Link → Objid → Db F → Option ℕ
  count_links zero nextname c db = none
  count_links (suc fuel) nextname c db =
      let rest = load nextname c db >>= λ q. count_links fuel nextname q db in
      if c ==ℤ nothing then some 0 else (rest >>= λ n. some (suc n))

  unfoldable pub db_count_contents : ℕ → Db F → Objid → Option ℕ
  unfolding count_links
  db_count_contents fuel db oid = load contents oid db >>= λ c. count_links fuel next c db

  unfoldable pub db_count_children : ℕ → Db F → Objid → Option ℕ
  unfolding count_links
  db_count_children fuel db oid = load child oid db >>= λ c. count_links fuel sibling c db

  -- `db_for_all_contents` with `add_to_list`, which fills the list from its front.
  unfoldable pub add_to_list : ℕ → Objid → Db F → Option (List (Var F))
  add_to_list zero c db = none
  add_to_list (suc fuel) c db =
      let rest = load next c db >>= λ q. add_to_list fuel q db in
      if c ==ℤ nothing then some [] else push (obj c) rest

  abbrev pub flag_value : Option Bool → Option (Var F)
  flag_value none = none
  flag_value (some b) = some (int (if b then 1 else 0))

  -- The list is filled exactly: `db_count_contents` gives its size.
  abbrev pub exactly : ℕ → List (Var F) → Option (Var F)
  exactly size vs = if length vs == size then some (list (vars vs)) else none

  unfoldable pub get_bi_value : ℕ → Db F → BuiltIn → Objid → Option (Var F)
  unfolding slot vars db_object_has_flag db_count_contents add_to_list
  get_bi_value fuel db bp_name oid = read (λ o. str o.name) (slot db oid)
  get_bi_value fuel db bp_owner oid = load owner oid db >>= λ q. some (obj q)
  get_bi_value fuel db bp_location oid = load location oid db >>= λ q. some (obj q)
  get_bi_value fuel db bp_contents oid = do
    size ← db_count_contents fuel db oid
    first ← load contents oid db
    vs ← add_to_list fuel first db
    exactly size vs
  get_bi_value fuel db b oid = flag_value (db_object_has_flag db oid (bi_flag b))

  -- The value that `db_find_property` stores with a handle.
  unfoldable pub value_of : ℕ → Db F → PropHandle → Option (Var F)
  unfolding get_bi_value stored_value
  value_of most db (built_in b oid) = get_bi_value most db b oid
  value_of most db (stored d oid n) = stored_value most db oid n

  -- `(Pval *) h.ptr`; an access through the pointer of a built-in property is a panic.
  abbrev pub pval_of : Db F → PropHandle → Option (Pval F)
  pval_of db (built_in b oid) = none
  pval_of db (stored definer oid n) = slot db oid >>= λ o. get_elem? o.propval n

  unfoldable pub db_property_value : ℕ → Db F → PropHandle → Option (Var F)
  unfolding slot get_bi_value
  db_property_value fuel db (built_in b oid) = get_bi_value fuel db b oid
  db_property_value fuel db (stored definer oid n) =
      pval_of db (stored definer oid n) >>= λ p. some p.var

  unfoldable pub db_property_owner : Db F → PropHandle → Option Objid
  unfolding slot
  db_property_owner db h = pval_of db h >>= λ p. some p.owner

  unfoldable pub db_property_flags : Db F → PropHandle → Option ℕ
  unfolding slot of_short_bits
  db_property_flags db h = pval_of db h >>= λ p. some (of_short_bits p.perms)

  abbrev pub with_propval : List (Pval F) → Object F → Object F
  with_propval ps o = record o { propval = ps }

  -- A write through `(Pval *) h.ptr`.
  unfoldable pub edit_pval : (Pval F → Pval F) → PropHandle → Db F → Option (Db F)
  unfolding slot change
  edit_pval f (built_in b oid) db = none
  edit_pval f (stored definer oid n) db = do
    o ← slot db oid
    p ← get_elem? o.propval n
    change oid (with_propval (set o.propval n (f p))) db

  unfoldable pub db_set_property_owner : PropHandle → Objid → Db F → Option (Db F)
  unfolding edit_pval
  db_set_property_owner h owned_by = edit_pval (λ p. record p { owner = owned_by }) h

  unfoldable pub db_set_property_flags : PropHandle → ℕ → Db F → Option (Db F)
  unfolding edit_pval short_bits
  db_set_property_flags h flags = edit_pval (λ p. record p { perms = short_bits flags }) h

  -- `(db_property_flags(h) & flag) || progr == db_property_owner(h) || is_wizard(progr)`, for one bit.
  unfoldable pub db_property_allows : Db F → PropHandle → Objid → (bit : ℕ) → Option Bool
  unfolding is_wizard db_property_owner db_property_flags
  db_property_allows db h progr bit = do
    flags ← db_property_flags db h
    owned_by ← db_property_owner db h
    some (flags / bit % 2 == 1 || progr ==ℤ owned_by || is_wizard db progr)

  unfoldable pub db_set_object_name : Objid → Text → Db F → Option (Db F)
  unfolding change
  db_set_object_name oid name = change oid (λ o. record o { name = name })

  unfoldable pub db_set_object_owner : Objid → Objid → Db F → Option (Db F)
  unfolding store
  db_set_object_owner oid owned_by = store owner oid owned_by

module _ {F : Type 0} (fl : FloatEq F) where
  -- The label `finish_flag`.
  abbrev pub finish_flag : ℕ → Objid → Flag → Bool → Db F → Option (Db F)
  finish_flag refs oid f true db = db_set_object_flag fl refs oid f db
  finish_flag refs oid f false db = db_clear_object_flag fl oid f db

  unfoldable pub set_bi_value : ℕ → BuiltIn → Objid → Var F → Db F → Option (Db F)
  unfolding db_set_object_name db_set_object_owner db_set_object_flag db_clear_object_flag is_true
  set_bi_value refs bp_name oid (str s) db = db_set_object_name oid s db
  set_bi_value refs bp_name oid _ db = none
  set_bi_value refs bp_owner oid (obj q) db = db_set_object_owner oid q db
  set_bi_value refs bp_owner oid _ db = none
  set_bi_value refs bp_location oid v db = none
  set_bi_value refs bp_contents oid v db = none
  set_bi_value refs b oid v db = finish_flag refs oid (bi_flag b) (is_true fl v) db

  unfoldable pub db_set_property_value : ℕ → PropHandle → Var F → Db F → Option (Db F)
  unfolding edit_pval set_bi_value
  db_set_property_value refs (built_in b oid) v db = set_bi_value refs b oid v db
  db_set_property_value refs (stored definer oid n) v db =
      edit_pval (λ p. record p { var = v }) (stored definer oid n) db
