-- ===== src/Objects/Table.antt =====
-- The table itself: growing it, new objects, and changing an object's number.
pub mod Growth
use lambda_moo_plus_foo.Prelude.{
  ltb, leb, ◌==◌, if◌then◌else◌, length, ◌==ℤ◌, pos, negsuc, ◌>>=◌, push, ℕ, zero, suc, ◌+◌, ◌*◌,
  max, ◌||◌, Option, none, some, List, [], ◌∷◌, map,
}
use lambda_moo_plus_foo.Value.{Objid, nothing, Var, count, obj}
use lambda_moo_plus_foo.Objects.{
  Verbdef, Pval, Object, Db, Link, put, set_slot, dbpriv_find_object, is_some, valid, changed,
  change, load, store, id, owner, location, contents, next, parent, child, sibling,
}
use lambda_moo_plus_foo.Objects.Users.{is_user}

-- Ownership: what belonged to the number `new` before belongs to nobody now.
unfoldable pub new_owner : (old new o : Objid) → Objid
new_owner old new o = if o ==ℤ new then nothing else (if o ==ℤ old then new else o)

abbrev pub own_verb : (old new : Objid) → Verbdef → Verbdef
own_verb old new v = record v { owner = new_owner old new v.owner }

module _ {F : Type 0} where
  -- The loop of `db_reset_last_used_objid`. Below slot 0 it reads outside the table.
  unfoldable pub last_used_from : (ℕ → Option (Object F)) → ℕ → Option ℕ
  last_used_from objects zero = none
  last_used_from objects (suc n) =
      let rest = last_used_from objects n in if is_some (objects n) then some (suc n) else rest

  unfoldable pub db_reset_last_used_objid : Db F → Option (Db F)
  unfolding last_used_from
  db_reset_last_used_objid db =
      last_used_from db.objects db.num_objects >>= λ n. some (record db { num_objects = n })

  -- Growing copies the slots, so only the capacity changes: first to 100, then twofold.
  unfoldable pub ensure_new_object : Db F → Db F
  ensure_new_object db =
      let max = if db.max_objects == 0 then 100 else db.max_objects in
      record db { max_objects = if leb max db.num_objects then max * 2 else max }

  -- `raw` is what `mymalloc` returns: a block with arbitrary contents. The block fills the slot
  -- behind the last one in use, whose number becomes its `id`.
  unfoldable pub dbpriv_new_object_for_renum : Object F → Db F → Db F
  unfolding ensure_new_object
  dbpriv_new_object_for_renum raw db =
      set_slot db.num_objects (some (put id (pos db.num_objects) raw)) (ensure_new_object db)

  unfoldable pub dbpriv_new_object : Object F → Db F → Db F
  unfolding dbpriv_new_object_for_renum
  dbpriv_new_object raw db = record (dbpriv_new_object_for_renum raw db) {
    num_objects = db.num_objects + 1;
  }

  unfoldable pub dbpriv_new_recycled_object : Db F → Db F
  unfolding ensure_new_object
  dbpriv_new_recycled_object db = record (set_slot db.num_objects none (ensure_new_object db)) {
    num_objects = db.num_objects + 1;
  }

  -- What `db_create_object` and its kin fill in. The owner is left as it is.
  unfoldable pub blank : Object F → Object F
  blank o = record o {
    name = [];
    flags = 0;
    parent = nothing;
    child = nothing;
    sibling = nothing;
    location = nothing;
    contents = nothing;
    next = nothing;
    propval = [];
    max_length = 0;
    propdefs = [];
    verbdefs = [];
  }

  unfoldable pub db_create_object : Object F → Db F → Objid × Db F
  unfolding dbpriv_new_object blank
  db_create_object raw db =
      (pos db.num_objects, changed db.num_objects blank (dbpriv_new_object raw db))

  -- The loop over a linked list that looks for `old` and puts `new` in its place; at the end of the
  -- list it panics. `f` of `lid` is the field that is looked at: first the head, then the links.
  unfoldable pub rename_link : ℕ → Link → Link → Objid → (old new : Objid) → Db F → Option (Db F)
  rename_link zero f nx lid old new db = none
  rename_link (suc fuel) f nx lid old new db = do
    q ← load f lid db
    let rest = rename_link fuel nx nx q old new db
    if q ==ℤ old then store f lid new db else (if q ==ℤ nothing then none else rest)

  -- `for (oid = first; oid != NOTHING; oid = objects[oid]->nx) objects[oid]->up = new;`
  unfoldable pub rename_up : ℕ → Link → Link → Objid → Objid → Db F → Option (Db F)
  rename_up zero up nx oid new db = none
  rename_up (suc fuel) up nx oid new db =
      if oid ==ℤ nothing
      then some db
      else (do db ← store up oid new db; q ← load nx oid db; rename_up fuel up nx q new db)

  -- One of the two blocks that fix up the hierarchy: parent, child and sibling, or location,
  -- contents and next. `o` is the object under its new number.
  unfoldable pub rename_in : ℕ → Link → Link → Link → (old new : Objid) → Db F → Option (Db F)
  unfolding rename_link rename_up
  rename_in fuel up ls nx old new db = do
    p ← load up new db
    db ← if p ==ℤ nothing then some db else rename_link fuel ls nx p old new db
    first ← load ls new db
    rename_up fuel up nx first new db

  -- The first entry of `all_users` that is `old` becomes `new`.
  unfoldable pub rename_user : (old new : Objid) → List (Var F) → List (Var F)
  rename_user old new [] = []
  rename_user old new (obj o ∷ vs) =
      if o ==ℤ old then obj new ∷ vs else obj o ∷ rename_user old new vs
  rename_user old new (v ∷ vs) = v ∷ rename_user old new vs

  unfoldable pub rename_owners : (old new : Objid) → ℕ → List (Pval F) → Option (List (Pval F))
  rename_owners old new zero ps = some ps
  rename_owners old new (suc n) [] = none
  rename_owners old new (suc n) (p ∷ ps) =
      push (record p { owner = new_owner old new p.owner }) (rename_owners old new n ps)

  -- The properties of an object and of its ancestors.
  abbrev pub props_from : (Objid → Option ℕ) → Option (Object F) → Option ℕ
  props_from above none = some 0
  props_from above (some o) = above o.parent >>= λ n. some (length o.propdefs + n)

  unfoldable pub dbpriv_count_properties : ℕ → Db F → Objid → Option ℕ
  dbpriv_count_properties zero db oid = none
  dbpriv_count_properties (suc fuel) db oid =
      props_from (λ p. dbpriv_count_properties fuel db p) (dbpriv_find_object db oid)

  -- The body of the loop over all objects, at slot `n`.
  unfoldable pub fix_owner : ℕ → (old new : Objid) → ℕ → Db F → Option (Db F)
  unfolding dbpriv_count_properties rename_owners
  fix_owner fuel old new n db = elim (db.objects n) [
    | none ↦ some db
    | some o ↦ (do
      count ← dbpriv_count_properties fuel db (pos n)
      ps ← rename_owners old new count o.propval
      some (
          set_slot n
            (some (record o {
              owner = new_owner old new o.owner;
              verbdefs = map (own_verb old new) o.verbdefs;
              propval = ps;
            }))
            db))
  ]

  -- `for (oid = i; oid < i + n; oid++)`
  unfoldable pub fix_owners : ℕ → (old new : Objid) → (i n : ℕ) → Db F → Option (Db F)
  unfolding fix_owner
  fix_owners fuel old new i zero db = some db
  fix_owners fuel old new i (suc n) db =
      fix_owner fuel old new i db >>= λ db'. fix_owners fuel old new (suc i) n db'

  -- `objects[new] = objects[old]; objects[old] = 0; objects[new]->id = new;`
  unfoldable pub move_slot : (old new : ℕ) → Db F → Option (Db F)
  unfolding change set_slot
  move_slot old new db =
      change (pos new) (put id (pos new)) (set_slot old none (set_slot new (db.objects old) db))

  unfoldable pub db_set_object_number : ℕ → (old new : ℕ) → Db F → Option (Db F)
  unfolding move_slot rename_in rename_user fix_owners
  db_set_object_number fuel old new db = if valid db (pos new) then none else (do
    db ← move_slot old new db
    db ← rename_in fuel parent child sibling (pos old) (pos new) db
    db ← rename_in fuel location contents next (pos old) (pos new) db
    let users = rename_user (pos old) (pos new) db.all_users
    let db' = if is_user db (pos new) then record db { all_users = users } else db
    fix_owners fuel (pos old) (pos new) 0 db'.num_objects db')

  -- The least free slot below `old`, from `new` on, with `n` slots left to look at.
  unfoldable pub free_slot : Db F → (new n : ℕ) → Option ℕ
  free_slot db new zero = none
  free_slot db new (suc n) =
      let rest = free_slot db (suc new) n in if is_some (db.objects new) then rest else some new

  abbrev pub renumber_to : ℕ → ℕ → Db F → Option ℕ → Option (Objid × Db F)
  renumber_to fuel old db none = some (pos old, db)
  renumber_to fuel old db (some new) =
      db_set_object_number fuel old new db >>= λ db'. some (pos new, db')

  unfoldable pub db_renumber_object : ℕ → ℕ → Db F → Option (Objid × Db F)
  unfolding free_slot db_set_object_number
  db_renumber_object fuel old db = renumber_to fuel old db (free_slot db 0 old)

  unfoldable pub db_create_object_and_renum : ℕ → Object F → Db F → Option (Objid × Db F)
  unfolding dbpriv_new_object_for_renum blank db_renumber_object
  db_create_object_and_renum fuel raw db = do
    (oid, db') ←
        db_renumber_object fuel db.num_objects
          (changed db.num_objects blank (dbpriv_new_object_for_renum raw db))
    some (
      oid,
      if oid ==ℤ pos db.num_objects then record db' { num_objects = db'.num_objects + 1 } else db',
    )

  unfoldable pub db_create_object_with_num : ℕ → Object F → Objid → Db F → Option (Objid × Db F)
  unfolding dbpriv_new_object_for_renum blank db_set_object_number
  db_create_object_with_num fuel raw (negsuc k) db = some (negsuc 0, db)
  db_create_object_with_num fuel raw (pos num) db =
      if ltb db.num_objects num || valid db (pos num) then some (negsuc 0, db) else (do
        db' ←
            db_set_object_number fuel db.num_objects num
              (changed db.num_objects blank (dbpriv_new_object_for_renum raw db))
        some (pos num, db'))
