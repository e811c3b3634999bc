-- ===== src/Objects.antt =====
-- The object table of src/db_objects.c, with the structures of include/db_private.h. `objects[oid]`
-- is a slot that holds an object or the null pointer. An access through a null pointer or outside
-- the table, a call of `server_panic` and a loop that uses up its fuel give `none`.
pub mod Ancestors
pub mod Fields
pub mod Chain
pub mod Unlink
pub mod Remove
pub mod Append
pub mod Forest
pub mod Attach
pub mod Location
pub mod Flags
pub mod Users
pub mod Table
use lambda_moo_plus_foo.Prelude.{
  ltb, ◌==◌, if◌then◌else◌, ℤ, ◌==ℤ◌, pos, negsuc, ◌>>=◌, ℕ, zero, suc, ◌+◌, ◌-◌, ◌%◌, ◌^◌, Bool,
  true, false, Option, none, some, List,
}
use lambda_moo_plus_foo.Text.{Text}
use lambda_moo_plus_foo.Int32.{of_ℤ}
use lambda_moo_plus_foo.Value.{Objid, nothing, Var}

-- A `short` that is used as a set of bits is its pattern, a number below 2^16.
unfoldable pub short_bits : ℕ → ℕ
short_bits n = n % 2 ^ 16

-- What an `int` becomes in a `short`: its last 16 bits, the first of which is the sign.
unfoldable pub to_short : ℤ → ℤ
unfolding of_ℤ
to_short z = let p = of_ℤ z % 2 ^ 16 in if ltb p (2 ^ 15) then pos p else negsuc (2 ^ 16 - p - 1)

-- A `short` where an `unsigned` is wanted: the pattern, with the sign in front of it.
unfoldable pub of_short_bits : ℕ → ℕ
of_short_bits p = if ltb p (2 ^ 15) then p else p + (2 ^ 32 - 2 ^ 16)

-- A `Verbdef`; the compiled program is a reference, or null. `perms` is a `short` that is used as a
-- set of bits, and `prep` one that is a number.
pub record Verbdef : Type 0 where
  pub name : Text
  pub program : Option ℕ
  pub owner : Objid
  pub perms : ℕ
  pub prep : ℤ

pub record Propdef : Type 0 where
  pub name : Text
  pub hash : ℕ

-- `perms` is a `short`, a set of bits.
pub record Pval (F : Type 0) : Type 0 where
  pub var : Var F
  pub owner : Objid
  pub perms : ℕ

-- `verbdefs` is the linked list of the verbs. `propdefs` holds the `cur_length` definitions in use.
pub record Object (F : Type 0) : Type 0 where
  pub id : Objid
  pub owner : Objid
  pub location : Objid
  pub contents : Objid
  pub next : Objid
  pub parent : Objid
  pub child : Objid
  pub sibling : Objid
  pub name : Text
  pub flags : ℕ
  pub verbdefs : List Verbdef
  pub max_length : ℕ
  pub propdefs : List Propdef
  pub propval : List (Pval F)

-- The static variables. `all_users` is a MOO list.
pub record Db (F : Type 0) : Type 0 where
  pub objects : ℕ → Option (Object F)
  pub num_objects : ℕ
  pub max_objects : ℕ
  pub all_users : List (Var F)

-- The fields of an object that hold object numbers.
pub data Link : Type 0 where
  id owner location contents next parent child sibling : Link

abbrev pub same_link : Link → Link → Bool
same_link id id = true
same_link owner owner = true
same_link location location = true
same_link contents contents = true
same_link next next = true
same_link parent parent = true
same_link child child = true
same_link sibling sibling = true
same_link _ _ = false

module _ {F : Type 0} where
  -- `o->field`
  unfoldable pub get : Link → Object F → Objid
  get id o = o.id
  get owner o = o.owner
  get location o = o.location
  get contents o = o.contents
  get next o = o.next
  get parent o = o.parent
  get child o = o.child
  get sibling o = o.sibling

  -- `o->field = v`
  unfoldable pub put : Link → Objid → Object F → Object F
  put id v o = record o { id = v }
  put owner v o = record o { owner = v }
  put location v o = record o { location = v }
  put contents v o = record o { contents = v }
  put next v o = record o { next = v }
  put parent v o = record o { parent = v }
  put child v o = record o { child = v }
  put sibling v o = record o { sibling = v }

  -- `objects[k] = c`, and the pointer `objects[oid]` as it is read with no check of bounds.
  unfoldable pub set_slot : ℕ → Option (Object F) → Db F → Db F
  set_slot k c db = record db { objects = λ n. if n == k then c else db.objects n }

  unfoldable pub slot : Db F → Objid → Option (Object F)
  slot db (pos n) = db.objects n
  slot db (negsuc n) = none

  unfoldable pub dbpriv_find_object : Db F → Objid → Option (Object F)
  dbpriv_find_object db (pos n) = if ltb n db.num_objects then db.objects n else none
  dbpriv_find_object db (negsuc n) = none

  abbrev pub is_some : Option (Object F) → Bool
  is_some none = false
  is_some (some o) = true

  unfoldable pub valid : Db F → Objid → Bool
  unfolding dbpriv_find_object
  valid db oid = is_some (dbpriv_find_object db oid)

  unfoldable pub db_last_used_objid : Db F → ℤ
  db_last_used_objid db = if db.num_objects == 0 then negsuc 0 else pos (db.num_objects - 1)

  abbrev pub map_slot : (Object F → Object F) → Option (Object F) → Option (Object F)
  map_slot f none = none
  map_slot f (some o) = some (f o)

  -- The table after a write through `objects[k]`, which must not be null.
  unfoldable pub changed : ℕ → (Object F → Object F) → Db F → Db F
  unfolding set_slot
  changed k f db = set_slot k (map_slot f (db.objects k)) db

  unfoldable pub change : Objid → (Object F → Object F) → Db F → Option (Db F)
  change (pos k) f db = if is_some (db.objects k) then some (changed k f db) else none
  change (negsuc k) f db = none

  abbrev pub read {ℓ} : {A : Type ℓ} → (Object F → A) → Option (Object F) → Option A
  read f none = none
  read f (some o) = some (f o)

  -- `objects[oid]->field` and `objects[oid]->field = v`
  unfoldable pub load : Link → Objid → Db F → Option Objid
  unfolding slot get
  load f oid db = read (get f) (slot db oid)

  unfoldable pub store : Link → Objid → Objid → Db F → Option (Db F)
  unfolding change
  store f oid v db = change oid (put f v) db

  -- `objects[to]->g = objects[from]->f`
  abbrev pub move_link : Link → Objid → Link → Objid → Db F → Option (Db F)
  move_link f from g to db = load f from db >>= λ v. store g to v db

  -- The loop of LL_REMOVE, begun at `lid`.
  unfoldable pub ll_unlink : ℕ → Objid → Link → Objid → Db F → Option (Db F)
  ll_unlink zero what nextname lid db = none
  ll_unlink (suc fuel) what nextname lid db =
      if lid ==ℤ nothing
      then some db
      else (load nextname lid db >>= λ q.
          let rest = ll_unlink fuel what nextname q db in
          if q ==ℤ what then move_link nextname what nextname lid db else rest)

  -- LL_REMOVE(where, listname, what, nextname)
  unfoldable pub ll_remove : ℕ → Objid → Link → Objid → Link → Db F → Option (Db F)
  unfolding ll_unlink
  ll_remove fuel at listname what nextname db = do
    first ← load listname at db
    db ←
        if first ==ℤ what
        then move_link nextname what listname at db
        else ll_unlink fuel what nextname first db
    store nextname what nothing db

  -- The loop of LL_APPEND: the last element of the list that begins at `lid`.
  unfoldable pub ll_last : ℕ → Link → Objid → Db F → Option Objid
  ll_last zero nextname lid db = none
  ll_last (suc fuel) nextname lid db = do
    q ← load nextname lid db
    let rest = ll_last fuel nextname q db
    if q ==ℤ nothing then some lid else rest

  -- LL_APPEND(where, listname, what, nextname)
  unfoldable pub ll_append : ℕ → Objid → Link → Objid → Link → Db F → Option (Db F)
  unfolding ll_last
  ll_append fuel at listname what nextname db = do
    first ← load listname at db
    db ←
        if first ==ℤ nothing
        then store listname at what db
        else (ll_last fuel nextname first db >>= λ lid. store nextname lid what db)
    store nextname what nothing db

  -- `if (valid(...)) LL_...`
  abbrev pub when : Bool → (Db F → Option (Db F)) → Db F → Option (Db F)
  when b f db = if b then f db else some db

  unfoldable pub db_change_location : ℕ → Objid → Objid → Db F → Option (Db F)
  db_change_location fuel oid new_location db = do
    old_location ← load location oid db
    db ← when (valid db old_location) (ll_remove fuel old_location contents oid next) db
    db ← when (valid db new_location) (ll_append fuel new_location contents oid next) db
    store location oid new_location db
