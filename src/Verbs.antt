-- ===== src/Verbs.antt =====
-- The verbs of objects: src/db_verbs.c. A `Verbdef` is pointed to by the object that defines it and
-- its place in the list of that object's verbs. A null handle is `none`; a call of `server_panic`, a
-- null pointer that is followed and a loop that uses up its fuel give an outer `none`.
pub mod Prepositions
pub mod Cache
pub mod Edit
pub mod Namespace
pub mod Info
use lambda_moo_plus_foo.Prelude.{
  leb, ◌==◌, if◌then◌else◌, length, get_elem?, ℤ, ◌==ℤ◌, pos, negsuc, ◌>>=◌, ℕ, zero, suc, ◌+◌, ◌*◌,
  ◌/◌, ◌%◌, Bool, true, false, not, ◌&&◌, ◌||◌, Option, none, some, List, [], ◌∷◌,
}
use lambda_moo_plus_foo.Text.{Text}
use lambda_moo_plus_foo.Text.Verbs.{verbcasecmp}
use lambda_moo_plus_foo.Value.{Objid}
use lambda_moo_plus_foo.Int32.{of_ℤ, to_ℤ}
use lambda_moo_plus_foo.Objects.{Verbdef, Object, Db, slot, dbpriv_find_object, id, owner, parent}

-- `db_arg_spec`, with its number.
pub data ArgSpec : Type 0 where
  aspec_none aspec_any aspec_this : ArgSpec

abbrev pub aspec_code : ArgSpec → ℕ
aspec_code aspec_none = 0
aspec_code aspec_any = 1
aspec_code aspec_this = 2

-- `db_prep_spec`: an index into the table of prepositions, or one of these.
abbrev pub prep_none : ℤ
prep_none = negsuc 0

abbrev pub prep_any : ℤ
prep_any = negsuc 1

-- `(perms >> DOBJSHIFT) & OBJMASK`, `(perms >> IOBJSHIFT) & OBJMASK`, `perms & PERMMASK`, with
-- DOBJSHIFT 4, IOBJSHIFT 6, OBJMASK 3 and PERMMASK 0x70F, and the test of VF_EXEC.
unfoldable pub dobj_bits : ℕ → ℕ
dobj_bits perms = perms / 16 % 4

unfoldable pub iobj_bits : ℕ → ℕ
iobj_bits perms = perms / 64 % 4

unfoldable pub flag_bits : ℕ → ℕ
flag_bits perms = perms % 16 + perms / 256 % 8 * 256

unfoldable pub is_executable : ℕ → Bool
is_executable perms = perms / 4 % 2 == 1

pub record Handle : Type 0 where
  pub definer : Objid
  pub index : ℕ

-- The names have fewer words than characters, so that these rounds are enough for `verbcasecmp`.
abbrev pub is_yes : Option Bool → Bool
is_yes none = false
is_yes (some b) = b

unfoldable pub verb_matches : (same : Bool) → Text → Text → Bool
verb_matches same names word = is_yes (verbcasecmp same (suc (length names)) names word)

-- A loop over the verbs of one object: the place of the first one that passes a test, from `i` on.
unfoldable pub first_verb : (ℕ → Verbdef → Bool) → ℕ → List Verbdef → Option ℕ
first_verb p i [] = none
first_verb p i (v ∷ vs) = if p i v then some i else first_verb p (i + 1) vs

-- Is a word the very string, at the same address, that names the verb of this object at this place?
-- The address is no part of `Text`, so that this is an argument of every search by name.
abbrev pub Same : Type 0
Same = Objid → ℕ → Bool

-- A word that is a string of its own.
abbrev pub never : Same
never _ _ = false

-- `find_verbdef_by_name(o, vname, 1)`, and with 0.
unfoldable pub find_verbdef_by_name : Same → Objid → List Verbdef → Text → Bool → Option ℕ
unfolding verb_matches first_verb is_executable
find_verbdef_by_name same oid vs vname check_x_bit =
    first_verb
      (λ i v. verb_matches (same oid i) v.name vname && (not check_x_bit || is_executable v.perms))
      0 vs

-- `isspace((int)*vname)`, and `*p == '\0'`.
abbrev pub starts_blank : Text → Bool
starts_blank [] = false
starts_blank (c ∷ s) = c == b' ' || leb 9 c && leb c 13

abbrev pub is_empty : Text → Bool
is_empty [] = true
is_empty (c ∷ s) = false

-- A name that is a number, with nothing before or behind it, is also an index, from 0 on. The `long`
-- that `strtol` gives is cut to an `int`.
abbrev pub verb_number : (Text → ℤ × Text) → Text → Bool → ℤ
verb_number strtol vname allow_numbers =
    if allow_numbers && not (starts_blank vname) && is_empty (strtol vname).1
    then to_ℤ (of_ℤ (strtol vname).0)
    else negsuc 0

-- The test of `db_find_command_verb` on one verb.
abbrev pub fits_command : (same : ℕ → Bool) → Text → ArgSpec → ℤ → ArgSpec → ℕ → Verbdef → Bool
fits_command same verb dobj prep iobj i v =
    verb_matches (same i) v.name verb
    && (dobj_bits v.perms == 1 || dobj_bits v.perms == aspec_code dobj)
    && (v.prep ==ℤ prep_any || v.prep ==ℤ prep)
    && (iobj_bits v.perms == 1 || iobj_bits v.perms == aspec_code iobj)

abbrev pub handle_of : Objid → Option ℕ → Option Handle
handle_of oid none = none
handle_of oid (some i) = some (record { definer = oid; index = i })

abbrev pub found_or : Objid → Option ℕ → Option (Option Handle) → Option (Option Handle)
found_or oid none rest = rest
found_or oid (some i) rest = some (some (record { definer = oid; index = i }))

unfoldable pub db_verb_definer : Option Handle → Option Objid
db_verb_definer none = none
db_verb_definer (some h) = some h.definer

module _ {F : Type 0} where
  -- `for (; o; o = dbpriv_find_object(o->parent)) if (...) return ...`
  unfoldable pub first_ancestor :
      ℕ → Db F → (Objid → List Verbdef → Option ℕ) → Option (Object F) → Option (Option Handle)
  first_ancestor zero db find o = none
  first_ancestor (suc fuel) db find none = some none
  first_ancestor (suc fuel) db find (some o) =
      let rest = first_ancestor fuel db find (dbpriv_find_object db o.parent) in
      found_or o.id (find o.id o.verbdefs) rest

  unfoldable pub db_find_command_verb :
      Same → ℕ → Db F → Objid → Text → ArgSpec → ℤ → ArgSpec → Option (Option Handle)
  unfolding first_ancestor first_verb
  db_find_command_verb same fuel db oid verb dobj prep iobj =
      first_ancestor fuel db (λ d. first_verb (fits_command (same d) verb dobj prep iobj) 0)
        (dbpriv_find_object db oid)

  unfoldable pub db_find_defined_verb :
      (Text → ℤ × Text) → Same → Db F → Objid → Text → Bool → Option (Option Handle)
  unfolding first_verb
  db_find_defined_verb strtol same db oid vname allow_numbers =
      let num = verb_number strtol vname allow_numbers in
      (do
        o ← dbpriv_find_object db oid
        some (
            handle_of o.id (
              first_verb (λ i v. (pos i ==ℤ num) || verb_matches (same o.id i) v.name vname) 0
                o.verbdefs)))

  -- Indices count from 1.
  unfoldable pub db_find_indexed_verb : Db F → Objid → ℕ → Option (Option Handle)
  unfolding first_verb
  db_find_indexed_verb db oid index = do
    o ← dbpriv_find_object db oid
    some (handle_of o.id (first_verb (λ i v. i + 1 == index) 0 o.verbdefs))

  unfoldable pub db_count_verbs : Db F → Objid → Option ℕ
  db_count_verbs db oid = do o ← dbpriv_find_object db oid; some (length o.verbdefs)

  -- The verb that a handle points to.
  unfoldable pub verb_at : Db F → Handle → Option Verbdef
  verb_at db h = do o ← slot db h.definer; get_elem? o.verbdefs h.index

  abbrev pub read_verb {ℓ} : {A : Type ℓ} → (Verbdef → A) → Db F → Option Handle → Option A
  read_verb f db none = none
  read_verb f db (some h) = verb_at db h >>= λ v. some (f v)

  unfoldable pub db_verb_names : Db F → Option Handle → Option Text
  unfolding verb_at
  db_verb_names = read_verb (λ v. v.name)

  unfoldable pub db_verb_owner : Db F → Option Handle → Option Objid
  unfolding verb_at
  db_verb_owner = read_verb (λ v. v.owner)

  unfoldable pub db_verb_flags : Db F → Option Handle → Option ℕ
  unfolding verb_at
  db_verb_flags = read_verb (λ v. flag_bits v.perms)

  -- A verb without a program has the null program, `none`.
  unfoldable pub db_verb_program : Db F → Option Handle → Option (Option ℕ)
  unfolding verb_at
  db_verb_program = read_verb (λ v. v.program)

  unfoldable pub db_verb_arg_specs : Db F → Option Handle → Option (ℕ × ℤ × ℕ)
  unfolding verb_at
  db_verb_arg_specs = read_verb (λ v. (dobj_bits v.perms, v.prep, iobj_bits v.perms))
