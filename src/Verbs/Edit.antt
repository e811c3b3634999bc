-- ===== src/Verbs/Edit.antt =====
-- The operations of src/db_verbs.c that change verbs. All but those for the owner and the program
-- empty the cache.
pub mod Laws
pub mod Adding
use lambda_moo_plus_foo.Prelude.{
  ◌==◌, length, get_elem?, set, ℤ, ◌==ℤ◌, ◌>>=◌, ℕ, zero, suc, ◌+◌, ◌*◌, ◌/◌, ◌%◌, Bool, ◌||◌,
  Option, none, some, List, [], ◌∷◌, ◌++◌,
}
use lambda_moo_plus_foo.Text.{Text}
use lambda_moo_plus_foo.Value.{Objid}
use lambda_moo_plus_foo.Objects.{
  short_bits, to_short, Verbdef, Object, Db, dbpriv_find_object, change, owner,
}
use lambda_moo_plus_foo.Objects.Users.{is_wizard}
use lambda_moo_plus_foo.Verbs.{
  ArgSpec, flag_bits, Handle, verb_at, db_verb_owner, db_verb_flags, aspec_none, aspec_any,
  aspec_this,
}
use lambda_moo_plus_foo.Verbs.Cache.{VerbCache, clear_cache}

-- `a | b` for two bits and an argument specification.
abbrev pub or_spec : ℕ → ArgSpec → ℕ
or_spec a aspec_none = a
or_spec a aspec_any = a / 2 * 2 + 1
or_spec a aspec_this = 2 + a % 2

-- `flags | (dobj << DOBJSHIFT) | (iobj << IOBJSHIFT)`
unfoldable pub with_specs : ℕ → ArgSpec → ArgSpec → ℕ
with_specs flags dobj iobj =
    flags % 16
    + or_spec (flags / 16 % 4) dobj * 16
    + or_spec (flags / 64 % 4) iobj * 64
    + flags / 256 * 256

-- `(perms & ~PERMMASK) | flags`, where `flags` has no bit outside the mask.
unfoldable pub with_flags : ℕ → ℕ → ℕ
with_flags perms flags = perms / 16 % 16 * 16 + perms / 2048 * 2048 + flags

-- The list without its element at an index.
unfoldable pub delete_at {ℓ} : {A : Type ℓ} → List A → ℕ → List A
delete_at [] i = []
delete_at (x ∷ xs) zero = xs
delete_at (x ∷ xs) (suc i) = x ∷ delete_at xs i

module _ {F : Type 0} where
  abbrev pub with_verbdefs : (List Verbdef → List Verbdef) → Object F → Object F
  with_verbdefs f o = record o { verbdefs = f o.verbdefs }

  -- `*v = f(*v)` through a handle that is not null.
  unfoldable pub edit_verb : (Verbdef → Verbdef) → Option Handle → Db F → Option (Db F)
  unfolding change verb_at
  edit_verb f none db = none
  edit_verb f (some h) db = do
    v ← verb_at db h
    change h.definer (with_verbdefs (λ vs. set vs h.index (f v))) db

  -- The number of the new verb, counted from 1.
  unfoldable pub db_add_verb :
      Objid
      → Text
      → Objid
      → (flags : ℕ) → ArgSpec
      → ℤ
      → ArgSpec
      → Db F × VerbCache
      → Option (ℕ × Db F × VerbCache)
  unfolding change clear_cache with_specs short_bits to_short
  db_add_verb oid vnames owned_by flags dobj prep iobj (db, c) = do
    o ← dbpriv_find_object db oid
    let v : Verbdef = record {
      name = vnames;
      program = none;
      owner = owned_by;
      perms = short_bits (with_specs flags dobj iobj);
      prep = to_short prep;
    }
    db' ← change oid (with_verbdefs (λ vs. vs ++ v ∷ [])) db
    some (length o.verbdefs + 1, db', clear_cache c)

  unfoldable pub db_delete_verb : Handle → Db F × VerbCache → Option (Db F × VerbCache)
  unfolding change clear_cache delete_at verb_at
  db_delete_verb h (db, c) = do
    o ← dbpriv_find_object db h.definer
    v ← get_elem? o.verbdefs h.index
    db' ← change h.definer (with_verbdefs (λ vs. delete_at vs h.index)) db
    some (db', clear_cache c)

  abbrev pub edit_and_clear :
      (Verbdef → Verbdef) → Option Handle → Db F × VerbCache → Option (Db F × VerbCache)
  edit_and_clear f h (db, c) = edit_verb f h db >>= λ db'. some (db', clear_cache c)

  unfoldable pub db_set_verb_names :
      Option Handle → Text → Db F × VerbCache → Option (Db F × VerbCache)
  unfolding edit_verb clear_cache
  db_set_verb_names h names = edit_and_clear (λ v. record v { name = names }) h

  unfoldable pub db_set_verb_owner : Option Handle → Objid → Db F → Option (Db F)
  unfolding edit_verb
  db_set_verb_owner h owned_by = edit_verb (λ v. record v { owner = owned_by }) h

  unfoldable pub db_set_verb_flags :
      Option Handle → ℕ → Db F × VerbCache → Option (Db F × VerbCache)
  unfolding edit_verb clear_cache with_flags short_bits
  db_set_verb_flags h flags =
      edit_and_clear (λ v. record v { perms = short_bits (with_flags v.perms flags) }) h

  unfoldable pub db_set_verb_program : Option Handle → Option ℕ → Db F → Option (Db F)
  unfolding edit_verb
  db_set_verb_program h program = edit_verb (λ v. record v { program = program }) h

  unfoldable pub db_set_verb_arg_specs :
      Option Handle → ArgSpec → ℤ → ArgSpec → Db F × VerbCache → Option (Db F × VerbCache)
  unfolding edit_verb clear_cache with_specs short_bits to_short
  db_set_verb_arg_specs h dobj prep iobj =
      edit_and_clear
        (λ v. record v {
          perms = short_bits (with_specs (flag_bits v.perms) dobj iobj);
          prep = to_short prep;
        })
        h

  -- `(db_verb_flags(h) & flag) || progr == db_verb_owner(h) || is_wizard(progr)`, for one bit.
  unfoldable pub db_verb_allows : Db F → Option Handle → Objid → (bit : ℕ) → Option Bool
  unfolding is_wizard
  db_verb_allows db h progr bit = do
    flags ← db_verb_flags db h
    owned_by ← db_verb_owner db h
    some (flags / bit % 2 == 1 || progr ==ℤ owned_by || is_wizard db progr)
