-- ===== src/Properties/Parents.antt =====
-- The arrays of values after a change of parents: src/db_properties.c, and `db_change_parent` of
-- src/db_objects.c with it. The differences of counts are not negative, since a common ancestor has
-- at most the properties of the objects below it.
use lambda_moo_plus_foo.Prelude.{
  if◌then◌else◌, length, ◌==ℤ◌, ◌>>=◌, copy, ℕ, zero, suc, ◌+◌, ◌-◌, Bool, true, false, not, ◌&&◌,
  Option, none, some, List, [], ◌∷◌, map,
}
use lambda_moo_plus_foo.Value.{Objid, nothing, clear}
use lambda_moo_plus_foo.Objects.{
  Propdef, Pval, Object, Db, slot, dbpriv_find_object, change, load, store, ll_remove, ll_append,
  when, parent, child, sibling,
}
use lambda_moo_plus_foo.Objects.Table.{dbpriv_count_properties}
use lambda_moo_plus_foo.Verbs.Cache.{VerbCache, clear_cache}
use lambda_moo_plus_foo.Properties.Values.{with_propval}
use lambda_moo_plus_foo.Properties.Edit.{
  append_to, or_else, each_child, property_defined_at_or_below, chowned,
}

-- Whether a list of verbs is the null pointer.
abbrev pub is_null {ℓ} : {A : Type ℓ} → List A → Bool
is_null [] = true
is_null (x ∷ xs) = false

abbrev pub if_above : Objid → Option Bool → Option Objid → Option Objid
if_above o1 none r = none
if_above o1 (some true) r = some o1
if_above o1 (some false) r = r

module _ {F : Type 0} where
  abbrev pub cleared_pval : Objid → Pval F → Pval F
  cleared_pval owned_by pv = chowned owned_by (record pv { var = clear })

  -- `parent->propval[i]` and the following; a null parent is not looked at for no values.
  abbrev pub taken : Option (Object F) → ℕ → ℕ → Option (List (Pval F))
  taken _ i zero = some []
  taken none i (suc n) = none
  taken (some p) i (suc n) = copy p.propval i (suc n)

  abbrev pub map_vals : (Pval F → Pval F) → Option (List (Pval F)) → Option (List (Pval F))
  map_vals f none = none
  map_vals f (some ps) = some (map f ps)

  -- The new array: the values down to `local`, those that come from the new parent, which are
  -- clear, and those of the common ancestor. The old ones between are freed.
  unfoldable pub fixed :
      Object F
      → Option (Object F)
      → (parent_local local old new common : ℕ) → Option (List (Pval F))
  unfolding copy
  fixed me above parent_local local old new common = copy me.propval local old >>= λ freed.
      append_to (copy me.propval 0 local) (
        append_to (map_vals (cleared_pval me.owner) (taken above parent_local new))
          (copy me.propval (local + old) common))

  unfoldable pub fix_props :
      ℕ → ℕ → Objid → (parent_local old new common : ℕ) → Db F → Option (Db F)
  unfolding fixed change each_child
  fix_props most zero oid parent_local old new common db = none
  fix_props most (suc fuel) oid parent_local old new common db = do
    me ← dbpriv_find_object db oid
    ps ←
        fixed me (dbpriv_find_object db me.parent) parent_local (parent_local + length me.propdefs)
          old new common
    db ← change oid (with_propval ps) db
    each_child most
        (λ c db. fix_props most fuel c (parent_local + length me.propdefs) old new common db)
        me.child db

  -- The loop over the definitions of one object.
  unfoldable pub any_at_or_below : ℕ → ℕ → Db F → Objid → List Propdef → Option Bool
  unfolding property_defined_at_or_below
  any_at_or_below most fuel db oid [] = some false
  any_at_or_below most fuel db oid (p ∷ ps) =
      or_else (property_defined_at_or_below most fuel db p.name p.hash oid)
        (any_at_or_below most fuel db oid ps)

  -- The loop over the new parent and its ancestors: does one of them define a property that the
  -- object or one below it defines?
  unfoldable pub conflict : ℕ → ℕ → ℕ → Db F → Objid → Option (Object F) → Option Bool
  unfolding any_at_or_below
  conflict zero most fuel db oid o = none
  conflict (suc n) most fuel db oid none = some false
  conflict (suc n) most fuel db oid (some o) =
      or_else (any_at_or_below most fuel db oid o.propdefs)
        (conflict n most fuel db oid (dbpriv_find_object db o.parent))

  unfoldable pub dbpriv_check_properties_for_chparent : ℕ → ℕ → Db F → Objid → Objid → Option Bool
  unfolding conflict
  dbpriv_check_properties_for_chparent most fuel db oid new_parent =
      conflict most most fuel db oid (dbpriv_find_object db new_parent) >>= λ b. some (not b)

  -- The inner loop of the search for a common ancestor: is `o1` the object `o2` or above it?
  unfoldable pub is_above : ℕ → Db F → Objid → Objid → Option Bool
  is_above zero db o1 o2 = none
  is_above (suc fuel) db o1 o2 =
      let rest = load parent o2 db >>= λ q. is_above fuel db o1 q in
      if o2 ==ℤ nothing then some false else or_else (some (o1 ==ℤ o2)) rest

  unfoldable pub common_ancestor : ℕ → ℕ → Db F → Objid → Objid → Option Objid
  unfolding is_above
  common_ancestor zero most db o1 old_parent = none
  common_ancestor (suc fuel) most db o1 old_parent =
      let rest = load parent o1 db >>= λ q. common_ancestor fuel most db q old_parent in
      if o1 ==ℤ nothing then some nothing else if_above o1 (is_above most db o1 old_parent) rest

  unfoldable pub dbpriv_fix_properties_after_chparent : ℕ → ℕ → Objid → Objid → Db F → Option (Db F)
  unfolding common_ancestor dbpriv_count_properties fix_props
  dbpriv_fix_properties_after_chparent most fuel oid old_parent db = do
    new_parent ← load parent oid db
    common ← common_ancestor most most db new_parent old_parent
    both ← if common ==ℤ nothing then some 0 else dbpriv_count_properties most db common
    old ← dbpriv_count_properties most db old_parent
    new ← dbpriv_count_properties most db new_parent
    fix_props most fuel oid 0 (old - both) (new - both) both db

  -- An object with no children and no verbs had no part in looking verbs up, and the cache stays.
  unfoldable pub cache_after : Object F → VerbCache → VerbCache
  unfolding clear_cache
  cache_after o c = if o.child ==ℤ nothing && is_null o.verbdefs then c else clear_cache c

  unfoldable pub change_parent : ℕ → ℕ → Objid → Objid → Db F → Option (Db F)
  unfolding ll_remove ll_append dbpriv_fix_properties_after_chparent
  change_parent most fuel oid new_parent db = do
    old_parent ← load parent oid db
    db ← when (not (old_parent ==ℤ nothing)) (ll_remove most old_parent child oid sibling) db
    db ← when (not (new_parent ==ℤ nothing)) (ll_append most new_parent child oid sibling) db
    db ← store parent oid new_parent db
    dbpriv_fix_properties_after_chparent most fuel oid old_parent db

  abbrev pub with_cache : VerbCache → Option (Db F) → Option (Bool × Db F × VerbCache)
  with_cache c none = none
  with_cache c (some db) = some (true, db, c)

  abbrev pub if_allowed :
      Bool → Db F → VerbCache → Option (Bool × Db F × VerbCache) → Option (Bool × Db F × VerbCache)
  if_allowed false db c r = some (false, db, c)
  if_allowed true db c r = r

  unfoldable pub db_change_parent :
      ℕ → ℕ → Objid → Objid → Db F × VerbCache → Option (Bool × Db F × VerbCache)
  unfolding dbpriv_check_properties_for_chparent slot cache_after change_parent
  db_change_parent most fuel oid new_parent (db, c) =
      dbpriv_check_properties_for_chparent most fuel db oid new_parent >>= λ ok.
      if_allowed ok db c (
        slot db oid >>= λ o.
        with_cache (cache_after o c) (change_parent most fuel oid new_parent db))
