-- ===== src/Verbs/Edit/Adding.antt =====
-- Adding a verb, finding it by its number, and deleting it: src/db_verbs.c.
use lambda_moo_plus_foo.Prelude.{
  ltb, ◌==◌, ==_iff, Bool-cases, length, get_elem?, length-append, get_elem?-append_last, ℤ, pos, ℕ,
  zero, suc, ◌+◌, ◌<◌, ◌≡◌, refl, ap, ◌∙◌, inl, inr, true, false, ◌&&◌, none, some, List, [], ◌∷◌,
  ◌++◌, arith,
}
use lambda_moo_plus_foo.Text.{Text}
use lambda_moo_plus_foo.Value.{Objid}
use lambda_moo_plus_foo.Objects.{
  short_bits, to_short, Verbdef, Object, Db, set_slot, slot, dbpriv_find_object, changed,
}
use lambda_moo_plus_foo.Verbs.{ArgSpec, first_verb, db_find_indexed_verb, verb_at}
use lambda_moo_plus_foo.Verbs.Cache.{VerbCache, clear_cache, bucket_of}
use lambda_moo_plus_foo.Verbs.Edit.{
  with_specs, delete_at, with_verbdefs, db_add_verb, db_delete_verb,
}
use lambda_moo_plus_foo.Verbs.Edit.Laws.{handle, clear_cache_empty}

delete_at-append_last {ℓ} :
    {A : Type ℓ} (xs : List A) (a : A) → delete_at (xs ++ a ∷ []) (length xs) ≡ xs
unfolding delete_at
delete_at-append_last [] a = refl
delete_at-append_last (x ∷ xs) a = ap (λ t. x ∷ t) (delete_at-append_last xs a)

get_elem?-append_other {ℓ} :
    {A : Type ℓ} (xs : List A) (a : A) (j : ℕ)
    → (j == length xs) ≡ false
    → get_elem? (xs ++ a ∷ []) j ≡ get_elem? xs j
get_elem?-append_other [] a zero h = cc
get_elem?-append_other [] a (suc j) h = refl
get_elem?-append_other (x ∷ xs) a zero h = refl
get_elem?-append_other (x ∷ xs) a (suc j) h = get_elem?-append_other xs a j (ground arith)

first_verb-index :
    (i j t : ℕ) (vs : List Verbdef)
    → j < length vs
    → t ≡ i + j + 1
    → first_verb (λ k v. k + 1 == t) i vs ≡ some (i + j)
unfolding first_verb
first_verb-index i j t [] h e = absurd (omega arith)
first_verb-index i zero t (v ∷ vs) h e =
    let f : (i + 1 == t) ≡ true = ground arith in let g : i + 0 ≡ i = omega arith in rw (f, g) refl
first_verb-index i (suc j) t (v ∷ vs) h e =
    let f : (i + 1 == t) ≡ false = ground arith in
    let g : i + suc j ≡ i + 1 + j = omega arith in
    rw (f, g) (first_verb-index (i + 1) j t vs (omega arith) (omega arith))

-- A valid object stands in its slot, which is below the number of slots.
pub in_slot :
    {F : Type 0} (db : Db F) (n : ℕ) (o : Object F)
    → dbpriv_find_object db (pos n) ≡ some o
    → (ltb n db.num_objects ≡ true) × (db.objects n ≡ some o)
unfolding dbpriv_find_object
in_slot db n o h = elim (Bool-cases (ltb n db.num_objects)) [
  | inl e ↦ (e, rw e at h)
  | inr e ↦ cc (rw e at h)
]

module _ {F : Type 0} (db : Db F) (c : VerbCache) (n : ℕ) (o : Object F) (vnames : Text)
    (owned_by : Objid) (flags : ℕ) (dobj : ArgSpec) (prep : ℤ) (iobj : ArgSpec) where
  abbrev pub new_verb : Verbdef
  new_verb = record {
    name = vnames;
    program = none;
    owner = owned_by;
    perms = short_bits (with_specs flags dobj iobj);
    prep = to_short prep;
  }

  abbrev with_new : Db F
  with_new = changed n (with_verbdefs (λ vs. vs ++ new_verb ∷ [])) db

  found_again :
      dbpriv_find_object db (pos n) ≡ some o
      → dbpriv_find_object with_new (pos n) ≡ some (with_verbdefs (λ vs. vs ++ new_verb ∷ []) o)
  unfolding dbpriv_find_object changed set_slot
  found_again at = let (low, e) = in_slot db n o at in rw (low, (==_iff n n).1 refl, e) refl

  new_slot :
      dbpriv_find_object db (pos n) ≡ some o
      → with_new.objects n ≡ some (with_verbdefs (λ vs. vs ++ new_verb ∷ []) o)
  new_slot at = (in_slot with_new n _ (found_again at)).1

  others_stay :
      dbpriv_find_object db (pos n) ≡ some o
      → (m j : ℕ) → (m == n && j == length o.verbdefs) ≡ false
      → verb_at with_new (handle m j) ≡ verb_at db (handle m j)
  unfolding verb_at changed slot set_slot
  others_stay at m j h = elim (Bool-cases (m == n)) [
    | inr e ↦ rw e refl
    | inl e ↦
        let same : m ≡ n = (==_iff m n).0 e in
        let apart : (j == length o.verbdefs) ≡ false = ground arith in
        rw (e, same, (in_slot db n o at).1) (get_elem?-append_other o.verbdefs new_verb j apart)
  ]

  removed : Db F
  removed = changed n (with_verbdefs (λ vs. delete_at vs (length o.verbdefs))) with_new

  removed_same : dbpriv_find_object db (pos n) ≡ some o → (m : ℕ) → removed.objects m ≡ db.objects m
  unfolding removed changed set_slot
  removed_same at m = elim (Bool-cases (m == n)) [
    | inr e ↦ rw e refl
    | inl e ↦
        let same : m ≡ n = (==_iff m n).0 e in
        rw
          (
            e,
            same,
            (==_iff n n).1 refl,
            (in_slot db n o at).1,
            delete_at-append_last o.verbdefs new_verb,
          )
          refl
  ]

  -- Adding a verb to a valid object, which stands in the slot of its number, runs without a fault.
  -- It is the last verb, with its numbers cut to a `short`, and is found by the number that is returned; every other verb is as before,
  -- and the cache is empty. Deleting it through that handle gives the old table back, slot by slot.
  pub db_delete_verb-db_add_verb :
      dbpriv_find_object db (pos n) ≡ some o
      → o.id ≡ pos n
      → (db' : Db F) × (c' : VerbCache) × (db_add_verb
            (pos n)
            vnames
            owned_by
            flags
            dobj
            prep
            iobj
            (db, c)
          ≡ some (length o.verbdefs + 1, db', c'))
        × (verb_at db' (handle n (length o.verbdefs)) ≡ some new_verb)
        × (db_find_indexed_verb db' (pos n) (length o.verbdefs + 1)
            ≡ some (some (handle n (length o.verbdefs))))
        × ((m j : ℕ)
            → (m == n && j == length o.verbdefs) ≡ false
            → verb_at db' (handle m j) ≡ verb_at db (handle m j))
        × ((b : ℕ) → bucket_of c' b ≡ [])
        × ((db'' : Db F) × (c'' : VerbCache) × (db_delete_verb
                (handle n (length o.verbdefs))
                (db', c')
              ≡ some (db'', c''))
            × ((m : ℕ) → db''.objects m ≡ db.objects m))
  unfolding db_add_verb db_delete_verb db_find_indexed_verb removed verb_at slot
  db_delete_verb-db_add_verb at is =
      let last = get_elem?-append_last o.verbdefs new_verb in
      let again = found_again at in
      let there = new_slot at in
      let long : length o.verbdefs < length (o.verbdefs ++ new_verb ∷ []) =
        omega (arith, length-append {0} o.verbdefs (new_verb ∷ [])) in
      let index_last =
        first_verb-index 0 (length o.verbdefs) (length o.verbdefs + 1) (o.verbdefs ++ new_verb ∷ [])
          long (omega arith)
        ∙ ap some (omega arith) in
      (
        with_new,
        clear_cache c,
        rw (at, (in_slot db n o at).1) refl,
        rw there last,
        rw again (rw (is, index_last) refl),
        others_stay at,
        clear_cache_empty c,
        (removed, clear_cache (clear_cache c), rw (again, last, there) refl, removed_same at),
      )
