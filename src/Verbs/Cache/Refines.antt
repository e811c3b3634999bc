-- ===== src/Verbs/Cache/Refines.antt =====
-- Looking a verb up through the cache of src/db_verbs.c gives what the loop over the parents gives.
use lambda_moo_plus_foo.Objects.Ancestors.{IsNumbered, Ranked}
use lambda_moo_plus_foo.Verbs.Cache.Lookup.{
  Matches, callable_from-fold, callable_from-same, first_ancestor_unique,
}
use lambda_moo_plus_foo.Prelude.{
  ◌==◌, Bool-cases, Option-cases, List-cases, ==ℤ_iff, some_injective, ℕ, zero, suc, ◌+◌, ◌%◌, ◌<◌,
  ◌≡◌, refl, sym, ap, ◌∙◌, inl, inr, Bool, true, ◌&&◌, Option, none, some, List, [], ◌∷◌, arith,
}
use lambda_moo_plus_foo.Text.{Text, IsText}
use lambda_moo_plus_foo.Text.Case.{fold, mystrcasecmp_iff}
use lambda_moo_plus_foo.Value.{Objid, nothing}
use lambda_moo_plus_foo.Objects.{Object, Db, dbpriv_find_object}
use lambda_moo_plus_foo.Verbs.{
  Handle, first_verb, Same, never, find_verbdef_by_name, first_ancestor,
}
use lambda_moo_plus_foo.Verbs.Cache.{
  CacheEntry, VerbCache, make_vc_table, made_from, made, bucket_of, verb_hash, is_entry,
  find_cached, count_hit, add_entry, stored_answer, parent_with_verbs, key_of, callable_from,
  answer, db_find_callable_verb,
}

and_one : (a b : Bool) → (a && b) ≡ true → a ≡ true
and_one a b h = ground arith

and_two : (a b : Bool) → (a && b) ≡ true → b ≡ true
and_two a b h = ground arith

module _ {F : Type 0} (db : Db F) where
  -- The loop over the parents, begun at `o`, answers `r`, for a word that is a string of its own.
  abbrev pub Answers : Text → Option (Object F) → Option Handle → Type 0
  Answers w o r = (fuel : ℕ) × (callable_from never fuel db w o ≡ some r)

  -- The entry holds what the loop over the parents answers.
  abbrev pub IsCurrent : CacheEntry → Type 0
  IsCurrent e = IsText e.verbname × Answers e.verbname (dbpriv_find_object db e.oid_key) e.found

  abbrev pub AreCurrent : List CacheEntry → Type 0
  AreCurrent [] = Unit
  AreCurrent (e ∷ es) = IsCurrent e × AreCurrent es

  abbrev pub IsCoherent : VerbCache → Type 0
  IsCoherent c = (b : ℕ) → AreCurrent (bucket_of c b)

  find_cached-IsCurrent :
      (hash : ℕ) (key : Objid) (verb : Text) (es : List CacheEntry) (e : CacheEntry)
      → AreCurrent es
      → find_cached hash key verb es ≡ some e
      → IsCurrent e × (is_entry hash key verb e ≡ true)
  unfolding find_cached
  find_cached-IsCurrent hash key verb [] e h k = cc
  find_cached-IsCurrent hash key verb (a ∷ es) e h k =
      elim (Bool-cases (is_entry hash key verb a)) [
        | inl f ↦ let same : a ≡ e = some_injective (rw f at k) in rw (sym same) (h.0, f)
        | inr f ↦ find_cached-IsCurrent hash key verb es e h.1 (rw f at k)
      ]

  callable_unique :
      (f g : ℕ) (w : Text) (o : Option (Object F)) (r r' : Option Handle)
      → callable_from never f db w o ≡ some r
      → callable_from never g db w o ≡ some r'
      → r ≡ r'
  unfolding callable_from
  callable_unique f g w o r r' h k = first_ancestor_unique db _ f g o r r' h k

  added-IsCoherent :
      (b : ℕ) (e : CacheEntry) (c : VerbCache)
      → IsCurrent e
      → IsCoherent c
      → IsCoherent (add_entry b e c)
  unfolding add_entry
  added-IsCoherent b e c h k n = elim (Bool-cases (n == b)) [
    | inl f ↦ rw f (h, k b)
    | inr f ↦ rw f (k n)
  ]

  counted-IsCoherent :
      (r : Option Handle) (c : VerbCache) → IsCoherent c → IsCoherent (count_hit r c)
  counted-IsCoherent none c h = h
  counted-IsCoherent (some r) c h = h

  made_from-IsCoherent :
      (t : Option (ℕ → List CacheEntry)) (c : VerbCache) → IsCoherent c → IsCoherent (made_from t c)
  unfolding make_vc_table
  made_from-IsCoherent none c h b = tt
  made_from-IsCoherent (some t) c h b = h b

  made-IsCoherent : (c : VerbCache) → IsCoherent c → IsCoherent (made c)
  made-IsCoherent c h = made_from-IsCoherent c.vc_table c h

  no_object : dbpriv_find_object db nothing ≡ none
  unfolding dbpriv_find_object
  no_object = refl

  module _ (rank : Object F → ℕ) (n : ℕ) (k : Ranked db rank n) where
    callable_total :
        (fuel : ℕ) (w : Text) (oid : Objid)
        → ((o : Object F) → dbpriv_find_object db oid ≡ some o → rank o + 1 < fuel)
        → 0 < fuel
        → (r : Option Handle) × (callable_from never fuel db w (dbpriv_find_object db oid) ≡ some r)
    unfolding callable_from first_ancestor
    callable_total zero w oid h p = absurd (omega arith)
    callable_total (suc fuel) w oid h p = elim (Option-cases (dbpriv_find_object db oid)) [
      | inl e ↦ (none, rw e refl)
      | inr (o, e) ↦
          let up =
            callable_total fuel w o.parent (λ q f. omega (arith, k.falls oid o q e f, h o e))
              (omega (arith, h o e)) in
          elim (Option-cases (find_verbdef_by_name never o.id o.verbdefs w true)) [
            | inl f ↦ (up.0, rw (e, f) up.1)
            | inr (i, f) ↦ (some (record { definer = o.id; index = i }), rw (e, f) refl)
          ]
    ]

    -- The object whose number is the key: the loop may begin there, or at `oid`.
    with_verbs :
        (fuel : ℕ) (oid : Objid)
        → IsNumbered db
        → ((o : Object F) → dbpriv_find_object db oid ≡ some o → rank o + 1 < fuel)
        → 0 < fuel
        → (y : Option (Object F)) × (parent_with_verbs fuel db (dbpriv_find_object db oid) ≡ some y)
          × (dbpriv_find_object db (key_of y) ≡ y)
          × ((w : Text) (r : Option Handle)
              → Answers w y r
              → Answers w (dbpriv_find_object db oid) r)
    unfolding parent_with_verbs callable_from first_ancestor find_verbdef_by_name first_verb
    with_verbs zero oid nb h p = absurd (omega arith)
    with_verbs (suc fuel) oid nb h p = elim (Option-cases (dbpriv_find_object db oid)) [
      | inl e ↦ (none, rw e refl, no_object, λ w r a. rw e a)
      | inr (o, e) ↦ elim (List-cases o.verbdefs) [
        | inr (v, vs, f) ↦
            (some o, rw (e, f) refl, ap (dbpriv_find_object db) (nb oid o e) ∙ e, λ w r a. rw e a)
        | inl f ↦
            let (y, is, key, same) =
              with_verbs fuel o.parent nb (λ q g. omega (arith, k.falls oid o q e g, h o e))
                (omega (arith, h o e)) in
            (y, rw (e, f) is, key, λ w r a. let (g, b) = same w r a in (suc g, rw (e, f) b))
      ]
    ]

    answer-IsCoherent :
        (same : Same) (verb : Text) (hash : ℕ) (y : Option (Object F)) (c : VerbCache) (b : ℕ)
        → IsText verb
        → dbpriv_find_object db (key_of y) ≡ y
        → (found : Option Handle) → callable_from never n db verb y ≡ some found
        → callable_from same n db verb y ≡ some found
        → IsCoherent c
        → (m : Option CacheEntry) → find_cached hash (key_of y) verb (bucket_of c b) ≡ m
        → (r : Option Handle) × (c' : VerbCache) × (answer same n db verb hash y c m ≡ some (r, c'))
          × Answers verb y r
          × IsCoherent c'
    unfolding answer
    answer-IsCoherent same verb hash y c b t key found is run h none e = (
      found,
      (stored_answer c hash verb (key_of y) found).1,
      rw run refl,
      (n, is),
      added-IsCoherent (hash % c.vc_size)
          (record { hash = hash; oid_key = key_of y; verbname = verb; found = found })
          (record c { misses = c.misses + 1 }) (t, (n, rw key is)) h,
    )
    answer-IsCoherent same verb hash y c b t key found is run h (some e) at =
        let (current, match) =
          find_cached-IsCurrent hash (key_of y) verb (bucket_of c b) e (h b) at in
        let same_key : key_of y ≡ e.oid_key = (==ℤ_iff _ _).0 (and_one _ _ (and_two _ _ match)) in
        let same_name : fold e.verbname ≡ fold verb = sym (
          (mystrcasecmp_iff verb e.verbname t current.0).0
            ((==ℤ_iff _ _).0 (and_two _ _ (and_two _ _ match)))) in
        let there : dbpriv_find_object db e.oid_key ≡ y =
          ap (dbpriv_find_object db) (sym same_key) ∙ key in
        (
          e.found,
          count_hit e.found c,
          refl,
          (
            current.1.0,
            ap (callable_from never current.1.0 db verb) (sym there)
                ∙ sym (callable_from-fold db never current.1.0 e.verbname verb e.oid_key same_name)
                ∙ current.1.1,
          ),
          counted-IsCoherent e.found c h,
        )

    -- Take a table where each object stands in the slot of its number, no object is its own ancestor
    -- and no line of ancestors is as long as `n`, which is more than 1, and a cache whose entries are
    -- current: each holds what the loop answers for a string of its own. For a name that is a C
    -- string, and that matches the verbs that it is the very string of, stars included, whether or
    -- not addresses are compared, `db_find_callable_verb` answers what the loop over the parents
    -- answers without the cache, and the cache stays current.
    pub db_find_callable_verb-IsCoherent :
        (same : Same) (oid : Objid) (verb : Text) (c : VerbCache)
        → Matches db same verb
        → IsNumbered db
        → 1 < n
        → IsText verb
        → IsCoherent c
        → (r : Option Handle) × (c' : VerbCache) × (db_find_callable_verb same n db oid verb c
            ≡ some (r, c'))
          × (callable_from same n db verb (dbpriv_find_object db oid) ≡ some r)
          × IsCoherent c'
    unfolding db_find_callable_verb
    db_find_callable_verb-IsCoherent same oid verb c m nb p t h =
        let (y, is, key, up) = with_verbs n oid nb (λ o e. k.below oid o e) (omega arith) in
        let (r, direct) = callable_total n verb oid (λ o e. k.below oid o e) (omega arith) in
        let (found, at_y) =
          callable_total n verb (key_of y) (λ o e. k.below (key_of y) o e) (omega arith) in
        let hash = verb_hash verb (key_of y) in
        let (r', c', ran, answers, coherent) =
          answer-IsCoherent same verb hash y (made c) (hash % (made c).vc_size) t key found
            (rw key at at_y) (rw key at (callable_from-same db same n verb (key_of y) m ∙ at_y))
            (made-IsCoherent c h) _ refl in
        let (f, again) = up verb r' answers in
        let one : r' ≡ r = callable_unique f n verb (dbpriv_find_object db oid) r' r again direct in
        (
          r',
          c',
          rw is ran,
          callable_from-same db same n verb oid m ∙ direct ∙ ap some (sym one),
          coherent,
        )
