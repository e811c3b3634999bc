-- ===== src/Verbs/Cache/Lookup.antt =====
-- The loop over the parents of src/db_verbs.c: its answer does not depend on the case of the name
-- or on the number of rounds, and on the addresses only where they decide what the names do not.
use lambda_moo_plus_foo.Prelude.{
  Option-cases, length, get_elem?, ◌==ℤ◌, ==ℤ_iff, pos, some_injective, ℕ, zero, suc, ◌+◌, ◌≡◌,
  refl, sym, ◌∙◌, inl, inr, Bool, true, false, Option, none, some, List, [], ◌∷◌, arith,
}
use lambda_moo_plus_foo.Text.{Text, IsText, mystrcasecmp}
use lambda_moo_plus_foo.Text.Case.{fold, mystrcasecmp-of_fold}
use lambda_moo_plus_foo.Text.Verbs.Words.{verbcasecmp-fold}
use lambda_moo_plus_foo.Text.Verbs.{verbcasecmp, IsPlainName, verbcasecmp-mystrcasecmp}
use lambda_moo_plus_foo.Value.{Objid}
use lambda_moo_plus_foo.Objects.{Verbdef, Object, Db, dbpriv_find_object}
use lambda_moo_plus_foo.Verbs.{
  Handle, verb_matches, first_verb, Same, never, find_verbdef_by_name, first_ancestor,
}
use lambda_moo_plus_foo.Verbs.Cache.{callable_from}

verb_matches-fold :
    (same : Bool) (names w w' : Text)
    → fold w ≡ fold w'
    → verb_matches same names w ≡ verb_matches same names w'
unfolding verb_matches
verb_matches-fold same names w w' h =
    rw (verbcasecmp-fold same (suc (length names)) names w w' h) refl

verb_matches-same :
    (same : Bool) (names w : Text)
    → (same ≡ true → verb_matches false names w ≡ true)
    → verb_matches same names w ≡ verb_matches false names w
unfolding verb_matches verbcasecmp
verb_matches-same false names w h = refl
verb_matches-same true names w h = sym (h refl)

-- Two tests that agree on the verbs of the list, at their places.
first_verb-ext :
    (p q : ℕ → Verbdef → Bool) (i : ℕ) (vs : List Verbdef)
    → ((k j : ℕ) (v : Verbdef) → get_elem? vs k ≡ some v → j ≡ i + k → p j v ≡ q j v)
    → first_verb p i vs ≡ first_verb q i vs
unfolding first_verb
first_verb-ext p q i [] h = refl
first_verb-ext p q i (v ∷ vs) h =
    let rest : first_verb p (i + 1) vs ≡ first_verb q (i + 1) vs =
      first_verb-ext p q (i + 1) vs (λ k j u at e. h (suc k) j u at (omega arith)) in
    rw (h 0 i v refl (omega arith), rest) refl

find_verbdef_by_name-fold :
    (same : Same) (oid : Objid) (vs : List Verbdef) (w w' : Text) (x : Bool)
    → fold w ≡ fold w'
    → find_verbdef_by_name same oid vs w x ≡ find_verbdef_by_name same oid vs w' x
unfolding find_verbdef_by_name
find_verbdef_by_name-fold same oid vs w w' x h =
    first_verb-ext _ _ 0 vs (λ k j v at e. rw (verb_matches-fold (same oid j) v.name w w' h) refl)

module _ {F : Type 0} (db : Db F) where
  -- The word matches each verb whose name it is the very string of, also when the addresses are not
  -- compared.
  abbrev pub Matches : Same → Text → Type 0
  Matches same w =
      (oid : Objid) (o : Object F) (i : ℕ) (v : Verbdef)
      → dbpriv_find_object db oid ≡ some o
      → get_elem? o.verbdefs i ≡ some v
      → same o.id i ≡ true
      → verb_matches false v.name w ≡ true

  -- A word that is not empty and has no stars and no spaces is such a word: equal addresses have
  -- equal strings.
  Matches-IsPlainName :
      (same : Same) (c : ℕ) (w : Text)
      → IsPlainName (c ∷ w)
      → IsText (c ∷ w)
      → ((oid : Objid) (o : Object F) (i : ℕ) (v : Verbdef)
          → dbpriv_find_object db oid ≡ some o
          → get_elem? o.verbdefs i ≡ some v
          → same o.id i ≡ true
          → v.name ≡ c ∷ w)
      → Matches same (c ∷ w)
  unfolding verb_matches
  Matches-IsPlainName same c w p t equal oid o i v e at f =
      let equal_text : (mystrcasecmp (c ∷ w) (c ∷ w) ==ℤ pos 0) ≡ true =
        (==ℤ_iff (mystrcasecmp (c ∷ w) (c ∷ w)) (pos 0)).1
          (mystrcasecmp-of_fold (c ∷ w) (c ∷ w) refl) in
      rw
        (
          equal oid o i v e at f,
          verbcasecmp-mystrcasecmp false (length w) c w (c ∷ w) p t t (λ h. cc h),
          equal_text,
        )
        refl

  -- Two searches that agree on the objects of the table.
  first_ancestor-ext :
      (find find' : Objid → List Verbdef → Option ℕ) (fuel : ℕ) (oid : Objid)
      → ((oid : Objid) (o : Object F)
          → dbpriv_find_object db oid ≡ some o
          → find o.id o.verbdefs ≡ find' o.id o.verbdefs)
      → first_ancestor fuel db find (dbpriv_find_object db oid)
        ≡ first_ancestor fuel db find' (dbpriv_find_object db oid)
  unfolding first_ancestor
  first_ancestor-ext find find' zero oid h = refl
  first_ancestor-ext find find' (suc fuel) oid h = elim (Option-cases (dbpriv_find_object db oid)) [
    | inl f ↦ rw f refl
    | inr (o, f) ↦
        rw (f, h oid o f)
          (elim (Option-cases (find' o.id o.verbdefs)) [
            | inl e ↦ rw e (first_ancestor-ext find find' fuel o.parent h)
            | inr (i, e) ↦ rw e refl
          ])
  ]

  pub callable_from-fold :
      (same : Same) (fuel : ℕ) (w w' : Text) (oid : Objid)
      → fold w ≡ fold w'
      → callable_from same fuel db w (dbpriv_find_object db oid)
        ≡ callable_from same fuel db w' (dbpriv_find_object db oid)
  unfolding callable_from
  callable_from-fold same fuel w w' oid h =
      first_ancestor-ext _ _ fuel oid
        (λ q o e. find_verbdef_by_name-fold same o.id o.verbdefs w w' true h)

  pub callable_from-same :
      (same : Same) (fuel : ℕ) (w : Text) (oid : Objid)
      → Matches same w
      → callable_from same fuel db w (dbpriv_find_object db oid)
        ≡ callable_from never fuel db w (dbpriv_find_object db oid)
  unfolding callable_from find_verbdef_by_name
  callable_from-same same fuel w oid m = first_ancestor-ext _ _ fuel oid (λ q o e.
      first_verb-ext _ _ 0 o.verbdefs (λ k j v at f.
        let j≡ : k ≡ j = omega arith in
        let at' : get_elem? o.verbdefs j ≡ some v = rw j≡ at at in
        rw (verb_matches-same (same o.id j) v.name w (m q o j v e at')) refl))

  -- The answer does not depend on the number of rounds.
  pub first_ancestor_unique :
      (find : Objid → List Verbdef → Option ℕ) (f g : ℕ) (o : Option (Object F))
      (r r' : Option Handle)
      → first_ancestor f db find o ≡ some r
      → first_ancestor g db find o ≡ some r'
      → r ≡ r'
  unfolding first_ancestor
  first_ancestor_unique find zero g o r r' h k = cc
  first_ancestor_unique find (suc f) zero o r r' h k = cc
  first_ancestor_unique find (suc f) (suc g) none r r' h k = cc
  first_ancestor_unique find (suc f) (suc g) (some o) r r' h k =
      elim (Option-cases (find o.id o.verbdefs)) [
        | inl e ↦
            first_ancestor_unique find f g (dbpriv_find_object db o.parent) r r' (rw e at h)
              (rw e at k)
        | inr (i, e) ↦ some_injective (sym (rw e at h) ∙ (rw e at k))
      ]
