-- ===== src/Properties/Layout.antt =====
-- The layout of the arrays of property values, and looking a property up in them:
-- src/db_properties.c.
use lambda_moo_plus_foo.Prelude.{
  ltb, ltb→lt, ltb-false, Bool-cases, Option-cases, length, get_elem?, some_injective, ℕ, zero, suc,
  ◌+◌, ◌-◌, ◌≤◌, ◌<◌, ◌≡◌, refl, ap, inl, inr, false, Option, none, some, List, [], ◌∷◌, arith,
}
use lambda_moo_plus_foo.Text.{Text, str_hash}
use lambda_moo_plus_foo.Value.{Objid, Var}
use lambda_moo_plus_foo.Objects.{Propdef, Pval, Object, Db, dbpriv_find_object}
use lambda_moo_plus_foo.Objects.Table.{dbpriv_count_properties}
use lambda_moo_plus_foo.Objects.Ancestors.{Ranked}
use lambda_moo_plus_foo.Properties.{
  ptable, find_built_in, names_prop, find_propdef, PropHandle, is_clear, find_from,
  db_find_property, skip_clear, stored_value, built_in, stored,
}

-- The index that the loop over the definitions finds is one of theirs.
find_propdef-bound :
    (name : Text) (hash i : ℕ) (ps : List Propdef) (n : ℕ)
    → find_propdef name hash i ps ≡ some n
    → (i ≤ n) × (n < i + length ps)
unfolding find_propdef
find_propdef-bound name hash i [] n h = cc
find_propdef-bound name hash i (p ∷ ps) n h = elim (Bool-cases (names_prop name hash p)) [
  | inl e ↦ let same : i ≡ n = some_injective (rw e at h) in (omega arith, omega arith)
  | inr e ↦
      let (a, b) = find_propdef-bound name hash (i + 1) ps n (rw e at h) in
      (omega arith, omega arith)
]

get_elem?-some {ℓ} :
    {A : Type ℓ} (xs : List A) (i : ℕ) → i < length xs → (x : A) × (get_elem? xs i ≡ some x)
get_elem?-some [] i h = absurd (omega arith)
get_elem?-some (x ∷ xs) zero h = (x, refl)
get_elem?-some (x ∷ xs) (suc i) h = get_elem?-some xs i (omega arith)

module _ {F : Type 0} (db : Db F) where
  -- The array of an object holds its own properties, none of them clear, and then the parent's.
  pub record Laid : Type 0 where
    pub topmost :
        (oid : Objid) (o : Object F)
        → dbpriv_find_object db oid ≡ some o
        → dbpriv_find_object db o.parent ≡ none
        → length o.propval ≡ length o.propdefs
    pub inherited :
        (oid : Objid) (o p : Object F)
        → dbpriv_find_object db oid ≡ some o
        → dbpriv_find_object db o.parent ≡ some p
        → length o.propval ≡ length o.propdefs + length p.propval
    pub unclear :
        (oid : Objid) (o : Object F) (i : ℕ) (v : Pval F)
        → dbpriv_find_object db oid ≡ some o
        → i < length o.propdefs
        → get_elem? o.propval i ≡ some v
        → is_clear v.var ≡ false

  module _ (rank : Object F → ℕ) (most : ℕ) (k : Ranked db rank most) (laid : Laid) where
    count_up :
        (fuel : ℕ) (oid : Objid) (o : Object F)
        → dbpriv_find_object db oid ≡ some o
        → rank o + 1 < fuel
        → dbpriv_count_properties fuel db oid ≡ some (length o.propval)
    unfolding dbpriv_count_properties
    count_up zero oid o e h = absurd (omega arith)
    count_up (suc zero) oid o e h = absurd (omega arith)
    count_up (suc (suc fuel)) oid o e h = elim (Option-cases (dbpriv_find_object db o.parent)) [
      | inl f ↦ rw (e, f) (ap some (omega (arith, laid.topmost oid o e f)))
      | inr (p, f) ↦
          rw (e, count_up (suc fuel) o.parent p f (omega (arith, k.falls oid o p e f)))
            (ap some (omega (arith, laid.inherited oid o p e f)))
    ]

    -- In a table with the layout, in which no object is its own ancestor and no line of ancestors is
    -- as long as `most`, `dbpriv_count_properties` of a valid object is the length of its array of
    -- values, and the loop over the ancestors ends.
    pub dbpriv_count_properties_lem :
        (oid : Objid) (o : Object F)
        → dbpriv_find_object db oid ≡ some o
        → dbpriv_count_properties most db oid ≡ some (length o.propval)
    dbpriv_count_properties_lem oid o e = count_up most oid o e (k.below oid o e)

    -- Past the clear values.
    skip_clear_total :
        (fuel : ℕ) (oid : Objid) (o : Object F) (n : ℕ)
        → dbpriv_find_object db oid ≡ some o
        → rank o + 1 < fuel
        → n < length o.propval
        → (v : Var F) × (skip_clear fuel db n o ≡ some v) × (is_clear v ≡ false)
    unfolding skip_clear
    skip_clear_total zero oid o n e h l = absurd (omega arith)
    skip_clear_total (suc fuel) oid o n e h l =
        let (v, at) = get_elem?-some o.propval n l in
        elim (Bool-cases (is_clear v.var)) [
          | inr f ↦ (v.var, rw (at, f) refl, f)
          | inl f ↦ elim (Bool-cases (ltb n (length o.propdefs))) [
            | inl g ↦ cc (laid.unclear oid o n v e (ltb→lt _ _ g) at, f)
            | inr g ↦ elim (Option-cases (dbpriv_find_object db o.parent)) [
              | inl q ↦ absurd (omega (arith, laid.topmost oid o e q, ltb-false _ _ g))
              | inr (p, q) ↦
                  let less = ltb-false _ _ g in
                  let (w, is, c) =
                    skip_clear_total fuel o.parent p (n - length o.propdefs) q
                      (omega (arith, k.falls oid o p e q))
                      (omega (arith, laid.inherited oid o p e q)) in
                  (w, rw (at, f, g, q) is, c)
            ]
          ]
        ]

    -- What a search finds: nothing, or a place in the array of the object that was asked about, of
    -- which `n` values are passed and `size` left.
    unfoldable IsPlace : Objid → ℕ → ℕ → Option PropHandle → Type 0
    IsPlace oid n size none = Unit
    IsPlace oid n size (some (built_in b x)) = x ≡ oid
    IsPlace oid n size (some (stored d x i)) = (x ≡ oid) × (n ≤ i) × (i < n + size)

    IsPlace-up :
        (oid : Objid) (n : ℕ) (r : Option PropHandle) (a b c : ℕ)
        → c ≡ a + b
        → IsPlace oid (n + a) b r
        → IsPlace oid n c r
    unfolding IsPlace
    IsPlace-up oid n none a b c e h = tt
    IsPlace-up oid n (some (built_in w x)) a b c e h = h
    IsPlace-up oid n (some (stored d x i)) a b c e (p, q, r) = (p, omega arith, omega arith)

    pub whole :
        (oid : Objid) (o : Object F)
        → dbpriv_find_object db oid ≡ some o
        → length o.propdefs ≤ length o.propval
    whole oid o e = elim (Option-cases (dbpriv_find_object db o.parent)) [
      | inl f ↦ omega (arith, laid.topmost oid o e f)
      | inr (p, f) ↦ omega (arith, laid.inherited oid o p e f)
    ]

    find_from-IsPlace :
        (fuel : ℕ) (asked : Objid) (name : Text) (n : ℕ) (oid : Objid) (o : Object F)
        → dbpriv_find_object db oid ≡ some o
        → rank o + 1 < fuel
        → (h : Option PropHandle) × (find_from fuel db asked name n (some o) ≡ some h)
          × IsPlace asked n (length o.propval) h
    unfolding find_from IsPlace
    find_from-IsPlace zero asked name n oid o e h = absurd (omega arith)
    find_from-IsPlace (suc zero) asked name n oid o e h = absurd (omega arith)
    find_from-IsPlace (suc (suc fuel)) asked name n oid o e h =
        elim (Option-cases (find_propdef name (str_hash name) n o.propdefs)) [
          | inr (i, f) ↦
              let (a, b) = find_propdef-bound name (str_hash name) n o.propdefs i f in
              (some (stored o.id asked i), rw f refl, (refl, a, omega (arith, whole oid o e)))
          | inl f ↦ elim (Option-cases (dbpriv_find_object db o.parent)) [
            | inl q ↦ (none, rw (f, q) refl, tt)
            | inr (p, q) ↦
                let (r, is, at) =
                  find_from-IsPlace (suc fuel) asked name (n + length o.propdefs) o.parent p q
                    (omega (arith, k.falls oid o p e q)) in
                (r, rw (f, q) is, IsPlace-up asked n r _ _ _ (laid.inherited oid o p e q) at)
          ]
        ]

    -- A handle leads to a value: for a property that is not built in, skipping the clear values
    -- from its place in the array of the object ends, within the arrays, at one that is not clear.
    abbrev pub IsReadable : Objid → Option PropHandle → Type 0
    IsReadable oid none = Unit
    IsReadable oid (some (built_in b x)) = x ≡ oid
    IsReadable oid (some (stored d x i)) =
        (x ≡ oid) × (v : Var F) × (stored_value most db oid i ≡ some v) × (is_clear v ≡ false)

    place-IsReadable :
        (oid : Objid) (o : Object F) (r : Option PropHandle)
        → dbpriv_find_object db oid ≡ some o
        → IsPlace oid 0 (length o.propval) r
        → IsReadable oid r
    unfolding IsPlace stored_value
    place-IsReadable oid o none e h = tt
    place-IsReadable oid o (some (built_in b x)) e h = h
    place-IsReadable oid o (some (stored d x i)) e (same, p, q) =
        let (v, is, c) = skip_clear_total most oid o i e (k.below oid o e) (omega arith) in
        (same, v, rw e is, c)

    -- In a table with the layout, in which no object is its own ancestor and no line of ancestors is
    -- as long as `most`, looking a property of a valid object up ends with a handle or without one.
    -- A handle of a property that is not built in is a place inside the object's array, and reading
    -- from there past the clear values ends at a value that is not clear.
    pub db_find_property-IsReadable :
        (oid : Objid) (o : Object F) (name : Text)
        → dbpriv_find_object db oid ≡ some o
        → (h : Option PropHandle) × (db_find_property most db oid name ≡ some h) × IsReadable oid h
    unfolding db_find_property
    db_find_property-IsReadable oid o name e = elim (Option-cases (find_built_in name ptable)) [
      | inr (b, f) ↦ (some (built_in b oid), rw f refl, refl)
      | inl f ↦
          let (r, is, at) = find_from-IsPlace most oid name 0 oid o e (k.below oid o e) in
          (r, rw (f, e) is, place-IsReadable oid o r e at)
    ]
