-- ===== src/Properties/Arrays.antt =====
-- One value more or less in an array of properties, and the search for a definition at the end:
-- `insert_prop` and `remove_prop` of src/db_properties.c.
use mathlib.Core.Path.{subst}
use lambda_moo_plus_foo.Prelude.{
  ltb, leb, ◌==◌, lt→ltb, ==_iff, Bool-cases, length, get_elem?, length-append, take, drop,
  take-append-drop, length-take, take-append_left, ◌==ℤ◌, ==ℤ_iff, pos, copy, copy_lem, copy_rest,
  ℕ, zero, suc, ◌+◌, ◌-◌, ◌≤◌, ◌≡◌, refl, sym, ap, ◌∙◌, inl, inr, true, none, some, List, [], ◌∷◌,
  ◌++◌, arith,
}
use lambda_moo_plus_foo.Text.{Text, mystrcasecmp, str_hash}
use lambda_moo_plus_foo.Text.Case.{mystrcasecmp-of_fold}
use lambda_moo_plus_foo.Objects.{Propdef, Pval}
use lambda_moo_plus_foo.Properties.{dbpriv_new_propdef, names_prop, find_propdef}
use lambda_moo_plus_foo.Properties.Edit.{inserted, removed}

-- A definition at the end is found when none before it has the name.
pub find_propdef-append :
    (pname : Text) (i : ℕ) (ps : List Propdef)
    → find_propdef pname (str_hash pname) i ps ≡ none
    → find_propdef pname (str_hash pname) i (ps ++ dbpriv_new_propdef pname ∷ [])
      ≡ some (i + length ps)
unfolding find_propdef dbpriv_new_propdef
find_propdef-append pname i [] h =
    let a : (str_hash pname == str_hash pname) ≡ true = (==_iff _ _).1 refl in
    let b : (mystrcasecmp pname pname ==ℤ pos 0) ≡ true =
      (==ℤ_iff _ _).1 (mystrcasecmp-of_fold pname pname refl) in
    rw (a, b) (ap some (omega arith))
find_propdef-append pname i (p ∷ ps) h = elim (Bool-cases (names_prop pname (str_hash pname) p)) [
  | inl e ↦ cc (rw e at h)
  | inr e ↦ rw e (find_propdef-append pname (i + 1) ps (rw e at h) ∙ ap some (omega arith))
]

module _ {ℓ} {A : Type ℓ} where
  pub get_elem?_middle :
      (n : ℕ) (a : A) (xs ys : List A) → n ≡ length xs → get_elem? (xs ++ a ∷ ys) n ≡ some a
  get_elem?_middle zero a [] ys e = refl
  get_elem?_middle (suc n) a [] ys e = absurd (omega arith)
  get_elem?_middle zero a (x ∷ xs) ys e = absurd (omega arith)
  get_elem?_middle (suc n) a (x ∷ xs) ys e = get_elem?_middle n a xs ys (omega arith)

  drop-suc : (n : ℕ) (a : A) (xs ys : List A) → n ≡ length xs → drop (suc n) (xs ++ a ∷ ys) ≡ ys
  drop-suc zero a [] ys e = refl
  drop-suc (suc n) a [] ys e = absurd (omega arith)
  drop-suc zero a (x ∷ xs) ys e = absurd (omega arith)
  drop-suc (suc n) a (x ∷ xs) ys e = drop-suc n a xs ys (omega arith)

  drop_middle : (n : ℕ) (a : A) (xs ys : List A) → n ≡ length xs → drop (n + 1) (xs ++ a ∷ ys) ≡ ys
  drop_middle n a xs ys e = let one : n + 1 ≡ suc n = omega arith in rw one (drop-suc n a xs ys e)

  no_elems : (xs : List A) → length xs ≡ 0 → xs ≡ []
  no_elems [] e = refl
  no_elems (x ∷ xs) e = absurd (omega arith)

module _ {F : Type 0} where
  pub inserted_lem :
      (nprops n : ℕ) (pv : Pval F) (ps : List (Pval F))
      → nprops ≡ length ps + 1
      → n ≤ length ps
      → inserted nprops n pv ps ≡ some (take n ps ++ pv ∷ drop n ps)
  unfolding inserted
  inserted_lem nprops n pv ps e h =
      let low : ltb n nprops ≡ true = lt→ltb _ _ (omega arith) in
      rw (low, copy_lem ps 0 n (omega arith), copy_rest ps n (nprops - (n + 1)) (omega arith)) refl

  removed-append :
      (n : ℕ) (pv : Pval F) (xs ys : List (Pval F))
      → n ≡ length xs
      → removed (length (xs ++ ys)) n (xs ++ pv ∷ ys) ≡ some (xs ++ ys)
  unfolding removed
  removed-append n pv xs ys e =
      let long = length-append {0} xs ys in
      let longer = length-append {0} xs (pv ∷ ys) in
      let front : copy (xs ++ pv ∷ ys) 0 n ≡ some xs =
        copy_lem (xs ++ pv ∷ ys) 0 n (omega arith) ∙ ap some (take-append_left xs (pv ∷ ys) n e) in
      let back : copy (xs ++ pv ∷ ys) (n + 1) (length (xs ++ ys) - n) ≡ some ys =
        copy_rest (xs ++ pv ∷ ys) (n + 1) (length (xs ++ ys) - n) (omega arith)
        ∙ ap some (drop_middle n pv xs ys e) in
      let low : leb n (length (xs ++ ys)) ≡ true = ground arith in
      rw (get_elem?_middle n pv xs ys e) (elim (Bool-cases (length (xs ++ ys) == 0)) [
        | inl f ↦ rw f (ap some (sym (no_elems (xs ++ ys) ((==_iff _ _).0 f))))
        | inr f ↦ rw (f, low, front, back) refl
      ])

  pub removed_lem :
      (n : ℕ) (pv : Pval F) (ps : List (Pval F))
      → n ≤ length ps
      → removed (length ps) n (take n ps ++ pv ∷ drop n ps) ≡ some ps
  removed_lem n pv ps h =
      let whole : take n ps ++ drop n ps ≡ ps = take-append-drop n ps in
      subst (λ qs. removed (length qs) n (take n ps ++ pv ∷ drop n ps) ≡ some qs) whole
        (removed-append n pv (take n ps) (drop n ps) (omega (arith, length-take {0} n ps)))
