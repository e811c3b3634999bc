-- ===== src/Properties/Builtins/Safety.antt =====
-- The built-in functions of src/property.c change the table only with permission, and a call that
-- ends with an error leaves it as it was.
use mathlib.Core.Path.{subst}
use lambda_moo_plus_foo.Properties.Builtins.Kept.{
  IsKept, db_add_propdef-IsKept, db_delete_propdef-IsKept, db_rename_propdef-IsKept,
}
use lambda_moo_plus_foo.Properties.Builtins.{
  pf_write, perms_from, PropInfo, shape_of, validate_prop_info,
}
use lambda_moo_plus_foo.Properties.Values.{db_property_owner, db_property_allows}
use lambda_moo_plus_foo.Objects.Users.{is_wizard, db_object_allows}
use lambda_moo_plus_foo.Objects.Flags.{write_flag}
use lambda_moo_plus_foo.ListOps.Builtins.{Package, returned, raised, fault}
use lambda_moo_plus_foo.Prelude.{
  Bool-cases, Option-cases, ◌==ℤ◌, some_injective, ℕ, ◌≡◌, refl, inl, inr, Bool, true, false, not,
  ◌||◌, Option, none, some,
}
use lambda_moo_plus_foo.Text.{Text}
use lambda_moo_plus_foo.Value.{
  Objid, Error, Var, FloatEq, e_none, e_type, e_perm, e_propnf, e_invarg,
}
use lambda_moo_plus_foo.Objects.{Db, valid}
use lambda_moo_plus_foo.Properties.{PropHandle, db_find_property, built_in, stored}
use lambda_moo_plus_foo.Properties.Builtins.Changes.{
  is_missing, or_error, error_if, no_error, renamed_info, rename_first, set_found_info, with_info,
  set_prop_info, bf_add_prop, bf_delete_prop, clear_found, bf_clear_prop,
}

-- E_NONE only if `allowed` holds, and with any other error the old table.
abbrev pub IsSafe : {F : Type 0} → Db F → (allowed : Type 0) → Option (Error × Db F) → Type 0
IsSafe db allowed none = Unit
IsSafe db allowed (some (e_none, db')) = allowed
IsSafe db allowed (some (_, db')) = db' ≡ db

module _ {F : Type 0} (db : Db F) where
  module _ (allowed : Type 0) where
    -- An error that does not stand for success.
    abbrev IsError : Error → Type 0
    IsError e = (db' : Db F) → db' ≡ db → IsSafe db allowed (some (e, db'))

    error_if-IsSafe :
        (e : Error) (r : Option (Bool × Db F))
        → IsError e
        → allowed
        → IsKept db r
        → IsSafe db allowed (error_if e r)
    unfolding IsKept
    error_if-IsSafe e none h p k = tt
    error_if-IsSafe e (some (true, db')) h p k = p
    error_if-IsSafe e (some (false, db')) h p k = h db' k

    or_error-IsSafe :
        (e : Error) (b : Option Bool) (r : Option (Error × Db F))
        → IsError e
        → (b ≡ some true → IsSafe db allowed r)
        → IsSafe db allowed (or_error e db b r)
    or_error-IsSafe e none r h k = tt
    or_error-IsSafe e (some false) r h k = h db refl
    or_error-IsSafe e (some true) r h k = k refl

    no_error-IsSafe : (r : Option (Db F)) → allowed → IsSafe db allowed (no_error r)
    no_error-IsSafe none p = tt
    no_error-IsSafe (some db') p = p

    validated_error : (v : Var F) (e : Error) → validate_prop_info db v ≡ raised e → IsError e
    unfolding validate_prop_info
    validated_error v e h = elim (Option-cases (shape_of v)) [
      | inl f ↦ let same : e_type ≡ e = cc (rw f at h) in subst IsError same (λ db' g. g)
      | inr ((q, s, t), f) ↦ elim (Bool-cases (valid db q)) [
        | inl g ↦ elim (Option-cases (perms_from 0 s)) [
          | inl p ↦
              let same : e_invarg ≡ e = cc (rw (f, g, p) at h) in subst IsError same (λ db' g. g)
          | inr (m, p) ↦ cc (rw (f, g, p) at h)
        ]
        | inr g ↦ let same : e_invarg ≡ e = cc (rw (f, g) at h) in subst IsError same (λ db' g. g)
      ]
    ]

    with_info-IsSafe :
        (p : Package PropInfo) (f : PropInfo → Option (Error × Db F))
        → ((e : Error) → p ≡ raised e → IsError e)
        → ((i : PropInfo) → p ≡ returned i → IsSafe db allowed (f i))
        → IsSafe db allowed (with_info db p f)
    with_info-IsSafe fault f h k = tt
    with_info-IsSafe (raised e) f h k = h e refl db refl
    with_info-IsSafe (returned i) f h k = k i refl

    renamed_info-IsSafe :
        (most : ℕ) (oid : Objid) (t : Text) (i : PropInfo) (r : Option (Bool × Db F))
        → allowed
        → IsKept db r
        → IsSafe db allowed (renamed_info most oid t i r)
    unfolding IsKept
    renamed_info-IsSafe most oid t i none p k = tt
    renamed_info-IsSafe most oid t i (some (false, db')) p k = k
    renamed_info-IsSafe most oid t i (some (true, db')) p k = no_error-IsSafe _ p

    rename_first-IsSafe :
        (most fuel : ℕ) (oid : Objid) (pname : Text) (i : PropInfo) (h : PropHandle)
        (t : Option Text)
        → allowed
        → IsSafe db allowed (rename_first most fuel db oid pname i h t)
    rename_first-IsSafe most fuel oid pname i h none p = no_error-IsSafe _ p
    rename_first-IsSafe most fuel oid pname i h (some t) p =
        renamed_info-IsSafe most oid t i _ p (db_rename_propdef-IsKept db most fuel oid pname t)

  -- The permissions of the four functions.
  abbrev pub MayDelete : Objid → Objid → Type 0
  MayDelete oid progr =
      (valid db oid ≡ true) × (db_object_allows db oid progr write_flag ≡ some true)

  abbrev pub MayAdd : Objid → Objid → Var F → Type 0
  MayAdd oid progr info =
      (i : PropInfo) × (validate_prop_info db info ≡ returned i)
      × (valid db oid ≡ true)
      × (db_object_allows db oid progr write_flag ≡ some true)
      × ((progr ==ℤ i.owned_by || is_wizard db progr) ≡ true)

  abbrev pub MaySet : ℕ → Objid → Text → Objid → Var F → Type 0
  MaySet most oid pname progr info =
      (i : PropInfo) × (h : PropHandle) × (q : Objid) × (validate_prop_info db info ≡ returned i)
      × (db_find_property most db oid pname ≡ some (some h))
      × (db_property_allows db h progr pf_write ≡ some true)
      × (db_property_owner db h ≡ some q)
      × ((is_wizard db progr || q ==ℤ i.owned_by) ≡ true)

  abbrev pub MayClear : ℕ → Objid → Text → Objid → Type 0
  MayClear most oid pname progr =
      (d : Objid) × (x : Objid) × (n : ℕ) × (q : Objid) × (db_find_property most db oid pname
        ≡ some (some (stored d x n)))
      × ((d ==ℤ oid) ≡ false)
      × (db_property_owner db (stored d x n) ≡ some q)
      × ((progr ==ℤ q || is_wizard db progr) ≡ true)

  delete_IsSafe :
      (most fuel : ℕ) (oid : Objid) (pname : Text) (progr : Objid)
      → IsSafe db (MayDelete oid progr) (bf_delete_prop most fuel db oid pname progr)
  unfolding bf_delete_prop
  delete_IsSafe most fuel oid pname progr =
      or_error-IsSafe _ e_invarg (some (valid db oid)) _ (λ db' e. e)
        (λ v.
          or_error-IsSafe _ e_perm (db_object_allows db oid progr write_flag) _ (λ db' e. e)
            (λ a.
              error_if-IsSafe _ e_propnf _ (λ db' e. e) (some_injective v, a)
                (db_delete_propdef-IsKept db most fuel oid pname)))

  add_IsSafe :
      (most fuel : ℕ) (oid : Objid) (pname : Text) (value info : Var F) (progr : Objid)
      → IsSafe db (MayAdd oid progr info) (bf_add_prop most fuel db oid pname value info progr)
  unfolding bf_add_prop
  add_IsSafe most fuel oid pname value info progr =
      with_info-IsSafe _ (validate_prop_info db info) _ (validated_error _ info) (λ i e.
        or_error-IsSafe _ e_type (some (is_missing i.new_name)) _ (λ db' e. e)
          (λ m.
            or_error-IsSafe _ e_invarg (some (valid db oid)) _ (λ db' e. e)
              (λ v.
                or_error-IsSafe _ e_perm (db_object_allows db oid progr write_flag) _ (λ db' e. e)
                  (λ a.
                    or_error-IsSafe _ e_perm (some (progr ==ℤ i.owned_by || is_wizard db progr)) _
                      (λ db' e. e)
                      (λ w.
                        error_if-IsSafe _ e_invarg _ (λ db' e. e)
                          (i, e, some_injective v, a, some_injective w)
                          (db_add_propdef-IsKept db most fuel oid pname value i.owned_by
                            i.perms))))))

  set_found-IsSafe :
      (most fuel : ℕ) (oid : Objid) (pname : Text) (progr : Objid) (info : Var F) (i : PropInfo)
      (r : Option (Option PropHandle))
      → validate_prop_info db info ≡ returned i
      → db_find_property most db oid pname ≡ r
      → IsSafe db
          (MaySet most oid pname progr info)
          (set_found_info most fuel db oid pname progr i r)
  set_found-IsSafe most fuel oid pname progr info i none v f = tt
  set_found-IsSafe most fuel oid pname progr info i (some none) v f = refl
  set_found-IsSafe most fuel oid pname progr info i (some (some (built_in b q))) v f = refl
  set_found-IsSafe most fuel oid pname progr info i (some (some (stored d x n))) v f =
      or_error-IsSafe _ e_perm (db_property_allows db (stored d x n) progr pf_write) _ (λ db' e. e)
        (λ a. elim (Option-cases (db_property_owner db (stored d x n))) [
          | inl o ↦ rw o tt
          | inr (q, o) ↦ rw o (
              or_error-IsSafe _ e_perm (some (is_wizard db progr || q ==ℤ i.owned_by)) _
                (λ db' e. e)
                (λ w.
                  rename_first-IsSafe _ most fuel oid pname i (stored d x n) i.new_name
                    (i, stored d x n, q, v, f, a, o, some_injective w)))
        ])

  set_IsSafe :
      (most fuel : ℕ) (oid : Objid) (pname : Text) (info : Var F) (progr : Objid)
      → IsSafe db
          (MaySet most oid pname progr info)
          (set_prop_info most fuel db oid pname info progr)
  unfolding set_prop_info
  set_IsSafe most fuel oid pname info progr =
      or_error-IsSafe _ e_invarg (some (valid db oid)) _ (λ db' e. e)
        (λ a.
          with_info-IsSafe _ (validate_prop_info db info) _ (validated_error _ info)
            (λ i v. set_found-IsSafe most fuel oid pname progr info i _ v refl))

  module _ (fl : FloatEq F) where
    clear_found-IsSafe :
        (most : ℕ) (oid : Objid) (pname : Text) (progr : Objid) (r : Option (Option PropHandle))
        → db_find_property most db oid pname ≡ r
        → IsSafe db (MayClear most oid pname progr) (clear_found fl db oid progr r)
    clear_found-IsSafe most oid pname progr none f = tt
    clear_found-IsSafe most oid pname progr (some none) f = refl
    clear_found-IsSafe most oid pname progr (some (some (built_in b q))) f = refl
    clear_found-IsSafe most oid pname progr (some (some (stored d x n))) f =
        elim (Option-cases (db_property_owner db (stored d x n))) [
          | inl o ↦ rw o tt
          | inr (q, o) ↦ rw o (
              or_error-IsSafe _ e_perm (some (progr ==ℤ q || is_wizard db progr)) _ (λ db' e. e)
                (λ w.
                  or_error-IsSafe _ e_invarg (some (not (d ==ℤ oid))) _ (λ db' e. e)
                    (λ g.
                      no_error-IsSafe (MayClear most oid pname progr) _ (
                        d,
                        x,
                        n,
                        q,
                        f,
                        apart (d ==ℤ oid) (some_injective g),
                        o,
                        some_injective w,
                      ))))
        ]
      where
        apart : (b : Bool) → not b ≡ true → b ≡ false
        apart true h = cc
        apart false h = refl

    -- The functions that add, delete, set and clear properties leave the table as it was when they end
    -- with an error. They end without one only if the caller may: to add or delete, the object allows
    -- it to write, and a new property is the caller's own or the caller is a wizard; to set, the
    -- property allows it to write, and the owner stays or the caller is a wizard; to clear, the
    -- property is the caller's or the caller is a wizard, and it is not defined on this object.
    pub set_prop_info-IsSafe :
        (most fuel : ℕ) (oid : Objid) (pname : Text) (value info : Var F) (progr : Objid)
        → IsSafe db (MayAdd oid progr info) (bf_add_prop most fuel db oid pname value info progr)
          × IsSafe db (MayDelete oid progr) (bf_delete_prop most fuel db oid pname progr)
          × IsSafe db
              (MaySet most oid pname progr info)
              (set_prop_info most fuel db oid pname info progr)
          × IsSafe db (MayClear most oid pname progr) (bf_clear_prop fl most db oid pname progr)
    unfolding bf_clear_prop
    set_prop_info-IsSafe most fuel oid pname value info progr = (
      add_IsSafe most fuel oid pname value info progr,
      delete_IsSafe most fuel oid pname progr,
      set_IsSafe most fuel oid pname info progr,
      or_error-IsSafe _ e_invarg (some (valid db oid)) _ (λ db' e. e)
          (λ v. clear_found-IsSafe most oid pname progr _ refl),
    )
