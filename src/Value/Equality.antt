-- ===== src/Value/Equality.antt =====
-- What `equality` promises its callers.
use lambda_moo_plus_foo.Prelude.{
  ==_iff, ==ℤ_iff, pos, ◌≡◌, refl, ap, Bool, true, false, some, [], ◌∷◌, arith,
}
use lambda_moo_plus_foo.Text.{Text, mystrcasecmp, str_eq}
use lambda_moo_plus_foo.Text.Case.{mystrcasecmp-of_fold}
use lambda_moo_plus_foo.Value.{
  Var, Vars, count, FloatEq, equality_flat, equality, equality_items, int, obj, err, str, float,
  list, clear, uninit, catch, finally, nil, cons,
}

str_eq_refl : (s : Text) → str_eq s s ≡ true
str_eq_refl [] = refl
str_eq_refl (c ∷ s) = rw ((==_iff c c).1 refl) (str_eq_refl s)

str_eq_comm : (s t : Text) → str_eq s t ≡ str_eq t s
str_eq_comm [] [] = refl
str_eq_comm [] (b ∷ t) = refl
str_eq_comm (a ∷ s) [] = refl
str_eq_comm (a ∷ s) (b ∷ t) = ground (arith, str_eq_comm s t)

-- A value that a MOO program can hold, with no NaN inside.
module _ {F : Type 0} (fl : FloatEq F) where
  abbrev mutual
    pub IsPlain : Var F → Type 0
    IsPlain (int n) = Unit
    IsPlain (obj o) = Unit
    IsPlain (err e) = Unit
    IsPlain (str s) = Unit
    IsPlain (float x) = fl.feq x x ≡ true
    IsPlain (list vs) = ArePlain vs
    IsPlain clear = ⊥
    IsPlain uninit = ⊥
    IsPlain (catch n) = ⊥
    IsPlain (finally n) = ⊥

    pub ArePlain : Vars F → Type 0
    ArePlain nil = Unit
    ArePlain (cons v vs) = IsPlain v × ArePlain vs

  mutual
    unfolding equality equality_flat

    equality_plain : (m : Bool) (v : Var F) → IsPlain v → equality fl m v v ≡ some true
    equality_plain m (int n) h = ground arith
    equality_plain m (obj o) h = ap some ((==ℤ_iff o o).1 refl)
    equality_plain m (err e) h = ground arith
    equality_plain true (str s) h = ap some (str_eq_refl s)
    equality_plain false (str s) h =
        ap some ((==ℤ_iff (mystrcasecmp s s) (pos 0)).1 (mystrcasecmp-of_fold s s refl))
    equality_plain m (float x) h = ap some h
    equality_plain m (list vs) h =
        rw ((==_iff (count vs) (count vs)).1 refl) (equality_plains m vs h)
    equality_plain m clear h = elim h [ ]
    equality_plain m uninit h = elim h [ ]
    equality_plain m (catch n) h = elim h [ ]
    equality_plain m (finally n) h = elim h [ ]

    equality_plains : (m : Bool) (vs : Vars F) → ArePlain vs → equality_items fl m vs vs ≡ some true
    equality_plains m nil h = refl
    equality_plains m (cons v vs) h = rw (equality_plain m v h.0, equality_plains m vs h.1)

  -- A value that a MOO program can hold, with no NaN in it, equals itself, in both modes.
  pub equality_refl : (m : Bool) (v : Var F) → IsPlain v → equality fl m v v ≡ some true
  equality_refl m v h = equality_plain m v h
