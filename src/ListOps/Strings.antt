-- ===== src/ListOps/Strings.antt =====
-- The built-in functions of src/list.c on sets, on equality and on strings. An optional last
-- argument, whether case matters, is an `Option`.
use lambda_moo_plus_foo.Prelude.{
  ltb, ltb→lt, ltb-false, Bool-cases, length, ℤ, pos, negsuc, ℕ, zero, suc, ◌≤◌, ◌<◌, ◌≡◌, refl,
  ◌⊎◌, inl, inr, Bool, true, false, Option, none, some, List, [], ◌∷◌, arith,
}
use lambda_moo_plus_foo.Text.{Text, strindex, strrindex, strsub}
use lambda_moo_plus_foo.Text.Sub.{Replaced, strsub-Replaced}
use lambda_moo_plus_foo.Text.Search.{IsFirst, strindex-IsFirst, IsLast, strrindex-IsLast}
use lambda_moo_plus_foo.Value.{Var, FloatEq, is_true, equality, e_invarg}
use lambda_moo_plus_foo.ListOps.{ismember, setadd, setremove}
use lambda_moo_plus_foo.ListOps.Builtins.{Package, var_pack, returned, raised}

-- `bf_strcmp` looks at the sign of what `strcmp` returns.
unfoldable pub signum : ℤ → ℤ
signum (pos zero) = pos 0
signum (pos (suc n)) = pos 1
signum (negsuc n) = negsuc 0

unfoldable pub bf_strcmp : (Text → Text → ℤ) → Text → Text → Package ℤ
unfolding signum
bf_strcmp strcmp s t = returned (signum (strcmp s t))

module _ {F : Type 0} (fl : FloatEq F) where
  unfoldable pub bf_setadd : ℕ → List (Var F) → Var F → Package (List (Var F))
  bf_setadd refs xs v = var_pack (setadd fl refs xs v)

  unfoldable pub bf_setremove : List (Var F) → Var F → Package (List (Var F))
  bf_setremove xs v = var_pack (setremove fl xs v)

  unfoldable pub bf_equal : Var F → Var F → Package Bool
  bf_equal v w = var_pack (equality fl true v w)

  unfoldable pub bf_is_member : Var F → List (Var F) → Package ℕ
  bf_is_member v xs = var_pack (ismember fl v xs true)

  abbrev pub case_matters : Option (Var F) → Bool
  case_matters none = false
  case_matters (some v) = is_true fl v

  unfoldable pub bf_index : Text → Text → Option (Var F) → Package ℕ
  bf_index source what m = returned (strindex source what (case_matters m))

  unfoldable pub bf_rindex : Text → Text → Option (Var F) → Package ℕ
  bf_rindex source what m = returned (strrindex source what (case_matters m))

  unfoldable pub bf_strsub : ℕ → Text → Text → Text → Option (Var F) → Package Text
  bf_strsub fuel source [] with_text m = raised e_invarg
  bf_strsub fuel source (c ∷ what) with_text m =
      var_pack (strsub fuel source (c ∷ what) with_text (case_matters m))

  -- The function `strsub` ends on all arguments, within one round more than the source has
  -- characters: it raises E_INVARG for an empty text `what`, and otherwise returns the source with
  -- every occurrence that the scan from the left meets replaced.
  pub bf_strsub-Replaced :
      (fuel : ℕ) (source what with_text : Text) (m : Option (Var F))
      → length source < fuel
      → ((what ≡ []) × (bf_strsub fuel source what with_text m ≡ raised e_invarg))
        ⊎ ((out : Text) × (bf_strsub fuel source what with_text m ≡ returned out)
            × Replaced (case_matters m) what with_text source out)
  unfolding bf_strsub
  bf_strsub-Replaced fuel source [] with_text m h = inl (refl, refl)
  bf_strsub-Replaced fuel source (c ∷ what) with_text m h =
      let (out, is, r) =
        strsub-Replaced fuel source (c ∷ what) with_text (case_matters m) (omega arith) h in
      inr (out, rw is refl, r)

ends_agree :
    (b : Bool) (source what : Text) (i j : ℕ)
    → IsFirst b what 0 source i
    → IsLast b source what j
    → ((i ≡ 0) × (j ≡ 0)) ⊎ ((0 < i) × (i ≤ j))
ends_agree b source what i j (inl f) (inl l) = inl (f.0, l.0)
ends_agree b source what i j (inl f) (inr (k, is, at, last)) = absurd (f.1 k at)
ends_agree b source what i j (inr (k, is, at, first)) (inl l) = absurd (l.1 k at)
ends_agree b source what i j (inr (k, is, at, first)) (inr (m, is', at', last)) = inr (
  omega arith,
  elim (Bool-cases (ltb m k)) [
    | inl e ↦ absurd (first m (ltb→lt _ _ e) at')
    | inr e ↦ omega (arith, ltb-false _ _ e)
  ],
)

-- `index` and `rindex` both return 0, or both return a position from 1 on, and that of `index` is
-- not behind that of `rindex`.
pub bf_index-bf_rindex :
    {F : Type 0} (fl : FloatEq F) (source what : Text) (m : Option (Var F))
    → (i j : ℕ) × (bf_index fl source what m ≡ returned i)
      × (bf_rindex fl source what m ≡ returned j)
      × (((i ≡ 0) × (j ≡ 0)) ⊎ ((0 < i) × (i ≤ j)))
unfolding bf_index bf_rindex
bf_index-bf_rindex fl source what m = (
  strindex source what (case_matters fl m),
  strrindex source what (case_matters fl m),
  refl,
  refl,
  ends_agree (case_matters fl m) source what _ _ (strindex-IsFirst source what (case_matters fl m))
      (strrindex-IsLast source what (case_matters fl m)),
)
