-- ===== src/ListOps/Sets.antt =====
-- Lists as sets: `ismember`, `setadd` and `setremove`.
use lambda_moo_plus_foo.Prelude.{
  Option-cases, length, length-append, take-append_left, drop_all, ℕ, suc, ◌+◌, ◌<◌, ◌≡◌, refl, ap,
  ◌∙◌, ◌⊎◌, inl, inr, Bool, true, false, some, List, [], ◌∷◌, ◌++◌, arith,
}
use lambda_moo_plus_foo.Value.{Var, FloatEq, equality}
use lambda_moo_plus_foo.Value.Equality.{IsPlain, equality_refl}
use lambda_moo_plus_foo.ListOps.{ismember_from, ismember, setadd, setremove}
use lambda_moo_plus_foo.ListOps.Slices.{listappend_lem, listdelete_lem}
use mathlib.Core.List.{append-nil}

module _ {F : Type 0} (fl : FloatEq F) where
  -- No element of the list equals `v`, and no comparison panics.
  abbrev pub Lacks : Bool → Var F → List (Var F) → Type 0
  Lacks m v [] = Unit
  Lacks m v (x ∷ xs) = (equality fl m v x ≡ some false) × Lacks m v xs

  -- The answer of a search that began at position `k`.
  abbrev pub Position : Bool → Var F → ℕ → List (Var F) → ℕ → Type 0
  Position m v k [] r = r ≡ 0
  Position m v k (x ∷ xs) r =
      ((equality fl m v x ≡ some true) × (r ≡ k))
      ⊎ ((equality fl m v x ≡ some false) × Position m v (k + 1) xs r)

  pub ismember_from-Lacks :
      (m : Bool) (v : Var F) (k : ℕ) (xs : List (Var F))
      → Lacks m v xs
      → ismember_from fl m v k xs ≡ some 0
  unfolding ismember_from
  ismember_from-Lacks m v k [] h = refl
  ismember_from-Lacks m v k (x ∷ xs) h = rw h.0 (ismember_from-Lacks m v (k + 1) xs h.1)

  -- A member that the search finds behind others.
  pub ismember_from-append :
      (m : Bool) (v : Var F) (k : ℕ) (xs ys : List (Var F)) (y : Var F)
      → Lacks m v xs
      → equality fl m v y ≡ some true
      → ismember_from fl m v k (xs ++ y ∷ ys) ≡ some (k + length xs)
  unfolding ismember_from
  ismember_from-append m v k [] ys y h e = rw e (ap some (omega arith))
  ismember_from-append m v k (x ∷ xs) ys y h e =
      rw h.0 (ismember_from-append m v (k + 1) xs ys y h.1 e ∙ ap some (omega arith))

  pub ismember_from-ge :
      (m : Bool) (v : Var F) (k : ℕ) (xs : List (Var F)) (r : ℕ)
      → 0 < k
      → ismember_from fl m v k xs ≡ some r
      → Lacks m v xs ⊎ ((i : ℕ) × (r ≡ k + i) × (i < length xs))
  unfolding ismember_from
  ismember_from-ge m v k [] r h e = inl tt
  ismember_from-ge m v k (x ∷ xs) r h e = elim (Option-cases (equality fl m v x)) [
    | inl n ↦ cc (rw n at e)
    | inr (true, t) ↦ inr (0, ground (arith, rw t at e), omega arith)
    | inr (false, f) ↦ elim (ismember_from-ge m v (k + 1) xs r (omega arith) (rw f at e)) [
      | inl none_left ↦ inl (f, none_left)
      | inr (i, is, lt) ↦ inr (suc i, omega arith, omega arith)
    ]
  ]

  -- Adding a value to a list that lacks it puts it at the end; adding it again changes nothing; and
  -- removing it gives the first list back. The value is one that a MOO program
  -- can hold, with no NaN in it.
  pub setadd-setremove :
      (refs refs' : ℕ) (xs : List (Var F)) (v : Var F)
      → IsPlain fl v
      → Lacks false v xs
      → (setadd fl refs xs v ≡ some (xs ++ v ∷ []))
        × (setadd fl refs' (xs ++ v ∷ []) v ≡ some (xs ++ v ∷ []))
        × (setremove fl (xs ++ v ∷ []) v ≡ some xs)
  unfolding setadd setremove ismember
  setadd-setremove refs refs' xs v p h =
      let at : ismember_from fl false v 1 (xs ++ v ∷ []) ≡ some (suc (length xs)) =
        ismember_from-append false v 1 xs [] v h (equality_refl fl false v p)
        ∙ ap some (omega arith) in
      (
        rw (ismember_from-Lacks false v 1 xs h) (listappend_lem refs xs v),
        rw at refl,
        rw at (
            listdelete_lem (xs ++ v ∷ []) (length xs) (omega (arith, length-append xs (v ∷ [])))
            ∙ ap some (
                rw
                  (
                    take-append_left xs (v ∷ []) (length xs) refl,
                    drop_all (xs ++ v ∷ []) (suc (length xs))
                        (omega (arith, length-append xs (v ∷ []))),
                  )
                  (append-nil xs))),
      )

  -- A value that is in the list already is not added, and one that is not there is not removed.
  pub set_no_change :
      (refs : ℕ) (xs ys : List (Var F)) (v y : Var F)
      → Lacks false v xs
      → (equality fl false v y ≡ some true → setadd fl refs (xs ++ y ∷ ys) v ≡ some (xs ++ y ∷ ys))
        × (setremove fl xs v ≡ some xs)
  unfolding setadd setremove ismember
  set_no_change refs xs ys v y h = (
    λ e. rw (ismember_from-append false v 1 xs ys y h e ∙ ap some one_more) refl,
    rw (ismember_from-Lacks false v 1 xs h) refl,
  )
    where
      one_more : 1 + length xs ≡ suc (length xs)
      one_more = omega arith
