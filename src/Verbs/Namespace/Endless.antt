-- ===== src/Verbs/Namespace/Endless.antt =====
-- The comparison of two verb names depends on their order, and can run forever: src/verbs.c.
use lambda_moo_plus_foo.Prelude.{
  ==_iff, ℕ, zero, suc, ◌≡◌, refl, Bool, true, false, none, some, [], ◌∷◌, ◌++◌,
}
use lambda_moo_plus_foo.Text.{Text, ascii_tolower}
use lambda_moo_plus_foo.Verbs.Namespace.{
  is_star, match_open, match_both, second_loop, single_names_share_namespace,
}

-- No character of the text is a star.
abbrev pub IsPlain : Text → Type 0
IsPlain [] = Unit
IsPlain (c ∷ s) = (is_star c ≡ false) × IsPlain s

match_open-equal :
    (last : Bool) (w z s : Text)
    → IsPlain w
    → (last' : Bool) × (match_open last (w ++ z) (w ++ b'*' ∷ s) ≡ some (last', z, b'*' ∷ s))
unfolding match_open
match_open-equal last [] [] s h = (last, refl)
match_open-equal last [] (c ∷ z) s h = (last, refl)
match_open-equal last (c ∷ w) z s h =
    let (r, e) = match_open-equal false w z s h.1 in
    (r, rw (h.0, (==_iff (ascii_tolower c) _).1 refl) e)

-- From a star in `foo` on, the second loop does nothing, over and over.
second_loop-stays : (fuel : ℕ) (z s : Text) → second_loop fuel (b'*' ∷ s) z ≡ none
unfolding second_loop
second_loop-stays zero z s = refl
second_loop-stays (suc fuel) [] s = second_loop-stays fuel [] s
second_loop-stays (suc fuel) (c ∷ z) s = second_loop-stays fuel (c ∷ z) s

second_loop-endless :
    (fuel : ℕ) (c : ℕ) (w z s : Text)
    → is_star c ≡ false
    → IsPlain w
    → second_loop fuel (c ∷ w ++ b'*' ∷ s) (b'*' ∷ c ∷ w ++ z) ≡ none
unfolding second_loop
second_loop-endless zero c w z s p h = refl
second_loop-endless (suc fuel) c w z s p h =
    let (r, e) = match_open-equal false w z s h in
    rw (p, (==_iff (ascii_tolower c) _).1 refl, e) (second_loop-stays fuel z s)

-- A name `foo` that begins with plain characters `c ∷ w` and then has a star, and a name `bar` that
-- begins with a star and then has the same characters: with `bar` first the function answers what
-- the loop at the end says of the rest of the two names. With `foo` first it runs forever, however
-- many rounds are given.
pub single_names_share_namespace_endless :
    (fuel c : ℕ) (w z s : Text)
    → is_star c ≡ false
    → IsPlain w
    → (single_names_share_namespace fuel (b'*' ∷ c ∷ w ++ z) (c ∷ w ++ b'*' ∷ s)
        ≡ some (match_both z (b'*' ∷ s)))
      × (single_names_share_namespace fuel (c ∷ w ++ b'*' ∷ s) (b'*' ∷ c ∷ w ++ z) ≡ none)
unfolding single_names_share_namespace
single_names_share_namespace_endless fuel c w z s p h =
    let (r, e) = match_open-equal true (c ∷ w) z s (p, h) in
    (rw (p, e, p) refl, rw p (second_loop-endless fuel c w z s p h))
