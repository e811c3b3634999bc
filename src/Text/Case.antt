-- ===== src/Text/Case.antt =====
-- The comparisons that ignore ASCII case.
use lambda_moo_plus_foo.Prelude.{
  ◌==◌, ==_iff, Bool-cases, take, ℤ, pos, negsuc, ℕ, zero, suc, ◌<◌, ◌≡◌, refl, ◌↔◌, inl, inr, [],
  ◌∷◌, map, arith,
}
use lambda_moo_plus_foo.Text.{Text, IsText, ascii_tolower, char_diff, mystrcasecmp, mystrncasecmp}

-- Two texts are the same but for the case of their letters.
abbrev pub fold : Text → Text
fold = map ascii_tolower

pub ascii_tolower_pos : (c : ℕ) → 0 < c → 0 < ascii_tolower c
unfolding ascii_tolower
ascii_tolower_pos c h = ground arith

pub ascii_tolower_idem : (c : ℕ) → ascii_tolower (ascii_tolower c) ≡ ascii_tolower c
unfolding ascii_tolower
ascii_tolower_idem c = ground arith

pub char_diff_zero : (a b : ℕ) → char_diff a b ≡ pos 0 → a ≡ b
unfolding char_diff
char_diff_zero a b h = ground arith

pub char_diff_self : (a : ℕ) → char_diff a a ≡ pos 0
unfolding char_diff
char_diff_self a = ground arith

pub fold_head :
    (a b : ℕ) (s t : Text) → fold (a ∷ s) ≡ fold (b ∷ t) → ascii_tolower a ≡ ascii_tolower b
fold_head a b s t h = cc

pub fold_tail : (a b : ℕ) (s t : Text) → fold (a ∷ s) ≡ fold (b ∷ t) → fold s ≡ fold t
fold_tail a b s t h = cc

mystrcasecmp-fold : (s t : Text) → IsText s → IsText t → mystrcasecmp s t ≡ pos 0 → fold s ≡ fold t
unfolding mystrcasecmp
mystrcasecmp-fold [] [] hs ht h = refl
mystrcasecmp-fold [] (b ∷ t) hs ht h =
    absurd (omega (arith, char_diff_zero _ _ h, ascii_tolower_pos b ht.0))
mystrcasecmp-fold (a ∷ s) [] hs ht h =
    absurd (omega (arith, char_diff_zero _ _ h, ascii_tolower_pos a hs.0))
mystrcasecmp-fold (a ∷ s) (b ∷ t) hs ht h = elim (Bool-cases (ascii_tolower a == ascii_tolower b)) [
  | inl e ↦ cc ((==_iff _ _).0 e, mystrcasecmp-fold s t hs.2 ht.2 (rw e at h))
  | inr e ↦ cc (e, (==_iff _ _).1 (char_diff_zero _ _ (rw e at h)))
]

-- Texts that are the same but for case compare as equal.
pub mystrcasecmp-of_fold : (s t : Text) → fold s ≡ fold t → mystrcasecmp s t ≡ pos 0
unfolding mystrcasecmp
mystrcasecmp-of_fold [] [] h = refl
mystrcasecmp-of_fold [] (b ∷ t) h = cc
mystrcasecmp-of_fold (a ∷ s) [] h = cc
mystrcasecmp-of_fold (a ∷ s) (b ∷ t) h =
    rw ((==_iff _ _).1 (fold_head a b s t h)) (mystrcasecmp-of_fold s t (fold_tail a b s t h))

-- `mystrcasecmp` gives 0 exactly on C strings that are the same but for the case of their letters.
pub mystrcasecmp_iff :
    (s t : Text) → IsText s → IsText t → (mystrcasecmp s t ≡ pos 0) ↔ (fold s ≡ fold t)
mystrcasecmp_iff s t hs ht = (mystrcasecmp-fold s t hs ht, mystrcasecmp-of_fold s t)

-- `mystrncasecmp` with limit `n` is `mystrcasecmp` on the first `n` characters of each text.
pub mystrncasecmp-take :
    (s t : Text) (n : ℕ) → mystrncasecmp s t n ≡ mystrcasecmp (take n s) (take n t)
unfolding mystrcasecmp mystrncasecmp
mystrncasecmp-take [] [] zero = refl
mystrncasecmp-take [] [] (suc n) = refl
mystrncasecmp-take [] (b ∷ t) zero = refl
mystrncasecmp-take [] (b ∷ t) (suc n) = refl
mystrncasecmp-take (a ∷ s) [] zero = refl
mystrncasecmp-take (a ∷ s) [] (suc n) = refl
mystrncasecmp-take (a ∷ s) (b ∷ t) zero = refl
mystrncasecmp-take (a ∷ s) (b ∷ t) (suc n) = rw (mystrncasecmp-take s t n)

-- The sign: `-x`.
abbrev pub neg : ℤ → ℤ
neg (pos zero) = pos 0
neg (pos (suc n)) = negsuc n
neg (negsuc n) = pos (suc n)

pub char_diff-neg : (a b : ℕ) → char_diff b a ≡ neg (char_diff a b)
unfolding char_diff
char_diff-neg a b = ground arith

-- Swapping the arguments of `mystrcasecmp` changes the sign of its result.
pub mystrcasecmp-neg : (s t : Text) → mystrcasecmp t s ≡ neg (mystrcasecmp s t)
unfolding mystrcasecmp
mystrcasecmp-neg [] [] = refl
mystrcasecmp-neg [] (b ∷ t) = char_diff-neg 0 (ascii_tolower b)
mystrcasecmp-neg (a ∷ s) [] = char_diff-neg (ascii_tolower a) 0
mystrcasecmp-neg (a ∷ s) (b ∷ t) =
    ground (arith, mystrcasecmp-neg s t, char_diff-neg (ascii_tolower a) (ascii_tolower b))
