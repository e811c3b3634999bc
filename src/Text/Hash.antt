-- ===== src/Text/Hash.antt =====
-- `str_hash` against the comparison that its users pair it with.
use lambda_moo_plus_foo.Prelude.{pos, ℕ, ◌^◌, ◌<◌, ◌≡◌, refl, [], ◌∷◌, arith}
use lambda_moo_plus_foo.Text.{
  Text, IsText, ascii_tolower, mystrcasecmp, hash_step, hash_loop, str_hash,
}
use lambda_moo_plus_foo.Text.Case.{fold, fold_head, fold_tail, mystrcasecmp_iff}

hash_step-fold :
    (ans a b : ℕ) → ascii_tolower a ≡ ascii_tolower b → hash_step ans a ≡ hash_step ans b
unfolding hash_step
hash_step-fold ans a b h = rw h

hash_loop-fold : (ans : ℕ) (s t : Text) → fold s ≡ fold t → hash_loop ans s ≡ hash_loop ans t
unfolding hash_loop
hash_loop-fold ans [] [] h = refl
hash_loop-fold ans [] (b ∷ t) h = cc
hash_loop-fold ans (a ∷ s) [] h = cc
hash_loop-fold ans (a ∷ s) (b ∷ t) h =
    rw (hash_step-fold ans a b (fold_head a b s t h))
      (hash_loop-fold (hash_step ans b) s t (fold_tail a b s t h))

hash_loop_bound : (ans : ℕ) (s : Text) → ans < 2 ^ 32 → hash_loop ans s < 2 ^ 32
unfolding hash_loop hash_step
hash_loop_bound ans [] h = h
hash_loop_bound ans (c ∷ s) h = hash_loop_bound (hash_step ans c) s (omega arith)

-- C strings that compare as equal without regard to case have the same hash, and it fits 32 bits.
pub str_hash-mystrcasecmp :
    (s t : Text)
    → IsText s
    → IsText t
    → mystrcasecmp s t ≡ pos 0
    → (str_hash s ≡ str_hash t) × (str_hash s < 2 ^ 32)
unfolding str_hash
str_hash-mystrcasecmp s t hs ht h =
    (hash_loop-fold 0 s t ((mystrcasecmp_iff s t hs ht).0 h), hash_loop_bound 0 s (omega arith))
