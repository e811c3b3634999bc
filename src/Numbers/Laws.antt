-- ===== src/Numbers/Laws.antt =====
-- Powers, quotients and remainders of integers.
use lambda_moo_plus_foo.Prelude.{
  leb, ◌==◌, ==_iff, Bool-cases, ℕ, ◌+◌, ◌*◌, ◌/◌, ◌%◌, ◌^◌, ◌≤◌, ◌<◌, ◌≡◌, refl, sym, ap, ◌∙◌, ◌≢◌,
  ◌⊎◌, inl, inr, Bool, true, false, ◌&&◌, some, arith,
}
use lambda_moo_plus_foo.Value.{e_div, int}
use lambda_moo_plus_foo.Int32.{
  Int32, IsInt32, int_min, minus_one, is_negative, add, mul, magnitude, signed, differ, quotient,
  remainder,
}
use lambda_moo_plus_foo.Int32.Power.{power_loop-pow}
use lambda_moo_plus_foo.ListOps.Builtins.{Package, var_pack, returned, raised, fault}
use native.Mathlib.Nat.{div-add-mod, mod-lt}
use lambda_moo_plus_foo.Numbers.{
  FloatOps, negative_power, integer_power, division_op, do_divide, do_modulus,
}

-- The value of a power with an exponent that is negative: a power of 1 or -1, or 0 as the integer
-- nearest to zero of a fraction; there is none for the base 0.
abbrev pub NegativePower : Int32 → Int32 → Package Int32 → Type 0
NegativePower a b r =
    (a ≡ 0 → r ≡ raised e_div)
    × (a ≡ 1 → r ≡ returned 1)
    × (a ≡ minus_one → b % 2 ≡ 0 → r ≡ returned 1)
    × (a ≡ minus_one → b % 2 ≡ 1 → r ≡ returned minus_one)
    × (1 < a → a < minus_one → r ≡ returned 0)

negative_power_lem : (a b : Int32) → NegativePower a b (negative_power a b)
unfolding negative_power
negative_power_lem a b = ground arith

-- The integer power ends, within its 33 rounds, for every base and exponent. With an exponent that
-- is not negative it is the power modulo 2^32; with a negative one it is the power rounded towards
-- zero, and E_DIV for the base 0.
pub integer_power_lem :
    (a b : Int32)
    → (b < 2 ^ 31 → integer_power a b ≡ returned (a ^ b % 2 ^ 32))
      × (2 ^ 31 ≤ b → NegativePower a b (integer_power a b))
unfolding integer_power
integer_power_lem a b = (
  λ h.
      let plus : leb (2 ^ 31) b ≡ false = ground arith in
      rw plus (
        ap var_pack (
          power_loop-pow 31 33 a b 1 h (omega arith) (omega arith)
          ∙ ap some (ap (λ z. z % 2 ^ 32) (one_times (a ^ b))))),
  λ h. let minus : leb (2 ^ 31) b ≡ true = ground arith in rw minus (negative_power_lem a b),
)
  where
    one_times : (p : ℕ) → 1 * p ≡ p
    one_times p = omega arith

-- `y` stands for minus `x`.
abbrev IsMinus : ℕ → ℕ → Type 0
IsMinus x y = (x + y) % 2 ^ 32 ≡ 0

signed-IsMinus : (n : ℕ) → IsMinus (signed true n) n
signed-IsMinus n = omega arith

-- A product with one factor negated.
IsMinus-mul : (x y z : ℕ) → IsMinus x y → IsMinus (x * z) (y * z)
IsMinus-mul x y z h =
    let whole : 2 ^ 32 * ((x + y) / 2 ^ 32) ≡ x + y = omega arith in
    omega (arith, ap (λ t. t * z) whole)

mul-IsMinus : (x y z : ℕ) → IsMinus y z → IsMinus (x * y) (x * z)
mul-IsMinus x y z h =
    let whole : 2 ^ 32 * ((y + z) / 2 ^ 32) ≡ y + z = omega arith in
    omega (arith, ap (λ t. x * t) whole)

-- What the two operations of an admissible division give.
pub record Divides (a b q r : Int32) : Type 0 where
  pub recombine : add (mul q b) r ≡ a
  pub smaller : magnitude r < magnitude b

-- A quotient `k` and a remainder `l` of the magnitudes `n` and `d`, with signs, recombine.
recombine_signs :
    (sa sb : Bool) (k l n d : ℕ)
    → k * d + l ≡ n
    → n < 2 ^ 32
    → d < 2 ^ 32
    → k < 2 ^ 32
    → l < 2 ^ 32
    → add (mul (signed (differ sa sb) k) (signed sb d)) (signed sa l) ≡ signed sa n
unfolding add mul
recombine_signs false false k l n d e hn hd hk hl =
    let small_k : k % 2 ^ 32 ≡ k = omega arith in
    let small_d : d % 2 ^ 32 ≡ d = omega arith in rw (small_k, small_d) (omega arith)
recombine_signs false true k l n d e hn hd hk hl = omega (
  arith,
  IsMinus-mul (signed true k) k (signed true d) (signed-IsMinus k),
  mul-IsMinus k (signed true d) d (signed-IsMinus d),
)
recombine_signs true false k l n d e hn hd hk hl =
    let small_d : d % 2 ^ 32 ≡ d = omega arith in
    rw small_d (omega (arith, IsMinus-mul (signed true k) k d (signed-IsMinus k)))
recombine_signs true true k l n d e hn hd hk hl =
    let small_k : k % 2 ^ 32 ≡ k = omega arith in
    rw small_k (omega (arith, mul-IsMinus k (signed true d) d (signed-IsMinus d)))

signed-magnitude : (a : Int32) → IsInt32 a → signed (is_negative a) (magnitude a) ≡ a
unfolding magnitude is_negative
signed-magnitude a h = ground arith

magnitude-signed : (s : Bool) (l : ℕ) → l < 2 ^ 31 → magnitude (signed s l) ≡ l
unfolding magnitude is_negative
magnitude-signed true l h = ground arith
magnitude-signed false l h = ground arith

magnitude_bounds : (a : Int32) → IsInt32 a → (magnitude a ≤ 2 ^ 31) × (a ≢ 0 → 0 < magnitude a)
unfolding magnitude is_negative
magnitude_bounds a h = ground arith

quotient_lem :
    (a b : Int32)
    → quotient a b ≡ signed (differ (is_negative a) (is_negative b)) (magnitude a / magnitude b)
unfolding quotient
quotient_lem a b = refl

remainder_lem : (a b : Int32) → remainder a b ≡ signed (is_negative a) (magnitude a % magnitude b)
unfolding remainder
remainder_lem a b = refl

div_le : (n d : ℕ) → n / d ≤ n
div_le n d = grind arith

divides_lem :
    (a b : Int32) → IsInt32 a → IsInt32 b → b ≢ 0 → Divides a b (quotient a b) (remainder a b)
divides_lem a b ha hb nz =
    let n = magnitude a in
    let d = magnitude b in
    let (le_n, _) = magnitude_bounds a ha in
    let (le_d, pos_d) = magnitude_bounds b hb in
    let less_d : n % d < d = mod-lt n (pos_d nz) in
    let whole : n / d * d + n % d ≡ n = omega (arith, div-add-mod n d) in
    record {
      recombine =
          rw (quotient_lem a b, remainder_lem a b)
            (ap
                (λ z.
                  add (mul (signed (differ (is_negative a) (is_negative b)) (n / d)) z)
                    (signed (is_negative a) (n % d)))
                (sym (signed-magnitude b hb))
              ∙ recombine_signs (is_negative a) (is_negative b) (n / d) (n % d) n d whole
                  (omega arith) (omega arith) (omega (arith, div_le n d)) (omega arith)
              ∙ signed-magnitude a ha);
      smaller =
          rw (remainder_lem a b, magnitude-signed (is_negative a) (n % d) (omega arith)) less_d;
    }

module _ {F : Type 0} (fl : FloatOps F) where
  -- Integer division and remainder, on every pair of operands: both raise E_DIV for the divisor 0;
  -- both trap when the least integer is divided by -1; and otherwise they return a quotient and a
  -- remainder that recombine to the dividend, the remainder smaller than the divisor in magnitude.
  pub do_divide-do_modulus :
      (a b : Int32)
      → IsInt32 a
      → IsInt32 b
      → ((b ≡ 0)
          × (do_divide fl (int a) (int b) ≡ raised e_div)
          × (do_modulus fl (int a) (int b) ≡ raised e_div))
        ⊎ (((a ≡ int_min)
              × (b ≡ minus_one)
              × (do_divide fl (int a) (int b) ≡ fault)
              × (do_modulus fl (int a) (int b) ≡ fault))
            ⊎ ((q r : Int32) × (do_divide fl (int a) (int b) ≡ returned (int q))
                × (do_modulus fl (int a) (int b) ≡ returned (int r))
                × Divides a b q r))
  unfolding do_divide do_modulus division_op
  do_divide-do_modulus a b ha hb = elim (Bool-cases (b == 0)) [
    | inl e ↦ inl ((==_iff b 0).0 e, rw e refl, rw e refl)
    | inr e ↦ elim (Bool-cases (a == int_min && b == minus_one)) [
      | inl t ↦ inr (inl (ground arith, ground arith, rw (e, t) refl, rw (e, t) refl))
      | inr t ↦ inr (
          inr (
            quotient a b,
            remainder a b,
            rw (e, t) refl,
            rw (e, t) refl,
            divides_lem a b ha hb (λ z. cc (e, (==_iff b 0).1 z)),
          ))
    ]
  ]
