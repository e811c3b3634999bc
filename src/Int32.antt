-- ===== src/Int32.antt =====
-- Machine integers: an `int32_t` is its bit pattern, a number below 2^32. Where the source
-- overflows a signed sum or product, which C leaves undefined, the model wraps around, as the
-- machine does.
pub mod Power
use lambda_moo_plus_foo.Prelude.{
  ltb, leb, if◌then◌else◌, ℤ, ltb_ℤ, pos, negsuc, ℕ, ◌+◌, ◌-◌, ◌*◌, ◌/◌, ◌%◌, ◌^◌, ◌<◌, ◌≡◌, Bool,
  true, false, not, arith,
}

abbrev pub Int32 : Type 0
Int32 = ℕ

abbrev pub IsInt32 : Int32 → Type 0
IsInt32 n = n < 2 ^ 32

abbrev pub int_max : Int32
int_max = 2 ^ 31 - 1

-- The pattern of the least integer, -2^31, and of -1.
abbrev pub int_min : Int32
int_min = 2 ^ 31

abbrev pub minus_one : Int32
minus_one = 2 ^ 32 - 1

unfoldable pub is_negative : Int32 → Bool
is_negative a = leb (2 ^ 31) a

-- The integer that a pattern stands for, and the pattern of an integer.
unfoldable pub to_ℤ : Int32 → ℤ
to_ℤ a = if ltb a (2 ^ 31) then pos a else negsuc (2 ^ 32 - a - 1)

unfoldable pub of_ℤ : ℤ → Int32
of_ℤ (pos n) = n % 2 ^ 32
of_ℤ (negsuc n) = 2 ^ 32 - n % 2 ^ 32 - 1

unfoldable pub add : Int32 → Int32 → Int32
add a b = (a + b) % 2 ^ 32

unfoldable pub sub : Int32 → Int32 → Int32
sub a b = (a + 2 ^ 32 - b) % 2 ^ 32

unfoldable pub mul : Int32 → Int32 → Int32
mul a b = a * b % 2 ^ 32

unfoldable pub negate : Int32 → Int32
negate a = (2 ^ 32 - a) % 2 ^ 32

-- `a < b` on signed integers.
unfoldable pub less : Int32 → Int32 → Bool
less a b = ltb_ℤ (to_ℤ a) (to_ℤ b)

-- The magnitude of an integer.
unfoldable pub magnitude : Int32 → ℕ
magnitude a = if is_negative a then 2 ^ 32 - a else a

abbrev pub signed : Bool → ℕ → Int32
signed false n = n % 2 ^ 32
signed true n = (2 ^ 32 - n % 2 ^ 32) % 2 ^ 32

abbrev pub differ : Bool → Bool → Bool
differ true b = not b
differ false b = b

-- Quotient and remainder round towards zero; the remainder has the sign of the dividend. The
-- divisor is not 0.
unfoldable pub quotient : Int32 → Int32 → Int32
unfolding magnitude is_negative
quotient a b = signed (differ (is_negative a) (is_negative b)) (magnitude a / magnitude b)

unfoldable pub remainder : Int32 → Int32 → Int32
unfolding magnitude is_negative
remainder a b = signed (is_negative a) (magnitude a % magnitude b)

pub of_ℤ-to_ℤ : (a : Int32) → IsInt32 a → of_ℤ (to_ℤ a) ≡ a
unfolding of_ℤ to_ℤ
of_ℤ-to_ℤ a h = ground arith

pub of_ℤ_bound : (z : ℤ) → IsInt32 (of_ℤ z)
unfolding of_ℤ
of_ℤ_bound (pos n) = omega arith
of_ℤ_bound (negsuc n) = omega arith
