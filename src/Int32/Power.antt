-- ===== src/Int32/Power.antt =====
-- Exponentiation by squaring: the loop of `do_power` in src/numbers.c.
use lambda_moo_plus_foo.Prelude.{
  ◌==◌, if◌then◌else◌, ==_iff, Bool-cases, ℕ, zero, suc, ◌+◌, ◌*◌, ◌/◌, ◌%◌, ◌^◌, ◌<◌, ◌≡◌, sym, ap,
  ◌∙◌, inl, inr, true, false, Option, none, some, arith,
}
use lambda_moo_plus_foo.Int32.{Int32, mul}
use native.Mathlib.Nat.{mul_comm, mul_assoc, div-add-mod, add-mul-mod_self_left, pow-suc, pow-zero}

-- `while (b != 0) { if (b % 2 != 0) r *= a; a *= a; b >>= 1; }` on fuel, for a `b` that is not
-- negative; `none` means that the fuel ran out.
unfoldable pub power_loop : ℕ → (a b r : Int32) → Option Int32
unfolding mul
power_loop zero a b r = none
power_loop (suc fuel) a b r =
    let rest = power_loop fuel (mul a a) (b / 2) (if b % 2 == 0 then r else mul r a) in
    if b == 0 then some r else rest

mod-mul_left : (x y m : ℕ) → (x % m) * y % m ≡ x * y % m
mod-mul_left x y m =
    sym (add-mul-mod_self_left ((x % m) * y) m (x / m * y)) ∙ ap (λ z. z % m) (split x y m)
  where
    split : (x y m : ℕ) → (x % m) * y + m * (x / m * y) ≡ x * y
    split x y m = omega (arith, ap (λ z. z * y) (div-add-mod x m))

mod-mul_right : (x y m : ℕ) → x * (y % m) % m ≡ x * y % m
mod-mul_right x y m =
    ap (λ z. z % m) (mul_comm x (y % m)) ∙ mod-mul_left y x m ∙ ap (λ z. z % m) (mul_comm y x)

-- Powers modulo `m` depend on the base modulo `m` only.
mod-pow : (x n m : ℕ) → (x % m) ^ n % m ≡ x ^ n % m
mod-pow x zero m = rw (pow-zero, pow-zero)
mod-pow x (suc n) m =
    rw (pow-suc, pow-suc)
      (mod-mul_right ((x % m) ^ n) x m
        ∙ sym (mod-mul_left ((x % m) ^ n) x m)
        ∙ ap (λ z. z * x % m) (mod-pow x n m)
        ∙ mod-mul_left (x ^ n) x m)

pow_square : (a n : ℕ) → (a * a) ^ n ≡ a ^ (n + n)
pow_square a zero = rw (pow-zero, pow-zero)
pow_square a (suc n) =
    let e : suc n + suc n ≡ suc (suc (n + n)) = omega arith in
    rw (e, pow-suc, pow-suc, pow-suc, pow_square a n) (sym (mul_assoc (a ^ (n + n)) a a))

-- One round keeps `r * a ^ b` modulo 2^32.
round_even : (m r a k : ℕ) → r * (a * a % m) ^ k % m ≡ r * a ^ (k + k) % m
round_even m r a k =
    sym (mod-mul_right r ((a * a % m) ^ k) m)
    ∙ ap (λ z. r * z % m) (mod-pow (a * a) k m ∙ ap (λ z. z % m) (pow_square a k))
    ∙ mod-mul_right r (a ^ (k + k)) m

round_odd : (m r a k : ℕ) → (r * a % m) * (a * a % m) ^ k % m ≡ r * a ^ suc (k + k) % m
round_odd m r a k =
    mod-mul_left (r * a) ((a * a % m) ^ k) m
    ∙ round_even m (r * a) a k
    ∙ ap (λ z. z % m) (regroup r a (a ^ (k + k)) ∙ ap (λ z. r * z) (sym (pow-suc a (k + k))))
  where
    regroup : (r a p : ℕ) → r * a * p ≡ r * (p * a)
    regroup r a p = omega arith

double_even : (n : ℕ) → (n % 2 == 0) ≡ true → n / 2 + n / 2 ≡ n
double_even n h = omega (arith, (==_iff (n % 2) 0).0 h)

double_odd : (n : ℕ) → (n % 2 == 0) ≡ false → suc (n / 2 + n / 2) ≡ n
double_odd n h = ground arith

mul_bound : (a b : ℕ) → mul a b < 2 ^ 32
unfolding mul
mul_bound a b = omega arith

square : (a r k : ℕ) → r * mul a a ^ k % 2 ^ 32 ≡ r * a ^ (k + k) % 2 ^ 32
unfolding mul
square a r k = round_even (2 ^ 32) r a k

square_odd : (a r k : ℕ) → mul r a * mul a a ^ k % 2 ^ 32 ≡ r * a ^ suc (k + k) % 2 ^ 32
unfolding mul
square_odd a r k = round_odd (2 ^ 32) r a k

-- For an exponent below 2^k the loop ends within k + 1 rounds, with r * a^b modulo 2^32.
pub power_loop-pow :
    (k fuel a b r : ℕ)
    → b < 2 ^ k
    → k < fuel
    → r < 2 ^ 32
    → power_loop fuel a b r ≡ some (r * a ^ b % 2 ^ 32)
unfolding power_loop
power_loop-pow k zero a b r hb hf hr = absurd (omega arith)
power_loop-pow k (suc fuel) a zero r hb hf hr = ap some (rw pow-zero (omega arith))
power_loop-pow zero (suc fuel) a (suc b) r hb hf hr = absurd (omega arith)
power_loop-pow (suc k) (suc fuel) a (suc b) r hb hf hr =
    let more : (suc b == 0) ≡ false = ground arith in
    let half : suc b / 2 < 2 ^ k = omega (arith, pow-suc 2 k) in
    rw more (elim (Bool-cases (suc b % 2 == 0)) [
      | inl even ↦ rw even (
          power_loop-pow k fuel (mul a a) (suc b / 2) r half (omega arith) hr
          ∙ ap some
              (square a r (suc b / 2) ∙ ap (λ z. r * a ^ z % 2 ^ 32) (double_even (suc b) even)))
      | inr odd ↦ rw odd (
          power_loop-pow k fuel (mul a a) (suc b / 2) (mul r a) half (omega arith) (mul_bound r a)
          ∙ ap some
              (square_odd a r (suc b / 2) ∙ ap (λ z. r * a ^ z % 2 ^ 32) (double_odd (suc b) odd)))
    ])
