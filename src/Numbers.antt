-- ===== src/Numbers.antt =====
-- The arithmetic of src/numbers.c. Floating-point numbers are a parameter: the operations of C, and
-- of its mathematics library, that the code uses.
pub mod Laws
pub mod Extremes
use lambda_moo_plus_foo.Prelude.{
  ◌==◌, if◌then◌else◌, ◌%◌, Bool, true, false, not, ◌&&◌, ◌||◌, List, [], ◌∷◌,
}
use lambda_moo_plus_foo.Value.{Var, e_type, e_div, e_float, int, float}
use lambda_moo_plus_foo.Int32.{
  Int32, int_min, minus_one, is_negative, add, sub, mul, negate, less, quotient, remainder,
}
use lambda_moo_plus_foo.Int32.Power.{power_loop}
use lambda_moo_plus_foo.ListOps.Builtins.{Package, var_pack, returned, raised, fault}

pub record FloatOps (F : Type 0) : Type 0 where
  pub feq : F → F → Bool
  pub flt : F → F → Bool
  pub zero_float : F
  pub fadd : F → F → F
  pub fsub : F → F → F
  pub fmul : F → F → F
  pub fdiv : F → F → F
  pub fmod : F → F → F
  -- `pow`, and whether it sets `errno`.
  pub fpow : F → F → F
  pub fpow_errno : F → F → Bool
  pub of_int : Int32 → F
  -- `IS_REAL`.
  pub is_real : F → Bool
  pub fabs : F → F

-- `compare_integers`.
unfoldable pub compare_integers : Int32 → Int32 → Int32
unfolding less
compare_integers a b = if less a b then minus_one else (if a == b then 0 else 1)

-- The cases of a negative exponent.
unfoldable pub negative_power : Int32 → Int32 → Package Int32
negative_power a b =
    if a == minus_one
    then returned (if b % 2 == 0 then 1 else minus_one)
    else (if a == 0 then raised e_div else (if a == 1 then returned 1 else returned 0))

-- The integer part of `do_power`; the loop halves a number below 2^31.
unfoldable pub integer_power : Int32 → Int32 → Package Int32
unfolding negative_power power_loop is_negative
integer_power a b = if is_negative b then negative_power a b else var_pack (power_loop 33 a b 1)

abbrev pub map_package : {A B : Type 0} → (A → B) → Package A → Package B
map_package f (returned a) = returned (f a)
map_package f (raised e) = raised e
map_package f fault = fault

module _ {F : Type 0} (fl : FloatOps F) where
  -- `do_equals`: one of the two is a float.
  unfoldable pub do_equals : Var F → Var F → Bool
  do_equals (float a) (float b) = fl.feq a b
  do_equals (float a) _ = false
  do_equals _ b = false

  -- A result that is not real is an error.
  abbrev pub real_or_error : F → Package (Var F)
  real_or_error d = if fl.is_real d then returned (float d) else raised e_float

  -- Two operands that are not numbers never get here, nor in the operators below: the interpreter
  -- checks that both are. The last clause is two numbers of different types.
  unfoldable pub compare_numbers : Var F → Var F → Package (Var F)
  unfolding compare_integers
  compare_numbers (int a) (int b) = returned (int (compare_integers a b))
  compare_numbers (float a) (float b) =
      returned (int (if fl.flt a b then minus_one else (if fl.feq a b then 0 else 1)))
  compare_numbers _ _ = raised e_type

  -- SIMPLE_BINARY(name, op).
  unfoldable pub simple_binary :
      (Int32 → Int32 → Int32) → (F → F → F) → Var F → Var F → Package (Var F)
  simple_binary iop fop (int a) (int b) = returned (int (iop a b))
  simple_binary iop fop (float a) (float b) = real_or_error (fop a b)
  simple_binary iop fop _ _ = raised e_type

  unfoldable pub do_add : Var F → Var F → Package (Var F)
  unfolding simple_binary
  do_add = simple_binary add fl.fadd

  unfoldable pub do_subtract : Var F → Var F → Package (Var F)
  unfolding simple_binary
  do_subtract = simple_binary sub fl.fsub

  unfoldable pub do_multiply : Var F → Var F → Package (Var F)
  unfolding simple_binary
  do_multiply = simple_binary mul fl.fmul

  -- `a / b` and `a % b` in C trap when the least integer is divided by -1.
  abbrev pub traps : Int32 → Int32 → Bool
  traps a b = a == int_min && b == minus_one

  -- DIVISION_OP(name, iop, fexpr).
  unfoldable pub division_op :
      (Int32 → Int32 → Int32) → (F → F → F) → Var F → Var F → Package (Var F)
  division_op iop fop (int a) (int b) =
      if b == 0 then raised e_div else (if traps a b then fault else returned (int (iop a b)))
  division_op iop fop (float a) (float b) =
      if fl.feq b fl.zero_float then raised e_div else real_or_error (fop a b)
  division_op iop fop _ _ = raised e_type

  unfoldable pub do_divide : Var F → Var F → Package (Var F)
  unfolding division_op
  do_divide = division_op quotient fl.fdiv

  unfoldable pub do_modulus : Var F → Var F → Package (Var F)
  unfolding division_op
  do_modulus = division_op remainder fl.fmod

  -- The floating-point part of `do_power`.
  abbrev pub float_power : F → F → Package (Var F)
  float_power a d =
      if fl.fpow_errno a d || not (fl.is_real (fl.fpow a d))
      then raised e_float
      else returned (float (fl.fpow a d))

  unfoldable pub do_power : Var F → Var F → Package (Var F)
  unfolding integer_power
  do_power (int a) (int b) = map_package int (integer_power a b)
  do_power (int a) _ = raised e_type
  do_power (float a) (int b) = float_power a (fl.of_int b)
  do_power (float a) (float b) = float_power a b
  do_power _ _ = raised e_type

  -- `bf_min` and `bf_max`: the first argument decides the type. `r` is the best so far.
  unfoldable pub extreme_ints :
      (Int32 → Int32 → Bool) → Bool → Int32 → List (Var F) → Package (Var F)
  extreme_ints better bad r [] = if bad then raised e_type else returned (int r)
  extreme_ints better bad r (int n ∷ vs) = extreme_ints better bad (if better n r then n else r) vs
  extreme_ints better bad r (_ ∷ vs) = extreme_ints better true r vs

  unfoldable pub extreme_floats : (F → F → Bool) → Bool → F → List (Var F) → Package (Var F)
  extreme_floats better bad r [] = if bad then raised e_type else returned (float r)
  extreme_floats better bad r (float x ∷ vs) =
      extreme_floats better bad (if better x r then x else r) vs
  extreme_floats better bad r (_ ∷ vs) = extreme_floats better true r vs

  abbrev pub extreme :
      (Int32 → Int32 → Bool) → (F → F → Bool) → Var F → List (Var F) → Package (Var F)
  extreme better fbetter (int n) vs = extreme_ints better false n vs
  extreme better fbetter (float x) vs = extreme_floats fbetter false x vs
  extreme better fbetter _ vs = fault

  unfoldable pub bf_min : Var F → List (Var F) → Package (Var F)
  unfolding extreme_ints extreme_floats less
  bf_min = extreme less fl.flt

  unfoldable pub bf_max : Var F → List (Var F) → Package (Var F)
  unfolding extreme_ints extreme_floats less
  bf_max = extreme (λ a b. less b a) (λ a b. fl.flt b a)

  unfoldable pub bf_abs : Var F → Package (Var F)
  unfolding is_negative negate
  bf_abs (int n) = returned (int (if is_negative n then negate n else n))
  bf_abs (float x) = returned (float (fl.fabs x))
  bf_abs _ = fault
