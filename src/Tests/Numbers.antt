-- ===== src/Tests/Numbers.antt =====
-- Arithmetic on integers.
use lambda_moo_plus_foo.Prelude.{◌-◌, ◌%◌, ◌^◌, ◌≤◌, ◌<◌, ◌≡◌, refl, ◌⊎◌, arith}
use lambda_moo_plus_foo.Value.{e_div, int}
use lambda_moo_plus_foo.Int32.{Int32, int_min, minus_one, quotient, remainder}
use lambda_moo_plus_foo.ListOps.Builtins.{returned, raised, fault}
use lambda_moo_plus_foo.Numbers.{integer_power, do_divide, do_modulus}
use lambda_moo_plus_foo.Numbers.Laws.{
  NegativePower, integer_power_lem, Divides, do_divide-do_modulus,
}
use lambda_moo_plus_foo.Tests.World.{ops}

integer_power_lem_example :
    (13 < 2 ^ 31 → integer_power 7 13 ≡ returned (7 ^ 13 % 2 ^ 32))
    × (2 ^ 31 ≤ 13 → NegativePower 7 13 (integer_power 7 13))
integer_power_lem_example = integer_power_lem 7 13

-- -7 / 2 and -7 % 2.
abbrev minus_seven : Int32
minus_seven = 2 ^ 32 - 7

abbrev two : Int32
two = 2

do_divide-do_modulus_example :
    ((two ≡ 0)
      × (do_divide ops (int minus_seven) (int two) ≡ raised e_div)
      × (do_modulus ops (int minus_seven) (int two) ≡ raised e_div))
    ⊎ (((minus_seven ≡ int_min)
          × (two ≡ minus_one)
          × (do_divide ops (int minus_seven) (int two) ≡ fault)
          × (do_modulus ops (int minus_seven) (int two) ≡ fault))
        ⊎ ((q r : Int32) × (do_divide ops (int minus_seven) (int two) ≡ returned (int q))
            × (do_modulus ops (int minus_seven) (int two) ≡ returned (int r))
            × Divides minus_seven two q r))
do_divide-do_modulus_example = do_divide-do_modulus ops minus_seven two (omega arith) (omega arith)

rounds_towards_zero :
    (do_divide ops (int minus_seven) (int 2) ≡ returned (int (2 ^ 32 - 3)))
    × (do_modulus ops (int minus_seven) (int 2) ≡ returned (int minus_one))
unfolding do_divide do_modulus quotient remainder
rounds_towards_zero = (refl, refl)
