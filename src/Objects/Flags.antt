-- ===== src/Objects/Flags.antt =====
-- Object flags, and what they allow: `db_object_has_flag` and its kin, `is_wizard`, `is_user`.
use lambda_moo_plus_foo.Prelude.{
  ◌==◌, if◌then◌else◌, ℕ, ◌+◌, ◌-◌, ◌/◌, ◌%◌, ◌^◌, ◌≡◌, Bool, true, false, arith,
}

-- `db_object_flag`, in the order of the enumeration.
pub data Flag : Type 0 where
  user programmer wizard obsolete_1 read_flag write_flag obsolete_2 fertile : Flag

abbrev pub flag_bit : Flag → ℕ
flag_bit user = 2 ^ 0
flag_bit programmer = 2 ^ 1
flag_bit wizard = 2 ^ 2
flag_bit obsolete_1 = 2 ^ 3
flag_bit read_flag = 2 ^ 4
flag_bit write_flag = 2 ^ 5
flag_bit obsolete_2 = 2 ^ 6
flag_bit fertile = 2 ^ 7

abbrev pub same_flag : Flag → Flag → Bool
same_flag f g = flag_bit f == flag_bit g

-- `flags & (1 << f)`, `flags | (1 << f)` and `flags & ~(1 << f)`, by arithmetic on the one bit.
unfoldable pub has_bit : ℕ → Flag → Bool
has_bit flags f = flags / flag_bit f % 2 == 1

unfoldable pub set_bit : ℕ → Flag → ℕ
unfolding has_bit
set_bit flags f = if has_bit flags f then flags else flags + flag_bit f

unfoldable pub clear_bit : ℕ → Flag → ℕ
unfolding has_bit
clear_bit flags f = if has_bit flags f then flags - flag_bit f else flags

pub has_bit-set_bit :
    (flags : ℕ) (f g : Flag)
    → has_bit (set_bit flags f) g ≡ (if same_flag f g then true else has_bit flags g)
unfolding set_bit
has_bit-set_bit flags user user = ground arith
has_bit-set_bit flags user _ = ground arith
has_bit-set_bit flags programmer user = ground arith
has_bit-set_bit flags programmer _ = ground arith
has_bit-set_bit flags wizard user = ground arith
has_bit-set_bit flags wizard _ = ground arith
has_bit-set_bit flags obsolete_1 user = ground arith
has_bit-set_bit flags obsolete_1 _ = ground arith
has_bit-set_bit flags read_flag user = ground arith
has_bit-set_bit flags read_flag _ = ground arith
has_bit-set_bit flags write_flag user = ground arith
has_bit-set_bit flags write_flag _ = ground arith
has_bit-set_bit flags obsolete_2 user = ground arith
has_bit-set_bit flags obsolete_2 _ = ground arith
has_bit-set_bit flags fertile user = ground arith
has_bit-set_bit flags fertile _ = ground arith

pub has_bit-clear_bit :
    (flags : ℕ) (f g : Flag)
    → has_bit (clear_bit flags f) g ≡ (if same_flag f g then false else has_bit flags g)
unfolding clear_bit
has_bit-clear_bit flags user user = ground arith
has_bit-clear_bit flags user _ = ground arith
has_bit-clear_bit flags programmer user = ground arith
has_bit-clear_bit flags programmer _ = ground arith
has_bit-clear_bit flags wizard user = ground arith
has_bit-clear_bit flags wizard _ = ground arith
has_bit-clear_bit flags obsolete_1 user = ground arith
has_bit-clear_bit flags obsolete_1 _ = ground arith
has_bit-clear_bit flags read_flag user = ground arith
has_bit-clear_bit flags read_flag _ = ground arith
has_bit-clear_bit flags write_flag user = ground arith
has_bit-clear_bit flags write_flag _ = ground arith
has_bit-clear_bit flags obsolete_2 user = ground arith
has_bit-clear_bit flags obsolete_2 _ = ground arith
has_bit-clear_bit flags fertile user = ground arith
has_bit-clear_bit flags fertile _ = ground arith
