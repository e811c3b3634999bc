-- ===== src/CodeGen/Opcodes.antt =====
-- The bytes that name operations: include/opcode.h, as it is compiled, without
-- `BYTECODE_REDUCE_REF`.
use lambda_moo_plus_foo.Prelude.{
  ltb, leb, Bool-cases, ℕ, ◌+◌, ◌-◌, ◌^◌, ◌≤◌, ◌<◌, ◌≡◌, ◌⊎◌, inl, inr, Bool, true, not, ◌&&◌,
  arith,
}
use lambda_moo_plus_foo.Int32.{Int32, IsInt32, to_ℤ, add, sub, less}

abbrev pub Byte : Type 0
Byte = ℕ

abbrev pub num_ready_vars : ℕ
num_ready_vars = 32

pub data Opcode : Type 0 where
  op_if op_while op_eif op_fork op_fork_with_id op_for_list op_for_range : Opcode
  op_indexset op_push_get_prop op_get_prop op_call_verb op_put_prop op_bi_func_call : Opcode
  op_if_ques op_ref op_range_ref op_make_singleton_list op_check_list_for_splice : Opcode
  op_mult op_div op_mod op_add op_minus op_eq op_ne op_lt op_le op_gt op_ge op_in : Opcode
  op_and op_or op_unary_minus op_not op_put op_g_put op_push op_g_push : Opcode
  op_imm op_make_empty_list op_list_add_tail op_list_append op_push_ref op_put_temp : Opcode
  op_push_temp op_jump op_return op_return0 op_done op_pop op_extended : Opcode

-- The number of an opcode in the enumeration.
unfoldable pub opcode : Opcode → Byte
opcode op_if = 0
opcode op_while = 1
opcode op_eif = 2
opcode op_fork = 3
opcode op_fork_with_id = 4
opcode op_for_list = 5
opcode op_for_range = 6
opcode op_indexset = 7
opcode op_push_get_prop = 8
opcode op_get_prop = 9
opcode op_call_verb = 10
opcode op_put_prop = 11
opcode op_bi_func_call = 12
opcode op_if_ques = 13
opcode op_ref = 14
opcode op_range_ref = 15
opcode op_make_singleton_list = 16
opcode op_check_list_for_splice = 17
opcode op_mult = 18
opcode op_div = 19
opcode op_mod = 20
opcode op_add = 21
opcode op_minus = 22
opcode op_eq = 23
opcode op_ne = 24
opcode op_lt = 25
opcode op_le = 26
opcode op_gt = 27
opcode op_ge = 28
opcode op_in = 29
opcode op_and = 30
opcode op_or = 31
opcode op_unary_minus = 32
opcode op_not = 33
opcode op_put = 34
opcode op_g_put = 34 + num_ready_vars
opcode op_push = 67
opcode op_g_push = 67 + num_ready_vars
opcode op_imm = 100
opcode op_make_empty_list = 101
opcode op_list_add_tail = 102
opcode op_list_append = 103
opcode op_push_ref = 104
opcode op_put_temp = 105
opcode op_push_temp = 106
opcode op_jump = 107
opcode op_return = 108
opcode op_return0 = 109
opcode op_done = 110
opcode op_pop = 111
opcode op_extended = 112

pub data ExtendedOpcode : Type 0 where
  eop_rangeset eop_length eop_push_label eop_end_catch eop_end_except : ExtendedOpcode
  eop_end_finally eop_continue eop_catch eop_try_except eop_try_finally : ExtendedOpcode
  eop_while_id eop_exit eop_exit_id eop_scatter eop_exp : ExtendedOpcode

unfoldable pub extended_opcode : ExtendedOpcode → Byte
extended_opcode eop_rangeset = 0
extended_opcode eop_length = 1
extended_opcode eop_push_label = 2
extended_opcode eop_end_catch = 3
extended_opcode eop_end_except = 4
extended_opcode eop_end_finally = 5
extended_opcode eop_continue = 6
extended_opcode eop_catch = 7
extended_opcode eop_try_except = 8
extended_opcode eop_try_finally = 9
extended_opcode eop_while_id = 10
extended_opcode eop_exit = 11
extended_opcode eop_exit_id = 12
extended_opcode eop_scatter = 13
extended_opcode eop_exp = 14

abbrev pub last_opcode : ℕ
last_opcode = 255

abbrev pub optim_num_start : ℕ
optim_num_start = 113

-- -10, and 255 - 113 - 10.
abbrev pub optim_num_low : Int32
optim_num_low = 2 ^ 32 - 10

abbrev pub optim_num_hi : Int32
optim_num_hi = 132

unfoldable pub optim_num_to_opcode : Int32 → ℕ
optim_num_to_opcode i = sub (add optim_num_start i) optim_num_low

unfoldable pub opcode_to_optim_num : ℕ → Int32
opcode_to_optim_num o = add (sub o optim_num_start) optim_num_low

unfoldable pub in_optim_num_range : Int32 → Bool
in_optim_num_range i = not (less i optim_num_low) && not (less optim_num_hi i)

unfoldable pub is_optim_num_opcode : ℕ → Bool
is_optim_num_opcode o = leb optim_num_start o

-- The patterns of the integers from -10 to 132.
in_range_bounds :
    (i : Int32) → IsInt32 i → in_optim_num_range i ≡ true → (i ≤ optim_num_hi) ⊎ (optim_num_low ≤ i)
unfolding in_optim_num_range less to_ℤ
in_range_bounds i h r = elim (Bool-cases (ltb i (2 ^ 31))) [
  | inl e ↦ inl (ground (arith, rw e at r))
  | inr e ↦ inr (ground (arith, rw e at r))
]

-- A small integer has a byte of its own, which is at least that of the first one, and which gives
-- it back.
pub opcode_to_optim_num-optim_num_to_opcode :
    (i : Int32)
    → IsInt32 i
    → in_optim_num_range i ≡ true
    → (optim_num_to_opcode i ≤ last_opcode)
      × (optim_num_start ≤ optim_num_to_opcode i)
      × (opcode_to_optim_num (optim_num_to_opcode i) ≡ i)
unfolding optim_num_to_opcode add sub opcode_to_optim_num
opcode_to_optim_num-optim_num_to_opcode i h r = elim (in_range_bounds i h r) [
  | inl b ↦ (omega arith, omega arith, omega arith)
  | inr b ↦ (omega arith, omega arith, omega arith)
]

-- No operation has the byte of a small integer.
pub opcode-IsBelow : (o : Opcode) → opcode o < optim_num_start
unfolding opcode
opcode-IsBelow o = ground arith
