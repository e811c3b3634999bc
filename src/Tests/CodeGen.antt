-- ===== src/Tests/CodeGen.antt =====
-- The code generator on small programs.
use lambda_moo_plus_foo.CodeGen.References.{read_bytes-write_bytes, add_literal_lem}
use lambda_moo_plus_foo.CodeGen.Labels.{relocate-define_label}
use lambda_moo_plus_foo.CodeGen.Formed.{AreStmts}
use lambda_moo_plus_foo.Int32.{to_ℤ, add, sub, less}
use lambda_moo_plus_foo.Prelude.{
  length, get_elem?, pos, ℕ, ◌+◌, ◌*◌, ◌≤◌, ◌≡◌, refl, ◌≢◌, ◌⊎◌, inl, true, false, Option, none,
  some, List, [], ◌∷◌, ◌++◌, arith,
}
use lambda_moo_plus_foo.Value.{Var, equality_flat, equality, int, obj}
use lambda_moo_plus_foo.Ast.{
  Expr, Stmts, expr_var, expr_id, expr_index, expr_asgn, expr_length, present, no_stmts, stmt_while,
  stmt_fork, stmt_expr, stmt_return, stmt_break,
}
use lambda_moo_plus_foo.CodeGen.Opcodes.{
  opcode, extended_opcode, optim_num_to_opcode, in_optim_num_range,
}
use lambda_moo_plus_foo.CodeGen.State.{
  Fixup, width, Bytecodes, GState, State, less_by, fixup_label, fixup_stack, one, two, init_state,
  emit_byte, emit_extended_byte, add_known_fixup, fixup_of, add_linked_fixup, add_fixup, add_fork,
  add_var_ref, count_label, add_linked_label, add_label, add_known_label, capture_label,
  add_stack_ref, push_stack, pop_stack, save_stack_top, restore_stack_top, enter_loop, exit_loop,
  emit_var_op, retarget, aim, define_label, same_type, intern_literal, add_literal_at, find_literal,
  add_literal,
}
use lambda_moo_plus_foo.CodeGen.Expr.{store, put_temp, generate_length, generate_var, generate_expr}
use lambda_moo_plus_foo.CodeGen.Stmt.{
  find_loop, emit_exit, generate_break, end_loop, generate_fork, generate_stmt, stmt_to_code,
}
use lambda_moo_plus_foo.CodeGen.Vector.{
  max_of, ref_size, extra, label_size, write_bytes, read_bytes, fixup_size, relocate, final_value,
  fill, size_without_labels, measure, assemble, finish,
}
use lambda_moo_plus_foo.CodeGen.Layout.{Laid}
use lambda_moo_plus_foo.CodeGen.Filled.{stack_refs}
use lambda_moo_plus_foo.CodeGen.Correct.{generate_expr-balance, stmt_to_code-total}
use lambda_moo_plus_foo.Tests.World.{floats}

-- x[$] = 200
abbrev last_set : Expr ℕ
last_set = expr_asgn (expr_index (expr_id 40) expr_length) (expr_var (int 200))

-- while (x) x[$] = 200; break; endwhile fork (0) return 200; endfork
abbrev body : Stmts ℕ
body = stmt_while none (expr_id 40) (stmt_expr last_set (stmt_break none no_stmts)) (
    stmt_fork none (expr_var (int 0)) (stmt_return (present (expr_var (int 200))) no_stmts)
      no_stmts)

abbrev empty : GState ℕ
empty = record { total_var_refs = 0; literals = []; fork_vectors = [] }

abbrev start : State ℕ
start = record {
  max_literal = 0;
  max_fork = 0;
  max_var_ref = 0;
  num_literals = 0;
  num_forks = 0;
  num_var_refs = 0;
  num_labels = 0;
  num_stacks = 0;
  fixups = [];
  bytes = [];
  cur_stack = 0;
  max_stack = 0;
  saved_stack = none;
  loops = [];
  gstate = empty;
}

start-Laid : Laid start
start-Laid = record {
  literals = refl;
  forks = refl;
  var_refs = refl;
  labels = refl;
  stacks = refl;
  places = omega arith;
}

generate_expr-balance_example :
    (t : State ℕ) × (generate_expr floats last_set start ≡ some t)
    × (t.cur_stack ≡ 1)
    × (t.cur_stack ≤ t.max_stack)
    × (t.saved_stack ≡ none)
    × Laid t
generate_expr-balance_example =
    generate_expr-balance floats last_set false [] start ((tt, refl), tt) tt start-Laid
      (omega arith) tt

abbrev noloops : List (Option ℕ)
noloops = []

not_empty : (none ∷ []) ≢ noloops
not_empty e = cc

body-formed : AreStmts [] body
body-formed = (tt, (((tt, refl), tt), (not_empty, tt)), (tt, (tt, tt), tt))

stmt_to_code-total_example :
    (t : State ℕ) × (stmt_to_code floats body empty ≡ some (assemble t, t.gstate))
    × (t.cur_stack ≡ 0)
    × (length (assemble t).vector
        ≡ (assemble t).size + stack_refs t.fixups * extra (assemble t).numbytes_stack)
stmt_to_code-total_example = stmt_to_code-total floats body empty body-formed

abbrev fork_code : Bytecodes
fork_code = record {
  numbytes_label = one;
  numbytes_literal = one;
  numbytes_fork = one;
  numbytes_var_name = one;
  numbytes_stack = one;
  vector = 100 ∷ 0 ∷ 108 ∷ 110 ∷ [];
  size = 4;
  max_stack = 1;
}

abbrev main_code : Bytecodes
main_code = record fork_code {
  vector =
      99 ∷ 40 ∷ 1 ∷ 24 ∷ 99 ∷ 40 ∷ 112 ∷ 1 ∷ 0 ∷ 100 ∷ 0 ∷ 105 ∷ 7 ∷ 66 ∷ 40 ∷ 111 ∷ 106 ∷ 111 ∷ 112
      ∷ 11 ∷ 0 ∷ 24 ∷ 107 ∷ 0 ∷ 123 ∷ 3 ∷ 0 ∷ 110 ∷ [];
  size = 28;
  max_stack = 3;
}

abbrev after : GState ℕ
after = record { total_var_refs = 3; literals = int 200 ∷ []; fork_vectors = fork_code ∷ [] }

-- The loop's `break` and its end lead to byte 24, the jump back to byte 0.
body_compiled : stmt_to_code floats body empty ≡ some (main_code, after)
unfolding stmt_to_code generate_stmt generate_expr emit_byte emit_extended_byte add_known_fixup
    fixup_of add_linked_fixup add_fixup add_fork add_var_ref count_label add_linked_label add_label
    add_known_label capture_label add_stack_ref push_stack pop_stack less_by save_stack_top
    restore_stack_top enter_loop exit_loop emit_var_op retarget aim define_label find_literal
    intern_literal add_literal_at add_literal same_type store put_temp generate_length generate_var
    opcode extended_opcode optim_num_to_opcode in_optim_num_range add sub less to_ℤ init_state
    finish assemble measure fill write_bytes fixup_size final_value relocate max_of ref_size extra
    label_size width size_without_labels generate_break emit_exit find_loop end_loop generate_fork
    equality equality_flat
body_compiled = refl

-- After a jump whose label is open.
abbrev open_label : Fixup
open_label = record {
  kind = fixup_label;
  pc = 1;
  value = 0;
  prev_literals = 0;
  prev_forks = 0;
  prev_var_refs = 0;
  prev_labels = 0;
  prev_stacks = 0;
  next = none;
}

abbrev jumped : State ℕ
jumped = record start { fixups = open_label ∷ []; bytes = 107 ∷ 0 ∷ []; num_labels = 1 }

jumped-Laid : Laid jumped
jumped-Laid = record {
  literals = refl;
  forks = refl;
  var_refs = refl;
  labels = refl;
  stacks = refl;
  places = (omega arith, omega arith);
}

abbrev wide : Bytecodes
wide = record fork_code { numbytes_label = two }

relocate-define_label_example :
    (fill wide (open_label ∷ []) 0 (107 ∷ 0 ∷ 110 ∷ [])
      ≡ fill wide (open_label ∷ []) 0 (107 ∷ 0 ∷ []) ++ fill wide [] 2 (110 ∷ []))
    × (relocate wide (aim (capture_label jumped) open_label)
        ≡ length (fill wide (open_label ∷ []) 0 (107 ∷ 0 ∷ [])))
unfolding fill write_bytes fixup_size
relocate-define_label_example =
    relocate-define_label jumped wide open_label (open_label ∷ []) [] 3 (110 ∷ []) jumped-Laid refl
      (omega arith) refl (omega arith)

-- A label of two bytes leads past both.
label_leads : relocate wide (aim (capture_label jumped) open_label) ≡ 3
unfolding relocate aim capture_label fixup_of
label_leads = refl

read_bytes-write_bytes_example :
    read_bytes (ref_size 300) (write_bytes (ref_size 300) 256 ++ 7 ∷ []) ≡ some (256, 7 ∷ [])
read_bytes-write_bytes_example =
    read_bytes-write_bytes 300 256 (7 ∷ []) (omega arith) (omega arith) (inl (omega arith))

-- At the bound itself the number is lost: a greatest slot of 256 is read back as 0.
bound_lost : read_bytes (ref_size 256) (write_bytes (ref_size 256) 256) ≡ some (0, [])
unfolding read_bytes write_bytes ref_size
bound_lost = refl

abbrev one_literal : State ℕ
one_literal = record start { gstate = record empty { literals = int 200 ∷ [] } }

add_literal_lem_example :
    (i : ℕ) × (l : Var ℕ) × (add_literal_at (obj (pos 5)) one_literal 1
      ≡ add_literal_at (obj (pos 5)) one_literal i)
    × (get_elem? (add_literal_at (obj (pos 5)) one_literal 1).gstate.literals i ≡ some l)
    × ((l ≡ obj (pos 5))
        ⊎ ((same_type (obj (pos 5)) l ≡ true) × (equality floats true (obj (pos 5)) l ≡ some true)))
    × (((add_literal_at (obj (pos 5)) one_literal 1).gstate.literals ≡ int 200 ∷ [])
        ⊎ ((add_literal_at (obj (pos 5)) one_literal 1).gstate.literals
            ≡ int 200 ∷ obj (pos 5) ∷ []))
unfolding add_literal find_literal same_type
add_literal_lem_example =
    add_literal_lem floats (obj (pos 5)) one_literal (add_literal_at (obj (pos 5)) one_literal 1)
      refl

-- One stack reference in a body whose stack is 257 high: the size leaves out its second byte.
abbrev high : State ℕ
high = record start {
  fixups = record open_label { kind = fixup_stack; pc = 0 } ∷ [];
  bytes = 0 ∷ [];
  max_stack = 257;
}

size_overrun : ((assemble high).size ≡ 1) × (length (assemble high).vector ≡ 2)
unfolding assemble measure fill write_bytes fixup_size final_value max_of ref_size extra label_size
    width size_without_labels
size_overrun = (refl, refl)
