-- ===== src/CodeGen/Stmt.antt =====
-- The code of statements: `generate_stmt`, `stmt_to_code` and `generate_code` of
-- src/code_gen.c. `none` is the call of `server_panic`.
use lambda_moo_plus_foo.Prelude.{
  ◌==◌, if◌then◌else◌, length, get_elem?, set, ◌>>=◌, ℕ, suc, ◌+◌, ◌*◌, Bool, false, Option, none,
  some, List, [], ◌∷◌,
}
use lambda_moo_plus_foo.Value.{Var, FloatEq}
use lambda_moo_plus_foo.Ast.{
  Stmts, Arms, Excepts, absent, present, no_stmts, stmt_cond, stmt_list, stmt_range, stmt_while,
  stmt_fork, stmt_expr, stmt_return, stmt_try_except, stmt_try_finally, stmt_break, stmt_continue,
  no_arms, arm, no_excepts, except,
}
use lambda_moo_plus_foo.CodeGen.Opcodes.{
  Opcode, optim_num_to_opcode, op_if, op_while, op_eif, op_fork, op_fork_with_id, op_for_list,
  op_for_range, op_put, op_jump, op_return, op_return0, op_pop, eop_push_label, eop_end_except,
  eop_end_finally, eop_continue, eop_try_except, eop_try_finally, eop_while_id, eop_exit,
  eop_exit_id,
}
use lambda_moo_plus_foo.CodeGen.State.{
  Fixup, Bytecodes, GState, Loop, State, less_by, init_gstate, init_state, emit_byte, emit_op,
  emit_extended_byte, add_fork, add_var_ref, add_linked_label, add_label, add_known_label,
  capture_label, add_stack_ref, push_stack, pop_stack, enter_loop, exit_loop, emit_var_op,
  define_label,
}
use lambda_moo_plus_foo.CodeGen.Expr.{
  first_label, other_labels, generate_codes, generate_expr, generate_arg_list,
}
use lambda_moo_plus_foo.CodeGen.Vector.{finish}

-- `loop.id == exit`, and the search for it from the innermost loop outwards.
abbrev pub is_loop : ℕ → Option ℕ → Bool
is_loop n none = false
is_loop n (some m) = m == n

unfoldable pub find_loop : ℕ → List Loop → Option ℕ
find_loop n [] = none
find_loop n (l ∷ ls) =
    let rest = find_loop n ls in if is_loop n l.id then some 0 else (rest >>= λ i. some (suc i))

abbrev pub fork_op : Option ℕ → Opcode
fork_op none = op_fork
fork_op (some n) = op_fork_with_id

module _ {F : Type 0} where
  -- The loop that a `break` or a `continue` leaves: the innermost one, or the one it names.
  unfoldable pub emit_exit : Option ℕ → State F → Option (ℕ × State F)
  unfolding emit_extended_byte emit_byte find_loop add_var_ref
  emit_exit none s = some (0, emit_extended_byte eop_exit s)
  emit_exit (some n) s = do
    i ← find_loop n s.loops
    some (i, add_var_ref n (emit_extended_byte eop_exit_id s))

  unfoldable pub generate_continue : Option ℕ → State F → Option (State F)
  unfolding emit_exit
  generate_continue name s = do
    (i, s₁) ← emit_exit name s
    l ← get_elem? s₁.loops i
    some (add_known_label l.top_label (add_stack_ref l.top_stack s₁)).1

  unfoldable pub generate_break : Option ℕ → State F → Option (State F)
  unfolding emit_exit add_linked_label
  generate_break name s = do
    (i, s₁) ← emit_exit name s
    l ← get_elem? s₁.loops i
    let (label, s₂) = add_linked_label l.bottom_label (add_stack_ref l.bottom_stack s₁)
    some (record s₂ { loops = set s₂.loops i (record l { bottom_label = some label }) })

  -- The end of a loop: back to its top, and the label of its end.
  unfoldable pub end_loop : Fixup → State F → Option (State F)
  end_loop top s = do
    (end_label, s₁) ← exit_loop s
    some (define_label end_label (add_known_label top (emit_op op_jump s₁)).1)

  abbrev pub emit_while : Option ℕ → State F → State F
  emit_while none s = emit_op op_while s
  emit_while (some n) s = add_var_ref n (emit_extended_byte eop_while_id s)

  -- `if (id >= 0)`.
  abbrev pub when_named : Option ℕ → (ℕ → State F → State F) → State F → State F
  when_named none f s = s
  when_named (some n) f s = f n s

  unfoldable pub generate_fork :
      Option ℕ → Option (Bytecodes × GState F) → State F → Option (State F)
  generate_fork name body s = do
    (b, g) ← body
    some (pop_stack 1 (when_named name add_var_ref (add_fork b (record s { gstate = g }))))

  -- `if (ex->next)`: a jump over the arms that follow.
  abbrev pub jump_over : Excepts F → Option ℕ → State F → Option ℕ × State F
  jump_over no_excepts end_label s = (end_label, s)
  jump_over (except name codes body more) end_label s =
      let (l, t) = add_linked_label end_label (emit_op op_jump s) in (some l, t)

module _ {F : Type 0} (fl : FloatEq F) where
  -- The loop that pushes the codes and the handlers of the arms, with their labels.
  unfoldable pub push_handlers : Excepts F → State F → Option (List ℕ × State F)
  unfolding generate_expr generate_codes emit_extended_byte emit_byte add_label
  push_handlers no_excepts s = some ([], s)
  push_handlers (except name codes body more) s = do
    s₁ ← generate_codes codes (generate_arg_list fl codes) s
    let (l, s₂) = add_label (emit_extended_byte eop_push_label s₁)
    (ls, s₃) ← push_handlers more (push_stack 1 s₂)
    some (l ∷ ls, s₃)

  unfoldable mutual
    unfolding emit_byte emit_extended_byte add_label add_linked_label capture_label generate_expr

    pub generate_stmt : Stmts F → State F → Option (State F)
    generate_stmt no_stmts s = some s
    generate_stmt (stmt_cond arms otherwise more) s = do
      (end_label, s₁) ← generate_arms arms op_if none s
      s₂ ← generate_stmt otherwise s₁
      generate_stmt more (define_label end_label s₂)
    generate_stmt (stmt_list n e body more) s = do
      s₁ ← generate_expr fl e s
      let s₂ = push_stack 1 (emit_byte (optim_num_to_opcode 1) s₁)
      let top = capture_label s₂
      let (end_label, s₃) = add_label (add_var_ref n (emit_op op_for_list s₂))
      s₄ ←
          generate_stmt body
            (enter_loop (some n) top s₃.cur_stack (some end_label) (less_by s₃.cur_stack 2) s₃)
      s₅ ← end_loop top s₄
      generate_stmt more (pop_stack 2 s₅)
    generate_stmt (stmt_range n from to body more) s = do
      s₁ ← generate_expr fl from s
      s₂ ← generate_expr fl to s₁
      let top = capture_label s₂
      let (end_label, s₃) = add_label (add_var_ref n (emit_op op_for_range s₂))
      s₄ ←
          generate_stmt body
            (enter_loop (some n) top s₃.cur_stack (some end_label) (less_by s₃.cur_stack 2) s₃)
      s₅ ← end_loop top s₄
      generate_stmt more (pop_stack 2 s₅)
    generate_stmt (stmt_while name condition body more) s = do
      let top = capture_label s
      s₁ ← generate_expr fl condition s
      let (end_label, s₂) = add_label (emit_while name s₁)
      let s₃ = pop_stack 1 s₂
      s₄ ← generate_stmt body (enter_loop name top s₃.cur_stack (some end_label) s₃.cur_stack s₃)
      s₅ ← end_loop top s₄
      generate_stmt more s₅
    generate_stmt (stmt_fork name time body more) s = do
      s₁ ← generate_expr fl time s
      let s₂ = emit_op (fork_op name) s₁
      let vector = generate_stmt body (init_state s₂.gstate) >>= finish
      s₃ ← generate_fork name vector s₂
      generate_stmt more s₃
    generate_stmt (stmt_expr e more) s = do
      s₁ ← generate_expr fl e s
      generate_stmt more (pop_stack 1 (emit_op op_pop s₁))
    generate_stmt (stmt_return absent more) s = generate_stmt more (emit_op op_return0 s)
    generate_stmt (stmt_return (present e) more) s = do
      s₁ ← generate_expr fl e s
      generate_stmt more (pop_stack 1 (emit_op op_return s₁))
    generate_stmt (stmt_try_except body excepts more) s = do
      (labels, s₁) ← push_handlers excepts s
      let arm_count = length labels
      let s₂ = emit_byte arm_count (emit_extended_byte eop_try_except s₁)
      s₃ ← generate_stmt body (push_stack 1 s₂)
      let (end_label, s₄) = add_label (emit_extended_byte eop_end_except s₃)
      let s₅ = pop_stack (2 * arm_count + 1) s₄
      (last_label, s₆) ← generate_excepts excepts labels (some end_label) s₅
      generate_stmt more (define_label last_label s₆)
    generate_stmt (stmt_try_finally body handler more) s = do
      let (handler_label, s₁) = add_label (emit_extended_byte eop_try_finally s)
      s₂ ← generate_stmt body (push_stack 1 s₁)
      let s₃ = pop_stack 1 (emit_extended_byte eop_end_finally s₂)
      s₄ ← generate_stmt handler (push_stack 2 (define_label (some handler_label) s₃))
      generate_stmt more (pop_stack 2 (emit_extended_byte eop_continue s₄))
    generate_stmt (stmt_break name more) s = do s₁ ← generate_break name s; generate_stmt more s₁
    generate_stmt (stmt_continue name more) s = do
      s₁ ← generate_continue name s
      generate_stmt more s₁

    -- The arms of a conditional, with the chain of jumps to its end.
    pub generate_arms : Arms F → Opcode → Option ℕ → State F → Option (Option ℕ × State F)
    generate_arms no_arms if_op end_label s = some (end_label, s)
    generate_arms (arm condition body more) if_op end_label s = do
      s₁ ← generate_expr fl condition s
      let (else_label, s₂) = add_label (emit_op if_op s₁)
      s₃ ← generate_stmt body (pop_stack 1 s₂)
      let (l, s₄) = add_linked_label end_label (emit_op op_jump s₃)
      generate_arms more op_eif (some l) (define_label (some else_label) s₄)

    pub generate_excepts : Excepts F → List ℕ → Option ℕ → State F → Option (Option ℕ × State F)
    generate_excepts no_excepts labels end_label s = some (end_label, s)
    generate_excepts (except name codes body more) labels end_label s = do
      let s₁ = push_stack 1 (define_label (first_label labels) s)
      s₂ ←
          generate_stmt body
            (pop_stack 1 (emit_op op_pop (when_named name (emit_var_op op_put) s₁)))
      let (next_label, s₃) = jump_over more end_label s₂
      generate_excepts more (other_labels labels) next_label s₃

  unfoldable pub stmt_to_code : Stmts F → GState F → Option (Bytecodes × GState F)
  unfolding generate_stmt finish init_state
  stmt_to_code body g = generate_stmt body (init_state g) >>= finish

-- What `generate_code` fills in of a program.
pub record Program (F : Type 0) : Type 0 where
  pub version : ℕ
  pub main_vector : Bytecodes
  pub literals : List (Var F)
  pub fork_vectors : List Bytecodes

module _ {F : Type 0} (fl : FloatEq F) where
  unfoldable pub generate_code : Stmts F → ℕ → Option (Program F)
  unfolding stmt_to_code init_gstate
  generate_code body v = do
    (b, g) ← stmt_to_code fl body init_gstate
    some (record {
      version = v;
      main_vector = b;
      literals = g.literals;
      fork_vectors = g.fork_vectors;
    })
