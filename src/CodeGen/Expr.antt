-- ===== src/CodeGen/Expr.antt =====
-- The code of expressions: `generate_expr` of src/code_gen.c. `none` is the call of
-- `server_panic`.
use lambda_moo_plus_foo.Prelude.{
  if◌then◌else◌, ◌>>=◌, ℕ, ◌+◌, Bool, true, false, Option, none, some, List, [], ◌∷◌,
}
use lambda_moo_plus_foo.Value.{Var, FloatEq, int}
use lambda_moo_plus_foo.Ast.{
  ArgKind, Binary, Expr, Maybe, Args, Scatters, arg_normal, arg_splice, scat_required,
  scat_optional, scat_rest, expr_plus, expr_minus, expr_times, expr_divide, expr_mod, expr_eq,
  expr_ne, expr_lt, expr_le, expr_gt, expr_ge, expr_in, expr_var, expr_id, expr_prop, expr_index,
  expr_verb, expr_range, expr_asgn, expr_call, expr_binary, expr_exp, expr_and, expr_or,
  expr_negate, expr_not, expr_list, expr_cond, expr_catch, expr_length, expr_scatter, absent,
  present, no_args, arg, no_scatters, scatter,
}
use lambda_moo_plus_foo.CodeGen.Opcodes.{
  Opcode, optim_num_to_opcode, in_optim_num_range, op_indexset, op_push_get_prop, op_get_prop,
  op_call_verb, op_put_prop, op_bi_func_call, op_if_ques, op_ref, op_range_ref,
  op_make_singleton_list, op_check_list_for_splice, op_mult, op_div, op_mod, op_add, op_minus,
  op_eq, op_ne, op_lt, op_le, op_gt, op_ge, op_in, op_and, op_or, op_unary_minus, op_not, op_put,
  op_push, op_imm, op_make_empty_list, op_list_add_tail, op_list_append, op_push_ref, op_put_temp,
  op_push_temp, op_jump, op_pop, eop_rangeset, eop_length, eop_push_label, eop_end_catch, eop_catch,
  eop_scatter, eop_exp,
}
use lambda_moo_plus_foo.CodeGen.State.{
  State, emit_byte, emit_op, emit_extended_byte, add_var_ref, add_label, add_pseudo_label,
  add_stack_ref, push_stack, pop_stack, save_stack_top, restore_stack_top, emit_var_op,
  define_label, add_literal,
}

unfoldable pub binary_op : Binary → Opcode
binary_op expr_eq = op_eq
binary_op expr_ne = op_ne
binary_op expr_ge = op_ge
binary_op expr_gt = op_gt
binary_op expr_le = op_le
binary_op expr_lt = op_lt
binary_op expr_in = op_in
binary_op expr_plus = op_add
binary_op expr_minus = op_minus
binary_op expr_times = op_mult
binary_op expr_divide = op_div
binary_op expr_mod = op_mod

abbrev pub arg_op : ArgKind → Opcode → Opcode → Opcode
arg_op arg_normal normal_op splice_op = normal_op
arg_op arg_splice normal_op splice_op = splice_op

-- The first loop over a scatter's items: `nargs`, `nreq` and `rest`, which is `none` for -1.
pub record Tally : Type 0 where
  pub nargs : ℕ
  pub nreq : ℕ
  pub rest : Option ℕ

unfoldable pub tally : {F : Type 0} → Scatters F → Tally → Tally
tally no_scatters t = t
tally (scatter scat_required n e more) t =
    tally more (record t { nargs = t.nargs + 1; nreq = t.nreq + 1 })
tally (scatter scat_optional n e more) t = tally more (record t { nargs = t.nargs + 1 })
tally (scatter scat_rest n e more) t =
    tally more (record t { nargs = t.nargs + 1; rest = some (t.nargs + 1) })

-- `rest`, or `nargs + 1`.
abbrev pub rest_or_end : Tally → ℕ
rest_or_end t = elim t.rest [ none ↦ t.nargs + 1 | some r ↦ r ]

-- `sc->label`, read in the order in which the labels were written.
abbrev pub first_label : List ℕ → Option ℕ
first_label [] = none
first_label (l ∷ ls) = some l

abbrev pub other_labels : List ℕ → List ℕ
other_labels [] = []
other_labels (l ∷ ls) = ls

module _ {F : Type 0} where
  -- The second loop: a variable and a label for each item. The labels of the defaults are kept.
  abbrev pub with_label : ℕ → List ℕ × State F → List ℕ × State F
  with_label l (ls, s) = (l ∷ ls, s)

  unfoldable pub add_scatter_labels : Scatters F → State F → List ℕ × State F
  add_scatter_labels no_scatters s = ([], s)
  add_scatter_labels (scatter scat_optional n (present e) more) s =
      let (l, t) = add_label (add_var_ref n s) in with_label l (add_scatter_labels more t)
  add_scatter_labels (scatter scat_optional n absent more) s =
      add_scatter_labels more (add_pseudo_label 1 (add_var_ref n s))
  add_scatter_labels (scatter scat_required n e more) s =
      add_scatter_labels more (add_pseudo_label 0 (add_var_ref n s))
  add_scatter_labels (scatter scat_rest n e more) s =
      add_scatter_labels more (add_pseudo_label 0 (add_var_ref n s))

  unfoldable pub generate_scatter : Scatters F → State F → (List ℕ × ℕ) × State F
  unfolding emit_extended_byte emit_byte add_scatter_labels add_label
  generate_scatter sc s =
      let t = tally sc (record { nargs = 0; nreq = 0; rest = none }) in
      let head =
        emit_byte (rest_or_end t)
          (emit_byte t.nreq (emit_byte t.nargs (emit_extended_byte eop_scatter s))) in
      let (labels, s₁) = add_scatter_labels sc head in
      let (done, s₂) = add_label s₁ in ((labels, done), s₂)

  -- The loop that stores into an lvalue, from the outside in.
  abbrev pub after_store : Bool → State F → State F
  after_store false s = s
  after_store true s = emit_op op_push_temp (emit_op op_pop s)

  unfoldable pub store : Expr F → Bool → State F → Option (State F)
  store (expr_range base from to) is_indexed s =
      store base true (pop_stack 3 (emit_extended_byte eop_rangeset s))
  store (expr_index lhs rhs) is_indexed s = store lhs true (pop_stack 2 (emit_op op_indexset s))
  store (expr_id n) is_indexed s = some (after_store is_indexed (emit_var_op op_put n s))
  store (expr_prop lhs rhs) is_indexed s =
      some (after_store is_indexed (pop_stack 2 (emit_op op_put_prop s)))
  store _ is_indexed s = none

  unfoldable pub put_temp : Expr F → State F → State F
  put_temp (expr_range base from to) s = emit_op op_put_temp s
  put_temp (expr_index lhs rhs) s = emit_op op_put_temp s
  put_temp _ s = s

  -- `if (indexed_above)`: the value is needed as well.
  abbrev pub when_indexed : Bool → (State F → State F) → State F → State F
  when_indexed false f s = s
  when_indexed true f s = push_stack 1 (f s)

  -- `generate_codes`, with the call of `generate_arg_list`.
  unfoldable pub generate_codes : Args F → (State F → Option (State F)) → State F → Option (State F)
  generate_codes no_args arg_list s = some (push_stack 1 (emit_byte (optim_num_to_opcode 0) s))
  generate_codes (arg k e more) arg_list s = arg_list s

  -- `$`: the place of the value that is indexed.
  unfoldable pub generate_length : Option ℕ → State F → Option (State F)
  generate_length none s = none
  generate_length (some saved) s =
      some (push_stack 1 (add_stack_ref saved (emit_extended_byte eop_length s)))

module _ {F : Type 0} (fl : FloatEq F) where
  abbrev pub imm : Var F → State F → Option (State F)
  imm v s = do s₁ ← add_literal fl v (emit_op op_imm s); some (push_stack 1 s₁)

  unfoldable pub generate_var : Var F → State F → Option (State F)
  generate_var (int n) s =
      if in_optim_num_range n
      then some (push_stack 1 (emit_byte (optim_num_to_opcode n) s))
      else imm (int n) s
  generate_var v s = imm v s

  unfoldable mutual
    unfolding emit_byte emit_extended_byte add_label generate_scatter

    pub generate_expr : Expr F → State F → Option (State F)
    generate_expr (expr_var v) s = generate_var v s
    generate_expr (expr_id n) s = some (push_stack 1 (emit_var_op op_push n s))
    generate_expr (expr_and lhs rhs) s = do
      s₁ ← generate_expr lhs s
      let (end_label, s₂) = add_label (emit_op op_and s₁)
      s₃ ← generate_expr rhs (pop_stack 1 s₂)
      some (define_label (some end_label) s₃)
    generate_expr (expr_or lhs rhs) s = do
      s₁ ← generate_expr lhs s
      let (end_label, s₂) = add_label (emit_op op_or s₁)
      s₃ ← generate_expr rhs (pop_stack 1 s₂)
      some (define_label (some end_label) s₃)
    generate_expr (expr_negate e) s = do s₁ ← generate_expr e s; some (emit_op op_unary_minus s₁)
    generate_expr (expr_not e) s = do s₁ ← generate_expr e s; some (emit_op op_not s₁)
    generate_expr (expr_binary b lhs rhs) s = do
      s₁ ← generate_expr lhs s
      s₂ ← generate_expr rhs s₁
      some (pop_stack 1 (emit_op (binary_op b) s₂))
    generate_expr (expr_prop lhs rhs) s = do
      s₁ ← generate_expr lhs s
      s₂ ← generate_expr rhs s₁
      some (pop_stack 1 (emit_op op_get_prop s₂))
    generate_expr (expr_exp lhs rhs) s = do
      s₁ ← generate_expr lhs s
      s₂ ← generate_expr rhs s₁
      some (pop_stack 1 (emit_extended_byte eop_exp s₂))
    generate_expr (expr_index lhs rhs) s = do
      s₁ ← generate_expr lhs s
      s₂ ← generate_expr rhs (save_stack_top s₁)
      some (pop_stack 1 (emit_op op_ref (restore_stack_top s₁.saved_stack s₂)))
    generate_expr (expr_range base from to) s = do
      s₁ ← generate_expr base s
      s₂ ← generate_expr from (save_stack_top s₁)
      s₃ ← generate_expr to s₂
      some (pop_stack 2 (emit_op op_range_ref (restore_stack_top s₁.saved_stack s₃)))
    generate_expr expr_length s = generate_length s.saved_stack s
    generate_expr (expr_list args) s = generate_arg_list args s
    generate_expr (expr_call func args) s = do
      s₁ ← generate_arg_list args s
      some (emit_byte func (emit_op op_bi_func_call s₁))
    generate_expr (expr_verb object verb args) s = do
      s₁ ← generate_expr object s
      s₂ ← generate_expr verb s₁
      s₃ ← generate_arg_list args s₂
      some (pop_stack 2 (emit_op op_call_verb s₃))
    generate_expr (expr_cond condition consequent alternate) s = do
      s₁ ← generate_expr condition s
      let (else_label, s₂) = add_label (emit_op op_if_ques s₁)
      s₃ ← generate_expr consequent (pop_stack 1 s₂)
      let (end_label, s₄) = add_label (emit_op op_jump s₃)
      s₅ ← generate_expr alternate (define_label (some else_label) (pop_stack 1 s₄))
      some (define_label (some end_label) s₅)
    generate_expr (expr_asgn (expr_scatter sc) rhs) s = do
      s₁ ← generate_expr rhs s
      let ((labels, done), s₂) = generate_scatter sc s₁
      s₃ ← generate_defaults sc labels s₂
      some (define_label (some done) s₃)
    generate_expr (expr_asgn e rhs) s = do
      s₁ ← push_lvalue e false s
      s₂ ← generate_expr rhs s₁
      store e false (put_temp e s₂)
    generate_expr (expr_catch e codes handler) s = do
      s₁ ← generate_codes codes (generate_arg_list codes) s
      let (handler_label, s₂) = add_label (emit_extended_byte eop_push_label s₁)
      let s₃ = emit_extended_byte eop_catch (push_stack 1 s₂)
      s₄ ← generate_expr e (push_stack 1 s₃)
      let (end_label, s₅) = add_label (emit_extended_byte eop_end_catch s₄)
      s₆ ← generate_handler handler (define_label (some handler_label) (pop_stack 3 s₅))
      some (define_label (some end_label) s₆)
    generate_expr (expr_scatter sc) s = none

    -- What stands after the label of a handler.
    pub generate_handler : Maybe F → State F → Option (State F)
    generate_handler absent s = some (emit_op op_ref (emit_byte (optim_num_to_opcode 1) s))
    generate_handler (present e) s = generate_expr e (pop_stack 1 (emit_op op_pop s))

    pub generate_arg_list : Args F → State F → Option (State F)
    generate_arg_list no_args s = some (push_stack 1 (emit_op op_make_empty_list s))
    generate_arg_list (arg k e more) s = do
      s₁ ← generate_expr e s
      generate_more_args more
          (pop_stack 0 (emit_op (arg_op k op_make_singleton_list op_check_list_for_splice) s₁))

    -- The rounds after the first one.
    pub generate_more_args : Args F → State F → Option (State F)
    generate_more_args no_args s = some s
    generate_more_args (arg k e more) s = do
      s₁ ← generate_expr e s
      generate_more_args more (pop_stack 1 (emit_op (arg_op k op_list_add_tail op_list_append) s₁))

    -- The code of the defaults of a scatter's optional items.
    pub generate_defaults : Scatters F → List ℕ → State F → Option (State F)
    generate_defaults no_scatters labels s = some s
    generate_defaults (scatter scat_optional n (present e) more) labels s = do
      s₁ ← generate_expr e (define_label (first_label labels) s)
      generate_defaults more (other_labels labels)
          (pop_stack 1 (emit_op op_pop (emit_var_op op_put n s₁)))
    generate_defaults (scatter scat_optional n absent more) labels s =
        generate_defaults more labels s
    generate_defaults (scatter scat_required n e more) labels s = generate_defaults more labels s
    generate_defaults (scatter scat_rest n e more) labels s = generate_defaults more labels s

    pub push_lvalue : Expr F → Bool → State F → Option (State F)
    push_lvalue (expr_range base from to) indexed_above s = do
      s₁ ← push_lvalue base true s
      s₂ ← generate_expr from (save_stack_top s₁)
      s₃ ← generate_expr to s₂
      some (restore_stack_top s₁.saved_stack s₃)
    push_lvalue (expr_index lhs rhs) indexed_above s = do
      s₁ ← push_lvalue lhs true s
      s₂ ← generate_expr rhs (save_stack_top s₁)
      some (when_indexed indexed_above (emit_op op_push_ref) (restore_stack_top s₁.saved_stack s₂))
    push_lvalue (expr_id n) indexed_above s =
        some (when_indexed indexed_above (emit_var_op op_push n) s)
    push_lvalue (expr_prop lhs rhs) indexed_above s = do
      s₁ ← generate_expr lhs s
      s₂ ← generate_expr rhs s₁
      some (when_indexed indexed_above (emit_op op_push_get_prop) s₂)
    push_lvalue _ indexed_above s = none
