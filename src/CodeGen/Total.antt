-- ===== src/CodeGen/Total.antt =====
-- `generate_stmt` and `stmt_to_code` of src/code_gen.c: no panic, and a balanced stack.
use lambda_moo_plus_foo.CodeGen.Loops.{
  entered, end_loop-Runs, generate_continue-Runs, generate_break-Runs,
}
use lambda_moo_plus_foo.CodeGen.Balance.{generate_codes-Runs, expr-Runs, args-run}
use lambda_moo_plus_foo.Prelude.{
  length, ◌>>=◌, ℕ, suc, ◌+◌, ◌*◌, ◌≡◌, refl, false, Option, none, some, List, [], ◌∷◌, arith,
}
use lambda_moo_plus_foo.Value.{FloatEq}
use lambda_moo_plus_foo.Ast.{
  Stmts, Arms, Excepts, absent, present, no_stmts, stmt_cond, stmt_list, stmt_range, stmt_while,
  stmt_fork, stmt_expr, stmt_return, stmt_try_except, stmt_try_finally, stmt_break, stmt_continue,
  no_arms, arm, no_excepts, except,
}
use lambda_moo_plus_foo.CodeGen.Opcodes.{
  Opcode, opcode, op_if, op_eif, op_for_list, op_for_range, op_done, eop_push_label,
}
use lambda_moo_plus_foo.CodeGen.State.{
  Bytecodes, GState, State, init_state, emit_op, emit_extended_byte, fixup_of, add_var_ref,
  add_label, capture_label, push_stack, fixup_label,
}
use lambda_moo_plus_foo.CodeGen.Stmt.{
  emit_while, when_named, generate_fork, jump_over, push_handlers, generate_stmt, generate_arms,
  generate_excepts, stmt_to_code,
}
use lambda_moo_plus_foo.CodeGen.Vector.{assemble, finish}
use lambda_moo_plus_foo.CodeGen.Formed.{AreStmts, AreArms, AreExcepts}
use lambda_moo_plus_foo.CodeGen.Frame.{
  Closed, grown, grown_lem, At, Runs, Yields, done, chain, chain_with, yield_after, cast, emitted,
  referred, fork_added, defined, regained, pushed, popped, extended, linked, labelled, var_op,
}

captured : {F : Type 0} (t : State F) → (capture_label t).kind ≡ fixup_label
unfolding capture_label fixup_of
captured t = refl

module _ {F : Type 0} {P : State F → Type 0} (law : Closed P) where
  init-At : (g : GState F) → At P none [] 0 (init_state g)
  unfolding init_state
  init-At g = record {
    height = refl;
    bounded = omega arith;
    saved = refl;
    looping = tt;
    kept = law.on_init g;
  }

  -- The end of a body: the checks pass.
  abbrev pub Ends : Option (Bytecodes × GState F) → Type 0
  Ends m = (t : State F) × (m ≡ some (assemble t, t.gstate)) × At P none [] 0 t

  finish-Ends : (t : State F) → At P none [] 0 t → Ends (finish t)
  unfolding finish
  finish-Ends t h =
      let u = emit_op op_done t in
      let k : At P none [] 0 u = emitted law _ h in (u, rw (k.height, k.saved) refl, k)

  body-Ends : (m : Option (State F)) → Runs P none [] 0 m → Ends (m >>= finish)
  body-Ends m (t, e, h) = rw e (finish-Ends t h)

  module _ {v : Option ℕ} {ids : List (Option ℕ)} {c : ℕ} {t : State F} where
    emit_while-At : (name : Option ℕ) → At P v ids c t → At P v ids c (emit_while name t)
    emit_while-At none h = emitted law _ h
    emit_while-At (some n) h = referred law _ (extended law _ h)

    when_named-At :
        (name : Option ℕ) (f : ℕ → State F → State F)
        → ((n : ℕ) → At P v ids c t → At P v ids c (f n t))
        → At P v ids c t
        → At P v ids c (when_named name f t)
    when_named-At none f k h = h
    when_named-At (some n) f k h = k n h

    jump_over-At :
        (ex : Excepts F) (l : Option ℕ) → At P v ids c t → At P v ids c (jump_over ex l t).1
    jump_over-At no_excepts l h = h
    jump_over-At (except name codes body more) l h = linked law l (emitted law _ h)

  generate_fork-Runs :
      {v : Option ℕ} {ids : List (Option ℕ)} {c : ℕ} {t : State F} (name : Option ℕ)
      (m : Option (Bytecodes × GState F))
      → Ends m
      → At P v ids (suc c) t
      → Runs P v ids c (generate_fork name m t)
  unfolding generate_fork
  generate_fork-Runs name m (u, e, k) h = rw e (
      done (
        popped law 1 (
          when_named-At name add_var_ref (λ n. referred law n)
            (fork_added law (assemble u) (regained law u.gstate h)))))

twice_suc : (n c : ℕ) → grown (2 * n) (suc (suc c)) ≡ grown (2 * suc n) c
twice_suc n c = omega (arith, grown_lem (2 * n) (suc (suc c)), grown_lem (2 * suc n) c)

suc-grown : (n c : ℕ) → suc (grown n c) ≡ grown (n + 1) c
suc-grown n c = omega (arith, grown_lem n c, grown_lem (n + 1) c)

module _ {F : Type 0} (fl : FloatEq F) {P : State F → Type 0} (law : Closed P) where
  push_handlers-yield :
      (ex : Excepts F) {v : Option ℕ} {ids : List (Option ℕ)} {c : ℕ} {s : State F}
      → AreExcepts ids ex
      → At P v ids c s
      → (ls : List ℕ) × (t : State F) × (push_handlers fl ex s ≡ some (ls, t))
        × At P v ids (grown (2 * length ls) c) t
  unfolding push_handlers
  push_handlers-yield no_excepts w h = ([], _, refl, h)
  push_handlers-yield (except name codes body more) {c = c} {s = s} w h =
      let (t, e, ht) =
        generate_codes-Runs fl law false codes (args-run fl law codes false w.0 _ h) h in
      let (l, u) = add_label (emit_extended_byte eop_push_label t) in
      let (ls, x, f, hx) =
        push_handlers-yield more {s = push_stack 1 u} w.2
          (pushed law 1 (labelled law (extended law eop_push_label ht))) in
      (l ∷ ls, x, rw (e, f) refl, cast (twice_suc (length ls) c) hx)

  mutual
    unfolding generate_stmt

    pub stmts-run :
        (b : Stmts F) {v : Option ℕ} {ids : List (Option ℕ)} {c : ℕ} {s : State F}
        → AreStmts ids b
        → At P v ids c s
        → Runs P v ids c (generate_stmt fl b s)
    stmts-run no_stmts w h = done h
    stmts-run (stmt_cond arms otherwise more) w h =
        chain_with _ (arms-yield arms op_if none w.0 h) λ l t₁ h₁.
          chain (stmts-run otherwise w.1 h₁) λ t₂ h₂. stmts-run more w.2 (defined law l h₂)
    stmts-run (stmt_list n e body more) w h = chain (expr-Runs fl law e false w.0 _ h) λ t₁ h₁.
        let h₂ =
          labelled law
            (referred law n (emitted law (opcode op_for_list) (pushed law 1 (emitted law _ h₁)))) in
        chain (stmts-run body w.1 (entered law (some n) _ _ _ _ (captured _) h₂)) λ t₃ h₃.
          chain (end_loop-Runs law (some n) _ (captured _) h₃)
            λ t₄ h₄. stmts-run more w.2 (popped law 2 h₄)
    stmts-run (stmt_range n from to body more) w h =
        chain (expr-Runs fl law from false w.0 _ h) λ t₁ h₁.
          chain (expr-Runs fl law to false w.1 _ h₁) λ t₂ h₂.
            let h₂' = labelled law (referred law n (emitted law (opcode op_for_range) h₂)) in
            chain (stmts-run body w.2 (entered law (some n) _ _ _ _ (captured _) h₂')) λ t₃ h₃.
              chain (end_loop-Runs law (some n) _ (captured _) h₃)
                λ t₄ h₄. stmts-run more w.3 (popped law 2 h₄)
    stmts-run (stmt_while name e body more) w h = chain (expr-Runs fl law e false w.0 _ h) λ t₁ h₁.
        let h₂ = popped law 1 (labelled law (emit_while-At law name h₁)) in
        chain (stmts-run body w.1 (entered law name _ _ _ _ (captured _) h₂))
          λ t₃ h₃. chain (end_loop-Runs law name _ (captured _) h₃) λ t₄ h₄. stmts-run more w.2 h₄
    stmts-run (stmt_fork name time body more) w h =
        chain (expr-Runs fl law time false w.0 _ h) λ t₁ h₁.
          chain
            (generate_fork-Runs law name _ (body-Ends law _ (stmts-run body w.1 (init-At law _)))
              (emitted law _ h₁))
            λ t₂ h₂. stmts-run more w.2 h₂
    stmts-run (stmt_expr e more) w h =
        chain (expr-Runs fl law e false w.0 _ h)
          λ t₁ h₁. stmts-run more w.1 (popped law 1 (emitted law _ h₁))
    stmts-run (stmt_return absent more) w h = stmts-run more w.1 (emitted law _ h)
    stmts-run (stmt_return (present e) more) w h =
        chain (expr-Runs fl law e false w.0 _ h)
          λ t₁ h₁. stmts-run more w.1 (popped law 1 (emitted law _ h₁))
    stmts-run (stmt_try_except body excepts more) {c = c} w h =
        let (ls, t, e, ht) = push_handlers-yield excepts w.1 h in
        rw e (
          chain (stmts-run body w.0 (pushed law 1 (emitted law _ (extended law _ ht)))) λ t₁ h₁.
            chain_with _
              (excepts-yield excepts ls _ w.1 (
                popped law (2 * length ls + 1)
                  (cast (suc-grown (2 * length ls) c) (labelled law (extended law _ h₁)))))
              λ l t₂ h₂. stmts-run more w.2 (defined law l h₂))
    stmts-run (stmt_try_finally body handler more) w h =
        chain (stmts-run body w.0 (pushed law 1 (labelled law (extended law _ h)))) λ t₁ h₁.
          chain
            (stmts-run handler w.1
              (pushed law 2 (defined law _ (popped law 1 (extended law _ h₁)))))
            λ t₂ h₂. stmts-run more w.2 (popped law 2 (extended law _ h₂))
    stmts-run (stmt_break name more) {s = s} w h =
        chain (generate_break-Runs law name s w.0 h) λ t₁ h₁. stmts-run more w.1 h₁
    stmts-run (stmt_continue name more) {s = s} w h =
        chain (generate_continue-Runs law name s w.0 h) λ t₁ h₁. stmts-run more w.1 h₁

    arms-yield :
        (arms : Arms F) (op : Opcode) (l : Option ℕ) {v : Option ℕ} {ids : List (Option ℕ)} {c : ℕ}
        {s : State F}
        → AreArms ids arms
        → At P v ids c s
        → Yields P v ids c (generate_arms fl arms op l s)
    arms-yield no_arms op l w h = (l, _, refl, h)
    arms-yield (arm e body more) op l w h = yield_after (expr-Runs fl law e false w.0 _ h) λ t₁ h₁.
        yield_after (stmts-run body w.1 (popped law 1 (labelled law (emitted law _ h₁))))
          λ t₂ h₂. arms-yield more op_eif _ w.2 (defined law _ (linked law l (emitted law _ h₂)))

    excepts-yield :
        (ex : Excepts F) (ls : List ℕ) (l : Option ℕ) {v : Option ℕ} {ids : List (Option ℕ)} {c : ℕ}
        {s : State F}
        → AreExcepts ids ex
        → At P v ids c s
        → Yields P v ids c (generate_excepts fl ex ls l s)
    excepts-yield no_excepts ls l w h = (l, _, refl, h)
    excepts-yield (except name codes body more) ls l w h =
        yield_after
          (stmts-run body w.1 (
            popped law 1 (
              emitted law _
                (when_named-At law name _ (λ n. var_op law _ n) (pushed law 1 (defined law _ h))))))
          λ t₁ h₁. excepts-yield more _ _ w.2 (jump_over-At law more l h₁)

  -- The code of a body, for any invariant that the steps keep: `stmt_to_code` does not panic, and
  -- the vector is that of a state with an empty stack in which the invariant holds.
  pub stmt_to_code-Ends :
      (b : Stmts F) (g : GState F) → AreStmts [] b → Ends law (stmt_to_code fl b g)
  unfolding stmt_to_code
  stmt_to_code-Ends b g w = body-Ends law _ (stmts-run b w (init-At law g))
