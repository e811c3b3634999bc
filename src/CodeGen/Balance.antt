-- ===== src/CodeGen/Balance.antt =====
-- `generate_expr` of src/code_gen.c and the functions it calls: no panic, and a balanced stack.
use lambda_moo_plus_foo.Prelude.{ℕ, suc, Bool, true, false, Option, List}
use lambda_moo_plus_foo.Value.{FloatEq}
use lambda_moo_plus_foo.Ast.{
  Expr, Maybe, Args, Scatters, scat_required, scat_optional, scat_rest, expr_var, expr_id,
  expr_prop, expr_index, expr_verb, expr_range, expr_asgn, expr_call, expr_binary, expr_exp,
  expr_and, expr_or, expr_negate, expr_not, expr_list, expr_cond, expr_catch, expr_length,
  expr_scatter, absent, present, no_args, arg, no_scatters, scatter,
}
use lambda_moo_plus_foo.CodeGen.State.{State}
use lambda_moo_plus_foo.CodeGen.Expr.{
  generate_codes, generate_expr, generate_handler, generate_arg_list, generate_more_args,
  generate_defaults, push_lvalue,
}
use lambda_moo_plus_foo.CodeGen.Formed.{IsExpr, IsMaybe, AreArgs, AreScatters, IsLvalue, IsBase}
use lambda_moo_plus_foo.CodeGen.Frame.{
  Closed, grown, At, Runs, done, chain, emitted, defined, pushed, popped, saving, restored,
  extended, labelled, var_op,
}
use lambda_moo_plus_foo.CodeGen.Exprs.{
  Covers, generate_var-Runs, depth, above, when_indexed-At, put_temp-At, store-Runs,
  generate_scatter-At, generate_length-Runs,
}

module _ {F : Type 0} (fl : FloatEq F) {P : State F → Type 0} (law : Closed P)
    {ids : List (Option ℕ)} where
  pub generate_codes-Runs :
      (d : Bool) (codes : Args F) {v : Option ℕ} {c : ℕ} {s : State F}
      → Runs P v ids (suc c) (generate_arg_list fl codes s)
      → At P v ids c s
      → Runs P v ids (suc c) (generate_codes codes (generate_arg_list fl codes) s)
  unfolding generate_codes
  generate_codes-Runs d no_args r h = done (pushed law 1 (emitted law _ h))
  generate_codes-Runs d (arg k e more) r h = r

  mutual
    unfolding generate_expr depth

    pub expr-Runs :
        (e : Expr F) (d : Bool) {v : Option ℕ} {c : ℕ} {s : State F}
        → IsExpr d e
        → Covers d v
        → At P v ids c s
        → Runs P v ids (suc c) (generate_expr fl e s)
    expr-Runs (expr_var x) d w k h = generate_var-Runs fl law x w h
    expr-Runs (expr_id n) d w k h = done (pushed law 1 (var_op law _ _ h))
    expr-Runs (expr_and l r) d w k h = chain (expr-Runs l d w.0 k h) λ t ht.
        chain (expr-Runs r d w.1 k (popped law 1 (labelled law (emitted law _ ht))))
          λ u hu. done (defined law _ hu)
    expr-Runs (expr_or l r) d w k h = chain (expr-Runs l d w.0 k h) λ t ht.
        chain (expr-Runs r d w.1 k (popped law 1 (labelled law (emitted law _ ht))))
          λ u hu. done (defined law _ hu)
    expr-Runs (expr_negate e) d w k h = chain (expr-Runs e d w k h) λ t ht. done (emitted law _ ht)
    expr-Runs (expr_not e) d w k h = chain (expr-Runs e d w k h) λ t ht. done (emitted law _ ht)
    expr-Runs (expr_binary b l r) d w k h =
        chain (expr-Runs l d w.0 k h)
          λ t ht. chain (expr-Runs r d w.1 k ht) λ u hu. done (popped law 1 (emitted law _ hu))
    expr-Runs (expr_prop l r) d w k h =
        chain (expr-Runs l d w.0 k h)
          λ t ht. chain (expr-Runs r d w.1 k ht) λ u hu. done (popped law 1 (emitted law _ hu))
    expr-Runs (expr_exp l r) d w k h =
        chain (expr-Runs l d w.0 k h)
          λ t ht. chain (expr-Runs r d w.1 k ht) λ u hu. done (popped law 1 (extended law _ hu))
    expr-Runs (expr_index l r) d w k h = chain (expr-Runs l d w.0 k h) λ t ht.
        chain (expr-Runs r true w.1 _ (saving law ht))
          λ u hu. done (popped law 1 (emitted law _ (restored law ht hu)))
    expr-Runs (expr_range b f t) d w k h = chain (expr-Runs b d w.0 k h) λ t₁ h₁.
        chain (expr-Runs f true w.1 _ (saving law h₁)) λ t₂ h₂.
          chain (expr-Runs t true w.2 _ h₂)
            λ t₃ h₃. done (popped law 2 (emitted law _ (restored law h₁ h₃)))
    expr-Runs expr_length d {s = s} w k h =
        generate_length-Runs law s.saved_stack (rw (h.saved, ← w) k) h
    expr-Runs (expr_list args) d w k h = args-run args d w k h
    expr-Runs (expr_call f args) d w k h =
        chain (args-run args d w k h) λ t ht. done (emitted law _ (emitted law _ ht))
    expr-Runs (expr_verb o x args) d w k h = chain (expr-Runs o d w.0 k h) λ t₁ h₁.
        chain (expr-Runs x d w.1 k h₁)
          λ t₂ h₂. chain (args-run args d w.2 k h₂) λ t₃ h₃. done (popped law 2 (emitted law _ h₃))
    expr-Runs (expr_cond x a b) d w k h = chain (expr-Runs x d w.0 k h) λ t₁ h₁.
        chain (expr-Runs a d w.1 k (popped law 1 (labelled law (emitted law _ h₁)))) λ t₂ h₂.
          chain
            (expr-Runs b d w.2 k (defined law _ (popped law 1 (labelled law (emitted law _ h₂)))))
            λ t₃ h₃. done (defined law _ h₃)
    expr-Runs (expr_asgn (expr_scatter sc) r) d w k h = chain (expr-Runs r d w.0 k h) λ t₁ h₁.
        chain (defaults-run sc d _ w.1 k (generate_scatter-At law sc h₁))
          λ t₂ h₂. done (defined law _ h₂)
    expr-Runs (expr_asgn l r) d w k h = chain (lvalue-Runs l d w.0 k h) λ t₁ h₁.
        chain (expr-Runs r d w.1 k h₁) λ t₂ h₂. store-Runs law d false l w.0 (put_temp-At law l h₂)
    expr-Runs (expr_catch e codes x) d w k h =
        chain (generate_codes-Runs d codes (args-run codes d w.1 k h) h) λ t₁ h₁.
          chain
            (expr-Runs e d w.0 k
              (pushed law 1 (extended law _ (pushed law 1 (labelled law (extended law _ h₁))))))
            λ t₂ h₂.
              chain
                (handler-Runs x d w.2 k
                  (defined law _ (popped law 3 (labelled law (extended law _ h₂)))))
                λ t₃ h₃. done (defined law _ h₃)
    expr-Runs (expr_scatter sc) d w k h = elim w [ ]

    handler-Runs :
        (e : Maybe F) (d : Bool) {v : Option ℕ} {c : ℕ} {s : State F}
        → IsMaybe d e
        → Covers d v
        → At P v ids (suc c) s
        → Runs P v ids (suc c) (generate_handler fl e s)
    handler-Runs absent d w k h = done (emitted law _ (emitted law _ h))
    handler-Runs (present e) d w k h = expr-Runs e d w k (popped law 1 (emitted law _ h))

    pub args-run :
        (args : Args F) (d : Bool) {v : Option ℕ} {c : ℕ} {s : State F}
        → AreArgs d args
        → Covers d v
        → At P v ids c s
        → Runs P v ids (suc c) (generate_arg_list fl args s)
    args-run no_args d w k h = done (pushed law 1 (emitted law _ h))
    args-run (arg x e more) d w k h =
        chain (expr-Runs e d w.0 k h)
          λ t ht. more_args-run more d w.1 k (popped law 0 (emitted law _ ht))

    more_args-run :
        (args : Args F) (d : Bool) {v : Option ℕ} {c : ℕ} {s : State F}
        → AreArgs d args
        → Covers d v
        → At P v ids (suc c) s
        → Runs P v ids (suc c) (generate_more_args fl args s)
    more_args-run no_args d w k h = done h
    more_args-run (arg x e more) d w k h =
        chain (expr-Runs e d w.0 k h)
          λ t ht. more_args-run more d w.1 k (popped law 1 (emitted law _ ht))

    defaults-run :
        (sc : Scatters F) (d : Bool) (ls : List ℕ) {v : Option ℕ} {c : ℕ} {s : State F}
        → AreScatters d sc
        → Covers d v
        → At P v ids c s
        → Runs P v ids c (generate_defaults fl sc ls s)
    defaults-run no_scatters d ls w k h = done h
    defaults-run (scatter scat_optional n (present e) more) d ls w k h =
        chain (expr-Runs e d w.0 k (defined law _ h))
          λ t ht. defaults-run more d _ w.1 k (popped law 1 (emitted law _ (var_op law _ _ ht)))
    defaults-run (scatter scat_optional n absent more) d ls w k h = defaults-run more d ls w.1 k h
    defaults-run (scatter scat_required n e more) d ls w k h = defaults-run more d ls w.1 k h
    defaults-run (scatter scat_rest n e more) d ls w k h = defaults-run more d ls w.1 k h

    lvalue-Runs :
        (e : Expr F) (d : Bool) {v : Option ℕ} {c : ℕ} {s : State F}
        → IsLvalue d e
        → Covers d v
        → At P v ids c s
        → Runs P v ids (grown (depth e) c) (push_lvalue fl e false s)
    lvalue-Runs (expr_range b f t) d w k h = chain (base-Runs b d true w.0 k h) λ t₁ h₁.
        chain (expr-Runs f true w.1 _ (saving law h₁))
          λ t₂ h₂. chain (expr-Runs t true w.2 _ h₂) λ t₃ h₃. done (restored law h₁ h₃)
    lvalue-Runs (expr_index l r) d w k h =
        chain (base-Runs l d true w.0 k h)
          λ t₁ h₁. chain (expr-Runs r true w.1 _ (saving law h₁)) λ t₂ h₂. done (restored law h₁ h₂)
    lvalue-Runs (expr_id n) d w k h = done h
    lvalue-Runs (expr_prop l r) d w k h =
        chain (expr-Runs l d w.0 k h) λ t₁ h₁. chain (expr-Runs r d w.1 k h₁) λ t₂ h₂. done h₂
    lvalue-Runs _ d w k h = elim w [ ]

    base-Runs :
        (e : Expr F) (d b : Bool) {v : Option ℕ} {c : ℕ} {s : State F}
        → IsBase d e
        → Covers d v
        → At P v ids c s
        → Runs P v ids (above b (grown (depth e) c)) (push_lvalue fl e b s)
    base-Runs (expr_index l r) d b w k h = chain (base-Runs l d true w.0 k h) λ t₁ h₁.
        chain (expr-Runs r true w.1 _ (saving law h₁))
          λ t₂ h₂. done (when_indexed-At law b _ (λ u hu. emitted law _ hu) (restored law h₁ h₂))
    base-Runs (expr_id n) d b w k h = done (when_indexed-At law b _ (λ u hu. var_op law _ _ hu) h)
    base-Runs (expr_prop l r) d b w k h = chain (expr-Runs l d w.0 k h) λ t₁ h₁.
        chain (expr-Runs r d w.1 k h₁)
          λ t₂ h₂. done (when_indexed-At law b _ (λ u hu. emitted law _ hu) h₂)
    base-Runs _ d b w k h = elim w [ ]
