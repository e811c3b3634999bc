-- ===== src/CodeGen/Exprs.antt =====
-- The parts of `generate_expr` of src/code_gen.c and what each does to the stack.
use lambda_moo_plus_foo.Ast.{
  Expr, Scatters, scat_required, scat_optional, scat_rest, expr_id, expr_prop, expr_index,
  expr_range, absent, present, no_scatters, scatter,
}
use lambda_moo_plus_foo.CodeGen.Frame.{
  Closed, grown, At, Runs, done, emitted, referred, literal_added, stack_referred, pushed, popped,
  extended, labelled, pseudo, var_op,
}
use lambda_moo_plus_foo.CodeGen.Opcodes.{in_optim_num_range, op_imm}
use lambda_moo_plus_foo.CodeGen.Expr.{
  add_scatter_labels, generate_scatter, after_store, store, put_temp, when_indexed, generate_length,
  imm, generate_var,
}
use lambda_moo_plus_foo.Prelude.{
  Bool-cases, ℕ, suc, ◌+◌, ◌≡◌, refl, inl, inr, Bool, true, false, Option, none, some, List, [],
  ◌∷◌,
}
use lambda_moo_plus_foo.Value.{
  Var, FloatEq, equality_flat, equality, int, obj, err, str, float, list, clear, uninit, catch,
  finally,
}
use lambda_moo_plus_foo.CodeGen.State.{
  State, emit_op, found_literal, same_type, find_literal, add_literal,
}
use lambda_moo_plus_foo.CodeGen.Formed.{IsLiteral, IsLvalue, IsBase}

-- Where `$` may occur, a stack top is saved.
abbrev pub Covers : Bool → Option ℕ → Type 0
Covers true none = ⊥
Covers true (some n) = Unit
Covers false v = Unit

module _ {F : Type 0} (fl : FloatEq F) where
  literal_equality : (x y : Var F) → IsLiteral x → (b : Bool) × (equality fl true x y ≡ some b)
  unfolding equality equality_flat
  literal_equality (int a) (int b) w = (_, refl)
  literal_equality (int a) _ w = (_, refl)
  literal_equality (obj a) (obj b) w = (_, refl)
  literal_equality (obj a) _ w = (_, refl)
  literal_equality (err a) (err b) w = (_, refl)
  literal_equality (err a) _ w = (_, refl)
  literal_equality (str a) (str b) w = (_, refl)
  literal_equality (str a) _ w = (_, refl)
  literal_equality (float a) (float b) w = (_, refl)
  literal_equality (float a) _ w = (_, refl)
  literal_equality (list a) y w = elim w [ ]
  literal_equality clear y w = elim w [ ]
  literal_equality uninit y w = elim w [ ]
  literal_equality (catch a) y w = elim w [ ]
  literal_equality (finally a) y w = elim w [ ]

  found_literal-finds :
      (t b : Bool) (i : ℕ) (rest : Option ℕ)
      → (j : ℕ) × (rest ≡ some j)
      → (j : ℕ) × (found_literal t (some b) i rest ≡ some j)
  found_literal-finds false b i rest h = h
  found_literal-finds true true i rest h = (i, refl)
  found_literal-finds true false i rest h = h

  -- The search for a literal does not panic.
  find_literal-finds :
      (x : Var F) (i : ℕ) (ls : List (Var F))
      → IsLiteral x
      → (j : ℕ) × (find_literal fl x i ls ≡ some j)
  unfolding find_literal
  find_literal-finds x i [] w = (i, refl)
  find_literal-finds x i (l ∷ ls) w =
      let (b, e) = literal_equality x l w in
      rw e (found_literal-finds (same_type x l) b i _ (find_literal-finds x (i + 1) ls w))

  module _ {P : State F → Type 0} (law : Closed P) {ids : List (Option ℕ)} where
    imm-Runs :
        {v : Option ℕ} {c : ℕ} {s : State F} (x : Var F)
        → IsLiteral x
        → At P v ids c s
        → Runs P v ids (suc c) (imm fl x s)
    unfolding add_literal
    imm-Runs {s = s} x w h =
        let t = emit_op op_imm s in
        let (j, e) = find_literal-finds x 0 t.gstate.literals w in
        rw e (done (pushed law 1 (literal_added law x j (emitted law _ h))))

    pub generate_var-Runs :
        {v : Option ℕ} {c : ℕ} {s : State F} (x : Var F)
        → IsLiteral x
        → At P v ids c s
        → Runs P v ids (suc c) (generate_var fl x s)
    unfolding generate_var
    generate_var-Runs (int n) w h = elim (Bool-cases (in_optim_num_range n)) [
      | inl e ↦ rw e (done (pushed law 1 (emitted law _ h)))
      | inr e ↦ rw e (imm-Runs (int n) w h)
    ]
    generate_var-Runs (obj o) w h = imm-Runs (obj o) w h
    generate_var-Runs (err o) w h = imm-Runs (err o) w h
    generate_var-Runs (str o) w h = imm-Runs (str o) w h
    generate_var-Runs (float o) w h = imm-Runs (float o) w h
    generate_var-Runs (list a) w h = elim w [ ]
    generate_var-Runs clear w h = elim w [ ]
    generate_var-Runs uninit w h = elim w [ ]
    generate_var-Runs (catch a) w h = elim w [ ]
    generate_var-Runs (finally a) w h = elim w [ ]

-- What `push_lvalue` leaves on the stack, without the value of the lvalue itself.
unfoldable pub depth : {F : Type 0} → Expr F → ℕ
depth (expr_range b f t) = suc (suc (suc (depth b)))
depth (expr_index l r) = suc (suc (depth l))
depth (expr_prop l r) = 2
depth _ = 0

abbrev pub above : Bool → ℕ → ℕ
above false c = c
above true c = suc c

module _ {F : Type 0} {P : State F → Type 0} (law : Closed P) {ids : List (Option ℕ)}
    {v : Option ℕ} where
  pub when_indexed-At :
      {c : ℕ} {t : State F} (b : Bool) (f : State F → State F)
      → ((u : State F) → At P v ids c u → At P v ids c (f u))
      → At P v ids c t
      → At P v ids (above b c) (when_indexed b f t)
  when_indexed-At false f k h = h
  when_indexed-At true f k h = pushed law 1 (k _ h)

  after_store-At :
      {c : ℕ} {t : State F} (b : Bool) → At P v ids c t → At P v ids c (after_store b t)
  after_store-At false h = h
  after_store-At true h = emitted law _ (emitted law _ h)

  pub put_temp-At :
      {c : ℕ} {t : State F} (e : Expr F) → At P v ids c t → At P v ids c (put_temp e t)
  unfolding put_temp
  put_temp-At (expr_range b f t) h = emitted law _ h
  put_temp-At (expr_index l r) h = emitted law _ h
  put_temp-At _ h = h

  store_base-Runs :
      (d b : Bool) (e : Expr F) {c : ℕ} {t : State F}
      → IsBase d e
      → At P v ids (suc (grown (depth e) c)) t
      → Runs P v ids (suc c) (store e b t)
  unfolding store depth
  store_base-Runs d b (expr_index l r) w h =
      store_base-Runs d true l w.0 (popped law 2 (emitted law _ h))
  store_base-Runs d b (expr_id n) w h = done (after_store-At b (var_op law _ _ h))
  store_base-Runs d b (expr_prop l r) w h = done (after_store-At b (popped law 2 (emitted law _ h)))
  store_base-Runs d b _ w h = elim w [ ]

  pub store-Runs :
      (d b : Bool) (e : Expr F) {c : ℕ} {t : State F}
      → IsLvalue d e
      → At P v ids (suc (grown (depth e) c)) t
      → Runs P v ids (suc c) (store e b t)
  unfolding store depth
  store-Runs d b (expr_range l f u) w h =
      store_base-Runs d true l w.0 (popped law 3 (extended law _ h))
  store-Runs d b (expr_index l r) w h =
      store_base-Runs d true l w.0 (popped law 2 (emitted law _ h))
  store-Runs d b (expr_id n) w h = done (after_store-At b (var_op law _ _ h))
  store-Runs d b (expr_prop l r) w h = done (after_store-At b (popped law 2 (emitted law _ h)))
  store-Runs d b _ w h = elim w [ ]

  add_scatter_labels-At :
      (sc : Scatters F) {c : ℕ} {t : State F}
      → At P v ids c t
      → At P v ids c (add_scatter_labels sc t).1
  unfolding add_scatter_labels
  add_scatter_labels-At no_scatters h = h
  add_scatter_labels-At (scatter scat_optional n (present e) more) h =
      add_scatter_labels-At more (labelled law (referred law _ h))
  add_scatter_labels-At (scatter scat_optional n absent more) h =
      add_scatter_labels-At more (pseudo law _ (referred law _ h))
  add_scatter_labels-At (scatter scat_required n e more) h =
      add_scatter_labels-At more (pseudo law _ (referred law _ h))
  add_scatter_labels-At (scatter scat_rest n e more) h =
      add_scatter_labels-At more (pseudo law _ (referred law _ h))

  pub generate_scatter-At :
      (sc : Scatters F) {c : ℕ} {t : State F}
      → At P v ids c t
      → At P v ids c (generate_scatter sc t).1
  unfolding generate_scatter
  generate_scatter-At sc h =
      labelled law (
        add_scatter_labels-At sc (emitted law _ (emitted law _ (emitted law _ (extended law _ h)))))

  pub generate_length-Runs :
      {c : ℕ} {t : State F} (w : Option ℕ)
      → Covers true w
      → At P v ids c t
      → Runs P v ids (suc c) (generate_length w t)
  unfolding generate_length
  generate_length-Runs none k h = elim k [ ]
  generate_length-Runs (some n) k h = done (pushed law 1 (stack_referred law n (extended law _ h)))
