-- ===== src/CodeGen/Frame.antt =====
-- How the code generator's steps move its stack, for src/code_gen.c: `At v ids c t` says of
-- a state `t` that the stack is `c` high, within its maximum, that the saved stack is `v`, that the
-- loops are those of `ids`, and that an invariant `P` holds which every step keeps.
use lambda_moo_plus_foo.Prelude.{
  leb, Bool-cases, ◌>>=◌, ℕ, zero, suc, ◌+◌, ◌≤◌, ◌≡◌, refl, ◌∙◌, inl, inr, true, Option, none,
  some, List, [], ◌∷◌, arith,
}
use lambda_moo_plus_foo.Value.{Var}
use lambda_moo_plus_foo.CodeGen.Opcodes.{num_ready_vars, Opcode, ExtendedOpcode}
use lambda_moo_plus_foo.CodeGen.State.{
  Fixup, Bytecodes, GState, Loop, State, raise, pseudo_label, less_by, init_state, emit_byte,
  emit_extended_byte, add_known_fixup, fixup_of, add_linked_fixup, add_fixup, add_fork, add_var_ref,
  count_label, add_linked_label, add_label, add_known_label, add_pseudo_label, add_stack_ref,
  push_stack, pop_stack, save_stack_top, restore_stack_top, emit_var_op, define_label,
  add_literal_at, fixup_label,
}

-- The laws of an invariant: what the steps do to the code, the numbers left open, and the rest.
pub record Closed {F : Type 0} (P : State F → Type 0) : Type 0 where
  pub on_init : (g : GState F) → P (init_state g)
  pub on_byte : (b : ℕ) (s : State F) → P s → P (emit_byte b s)
  pub on_literal : (x : Var F) (s : State F) (i : ℕ) → P s → P (add_literal_at x s i)
  pub on_fork : (b : Bytecodes) (s : State F) → P s → P (add_fork b s)
  pub on_var_ref : (n : ℕ) (s : State F) → P s → P (add_var_ref n s)
  pub on_label : (f : Fixup) (s : State F) → f.kind ≡ fixup_label → P s → P (add_known_label f s).1
  pub on_stack_ref : (i : ℕ) (s : State F) → P s → P (add_stack_ref i s)
  pub on_define : (l : Option ℕ) (s : State F) → P s → P (define_label l s)
  pub on_gstate : (g : GState F) (s : State F) → P s → P (record s { gstate = g })
  pub on_frame :
      (c m : ℕ) (v : Option ℕ) (ls : List Loop) (s : State F)
      → P s
      → P (record s { cur_stack = c; max_stack = m; saved_stack = v; loops = ls })

-- The loops have these ids, and the top of each is a label.
abbrev pub Around : List Loop → List (Option ℕ) → Type 0
Around [] [] = Unit
Around (l ∷ ls) (i ∷ ids) = (l.id ≡ i) × (l.top_label.kind ≡ fixup_label) × Around ls ids
Around _ _ = ⊥

pub raise-≤ : (m i : ℕ) → (m ≤ raise m i) × (i ≤ raise m i)
raise-≤ m i = ground arith

-- `n + c`, which computes on `n`.
abbrev pub grown : ℕ → ℕ → ℕ
grown zero c = c
grown (suc n) c = suc (grown n c)

pub grown_lem : (n c : ℕ) → grown n c ≡ c + n
grown_lem zero c = omega arith
grown_lem (suc n) c = omega (arith, grown_lem n c)

pub less_by-add : (c n : ℕ) → less_by (c + n) n ≡ c
unfolding less_by
less_by-add c n = let e : leb n (c + n) ≡ true = ground arith in rw e (omega arith)

module _ {F : Type 0} (P : State F → Type 0) where
  pub record At (v : Option ℕ) (ids : List (Option ℕ)) (c : ℕ) (t : State F) : Type 0 where
    pub height : t.cur_stack ≡ c
    pub bounded : c ≤ t.max_stack
    pub saved : t.saved_stack ≡ v
    pub looping : Around t.loops ids
    pub kept : P t

  -- The step does not panic, and ends in such a state.
  abbrev pub Runs : Option ℕ → List (Option ℕ) → ℕ → Option (State F) → Type 0
  Runs v ids c m = (t : State F) × (m ≡ some t) × At v ids c t

  -- The same of a step that has a result as well.
  abbrev pub Yields {ℓ} :
      {A : Type ℓ} → Option ℕ → List (Option ℕ) → ℕ → Option (A × State F) → Type ℓ
  Yields {A} v ids c m = (a : A) × (t : State F) × (m ≡ some (a, t)) × At v ids c t

module _ {F : Type 0} {P : State F → Type 0} {v : Option ℕ} {ids : List (Option ℕ)} {c : ℕ} where
  pub done : {t : State F} → At P v ids c t → Runs P v ids c (some t)
  done h = (_, refl, h)

  pub chain :
      {w : Option ℕ} {js : List (Option ℕ)} {d : ℕ} {m : Option (State F)}
      {f : State F → Option (State F)}
      → Runs P w js d m
      → ((t : State F) → At P w js d t → Runs P v ids c (f t))
      → Runs P v ids c (m >>= f)
  chain (t, e, h) g = rw e (g t h)

  pub chain_with {ℓ} :
      {A : Type ℓ} {w : Option ℕ} {js : List (Option ℕ)} {d : ℕ} {m : Option (A × State F)}
      (f : A × State F → Option (State F))
      → Yields P w js d m
      → ((a : A) (t : State F) → At P w js d t → Runs P v ids c (f (a, t)))
      → Runs P v ids c (m >>= f)
  chain_with f (a, t, e, h) g = rw e (g a t h)

  pub yield_after {ℓ} :
      {A : Type ℓ} {w : Option ℕ} {js : List (Option ℕ)} {d : ℕ} {m : Option (State F)}
      {f : State F → Option (A × State F)}
      → Runs P w js d m
      → ((t : State F) → At P w js d t → Yields P v ids c (f t))
      → Yields P v ids c (m >>= f)
  yield_after (t, e, h) g = rw e (g t h)

  pub cast : {d : ℕ} {t : State F} → c ≡ d → At P v ids c t → At P v ids d t
  cast e h = rw (← e) h

module _ {F : Type 0} {P : State F → Type 0} {v : Option ℕ} {ids : List (Option ℕ)} {c : ℕ}
    {t u : State F} where
  -- A step that moves neither the stack nor the loops.
  steady :
      At P v ids c t
      → u.cur_stack ≡ t.cur_stack
      → u.max_stack ≡ t.max_stack
      → u.saved_stack ≡ t.saved_stack
      → u.loops ≡ t.loops
      → (P t → P u)
      → At P v ids c u
  steady h ec em es el f = record {
    height = ec ∙ h.height;
    bounded = rw em h.bounded;
    saved = es ∙ h.saved;
    looping = rw el h.looping;
    kept = f h.kept;
  }

module _ {F : Type 0} {P : State F → Type 0} (law : Closed P) {v : Option ℕ} {ids : List (Option ℕ)}
    {c : ℕ} {t : State F} where
  pub emitted : (b : ℕ) → At P v ids c t → At P v ids c (emit_byte b t)
  unfolding emit_byte
  emitted b h = steady h refl refl refl refl (law.on_byte _ _)

  pub referred : (n : ℕ) → At P v ids c t → At P v ids c (add_var_ref n t)
  unfolding add_var_ref add_fixup add_linked_fixup add_known_fixup emit_byte
  referred n h = steady h refl refl refl refl (law.on_var_ref _ _)

  pub literal_added : (x : Var F) (i : ℕ) → At P v ids c t → At P v ids c (add_literal_at x t i)
  unfolding add_literal_at add_fixup add_linked_fixup add_known_fixup emit_byte
  literal_added x i h = steady h refl refl refl refl (law.on_literal _ _ _)

  pub fork_added : (b : Bytecodes) → At P v ids c t → At P v ids c (add_fork b t)
  unfolding add_fork add_fixup add_linked_fixup add_known_fixup emit_byte
  fork_added b h = steady h refl refl refl refl (law.on_fork _ _)

  pub stack_referred : (i : ℕ) → At P v ids c t → At P v ids c (add_stack_ref i t)
  unfolding add_stack_ref add_fixup add_linked_fixup add_known_fixup emit_byte
  stack_referred i h = steady h refl refl refl refl (law.on_stack_ref _ _)

  pub known :
      (f : Fixup) → f.kind ≡ fixup_label → At P v ids c t → At P v ids c (add_known_label f t).1
  unfolding add_known_label count_label add_known_fixup emit_byte
  known f e h = steady h refl refl refl refl (law.on_label f _ e)

  pub defined : (l : Option ℕ) → At P v ids c t → At P v ids c (define_label l t)
  unfolding define_label
  defined l h = steady h refl refl refl refl (law.on_define _ _)

  pub regained : (g : GState F) → At P v ids c t → At P v ids c (record t { gstate = g })
  regained g h = steady h refl refl refl refl (law.on_gstate _ _)

  pub pushed : (n : ℕ) → At P v ids c t → At P v ids (grown n c) (push_stack n t)
  unfolding push_stack
  pushed n h = record {
    height = rw (h.height, grown_lem n c) refl;
    bounded = omega (arith, raise-≤ t.max_stack (t.cur_stack + n), h.height, grown_lem n c);
    saved = h.saved;
    looping = h.looping;
    kept = law.on_frame _ _ _ _ _ h.kept;
  }

  pub popped : (n : ℕ) → At P v ids (grown n c) t → At P v ids c (pop_stack n t)
  unfolding pop_stack
  popped n h = record {
    height = rw (h.height, grown_lem n c) (less_by-add c n);
    bounded = omega (arith, h.bounded, grown_lem n c);
    saved = h.saved;
    looping = h.looping;
    kept = law.on_frame _ _ _ _ _ h.kept;
  }

  pub saving : At P v ids (suc c) t → At P (some c) ids (suc c) (save_stack_top t)
  unfolding save_stack_top
  saving h = record {
    height = h.height;
    bounded = h.bounded;
    saved = rw (h.height) refl;
    looping = h.looping;
    kept = law.on_frame _ _ _ _ _ h.kept;
  }

  pub restored :
      {w : Option ℕ} {u : State F} {d : ℕ}
      → At P v ids c t
      → At P w ids d u
      → At P v ids d (restore_stack_top t.saved_stack u)
  unfolding restore_stack_top
  restored h k = record {
    height = k.height;
    bounded = k.bounded;
    saved = h.saved;
    looping = k.looping;
    kept = law.on_frame _ _ _ _ _ k.kept;
  }

module _ {F : Type 0} {P : State F → Type 0} (law : Closed P) {v : Option ℕ} {ids : List (Option ℕ)}
    {c : ℕ} {t : State F} where
  pub extended : (op : ExtendedOpcode) → At P v ids c t → At P v ids c (emit_extended_byte op t)
  unfolding emit_extended_byte
  extended op h = emitted law _ (emitted law _ h)

  pub linked : (l : Option ℕ) → At P v ids c t → At P v ids c (add_linked_label l t).1
  unfolding add_linked_label add_linked_fixup add_known_label fixup_of
  linked l h = known law (fixup_of fixup_label 0 l t) refl h

  pub labelled : At P v ids c t → At P v ids c (add_label t).1
  unfolding add_label
  labelled h = linked none h

  pub pseudo : (n : ℕ) → At P v ids c t → At P v ids c (add_pseudo_label n t)
  unfolding add_pseudo_label
  pseudo n h = known law (pseudo_label n) refl h

  pub var_op : (op : Opcode) (n : ℕ) → At P v ids c t → At P v ids c (emit_var_op op n t)
  unfolding emit_var_op
  var_op op n h = elim (Bool-cases (leb num_ready_vars n)) [
    | inl e ↦ rw e (referred law _ (emitted law _ h))
    | inr e ↦ rw e (emitted law _ h)
  ]
