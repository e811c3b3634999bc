-- ===== src/CodeGen/Layout.antt =====
-- Where the code generator of src/code_gen.c leaves numbers open, and how many of each kind: the
-- counters of the state count the fixups, and the places stand in the order of the code.
mod Shapes
pub use Shapes.*
use lambda_moo_plus_foo.CodeGen.Frame.{Closed}
use lambda_moo_plus_foo.Prelude.{
  length, length-append, ℕ, ◌+◌, ◌*◌, ◌%◌, ◌^◌, ◌≡◌, refl, ap, Option, [], ◌∷◌, arith,
}
use lambda_moo_plus_foo.CodeGen.State.{
  FixupKind, Fixup, GState, State, fixup_literal, fixup_fork, fixup_label, fixup_var_ref,
  fixup_stack, init_state, emit_byte, add_known_fixup, fixup_of, add_linked_fixup, add_fixup,
  add_fork, add_var_ref, count_label, add_known_label, capture_label, add_stack_ref, aim,
  define_label, add_literal_at,
}

-- The state's counters and places. The stack references are not counted.
pub record Laid {F : Type 0} (s : State F) : Type 0 where
  pub literals : s.num_literals ≡ count_kind fixup_literal (shape s.fixups)
  pub forks : s.num_forks ≡ count_kind fixup_fork (shape s.fixups)
  pub var_refs : s.num_var_refs ≡ count_kind fixup_var_ref (shape s.fixups)
  pub labels : s.num_labels ≡ count_kind fixup_label (shape s.fixups)
  pub stacks : s.num_stacks ≡ 0
  pub places : Places 0 (shape s.fixups) (length s.bytes)

module _ {F : Type 0} where
  init_state-Laid : (g : GState F) → Laid (init_state g)
  unfolding init_state
  init_state-Laid g = record {
    literals = refl;
    forks = refl;
    var_refs = refl;
    labels = refl;
    stacks = refl;
    places = omega arith;
  }

  -- Code without a number to fill in.
  emit_byte-Laid : (b : ℕ) (s : State F) → Laid s → Laid (emit_byte b s)
  unfolding emit_byte
  emit_byte-Laid b s h = record {
    literals = h.literals;
    forks = h.forks;
    var_refs = h.var_refs;
    labels = h.labels;
    stacks = h.stacks;
    places =
        Places-≤ 0 (length s.bytes) _ (shape s.fixups) h.places
          (omega (arith, length-append s.bytes (b % 2 ^ 8 ∷ [])));
  }

  define_label-Laid : (l : Option ℕ) (s : State F) → Laid s → Laid (define_label l s)
  unfolding define_label
  define_label-Laid l s h =
      let e : shape (define_label l s).fixups ≡ shape s.fixups =
        shape-retarget (aim (capture_label s)) (length s.fixups) l s.fixups
          (aimed (capture_label s)) in
      record {
        literals = rw e h.literals;
        forks = rw e h.forks;
        var_refs = rw e h.var_refs;
        labels = rw e h.labels;
        stacks = h.stacks;
        places = rw e h.places;
      }

  -- A fixup with its counter.
  module _ (s : State F) (f : Fixup) (g : GState F) (m : ℕ) (h : Laid s) where
    abbrev with_fixup : State F
    with_fixup = (add_known_fixup f (record s { gstate = g })).1

    counts :
        (j : FixupKind)
        → count_kind j (shape with_fixup.fixups) ≡ count_kind j (shape s.fixups) + one_if j f.kind
    unfolding add_known_fixup emit_byte
    counts j = count_kind-add j s.fixups (record f { pc = length s.bytes })

    in_place : Places 0 (shape with_fixup.fixups) (length with_fixup.bytes)
    unfolding add_known_fixup emit_byte
    in_place = Places-add s.fixups s.bytes (record f { pc = length s.bytes }) _ refl h.places

    literal-Laid :
        f.kind ≡ fixup_literal
        → Laid (record with_fixup { num_literals = with_fixup.num_literals + 1; max_literal = m })
    unfolding add_known_fixup emit_byte
    literal-Laid e = record {
      literals = rw (counts fixup_literal, e) (ap (λ n. n + 1) h.literals);
      forks = rw (counts fixup_fork, e) (omega (arith, h.forks));
      var_refs = rw (counts fixup_var_ref, e) (omega (arith, h.var_refs));
      labels = rw (counts fixup_label, e) (omega (arith, h.labels));
      stacks = h.stacks;
      places = in_place;
    }

    fork-Laid :
        f.kind ≡ fixup_fork
        → Laid (record with_fixup { num_forks = with_fixup.num_forks + 1; max_fork = m })
    unfolding add_known_fixup emit_byte
    fork-Laid e = record {
      literals = rw (counts fixup_literal, e) (omega (arith, h.literals));
      forks = rw (counts fixup_fork, e) (ap (λ n. n + 1) h.forks);
      var_refs = rw (counts fixup_var_ref, e) (omega (arith, h.var_refs));
      labels = rw (counts fixup_label, e) (omega (arith, h.labels));
      stacks = h.stacks;
      places = in_place;
    }

    var_ref-Laid :
        (x : GState F)
        → f.kind ≡ fixup_var_ref
        → Laid (record with_fixup {
          num_var_refs = with_fixup.num_var_refs + 1;
          max_var_ref = m;
          gstate = x;
        })
    unfolding add_known_fixup emit_byte
    var_ref-Laid x e = record {
      literals = rw (counts fixup_literal, e) (omega (arith, h.literals));
      forks = rw (counts fixup_fork, e) (omega (arith, h.forks));
      var_refs = rw (counts fixup_var_ref, e) (ap (λ n. n + 1) h.var_refs);
      labels = rw (counts fixup_label, e) (omega (arith, h.labels));
      stacks = h.stacks;
      places = in_place;
    }

    label-Laid :
        f.kind ≡ fixup_label → Laid (record with_fixup { num_labels = with_fixup.num_labels + 1 })
    unfolding add_known_fixup emit_byte
    label-Laid e = record {
      literals = rw (counts fixup_literal, e) (omega (arith, h.literals));
      forks = rw (counts fixup_fork, e) (omega (arith, h.forks));
      var_refs = rw (counts fixup_var_ref, e) (omega (arith, h.var_refs));
      labels = rw (counts fixup_label, e) (ap (λ n. n + 1) h.labels);
      stacks = h.stacks;
      places = in_place;
    }

    stack-Laid : f.kind ≡ fixup_stack → Laid with_fixup
    unfolding add_known_fixup emit_byte
    stack-Laid e = record {
      literals = rw (counts fixup_literal, e) (omega (arith, h.literals));
      forks = rw (counts fixup_fork, e) (omega (arith, h.forks));
      var_refs = rw (counts fixup_var_ref, e) (omega (arith, h.var_refs));
      labels = rw (counts fixup_label, e) (omega (arith, h.labels));
      stacks = h.stacks;
      places = in_place;
    }

  -- Every step keeps the counters and the places.
  pub Laid-Closed : Closed (Laid {F = F})
  unfolding add_literal_at add_fork add_var_ref add_fixup add_linked_fixup add_known_label
      count_label add_stack_ref fixup_of
  Laid-Closed = record {
    on_init = init_state-Laid;
    on_byte = emit_byte-Laid;
    on_literal = λ x s i h. literal-Laid s _ _ _ h refl;
    on_fork = λ b s h. fork-Laid s _ _ _ h refl;
    on_var_ref = λ n s h. var_ref-Laid s _ s.gstate _ h _ refl;
    on_label = λ f s e h. label-Laid s f s.gstate 0 h e;
    on_stack_ref = λ i s h. stack-Laid s _ s.gstate 0 h refl;
    on_define = define_label-Laid;
    on_gstate = λ g s h. record {
      literals = h.literals;
      forks = h.forks;
      var_refs = h.var_refs;
      labels = h.labels;
      stacks = h.stacks;
      places = h.places;
    };
    on_frame = λ c m v ls s h. record {
      literals = h.literals;
      forks = h.forks;
      var_refs = h.var_refs;
      labels = h.labels;
      stacks = h.stacks;
      places = h.places;
    };
  }
