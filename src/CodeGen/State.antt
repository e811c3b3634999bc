-- ===== src/CodeGen/State.antt =====
-- The state of the code generator and what it does to it: src/code_gen.c. An array that C grows
-- is a list, and the number of its elements is the length of the list. A label that is -1, and a
-- saved stack of `UINT_MAX`, is `none`. Counts are below 2^32, since each stands for memory that
-- is allocated.
mod Records
unfoldable pub use Records.*
use lambda_moo_plus_foo.Prelude.{
  leb, ◌==◌, if◌then◌else◌, length, get_elem?, set, ◌>>=◌, ℕ, zero, suc, ◌+◌, ◌*◌, ◌%◌, ◌^◌, Bool,
  true, false, Option, none, some, List, [], ◌∷◌, ◌++◌,
}
use lambda_moo_plus_foo.Value.{
  Var, FloatEq, equality, int, obj, err, str, float, list, clear, uninit, catch, finally,
}
use lambda_moo_plus_foo.CodeGen.Opcodes.{
  num_ready_vars, Opcode, opcode, ExtendedOpcode, extended_opcode, op_extended,
}

module _ {F : Type 0} where
  unfoldable pub init_gstate : GState F
  init_gstate = record { total_var_refs = 0; literals = []; fork_vectors = [] }

  unfoldable pub init_state : GState F → State F
  init_state g = record {
    max_literal = 0;
    max_fork = 0;
    max_var_ref = 0;
    num_literals = 0;
    num_forks = 0;
    num_var_refs = 0;
    num_labels = 0;
    num_stacks = 0;
    fixups = [];
    bytes = [];
    cur_stack = 0;
    max_stack = 0;
    saved_stack = none;
    loops = [];
    gstate = g;
  }

  unfoldable pub emit_byte : ℕ → State F → State F
  emit_byte b s = record s { bytes = s.bytes ++ b % 2 ^ 8 ∷ [] }

  abbrev pub emit_op : Opcode → State F → State F
  emit_op op s = emit_byte (opcode op) s

  unfoldable pub emit_extended_byte : ExtendedOpcode → State F → State F
  emit_extended_byte op s = emit_byte (extended_opcode op) (emit_op op_extended s)

  -- The new fixup's index is the number of those before it.
  unfoldable pub add_known_fixup : Fixup → State F → ℕ × State F
  unfolding emit_byte
  add_known_fixup f s =
      let g = record f { pc = length s.bytes } in
      (length s.fixups, emit_byte 0 (record s { fixups = s.fixups ++ g ∷ [] }))

  -- The fields that `add_linked_fixup` and `capture_label` fill in.
  unfoldable pub fixup_of : FixupKind → ℕ → Option ℕ → State F → Fixup
  fixup_of k v label s = record {
    kind = k;
    pc = 0;
    value = v;
    prev_literals = s.num_literals;
    prev_forks = s.num_forks;
    prev_var_refs = s.num_var_refs;
    prev_labels = s.num_labels;
    prev_stacks = s.num_stacks;
    next = label;
  }

  unfoldable pub add_linked_fixup : FixupKind → ℕ → Option ℕ → State F → ℕ × State F
  add_linked_fixup k v label s = add_known_fixup (fixup_of k v label s) s

  unfoldable pub add_fixup : FixupKind → ℕ → State F → State F
  add_fixup k v s = (add_linked_fixup k v none s).1

  unfoldable pub add_fork : Bytecodes → State F → State F
  add_fork b s =
      let i = length s.gstate.fork_vectors in
      let g = record s.gstate { fork_vectors = s.gstate.fork_vectors ++ b ∷ [] } in
      let t = add_fixup fixup_fork i (record s { gstate = g }) in
      record t { num_forks = t.num_forks + 1; max_fork = raise t.max_fork i }

  unfoldable pub add_var_ref : ℕ → State F → State F
  add_var_ref slot s =
      let t = add_fixup fixup_var_ref slot s in
      record t {
        num_var_refs = t.num_var_refs + 1;
        max_var_ref = raise t.max_var_ref slot;
        gstate = record t.gstate { total_var_refs = t.gstate.total_var_refs + 1 };
      }

  unfoldable pub count_label : ℕ × State F → ℕ × State F
  count_label (i, s) = (i, record s { num_labels = s.num_labels + 1 })

  unfoldable pub add_linked_label : Option ℕ → State F → ℕ × State F
  unfolding count_label
  add_linked_label label s = count_label (add_linked_fixup fixup_label 0 label s)

  unfoldable pub add_label : State F → ℕ × State F
  add_label s = add_linked_label none s

  unfoldable pub add_known_label : Fixup → State F → ℕ × State F
  add_known_label f s = count_label (add_known_fixup f s)

  unfoldable pub add_pseudo_label : ℕ → State F → State F
  add_pseudo_label v s = (add_known_label (pseudo_label v) s).1

  unfoldable pub capture_label : State F → Fixup
  capture_label s = fixup_of fixup_label (length s.bytes) none s

  unfoldable pub add_stack_ref : ℕ → State F → State F
  add_stack_ref i s = add_fixup fixup_stack i s

  unfoldable pub push_stack : ℕ → State F → State F
  push_stack n s = record s {
    cur_stack = s.cur_stack + n;
    max_stack = raise s.max_stack (s.cur_stack + n);
  }

  unfoldable pub pop_stack : ℕ → State F → State F
  pop_stack n s = record s { cur_stack = less_by s.cur_stack n }

  unfoldable pub save_stack_top : State F → State F
  save_stack_top s = record s { saved_stack = below s.cur_stack }

  unfoldable pub restore_stack_top : Option ℕ → State F → State F
  restore_stack_top old s = record s { saved_stack = old }

  unfoldable pub enter_loop : Option ℕ → Fixup → ℕ → Option ℕ → ℕ → State F → State F
  enter_loop name top top_at bottom bottom_at s =
      let l : Loop = record {
        id = name;
        top_label = top;
        top_stack = top_at;
        bottom_label = bottom;
        bottom_stack = bottom_at;
      } in
      record s { loops = l ∷ s.loops }

  -- `none` where no loop has been entered.
  abbrev leave : State F → List Loop → Option (Option ℕ × State F)
  leave s [] = none
  leave s (l ∷ ls) = some (l.bottom_label, record s { loops = ls })

  unfoldable pub exit_loop : State F → Option (Option ℕ × State F)
  exit_loop s = leave s s.loops

  unfoldable pub emit_var_op : Opcode → ℕ → State F → State F
  emit_var_op op slot s =
      if leb num_ready_vars slot
      then add_var_ref slot (emit_byte (opcode op + num_ready_vars) s)
      else emit_byte (opcode op + slot) s

-- One step along the chain of a label. An index out of range ends it.
abbrev pub next_of : Option Fixup → Option ℕ
next_of none = none
next_of (some f) = f.next

abbrev pub retarget_one : (Fixup → Fixup) → ℕ → Option Fixup → List Fixup → List Fixup
retarget_one t l none fs = fs
retarget_one t l (some f) fs = set fs l (t f)

-- The walk along the chain. `fuel` counts its steps: a link goes back in the array.
unfoldable pub retarget : (Fixup → Fixup) → ℕ → Option ℕ → List Fixup → List Fixup
retarget t zero label fs = fs
retarget t (suc fuel) none fs = fs
retarget t (suc fuel) (some l) fs =
    let f = get_elem? fs l in retarget t fuel (next_of f) (retarget_one t l f fs)

-- The fields that `define_label` overwrites.
unfoldable pub aim : Fixup → Fixup → Fixup
aim here f = record here { kind = f.kind; pc = f.pc; next = f.next }

module _ {F : Type 0} where
  unfoldable pub define_label : Option ℕ → State F → State F
  define_label label s = record s {
    fixups = retarget (aim (capture_label s)) (length s.fixups) label s.fixups;
  }

-- One round of the search for a literal; `equality` may panic.
abbrev pub found_literal : Bool → Option Bool → ℕ → Option ℕ → Option ℕ
found_literal false e i rest = rest
found_literal true none i rest = none
found_literal true (some true) i rest = some i
found_literal true (some false) i rest = rest

module _ {F : Type 0} where
  -- `v.type == w.type`.
  unfoldable pub same_type : Var F → Var F → Bool
  same_type (int a) (int b) = true
  same_type (obj a) (obj b) = true
  same_type (err a) (err b) = true
  same_type (str a) (str b) = true
  same_type (float a) (float b) = true
  same_type (list a) (list b) = true
  same_type clear clear = true
  same_type uninit uninit = true
  same_type (catch a) (catch b) = true
  same_type (finally a) (finally b) = true
  same_type _ _ = false

  -- A literal with its index. `str_intern` gives a string of the same characters.
  unfoldable pub intern_literal : Var F → ℕ → GState F → GState F
  intern_literal v i g =
      if i == length g.literals then record g { literals = g.literals ++ v ∷ [] } else g

  unfoldable pub add_literal_at : Var F → State F → ℕ → State F
  add_literal_at v s i =
      let t = add_fixup fixup_literal i (record s { gstate = intern_literal v i s.gstate }) in
      record t { num_literals = t.num_literals + 1; max_literal = raise t.max_literal i }

module _ {F : Type 0} (fl : FloatEq F) where
  -- The index of a literal, or the number of literals.
  unfoldable pub find_literal : Var F → ℕ → List (Var F) → Option ℕ
  find_literal v i [] = some i
  find_literal v i (l ∷ ls) =
      found_literal (same_type v l) (equality fl true v l) i (find_literal v (i + 1) ls)

  unfoldable pub add_literal : Var F → State F → Option (State F)
  add_literal v s = do i ← find_literal v 0 s.gstate.literals; some (add_literal_at v s i)
