-- ===== src/CodeGen/Vector.antt =====
-- The finished vector: the second half of `stmt_to_code` of src/code_gen.c, and `READ_BYTES` of
-- src/execute.c, which reads its numbers. The sizes are a type of three values, so that "Can't
-- happen #2" has no case.
use lambda_moo_plus_foo.Prelude.{
  ltb, leb, ◌==◌, if◌then◌else◌, length, ℕ, ◌+◌, ◌-◌, ◌*◌, ◌/◌, ◌%◌, ◌^◌, Bool, true, false, ◌&&◌,
  Option, none, some, List, [], ◌∷◌, ◌++◌,
}
use lambda_moo_plus_foo.CodeGen.Opcodes.{Byte, op_done}
use lambda_moo_plus_foo.CodeGen.State.{
  FixupKind, Fixup, Width, width, Bytecodes, GState, State, emit_byte, emit_op, fixup_literal,
  fixup_fork, fixup_label, fixup_var_ref, fixup_stack, one, two, four,
}

unfoldable pub max_of : ℕ → ℕ → ℕ
max_of a b = if ltb b a then a else b

unfoldable pub ref_size : ℕ → Width
ref_size m = if leb m 256 then one else if leb m (256 * 256) then two else four

-- The number of bytes that a number takes beyond its placeholder.
unfoldable pub extra : Width → ℕ
unfolding width
extra w = width w - 1

unfoldable pub label_size : ℕ → ℕ → Width
label_size size num_labels =
    if leb size 256 then one else if leb (size + num_labels) (256 * 256) then two else four

-- The bytes of a number, the most significant one first.
unfoldable pub write_bytes : Width → ℕ → List Byte
write_bytes four v = v / 2 ^ 24 % 2 ^ 8 ∷ v / 2 ^ 16 % 2 ^ 8 ∷ v / 2 ^ 8 % 2 ^ 8 ∷ v % 2 ^ 8 ∷ []
write_bytes two v = v / 2 ^ 8 % 2 ^ 8 ∷ v % 2 ^ 8 ∷ []
write_bytes one v = v % 2 ^ 8 ∷ []

-- The number at the front of the bytes, and the bytes after it. `none` reads past the end.
unfoldable pub read_bytes : Width → List Byte → Option (ℕ × List Byte)
read_bytes one (a ∷ bv) = some (a, bv)
read_bytes two (a ∷ b ∷ bv) = some ((a * 2 ^ 8 + b) % 2 ^ 32, bv)
read_bytes four (a ∷ b ∷ c ∷ d ∷ bv) = some ((a * 2 ^ 24 + b * 2 ^ 16 + c * 2 ^ 8 + d) % 2 ^ 32, bv)
read_bytes w bv = none

unfoldable pub fixup_size : Bytecodes → FixupKind → Width
fixup_size bc fixup_literal = bc.numbytes_literal
fixup_size bc fixup_fork = bc.numbytes_fork
fixup_size bc fixup_var_ref = bc.numbytes_var_name
fixup_size bc fixup_stack = bc.numbytes_stack
fixup_size bc fixup_label = bc.numbytes_label

-- A label moves by what the numbers before it take. `unsigned` sums wrap around.
unfoldable pub relocate : Bytecodes → Fixup → ℕ
unfolding extra
relocate bc f =
    (f.value
      + f.prev_literals * extra bc.numbytes_literal
      + f.prev_forks * extra bc.numbytes_fork
      + f.prev_var_refs * extra bc.numbytes_var_name
      + f.prev_labels * extra bc.numbytes_label
      + f.prev_stacks * extra bc.numbytes_stack)
    % 2 ^ 32

unfoldable pub final_value : Bytecodes → Fixup → FixupKind → ℕ
unfolding relocate
final_value bc f fixup_label = relocate bc f
final_value bc f k = f.value

abbrev pub fixup_bytes : Bytecodes → Fixup → List Byte
fixup_bytes bc f = write_bytes (fixup_size bc f.kind) (final_value bc f f.kind)

-- The loop over the bytes from the index `i` on: at a fixup's place, the number goes in.
unfoldable pub fill : Bytecodes → List Fixup → ℕ → List Byte → List Byte
unfolding write_bytes fixup_size final_value
fill bc fs i [] = []
fill bc [] i (b ∷ bs) = b ∷ fill bc [] (i + 1) bs
fill bc (f ∷ fs) i (b ∷ bs) =
    let here = f.pc == i in
    (if here then fixup_bytes bc f else b ∷ []) ++ fill bc (if here then fs else f ∷ fs) (i + 1) bs

abbrev no_saved : Option ℕ → Bool
no_saved none = true
no_saved (some n) = false

module _ {F : Type 0} where
  -- `bc.size` before the labels are counted in.
  unfoldable pub size_without_labels : State F → Width → Width → Width → ℕ
  unfolding extra
  size_without_labels s literal fork var_name =
      length s.bytes
      + extra literal * s.num_literals
      + extra fork * s.num_forks
      + extra var_name * s.num_var_refs

  -- Every field of the vector but the bytes.
  unfoldable pub measure : State F → Bytecodes
  unfolding max_of ref_size extra label_size size_without_labels
  measure s =
      let literal = ref_size (max_of s.max_literal (length s.gstate.literals)) in
      let fork = ref_size (max_of s.max_fork (length s.gstate.fork_vectors)) in
      let var_name = ref_size (max_of s.max_var_ref s.gstate.total_var_refs) in
      let size = size_without_labels s literal fork var_name in
      let label = label_size size s.num_labels in
      record {
        numbytes_label = label;
        numbytes_literal = literal;
        numbytes_fork = fork;
        numbytes_var_name = var_name;
        numbytes_stack = ref_size s.max_stack;
        vector = [];
        size = size + extra label * s.num_labels;
        max_stack = s.max_stack;
      }

  unfoldable pub assemble : State F → Bytecodes
  unfolding measure fill
  assemble s = record (measure s) { vector = fill (measure s) s.fixups 0 s.bytes }

  -- The checks at the end of a body; `none` is the call of `server_panic`.
  unfoldable pub finish : State F → Option (Bytecodes × GState F)
  unfolding emit_byte assemble
  finish s =
      let t = emit_op op_done s in
      if (t.cur_stack == 0) && no_saved t.saved_stack then some (assemble t, t.gstate) else none
