-- ===== src/CodeGen/Filled.antt =====
-- The vector that `stmt_to_code` of src/code_gen.c fills: how long it gets, and where a label in
-- it leads.
use lambda_moo_plus_foo.Prelude.{
  ◌==◌, Bool-cases, length, length-append, ℕ, suc, ◌+◌, ◌*◌, ◌≤◌, ◌≡◌, refl, inl, inr, true, false,
  List, [], ◌∷◌, ◌++◌, arith,
}
use lambda_moo_plus_foo.CodeGen.Opcodes.{Byte}
use lambda_moo_plus_foo.CodeGen.State.{
  Fixup, Width, width, Bytecodes, State, fixup_literal, fixup_fork, fixup_label, fixup_var_ref,
  fixup_stack, one, two, four,
}
use lambda_moo_plus_foo.CodeGen.Vector.{
  extra, write_bytes, fixup_size, final_value, fixup_bytes, fill, size_without_labels, measure,
  assemble,
}
use lambda_moo_plus_foo.CodeGen.Layout.{Shape, shape, count_kind, Places, Laid}

-- What the numbers of a list of places take beyond their placeholders.
abbrev growth : Bytecodes → Shape → ℕ
growth bc [] = 0
growth bc ((k, pc) ∷ sh) = extra (fixup_size bc k) + growth bc sh

-- The same, kind by kind.
abbrev by_kind : Bytecodes → Shape → ℕ
by_kind bc sh =
    count_kind fixup_literal sh * extra bc.numbytes_literal
    + count_kind fixup_fork sh * extra bc.numbytes_fork
    + count_kind fixup_var_ref sh * extra bc.numbytes_var_name
    + count_kind fixup_label sh * extra bc.numbytes_label
    + count_kind fixup_stack sh * extra bc.numbytes_stack

length-write_bytes : (w : Width) (v : ℕ) → length (write_bytes w v) ≡ suc (extra w)
unfolding write_bytes extra width
length-write_bytes one v = refl
length-write_bytes two v = refl
length-write_bytes four v = refl

add_times : (a n e : ℕ) → (a + n) * e ≡ a * e + n * e
add_times a n e = omega arith

growth-by_kind : (bc : Bytecodes) (sh : Shape) → growth bc sh ≡ by_kind bc sh
unfolding fixup_size
growth-by_kind bc [] = omega arith
growth-by_kind bc ((fixup_literal, pc) ∷ sh) = omega (
  arith,
  growth-by_kind bc sh,
  add_times 1 (count_kind fixup_literal sh) (extra bc.numbytes_literal),
)
growth-by_kind bc ((fixup_fork, pc) ∷ sh) =
    omega
      (arith, growth-by_kind bc sh, add_times 1 (count_kind fixup_fork sh) (extra bc.numbytes_fork))
growth-by_kind bc ((fixup_label, pc) ∷ sh) =
    omega (
      arith,
      growth-by_kind bc sh,
      add_times 1 (count_kind fixup_label sh) (extra bc.numbytes_label),
    )
growth-by_kind bc ((fixup_var_ref, pc) ∷ sh) = omega (
  arith,
  growth-by_kind bc sh,
  add_times 1 (count_kind fixup_var_ref sh) (extra bc.numbytes_var_name),
)
growth-by_kind bc ((fixup_stack, pc) ∷ sh) =
    omega (
      arith,
      growth-by_kind bc sh,
      add_times 1 (count_kind fixup_stack sh) (extra bc.numbytes_stack),
    )

pub Places-below : (i n : ℕ) (sh : Shape) → Places i sh n → i ≤ n
Places-below i n [] h = h
Places-below i n ((k, pc) ∷ sh) h = omega (arith, Places-below (suc pc) n sh h.1, h.0)

length-fixup_bytes :
    (bc : Bytecodes) (f : Fixup) (rest : List Byte)
    → length (fixup_bytes bc f ++ rest) ≡ suc (extra (fixup_size bc f.kind)) + length rest
length-fixup_bytes bc f rest = omega (
  arith,
  length-append (fixup_bytes bc f) rest,
  length-write_bytes (fixup_size bc f.kind) (final_value bc f f.kind),
)

-- Each place is met, and takes its number in.
length-fill :
    (bc : Bytecodes) (fs : List Fixup) (i : ℕ) (bs : List Byte)
    → Places i (shape fs) (i + length bs)
    → length (fill bc fs i bs) ≡ length bs + growth bc (shape fs)
unfolding fill
length-fill bc [] i [] h = omega arith
length-fill bc (f ∷ fs) i [] h =
    absurd (omega (arith, h.0, Places-below (suc f.pc) (i + 0) (shape fs) h.1))
length-fill bc [] i (b ∷ bs) h = omega (arith, length-fill bc [] (i + 1) bs (omega arith))
length-fill bc (f ∷ fs) i (b ∷ bs) h =
    let n : i + suc (length bs) ≡ i + 1 + length bs = omega arith in
    let met : (f.pc == i) ≡ true → Places (i + 1) (shape fs) (i + 1 + length bs) =
      λ e. let p : suc f.pc ≡ i + 1 = ground arith in rw (p, n) at h.1 in
    let later : (f.pc == i) ≡ false → Places (i + 1) (shape (f ∷ fs)) (i + 1 + length bs) =
      λ e. (ground (arith, h.0), rw n at h.1) in
    elim (Bool-cases (f.pc == i)) [
      | inl e ↦ rw e (
          omega (
            arith,
            length-fixup_bytes bc f (fill bc fs (i + 1) bs),
            length-fill bc fs (i + 1) bs (met e),
          ))
      | inr e ↦ rw e (omega (arith, length-fill bc (f ∷ fs) (i + 1) bs (later e)))
    ]

-- The numbers of a state's vector, kind by kind, as the state counts them.
unfoldable pub stack_refs : List Fixup → ℕ
stack_refs fs = count_kind fixup_stack (shape fs)

module _ {F : Type 0} where
  -- The code before a place takes what `relocate` adds, but for its stack references.
  pub length-prefix :
      (bc : Bytecodes) (s : State F)
      → Laid s
      → length (fill bc s.fixups 0 s.bytes)
        ≡ length s.bytes
          + s.num_literals * extra bc.numbytes_literal
          + s.num_forks * extra bc.numbytes_fork
          + s.num_var_refs * extra bc.numbytes_var_name
          + s.num_labels * extra bc.numbytes_label
          + stack_refs s.fixups * extra bc.numbytes_stack
  unfolding stack_refs
  length-prefix bc s h =
      let n : length s.bytes ≡ 0 + length s.bytes = omega arith in
      rw (h.literals, h.forks, h.var_refs, h.labels)
        (omega (
          arith,
          length-fill bc s.fixups 0 s.bytes (rw n at h.places),
          growth-by_kind bc (shape s.fixups),
        ))

  -- The vector of a state holds as many bytes as its size says, and those that the stack
  -- references take beyond their placeholders, which the size leaves out.
  pub length-assemble :
      (s : State F)
      → Laid s
      → length (assemble s).vector
        ≡ (assemble s).size + stack_refs s.fixups * extra (assemble s).numbytes_stack
  unfolding assemble measure size_without_labels
  length-assemble s h = omega (arith, length-prefix (measure s) s h)
