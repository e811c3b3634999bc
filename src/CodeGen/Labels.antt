-- ===== src/CodeGen/Labels.antt =====
-- Where the labels of a vector lead: `define_label`, `capture_label` and the relocation in
-- `stmt_to_code` of src/code_gen.c.
use mathlib.Core.List.{append_assoc}
use lambda_moo_plus_foo.Prelude.{
  ◌==◌, Bool-cases, length, ℕ, suc, ◌+◌, ◌*◌, ◌^◌, ◌<◌, ◌≡◌, refl, ap, inl, inr, false, List, [],
  ◌∷◌, ◌++◌, arith,
}
use lambda_moo_plus_foo.CodeGen.Opcodes.{Byte}
use lambda_moo_plus_foo.CodeGen.State.{
  Fixup, width, Bytecodes, State, fixup_of, capture_label, aim, one,
}
use lambda_moo_plus_foo.CodeGen.Vector.{extra, relocate, fixup_bytes, fill}
use lambda_moo_plus_foo.CodeGen.Layout.{shape, Places, Laid}
use lambda_moo_plus_foo.CodeGen.Filled.{Places-below, stack_refs, length-prefix}

-- Code, and what follows it.
fill-append :
    (bc : Bytecodes) (fs gs : List Fixup) (i m : ℕ) (bs cs : List Byte)
    → Places i (shape fs) (i + length bs)
    → Places (i + length bs) (shape gs) m
    → fill bc (fs ++ gs) i (bs ++ cs) ≡ fill bc fs i bs ++ fill bc gs (i + length bs) cs
unfolding fill
fill-append bc [] gs i m [] cs h k = let n : i + 0 ≡ i = omega arith in rw n refl
fill-append bc (f ∷ fs) gs i m [] cs h k =
    absurd (omega (arith, h.0, Places-below (suc f.pc) (i + 0) (shape fs) h.1))
fill-append bc [] [] i m (b ∷ bs) cs h k =
    let n : i + suc (length bs) ≡ i + 1 + length bs = omega arith in
    rw n (ap (λ t. b ∷ t) (fill-append bc [] [] (i + 1) m bs cs (omega arith) (rw n at k)))
fill-append bc [] (g ∷ gs) i m (b ∷ bs) cs h k =
    let n : i + suc (length bs) ≡ i + 1 + length bs = omega arith in
    let e : (g.pc == i) ≡ false = ground (arith, k.0) in
    rw (n, e)
      (ap (λ t. b ∷ t) (fill-append bc [] (g ∷ gs) (i + 1) m bs cs (omega arith) (rw n at k)))
fill-append bc (f ∷ fs) gs i m (b ∷ bs) cs h k =
    let n : i + suc (length bs) ≡ i + 1 + length bs = omega arith in
    let k' : Places (i + 1 + length bs) (shape gs) m = rw n at k in
    elim (Bool-cases (f.pc == i)) [
      | inl e ↦
          let p : suc f.pc ≡ i + 1 = ground arith in
          rw (n, e, append_assoc)
            (ap (λ t. fixup_bytes bc f ++ t)
              (fill-append bc fs gs (i + 1) m bs cs (rw (p, n) at h.1) k'))
      | inr e ↦
          rw (n, e)
            (ap (λ t. b ∷ t)
              (fill-append bc (f ∷ fs) gs (i + 1) m bs cs (ground (arith, h.0), rw n at h.1) k'))
    ]

module _ {F : Type 0} where
  same_shape-Laid :
      (s : State F) (fs : List Fixup)
      → shape fs ≡ shape s.fixups
      → Laid s
      → Laid (record s { fixups = fs })
  same_shape-Laid s fs e h = record {
    literals = rw e h.literals;
    forks = rw e h.forks;
    var_refs = rw e h.var_refs;
    labels = rw e h.labels;
    stacks = h.stacks;
    places = rw e h.places;
  }

  -- Take a state whose counters count its fixups, and any code that continues its code, in which
  -- labels may have been aimed. Where the stack references take one byte, and the vector's first
  -- part is below 2^32 bytes long, the vector is what the state's code becomes and what the rest
  -- becomes, and each label that was aimed at this state leads to the end of the first part.
  pub relocate-define_label :
      (s : State F) (bc : Bytecodes) (f : Fixup) (fs gs : List Fixup) (m : ℕ) (cs : List Byte)
      → Laid s
      → shape fs ≡ shape s.fixups
      → Places (length s.bytes) (shape gs) m
      → bc.numbytes_stack ≡ one
      → length (fill bc fs 0 s.bytes) < 2 ^ 32
      → (fill bc (fs ++ gs) 0 (s.bytes ++ cs)
          ≡ fill bc fs 0 s.bytes ++ fill bc gs (length s.bytes) cs)
        × (relocate bc (aim (capture_label s) f) ≡ length (fill bc fs 0 s.bytes))
  unfolding relocate aim capture_label fixup_of extra width
  relocate-define_label s bc f fs gs m cs h e k w low =
      let n : 0 + length s.bytes ≡ length s.bytes = omega arith in
      let l = same_shape-Laid s fs e h in
      let p = length-prefix bc (record s { fixups = fs }) l in
      let none_counted : s.num_stacks * extra bc.numbytes_stack ≡ 0 = rw (h.stacks) (omega arith) in
      let no_growth : stack_refs fs * extra bc.numbytes_stack ≡ 0 = rw w (omega arith) in
      (
        rw n at (fill-append bc fs gs 0 m s.bytes cs (rw (← n) at l.places) (rw (← n) at k)),
        omega (arith, p, none_counted, no_growth, low),
      )
