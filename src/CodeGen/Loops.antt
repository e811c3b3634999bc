-- ===== src/CodeGen/Loops.antt =====
-- The loops of the code generator of src/code_gen.c: entering, ending and leaving one.
use lambda_moo_plus_foo.Prelude.{
  Bool-cases, List-cases, get_elem?, set, some_injective, ℕ, zero, suc, ◌≡◌, refl, ◌≢◌, inl, inr,
  Option, none, some, List, [], ◌∷◌,
}
use lambda_moo_plus_foo.CodeGen.State.{
  Fixup, Loop, State, emit_byte, emit_extended_byte, add_known_fixup, add_linked_fixup, add_fixup,
  add_var_ref, count_label, add_linked_label, add_stack_ref, enter_loop, exit_loop, fixup_label,
}
use lambda_moo_plus_foo.CodeGen.Stmt.{
  is_loop, find_loop, emit_exit, generate_continue, generate_break, end_loop,
}
use lambda_moo_plus_foo.CodeGen.Formed.{IsIn, IsExit}
use lambda_moo_plus_foo.CodeGen.Frame.{
  Closed, Around, At, Runs, done, emitted, referred, stack_referred, known, defined, extended,
  linked,
}
use lambda_moo_plus_foo.CodeGen.Opcodes.{eop_exit_id}

-- The loop at an index.
abbrev LoopAt : List Loop → ℕ → Type 0
LoopAt ls i = (l : Loop) × (get_elem? ls i ≡ some l) × (l.top_label.kind ≡ fixup_label)

find_loop-finds :
    (n : ℕ) (ls : List Loop) (ids : List (Option ℕ))
    → Around ls ids
    → IsIn n ids
    → (i : ℕ) × (find_loop n ls ≡ some i) × LoopAt ls i
unfolding find_loop
find_loop-finds n [] [] a w = elim w [ ]
find_loop-finds n [] (i ∷ ids) a w = elim a [ ]
find_loop-finds n (l ∷ ls) [] a w = elim a [ ]
find_loop-finds n (l ∷ ls) (i ∷ ids) a (inl e) = (0, rw (a.0, e) refl, (l, refl, a.1))
find_loop-finds n (l ∷ ls) (i ∷ ids) a (inr w) = elim (Bool-cases (is_loop n l.id)) [
  | inl e ↦ (0, rw e refl, (l, refl, a.1))
  | inr e ↦ let (j, f, at) = find_loop-finds n ls ids a.2 w in (suc j, rw (e, f) refl, at)
]

innermost : (ls : List Loop) (ids : List (Option ℕ)) → Around ls ids → ids ≢ [] → LoopAt ls 0
innermost [] [] a w = absurd (w refl)
innermost [] (i ∷ ids) a w = elim a [ ]
innermost (l ∷ ls) [] a w = elim a [ ]
innermost (l ∷ ls) (i ∷ ids) a w = (l, refl, a.1)

-- The label of a loop's end does not matter.
Around-set :
    (ls : List Loop) (ids : List (Option ℕ)) (i : ℕ) (l : Loop) (b : Option ℕ)
    → get_elem? ls i ≡ some l
    → Around ls ids
    → Around (set ls i (record l { bottom_label = b })) ids
Around-set [] ids i l b e a = a
Around-set (x ∷ ls) [] i l b e a = elim a [ ]
Around-set (x ∷ ls) (j ∷ ids) zero l b e a =
    let x≡l : x ≡ l = some_injective e in (rw x≡l at a.0, rw x≡l at a.1, a.2)
Around-set (x ∷ ls) (j ∷ ids) (suc i) l b e a = (a.0, a.1, Around-set ls ids i l b e a.2)

module _ {F : Type 0} {P : State F → Type 0} (law : Closed P) {v : Option ℕ} {ids : List (Option ℕ)}
    {c : ℕ} where
  pub entered :
      (name : Option ℕ) (top : Fixup) (at : ℕ) (l : Option ℕ) (b : ℕ) {t : State F}
      → top.kind ≡ fixup_label
      → At P v ids c t
      → At P v (name ∷ ids) c (enter_loop name top at l b t)
  unfolding enter_loop
  entered name top at l b e h = record {
    height = h.height;
    bounded = h.bounded;
    saved = h.saved;
    looping = (refl, e, h.looping);
    kept = law.on_frame _ _ _ _ _ h.kept;
  }

  pub end_loop-Runs :
      (name : Option ℕ) (top : Fixup) {t : State F}
      → top.kind ≡ fixup_label
      → At P v (name ∷ ids) c t
      → Runs P v ids c (end_loop top t)
  unfolding end_loop exit_loop
  end_loop-Runs name top {t} e h = elim (List-cases t.loops) [
    | inl f ↦ elim (rw f at h.looping) [ ]
    | inr (l, ls, f) ↦ rw f (done (defined law _ (known law top e (emitted law _ (left l ls f)))))
  ]
    where
      left : (l : Loop) (ls : List Loop) → t.loops ≡ l ∷ ls → At P v ids c (record t { loops = ls })
      left l ls f = record {
        height = h.height;
        bounded = h.bounded;
        saved = h.saved;
        looping = (rw f at h.looping).2;
        kept = law.on_frame _ _ _ _ _ h.kept;
      }

  emit_exit-Runs :
      (name : Option ℕ) (t : State F)
      → IsExit name ids
      → At P v ids c t
      → (i : ℕ) × (u : State F) × (emit_exit name t ≡ some (i, u))
        × At P v ids c u
        × LoopAt u.loops i
  unfolding emit_exit emit_extended_byte add_var_ref add_fixup add_linked_fixup add_known_fixup
      emit_byte
  emit_exit-Runs none t w h = (0, _, refl, extended law _ h, innermost t.loops ids h.looping w)
  emit_exit-Runs (some n) t w h =
      let (i, e, at) = find_loop-finds n t.loops ids h.looping w in
      (
        i,
        add_var_ref n (emit_extended_byte eop_exit_id t),
        rw e refl,
        referred law n (extended law _ h),
        at,
      )

  pub generate_continue-Runs :
      (name : Option ℕ) (t : State F)
      → IsExit name ids
      → At P v ids c t
      → Runs P v ids c (generate_continue name t)
  unfolding generate_continue
  generate_continue-Runs name t w h =
      let (i, u, e, hu, (l, at, k)) = emit_exit-Runs name t w h in
      rw (e, at) (done (known law l.top_label k (stack_referred law _ hu)))

  rebottomed :
      (i : ℕ) (l : Loop) (b : Option ℕ) {t : State F}
      → get_elem? t.loops i ≡ some l
      → At P v ids c t
      → At P v ids c (record t { loops = set t.loops i (record l { bottom_label = b }) })
  rebottomed i l b {t} e h = record {
    height = h.height;
    bounded = h.bounded;
    saved = h.saved;
    looping = Around-set t.loops ids i l b e h.looping;
    kept = law.on_frame _ _ _ _ _ h.kept;
  }

  pub generate_break-Runs :
      (name : Option ℕ) (t : State F)
      → IsExit name ids
      → At P v ids c t
      → Runs P v ids c (generate_break name t)
  unfolding generate_break add_linked_label add_linked_fixup count_label add_stack_ref add_fixup
      add_known_fixup emit_byte
  generate_break-Runs name t w h =
      let (i, u, e, hu, (l, at, k)) = emit_exit-Runs name t w h in
      rw (e, at)
        (done
          (rebottomed i l _ at (linked law l.bottom_label (stack_referred law l.bottom_stack hu))))
