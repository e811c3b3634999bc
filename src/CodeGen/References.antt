-- ===== src/CodeGen/References.antt =====
-- The numbers in a vector: `ref_size` and the loop of `stmt_to_code` of src/code_gen.c write
-- them, `READ_BYTES` of src/execute.c reads them; and `add_literal`, which picks one.
use lambda_moo_plus_foo.Prelude.{
  leb, ◌==◌, Bool-cases, length, get_elem?, get_elem?-append_last, get_elem?-some, >>=-eq-some,
  some_injective, ℕ, suc, ◌+◌, ◌*◌, ◌/◌, ◌%◌, ◌^◌, ◌≤◌, ◌<◌, ◌≡◌, refl, sym, ◌≢◌, ◌⊎◌, inl, inr,
  Bool, true, false, Option, none, some, List, [], ◌∷◌, ◌++◌, arith,
}
use lambda_moo_plus_foo.Value.{Var, FloatEq, equality}
use lambda_moo_plus_foo.CodeGen.Opcodes.{Byte}
use lambda_moo_plus_foo.CodeGen.State.{
  Width, width, GState, State, one, two, four, emit_byte, add_known_fixup, add_linked_fixup,
  add_fixup, found_literal, same_type, intern_literal, add_literal_at, find_literal, add_literal,
}
use lambda_moo_plus_foo.CodeGen.Vector.{ref_size, write_bytes, read_bytes}

read-write :
    (w : Width) (v : ℕ) (rest : List Byte)
    → read_bytes w (write_bytes w v ++ rest) ≡ some (v % 2 ^ (8 * width w), rest)
unfolding read_bytes write_bytes width
read-write one v rest = refl
read-write two v rest =
    let e : (v / 2 ^ 8 % 2 ^ 8 * 2 ^ 8 + v % 2 ^ 8) % 2 ^ 32 ≡ v % 2 ^ 16 = omega arith in rw e refl
read-write four v rest =
    let e : (v / 2 ^ 24 % 2 ^ 8 * 2 ^ 24
            + v / 2 ^ 16 % 2 ^ 8 * 2 ^ 16
            + v / 2 ^ 8 % 2 ^ 8 * 2 ^ 8
            + v % 2 ^ 8)
          % 2 ^ 32
        ≡ v % 2 ^ 32 =
      omega arith in
    rw e refl

below_bound : (m v b : ℕ) → v ≤ m → m ≤ b → (v < m) ⊎ (m ≢ b) → v < b
below_bound m v b le high (inl h) = omega arith
below_bound m v b le high (inr h) = ground arith

-- A number not above the maximum is below the power of two, but for the two bounds themselves.
fits :
    (m v : ℕ)
    → v ≤ m
    → m < 2 ^ 32
    → (v < m) ⊎ ((m ≢ 256) × (m ≢ 256 * 256))
    → v % 2 ^ (8 * width (ref_size m)) ≡ v
unfolding ref_size width
fits m v le low bound = elim (Bool-cases (leb m 256)) [
  | inl e ↦
      let b : v < 256 =
        below_bound m v 256 le (ground arith) (elim bound [ inl h ↦ inl h | inr h ↦ inr h.0 ]) in
      rw e (omega arith)
  | inr e ↦ elim (Bool-cases (leb m (256 * 256))) [
    | inl f ↦
        let b : v < 256 * 256 =
          below_bound m v (256 * 256) le (ground arith)
            (elim bound [ inl h ↦ inl h | inr h ↦ inr h.1 ]) in
        rw (e, f) (omega arith)
    | inr f ↦ rw (e, f) (omega arith)
  ]
]

-- A number that is at most the maximum, below 2^32, by which its size was chosen, is read back
-- from the vector as it was written, if it is less than the maximum, or the maximum is neither 256
-- nor 65536.
pub read_bytes-write_bytes :
    (m v : ℕ) (rest : List Byte)
    → v ≤ m
    → m < 2 ^ 32
    → (v < m) ⊎ ((m ≢ 256) × (m ≢ 256 * 256))
    → read_bytes (ref_size m) (write_bytes (ref_size m) v ++ rest) ≡ some (v, rest)
read_bytes-write_bytes m v rest le low bound =
    rw (read-write (ref_size m) v rest, fits m v le low bound) refl

module _ {F : Type 0} (fl : FloatEq F) where
  -- The literal at an index is the one looked for.
  abbrev pub IsFound : Var F → List (Var F) → ℕ → Type 0
  IsFound x ls k =
      (l : Var F) × (get_elem? ls k ≡ some l)
      × (same_type x l ≡ true)
      × (equality fl true x l ≡ some true)

  found_literal-cases :
      (t : Bool) (e : Option Bool) (i j : ℕ) (rest : Option ℕ)
      → found_literal t e i rest ≡ some j
      → ((t ≡ true) × (e ≡ some true) × (j ≡ i)) ⊎ (rest ≡ some j)
  found_literal-cases false e i j rest h = inr h
  found_literal-cases true none i j rest h = cc
  found_literal-cases true (some true) i j rest h = inl (refl, refl, sym (some_injective h))
  found_literal-cases true (some false) i j rest h = inr h

  find_literal-cases :
      (x : Var F) (i j : ℕ) (ls : List (Var F))
      → find_literal fl x i ls ≡ some j
      → (j ≡ i + length ls) ⊎ ((k : ℕ) × (j ≡ i + k) × IsFound x ls k)
  unfolding find_literal
  find_literal-cases x i j [] e = let f : i ≡ j = some_injective e in inl (omega arith)
  find_literal-cases x i j (l ∷ ls) e =
      elim (found_literal-cases (same_type x l) (equality fl true x l) i j _ e) [
        | inl (st, eq, f) ↦ inr (0, omega arith, (l, refl, st, eq))
        | inr r ↦ elim (find_literal-cases x (i + 1) j ls r) [
          | inl f ↦ inl (omega arith)
          | inr (k, f, at) ↦ inr (suc k, omega arith, at)
        ]
      ]

  intern_literal-IsFound :
      (x : Var F) (g : GState F) (i : ℕ)
      → (i ≡ length g.literals) ⊎ IsFound x g.literals i
      → (l : Var F) × (get_elem? (intern_literal x i g).literals i ≡ some l)
        × ((l ≡ x) ⊎ ((same_type x l ≡ true) × (equality fl true x l ≡ some true)))
  unfolding intern_literal
  intern_literal-IsFound x g i (inl e) =
      let f : (i == length g.literals) ≡ true = ground arith in
      (x, rw (f, e) (get_elem?-append_last g.literals x), inl refl)
  intern_literal-IsFound x g i (inr (l, at, st, eq)) =
      let f : (i == length g.literals) ≡ false = ground (arith, get_elem?-some g.literals i at) in
      (l, rw f at, inr (st, eq))

  intern_literal-keeps :
      (x : Var F) (g : GState F) (i : ℕ)
      → ((intern_literal x i g).literals ≡ g.literals)
        ⊎ ((intern_literal x i g).literals ≡ g.literals ++ x ∷ [])
  unfolding intern_literal
  intern_literal-keeps x g i = elim (Bool-cases (i == length g.literals)) [
    | inl e ↦ rw e (inr refl)
    | inr e ↦ rw e (inl refl)
  ]

  -- After a literal has been added, its number is that of a stored value of its type, which is
  -- the literal itself or equal to it, case included, and each literal stored before keeps its
  -- number: the literals are those stored before, or those and the new one behind them.
  pub add_literal_lem :
      (x : Var F) (s t : State F)
      → add_literal fl x s ≡ some t
      → (i : ℕ) × (l : Var F) × (t ≡ add_literal_at x s i)
        × (get_elem? t.gstate.literals i ≡ some l)
        × ((l ≡ x) ⊎ ((same_type x l ≡ true) × (equality fl true x l ≡ some true)))
        × ((t.gstate.literals ≡ s.gstate.literals)
            ⊎ (t.gstate.literals ≡ s.gstate.literals ++ x ∷ []))
  unfolding add_literal add_literal_at add_fixup add_linked_fixup add_known_fixup emit_byte
  add_literal_lem x s t e =
      let (i, f, r) = >>=-eq-some (find_literal fl x 0 s.gstate.literals) _ e in
      let t≡ : t ≡ add_literal_at x s i = sym (some_injective r) in
      let place : (i ≡ length s.gstate.literals) ⊎ IsFound x s.gstate.literals i =
        elim (find_literal-cases x 0 i s.gstate.literals f) [
          | inl g ↦ inl (omega arith)
          | inr (j, g, h) ↦ inr (let n : i ≡ j = omega arith in rw n h)
        ] in
      let (l, here, same) = intern_literal-IsFound x s.gstate i place in
      (i, l, t≡, rw t≡ here, same, rw t≡ (intern_literal-keeps x s.gstate i))
