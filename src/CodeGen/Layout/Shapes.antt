-- ===== src/CodeGen/Layout/Shapes.antt =====
-- The kinds and places of the fixups of src/code_gen.c, in the order of their array.
use lambda_moo_plus_foo.Prelude.{
  length, get_elem?, set, length-append, some_injective, ℕ, zero, suc, ◌+◌, ◌≤◌, ◌≡◌, refl, ap, ◌∙◌,
  Option, none, some, List, [], ◌∷◌, ◌++◌, arith,
}
use lambda_moo_plus_foo.CodeGen.State.{
  FixupKind, Fixup, fixup_literal, fixup_fork, fixup_label, fixup_var_ref, fixup_stack, next_of,
  retarget_one, retarget, aim,
}
use lambda_moo_plus_foo.CodeGen.Opcodes.{Byte}

abbrev pub Shape : Type 0
Shape = List (FixupKind × ℕ)

abbrev pub shape : List Fixup → Shape
shape [] = []
shape (f ∷ fs) = (f.kind, f.pc) ∷ shape fs

abbrev pub one_if : FixupKind → FixupKind → ℕ
one_if fixup_literal fixup_literal = 1
one_if fixup_fork fixup_fork = 1
one_if fixup_label fixup_label = 1
one_if fixup_var_ref fixup_var_ref = 1
one_if fixup_stack fixup_stack = 1
one_if _ _ = 0

abbrev pub count_kind : FixupKind → Shape → ℕ
count_kind k [] = 0
count_kind k ((j, pc) ∷ sh) = one_if k j + count_kind k sh

-- The places from `i` on stand in order, each below `n`.
abbrev pub Places : ℕ → Shape → ℕ → Type 0
Places i [] n = i ≤ n
Places i ((k, pc) ∷ sh) n = (i ≤ pc) × Places (suc pc) sh n

pub shape-append : (fs gs : List Fixup) → shape (fs ++ gs) ≡ shape fs ++ shape gs
shape-append [] gs = refl
shape-append (f ∷ fs) gs = ap (λ t. (f.kind, f.pc) ∷ t) (shape-append fs gs)

pub count_kind-append :
    (k : FixupKind) (a b : Shape) → count_kind k (a ++ b) ≡ count_kind k a + count_kind k b
count_kind-append k [] b = omega arith
count_kind-append k ((j, pc) ∷ a) b = omega (arith, count_kind-append k a b)

pub Places-append :
    (i n m : ℕ) (k : FixupKind) (sh : Shape)
    → Places i sh n
    → suc n ≤ m
    → Places i (sh ++ (k, n) ∷ []) m
Places-append i n m k [] h le = (h, le)
Places-append i n m k ((j, pc) ∷ sh) h le = (h.0, Places-append (suc pc) n m k sh h.1 le)

pub Places-≤ : (i n m : ℕ) (sh : Shape) → Places i sh n → n ≤ m → Places i sh m
Places-≤ i n m [] h le = omega arith
Places-≤ i n m ((k, pc) ∷ sh) h le = (h.0, Places-≤ (suc pc) n m sh h.1 le)

pub shape-set :
    (t : Fixup → Fixup) (fs : List Fixup) (i : ℕ) (f : Fixup)
    → ((g : Fixup) → ((t g).kind ≡ g.kind) × ((t g).pc ≡ g.pc))
    → get_elem? fs i ≡ some f
    → shape (set fs i (t f)) ≡ shape fs
shape-set t [] i f k e = refl
shape-set t (g ∷ fs) zero f k e =
    let g≡f : g ≡ f = some_injective e in rw ((k f).0, (k f).1, g≡f) refl
shape-set t (g ∷ fs) (suc i) f k e = ap (λ r. (g.kind, g.pc) ∷ r) (shape-set t fs i f k e)

pub shape-retarget_one :
    (t : Fixup → Fixup) (l : ℕ) (f : Option Fixup) (fs : List Fixup)
    → ((g : Fixup) → ((t g).kind ≡ g.kind) × ((t g).pc ≡ g.pc))
    → get_elem? fs l ≡ f
    → shape (retarget_one t l f fs) ≡ shape fs
shape-retarget_one t l none fs k e = refl
shape-retarget_one t l (some f) fs k e = shape-set t fs l f k e

-- Aiming labels moves no place.
pub shape-retarget :
    (t : Fixup → Fixup) (fuel : ℕ) (l : Option ℕ) (fs : List Fixup)
    → ((g : Fixup) → ((t g).kind ≡ g.kind) × ((t g).pc ≡ g.pc))
    → shape (retarget t fuel l fs) ≡ shape fs
unfolding retarget
shape-retarget t zero l fs k = refl
shape-retarget t (suc fuel) none fs k = refl
shape-retarget t (suc fuel) (some l) fs k =
    let f = get_elem? fs l in
    shape-retarget t fuel (next_of f) (retarget_one t l f fs) k ∙ shape-retarget_one t l f fs k refl

pub aimed : (here g : Fixup) → ((aim here g).kind ≡ g.kind) × ((aim here g).pc ≡ g.pc)
unfolding aim
aimed here g = (refl, refl)

-- One more fixup.
pub count_kind-add :
    (j : FixupKind) (fs : List Fixup) (g : Fixup)
    → count_kind j (shape (fs ++ g ∷ [])) ≡ count_kind j (shape fs) + one_if j g.kind
count_kind-add j fs g =
    rw (shape-append fs (g ∷ []))
      (omega (arith, count_kind-append j (shape fs) ((g.kind, g.pc) ∷ [])))

pub Places-add :
    (fs : List Fixup) (bs : List Byte) (g : Fixup) (b : Byte)
    → g.pc ≡ length bs
    → Places 0 (shape fs) (length bs)
    → Places 0 (shape (fs ++ g ∷ [])) (length (bs ++ b ∷ []))
Places-add fs bs g b p h =
    rw (shape-append fs (g ∷ []), p)
      (Places-append 0 (length bs) _ g.kind (shape fs) h (omega (arith, length-append bs (b ∷ []))))
