-- ===== src/Objects/Chain.antt =====
-- The linked lists that run through the objects, and the lists of numbers that they stand for.
use lambda_moo_plus_foo.Prelude.{
  ◌==◌, if◌then◌else◌, ==_iff, Bool-cases, length, pos, ℕ, ◌≤◌, ◌≡◌, refl, ◌∙◌, inl, inr, Bool,
  true, false, not, ◌&&◌, ◌||◌, some, List, [], ◌∷◌, ◌++◌, arith,
}
use lambda_moo_plus_foo.Value.{Objid, nothing}
use lambda_moo_plus_foo.Objects.{Db, Link, load}

abbrev pub has : ℕ → List ℕ → Bool
has n [] = false
has n (x ∷ xs) = n == x || has n xs

abbrev pub IsDistinct : List ℕ → Type 0
IsDistinct [] = Unit
IsDistinct (x ∷ xs) = (has x xs ≡ false) × IsDistinct xs

abbrev pub erase : ℕ → List ℕ → List ℕ
erase n [] = []
erase n (x ∷ xs) = if n == x then xs else x ∷ erase n xs

pub has-append : (n : ℕ) (xs ys : List ℕ) → has n (xs ++ ys) ≡ (has n xs || has n ys)
has-append n [] ys = refl
has-append n (x ∷ xs) ys = ground (arith, has-append n xs ys)

pub has-erase :
    (n m : ℕ) (xs : List ℕ) → IsDistinct xs → has n (erase m xs) ≡ (not (n == m) && has n xs)
has-erase n m [] h = ground arith
has-erase n m (x ∷ xs) h = ground (arith, has-erase n m xs h.1, h)

pub erase_none : (m : ℕ) (xs : List ℕ) → has m xs ≡ false → erase m xs ≡ xs
erase_none m [] h = refl
erase_none m (x ∷ xs) h = ground (arith, erase_none m xs)

pub length-erase : (m : ℕ) (xs : List ℕ) → length (erase m xs) ≤ length xs
length-erase m [] = omega arith
length-erase m (x ∷ xs) = ground (arith, length-erase m xs)

pub ne_of_has : (a k : ℕ) (ns : List ℕ) → has a ns ≡ true → has k ns ≡ false → (a == k) ≡ false
ne_of_has a k ns i out = elim (Bool-cases (a == k)) [
  | inl e ↦ cc (i, out, (==_iff a k).0 e)
  | inr e ↦ e
]

pub erase-IsDistinct : (m : ℕ) (xs : List ℕ) → IsDistinct xs → IsDistinct (erase m xs)
erase-IsDistinct m [] h = tt
erase-IsDistinct m (x ∷ xs) h = elim (Bool-cases (m == x)) [
  | inl e ↦ rw e h.1
  | inr e ↦ rw e (ground (arith, has-erase x m xs h.1), erase-IsDistinct m xs h.1)
]

pub append-IsDistinct :
    (m : ℕ) (xs : List ℕ) → IsDistinct xs → has m xs ≡ false → IsDistinct (xs ++ m ∷ [])
append-IsDistinct m [] h e = (refl, tt)
append-IsDistinct m (x ∷ xs) h e =
    (ground (arith, has-append x xs (m ∷ [])), append-IsDistinct m xs h.1 (ground arith))

module _ {F : Type 0} where
  -- From `p` the field `nx` leads through the objects `ns` to NOTHING.
  abbrev pub Chained : Db F → Link → Objid → List ℕ → Type 0
  Chained db nx p [] = p ≡ nothing
  Chained db nx p (n ∷ ns) =
      (p ≡ pos n) × ((q : Objid) × (load nx (pos n) db ≡ some q) × Chained db nx q ns)

  -- A chain survives any change that spares the link of its own objects.
  pub Chained-frame :
      (db db' : Db F) (nx : Link) (p : Objid) (ns : List ℕ)
      → ((a : ℕ) → has a ns ≡ true → load nx (pos a) db' ≡ load nx (pos a) db)
      → Chained db nx p ns
      → Chained db' nx p ns
  Chained-frame db db' nx p [] same h = h
  Chained-frame db db' nx p (n ∷ ns) same (is, (q, at, rest)) = (
    is,
    (
      q,
      same n (ground arith) ∙ at,
      Chained-frame db db' nx q ns (λ a i. same a (ground arith)) rest,
    ),
  )

  pub Chained-subst :
      (db : Db F) (nx : Link) (ns : List ℕ) {p q : Objid}
      → p ≡ q
      → Chained db nx p ns
      → Chained db nx q ns
  Chained-subst db nx ns e h = rw e at h
