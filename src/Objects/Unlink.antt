-- ===== src/Objects/Unlink.antt =====
-- LL_REMOVE takes its object out of the list, and touches nothing else.
use lambda_moo_plus_foo.Prelude.{
  ◌==◌, if◌then◌else◌, ==_iff, Bool-cases, swap_test, and_false, length, ◌==ℤ◌, pos, some_injective,
  ℕ, zero, suc, ◌<◌, ◌≡◌, refl, sym, ap, ◌∙◌, ◌≢◌, inl, inr, true, false, ◌&&◌, ◌||◌, Option, some,
  List, [], ◌∷◌, arith,
}
use lambda_moo_plus_foo.Value.{Objid}
use lambda_moo_plus_foo.Objects.{Db, Link, same_link, valid, load, move_link, ll_unlink}
use lambda_moo_plus_foo.Objects.Fields.{stored, store-stored, load-stored, load-stored_self}
use lambda_moo_plus_foo.Objects.Chain.{
  has, IsDistinct, erase, ne_of_has, Chained, Chained-frame, Chained-subst,
}

module _ {F : Type 0} where
  -- What the loop does: one store, behind the predecessor `k` of `m`.
  abbrev pub Unlinked : Db F → Link → Objid → List ℕ → ℕ → Objid → Option (Db F) → Type 0
  Unlinked db nx p ns m q r =
      (k : ℕ) × (has k ns ≡ true)
      × (k ≢ m)
      × (r ≡ some (stored nx k q db))
      × Chained (stored nx k q db) nx p (erase m ns)

  -- The link of an object of the chain can be read.
  pub load_of_has :
      (db : Db F) (nx : Link) (p : Objid) (ns : List ℕ) (m : ℕ)
      → Chained db nx p ns
      → has m ns ≡ true
      → (q : Objid) × (load nx (pos m) db ≡ some q)
  load_of_has db nx p [] m c h = cc
  load_of_has db nx p (n ∷ ns) m (is, (q, at, rest)) h = elim (Bool-cases (m == n)) [
    | inl e ↦ (q, rw ((==_iff _ _).0 e) at)
    | inr e ↦ load_of_has db nx q ns m rest (rw e at h)
  ]

  -- A store behind an object outside the chain, or at another object's link, leaves the chain.
  pub Chained-stored :
      (db : Db F) (nx : Link) (p : Objid) (ns : List ℕ) (k : ℕ) (v : Objid) {x : Objid}
      → load nx (pos k) db ≡ some x
      → has k ns ≡ false
      → Chained db nx p ns
      → Chained (stored nx k v db) nx p ns
  Chained-stored db nx p ns k v at out =
      Chained-frame db (stored nx k v db) nx p ns
        λ a i. load-stored nx nx k a v db at ∙ rw (ne_of_has a k ns i out)

  round :
      (fuel : ℕ) (db : Db F) (nx : Link) (n m : ℕ) {q' : Objid}
      → load nx (pos n) db ≡ some q'
      → ll_unlink (suc fuel) (pos m) nx (pos n) db ≡ (
          if q' ==ℤ pos m
          then move_link nx (pos m) nx (pos n) db
          else ll_unlink fuel (pos m) nx q' db)
  unfolding ll_unlink
  round fuel db nx n m at = rw at

  -- The successor is the one that is sought.
  hit :
      (db : Db F) (nx : Link) (n m : ℕ) (ns : List ℕ) (r : Option (Db F)) {q : Objid}
      → load nx (pos n) db ≡ some (pos m)
      → load nx (pos m) db ≡ some q
      → Chained db nx q ns
      → IsDistinct (n ∷ m ∷ ns)
      → Unlinked db nx
          (pos n)
          (n ∷ m ∷ ns)
          m
          q
          (if m == m then move_link nx (pos m) nx (pos n) db else r)
  hit db nx n m ns r {q} at_n at rest d = (
    n,
    ground arith,
    ground arith,
    rw ((==_iff m m).1 refl, at) (store-stored nx n q db at_n),
    rw erased (
      refl,
      (q, load-stored_self nx n q db at_n, Chained-stored db nx q ns n q at_n (ground arith) rest),
    ),
  )
    where
      erased : erase m (n ∷ m ∷ ns) ≡ n ∷ ns
      erased = ground arith

  miss :
      (db : Db F) (nx : Link) (n m : ℕ) (ns : List ℕ) {q q' : Objid} (r : Option (Db F))
      → load nx (pos n) db ≡ some q'
      → load nx (pos m) db ≡ some q
      → IsDistinct (n ∷ ns)
      → n ≢ m
      → Chained db nx q' ns
      → Unlinked db nx q' ns m q r
      → Unlinked db nx (pos n) (n ∷ ns) m q r
  miss db nx n m ns {q} {q'} r at_n at d ne c (k, i, nk, is, chain) =
      let (x, at_k) = load_of_has db nx q' ns k c i in
      let apart : (n == k) ≡ false = swap_test k n (ne_of_has k n ns i d.0) in
      let skip : (m == n) ≡ false = ground arith in
      (
        k,
        rw i (ground arith),
        nk,
        is,
        rw skip (refl, (q', load-stored nx nx k n q db at_k ∙ rw apart at_n, chain)),
      )

  pub ll_unlink-Unlinked :
      (fuel : ℕ) (db : Db F) (nx : Link) (n : ℕ) (ns : List ℕ) (m : ℕ) {q : Objid}
      → length (n ∷ ns) < fuel
      → Chained db nx (pos n) (n ∷ ns)
      → IsDistinct (n ∷ ns)
      → n ≢ m
      → has m ns ≡ true
      → load nx (pos m) db ≡ some q
      → Unlinked db nx (pos n) (n ∷ ns) m q (ll_unlink fuel (pos m) nx (pos n) db)
  ll_unlink-Unlinked zero db nx n ns m f c d ne h at = absurd (omega arith)
  ll_unlink-Unlinked (suc fuel) db nx n [] m f c d ne h at = cc
  ll_unlink-Unlinked (suc fuel) db nx n (n' ∷ ns) m {q} f (is, (q', at_n, rest)) d ne h at =
      rw (round fuel db nx n m at_n, rest.0)
        (elim (Bool-cases (n' == m)) [
          | inl e ↦
              let e' : n' ≡ m = (==_iff _ _).0 e in
              let next_m : load nx (pos n) db ≡ some (pos m) =
                at_n ∙ ap some (rest.0 ∙ ap pos e') in
              let after_m : rest.1.0 ≡ q =
                some_injective (sym rest.1.1 ∙ ap (λ z. load nx (pos z) db) e' ∙ at) in
              rw e' (
                hit db nx n m ns _ next_m at (Chained-subst db nx ns after_m rest.1.2) (rw e' at d))
          | inr e ↦ rw e (
              miss db nx n m (n' ∷ ns) _ (rw rest.0 at at_n) at d ne (refl, rest.1)
                (ll_unlink-Unlinked fuel db nx n' ns m (omega arith) (refl, rest.1) d.1
                  (λ is_m. cc (e, (==_iff n' m).1 is_m)) (rw (swap_test n' m e) at h) at))
        ])

  -- The table differs at most in the field `ls` of `w` and the field `nx` of the objects `ns`.
  pub record Spares (db db' : Db F) (ls : Link) (w : ℕ) (nx : Link) (ns : List ℕ) : Type 0 where
    pub fields :
        (g : Link) (a : ℕ)
        → ((a == w && same_link g ls) || (has a ns && same_link g nx)) ≡ false
        → load g (pos a) db' ≡ load g (pos a) db
    pub used : (a : Objid) → valid db' a ≡ valid db a

  -- After a run that succeeds, the list of `w` is `ns`.
  pub record Listed (db : Db F) (ls : Link) (w : ℕ) (nx : Link) (ns : List ℕ) : Type 0 where
    pub first : Objid
    pub head : load ls (pos w) db ≡ some first
    pub chain : Chained db nx first ns

  pub stored_twice :
      (db : Db F) (f h : Link) (k m : ℕ) (u v : Objid) {x y : Objid}
      → load f (pos k) db ≡ some x
      → load h (pos m) (stored f k u db) ≡ some y
      → (g : Link) (a : ℕ) → (a == k && same_link g f) ≡ false
      → (a == m && same_link g h) ≡ false
      → load g (pos a) (stored h m v (stored f k u db)) ≡ load g (pos a) db
  stored_twice db f h k m u v at_k at_m g a out_k out_m =
      load-stored g h m a v (stored f k u db) at_m
      ∙ rw out_m (load-stored g f k a u db at_k ∙ rw out_k)

  module _ (ls nx : Link) (ne : same_link ls nx ≡ false) (ne' : same_link nx ls ≡ false) where
    -- A store to the head of a list leaves every chain.
    pub Chained-stored_head :
        (db : Db F) (p : Objid) (ns : List ℕ) (w : ℕ) (v : Objid) {x : Objid}
        → load ls (pos w) db ≡ some x
        → Chained db nx p ns
        → Chained (stored ls w v db) nx p ns
    Chained-stored_head db p ns w v at =
        Chained-frame db (stored ls w v db) nx p ns
          λ a i. load-stored nx ls w a v db at ∙ rw (and_false (a == w) (same_link nx ls) ne')
