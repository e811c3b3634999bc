-- ===== src/Objects/Remove.antt =====
-- LL_REMOVE takes its object out of the list, and touches nothing else.
use lambda_moo_plus_foo.Prelude.{
  ◌==◌, ==_iff, Bool-cases, swap_test, and_false, length, pos, ◌>>=◌, ℕ, ◌<◌, ◌≡◌, refl, ap, ◌∙◌,
  inl, inr, Bool, true, false, ◌&&◌, ◌||◌, Option, some, List, [], ◌∷◌, arith,
}
use lambda_moo_plus_foo.Value.{Objid, nothing}
use lambda_moo_plus_foo.Objects.{Db, Link, same_link, load, store, ll_remove}
use lambda_moo_plus_foo.Objects.Fields.{
  stored, store-stored, load-stored, load-stored_self, valid-stored,
}
use lambda_moo_plus_foo.Objects.Chain.{has, IsDistinct, erase, has-erase, Chained}
use lambda_moo_plus_foo.Objects.Unlink.{
  Unlinked, load_of_has, Chained-stored, ll_unlink-Unlinked, Spares, Listed, stored_twice,
  Chained-stored_head,
}

module _ {F : Type 0} (ls nx : Link) (ne : same_link ls nx ≡ false)
    (ne' : same_link nx ls ≡ false) where
  abbrev pub Removed : (db : Db F) (w : ℕ) (ns : List ℕ) (m : ℕ) (r : Option (Db F)) → Type 0
  Removed db w ns m r =
      (db' : Db F) × (r ≡ some db')
      × Listed db' ls w nx (erase m ns)
      × (load nx (pos m) db' ≡ some nothing)
      × Spares db db' ls w nx ns

  -- The object is the first of the list.
  remove_head :
      (db : Db F) (w m : ℕ) (ns : List ℕ) (q : Objid) {x : Objid}
      → load ls (pos w) db ≡ some x
      → load nx (pos m) db ≡ some q
      → Chained db nx q ns
      → IsDistinct (m ∷ ns)
      → Removed db w (m ∷ ns) m (store ls (pos w) q db >>= store nx (pos m) nothing)
  remove_head db w m ns q at_w at_m c d = (
    stored nx m nothing db₁,
    rw (store-stored ls w q db at_w) (store-stored nx m nothing db₁ at_m'),
    rw erased (record {
      first = q;
      head =
          load-stored ls nx m w nothing db₁ at_m'
          ∙ rw (and_false (w == m) (same_link ls nx) ne) (load-stored_self ls w q db at_w);
      chain =
          Chained-stored db₁ nx q ns m nothing at_m' d.0
            (Chained-stored_head ls nx ne ne' db q ns w q at_w c);
    }),
    load-stored_self nx m nothing db₁ at_m',
    record {
      fields = λ g a out.
          stored_twice db ls nx w m q nothing at_w at_m' g a (ground arith) (ground arith);
      used = λ a. valid-stored nx m nothing db₁ a ∙ valid-stored ls w q db a;
    },
  )
    where
      db₁ : Db F
      db₁ = stored ls w q db

      at_m' : load nx (pos m) db₁ ≡ some q
      at_m' = load-stored nx ls w m q db at_w ∙ rw (and_false (m == w) (same_link nx ls) ne') at_m

      erased : erase m (m ∷ ns) ≡ ns
      erased = ground arith

  -- The object comes later, and the loop has bypassed it behind `k`.
  remove_later :
      (db : Db F) (w m : ℕ) (p : Objid) (ns : List ℕ) (q : Objid) (r : Option (Db F))
      → load ls (pos w) db ≡ some p
      → load nx (pos m) db ≡ some q
      → Chained db nx p ns
      → IsDistinct ns
      → has m ns ≡ true
      → Unlinked db nx p ns m q r
      → Removed db w ns m (r >>= store nx (pos m) nothing)
  remove_later db w m p ns q r at_w at_m c d i (k, k_in, k_ne, is, chain) = (
    stored nx m nothing db₁,
    rw is (store-stored nx m nothing db₁ at_m'),
    record {
      first = p;
      head =
          load-stored ls nx m w nothing db₁ at_m'
          ∙ rw (and_false (w == m) (same_link ls nx) ne) (
              load-stored ls nx k w q db at_k.1
              ∙ rw (and_false (w == k) (same_link ls nx) ne) at_w);
      chain =
          Chained-stored db₁ nx p (erase m ns) m nothing at_m' (ground (arith, has-erase m m ns d))
            chain;
    },
    load-stored_self nx m nothing db₁ at_m',
    record {
      fields = λ g a out.
          stored_twice db nx nx k m q nothing at_k.1 at_m' g a
            (untouched g a k (a == w && same_link g ls) k_in out)
            (untouched g a m (a == w && same_link g ls) i out);
      used = λ a. valid-stored nx m nothing db₁ a ∙ valid-stored nx k q db a;
    },
  )
    where
      db₁ : Db F
      db₁ = stored nx k q db

      at_k : (x : Objid) × (load nx (pos k) db ≡ some x)
      at_k = load_of_has db nx p ns k c k_in

      apart : (m == k) ≡ false
      apart = ground arith

      at_m' : load nx (pos m) db₁ ≡ some q
      at_m' = load-stored nx nx k m q db at_k.1 ∙ rw apart at_m

      untouched :
          (g : Link) (a b : ℕ) (c : Bool)
          → has b ns ≡ true
          → (c || (has a ns && same_link g nx)) ≡ false
          → (a == b && same_link g nx) ≡ false
      untouched g a b c b_in out = elim (Bool-cases (a == b)) [
        | inr e ↦ rw e refl
        | inl e ↦ ground (arith, ap (λ z. has z ns) ((==_iff a b).0 e))
      ]

  -- LL_REMOVE of a member `m` of the list of `w`, with more rounds than the list has members: it
  -- runs without a fault, the list is the old one without `m`, the link of `m` is NOTHING, and no
  -- other field of any object changes.
  pub ll_remove-Removed :
      (fuel : ℕ) (db : Db F) (w m : ℕ) (ns : List ℕ)
      → Listed db ls w nx ns
      → IsDistinct ns
      → has m ns ≡ true
      → length ns < fuel
      → Removed db w ns m (ll_remove fuel (pos w) ls (pos m) nx db)
  unfolding ll_remove
  ll_remove-Removed fuel db w m [] l d i f = cc
  ll_remove-Removed fuel db w m (n ∷ ns) l d i f =
      let (is, (q, at_n, rest)) = l.chain in
      let at_w : load ls (pos w) db ≡ some (pos n) = l.head ∙ ap some is in
      rw at_w (elim (Bool-cases (n == m)) [
        | inl e ↦
            let e' : n ≡ m = (==_iff _ _).0 e in
            let at_m : load nx (pos m) db ≡ some q = rw e' at at_n in
            rw (e, at_m, e') (remove_head db w m ns q at_w at_m rest (rw e' at d))
        | inr e ↦
            let chain : Chained db nx (pos n) (n ∷ ns) = (refl, (q, at_n, rest)) in
            let (x, at_m) = load_of_has db nx (pos n) (n ∷ ns) m chain i in
            rw e (
              remove_later db w m (pos n) (n ∷ ns) x _ at_w at_m chain d i (
                ll_unlink-Unlinked fuel db nx n ns m f chain d (λ h. cc (e, (==_iff n m).1 h))
                  (rw (swap_test n m e) at i) at_m))
      ])
