-- ===== src/Objects/Append.antt =====
-- LL_APPEND puts its object at the end of the list, and touches nothing else.
use lambda_moo_plus_foo.Prelude.{
  ◌==◌, ==_iff, Bool-cases, swap_test, and_false, length, pos, ◌>>=◌, ℕ, zero, suc, ◌<◌, ◌≡◌, refl,
  ap, ◌∙◌, inl, inr, Bool, true, false, ◌&&◌, ◌||◌, Option, some, List, [], ◌∷◌, ◌++◌, arith,
}
use lambda_moo_plus_foo.Value.{Objid, nothing}
use lambda_moo_plus_foo.Objects.{Db, Link, same_link, load, store, ll_last, ll_append}
use lambda_moo_plus_foo.Objects.Fields.{
  stored, store-stored, load-stored, load-stored_self, valid-stored,
}
use lambda_moo_plus_foo.Objects.Chain.{has, IsDistinct, has-append, ne_of_has, Chained}
use lambda_moo_plus_foo.Objects.Unlink.{Spares, Listed, stored_twice}

module _ {F : Type 0} where
  -- What a table must satisfy, in which the chain goes on from its last object `k` to `m`.
  abbrev Extends : Db F → Db F → Link → List ℕ → (k m : ℕ) → Type 0
  Extends db db' nx ns k m =
      ((a : ℕ) → has a ns ≡ true → (a == k) ≡ false → load nx (pos a) db' ≡ load nx (pos a) db)
      × (load nx (pos k) db' ≡ some (pos m))
      × (load nx (pos m) db' ≡ some nothing)

  -- `k` is the last object of the chain.
  abbrev IsLast : Db F → Link → Objid → List ℕ → ℕ → Type 0
  IsLast db nx p ns k =
      (has k ns ≡ true)
      × (load nx (pos k) db ≡ some nothing)
      × ((db' : Db F) (m : ℕ) → Extends db db' nx ns k m → Chained db' nx p (ns ++ m ∷ []))

  IsLast-step :
      (db : Db F) (nx : Link) (n n' : ℕ) (ns : List ℕ) (k : ℕ)
      → load nx (pos n) db ≡ some (pos n')
      → has n (n' ∷ ns) ≡ false
      → IsLast db nx (pos n') (n' ∷ ns) k
      → IsLast db nx (pos n) (n ∷ n' ∷ ns) k
  IsLast-step db nx n n' ns k at out (i, end, go_on) = (
    ground arith,
    end,
    λ db' m (same, to_m, m_end). (
      refl,
      (
        pos n',
        same n (ground arith) (swap_test k n (ne_of_has k n (n' ∷ ns) i out)) ∙ at,
        go_on db' m ((λ a a_in. same a (ground arith)), to_m, m_end),
      ),
    ),
  )

  ll_last-IsLast :
      (fuel : ℕ) (db : Db F) (nx : Link) (n : ℕ) (ns : List ℕ)
      → length (n ∷ ns) < fuel
      → Chained db nx (pos n) (n ∷ ns)
      → IsDistinct (n ∷ ns)
      → (k : ℕ) × (ll_last fuel nx (pos n) db ≡ some (pos k)) × IsLast db nx (pos n) (n ∷ ns) k
  unfolding ll_last
  ll_last-IsLast zero db nx n ns f c d = absurd (omega arith)
  ll_last-IsLast (suc fuel) db nx n [] f (is, (q, at, end)) d = (
    n,
    rw (at, end) refl,
    (
      ground arith,
      at ∙ ap some end,
      λ db' m (same, to_m, m_end). (refl, (pos m, to_m, (refl, (nothing, m_end, refl)))),
    ),
  )
  ll_last-IsLast (suc fuel) db nx n (n' ∷ ns) f (is, (q, at, rest)) d =
      let at' : load nx (pos n) db ≡ some (pos n') = at ∙ ap some rest.0 in
      let (k, found, last) = ll_last-IsLast fuel db nx n' ns (omega arith) (refl, rest.1) d.1 in
      (k, rw at' found, IsLast-step db nx n n' ns k at' d.0 last)

  module _ (ls nx : Link) (ne : same_link ls nx ≡ false) (ne' : same_link nx ls ≡ false) where
    abbrev pub Appended : (db : Db F) (w : ℕ) (ns : List ℕ) (m : ℕ) (r : Option (Db F)) → Type 0
    Appended db w ns m r =
        (db' : Db F) × (r ≡ some db')
        × Listed db' ls w nx (ns ++ m ∷ [])
        × Spares db db' ls w nx (ns ++ m ∷ [])

    append_empty :
        (db : Db F) (w m : ℕ) {x y : Objid}
        → load ls (pos w) db ≡ some x
        → load nx (pos m) db ≡ some y
        → Appended db w [] m (store ls (pos w) (pos m) db >>= store nx (pos m) nothing)
    append_empty db w m {y} at_w at_m = (
      stored nx m nothing db₁,
      rw (store-stored ls w (pos m) db at_w) (store-stored nx m nothing db₁ at_m'),
      record {
        first = pos m;
        head =
            load-stored ls nx m w nothing db₁ at_m'
            ∙ rw (and_false (w == m) (same_link ls nx) ne) (load-stored_self ls w (pos m) db at_w);
        chain = (refl, (nothing, load-stored_self nx m nothing db₁ at_m', refl));
      },
      record {
        fields = λ g a out.
            stored_twice db ls nx w m (pos m) nothing at_w at_m' g a (ground arith) (ground arith);
        used = λ a. valid-stored nx m nothing db₁ a ∙ valid-stored ls w (pos m) db a;
      },
    )
      where
        db₁ : Db F
        db₁ = stored ls w (pos m) db

        at_m' : load nx (pos m) db₁ ≡ some y
        at_m' =
            load-stored nx ls w m (pos m) db at_w
            ∙ rw (and_false (m == w) (same_link nx ls) ne') at_m

    append_behind :
        (db : Db F) (w m k : ℕ) (p : Objid) (ns : List ℕ) {y : Objid}
        → load ls (pos w) db ≡ some p
        → load nx (pos m) db ≡ some y
        → has m ns ≡ false
        → IsLast db nx p ns k
        → Appended db w ns m (store nx (pos k) (pos m) db >>= store nx (pos m) nothing)
    append_behind db w m k p ns {y} at_w at_m out (k_in, at_k, go_on) = (
      db₂,
      rw (store-stored nx k (pos m) db at_k) (store-stored nx m nothing db₁ at_m'),
      record {
        first = p;
        head = spared ls w (and_false (w == k) _ ne) (and_false (w == m) _ ne) ∙ at_w;
        chain = go_on db₂ m (
          (λ a a_in a_ne. spared nx a (rw a_ne refl) (rw (ne_of_has a m ns a_in out) refl)),
          load-stored nx nx m k nothing db₁ at_m'
              ∙ rw (ne_of_has k m ns k_in out) (load-stored_self nx k (pos m) db at_k),
          load-stored_self nx m nothing db₁ at_m',
        );
      },
      record {
        fields = λ g a free.
            spared g a
              (untouched g a k (a == w && same_link g ls) (ground (arith, has-append k ns (m ∷ [])))
                free)
              (untouched g a m (a == w && same_link g ls) (ground (arith, has-append m ns (m ∷ [])))
                free);
        used = λ a. valid-stored nx m nothing db₁ a ∙ valid-stored nx k (pos m) db a;
      },
    )
      where
        db₁ : Db F
        db₁ = stored nx k (pos m) db

        db₂ : Db F
        db₂ = stored nx m nothing db₁

        at_m' : load nx (pos m) db₁ ≡ some y
        at_m' =
            load-stored nx nx k m (pos m) db at_k
            ∙ rw (swap_test k m (ne_of_has k m ns k_in out)) at_m

        spared :
            (g : Link) (a : ℕ)
            → (a == k && same_link g nx) ≡ false
            → (a == m && same_link g nx) ≡ false
            → load g (pos a) db₂ ≡ load g (pos a) db
        spared g a = stored_twice db nx nx k m (pos m) nothing at_k at_m' g a

        untouched :
            (g : Link) (a b : ℕ) (c : Bool)
            → has b (ns ++ m ∷ []) ≡ true
            → (c || (has a (ns ++ m ∷ []) && same_link g nx)) ≡ false
            → (a == b && same_link g nx) ≡ false
        untouched g a b c b_in free = elim (Bool-cases (a == b)) [
          | inr e ↦ rw e refl
          | inl e ↦ ground (arith, ap (λ z. has z (ns ++ m ∷ [])) ((==_iff a b).0 e))
        ]

    -- LL_APPEND of an object `m` that is not in the list of `w`, with more rounds than the list has
    -- members: it runs without a fault, the list is the old one with `m` at the end, and no other
    -- field of any object changes.
    pub ll_append-Appended :
        (fuel : ℕ) (db : Db F) (w m : ℕ) (ns : List ℕ) {y : Objid}
        → Listed db ls w nx ns
        → IsDistinct ns
        → has m ns ≡ false
        → load nx (pos m) db ≡ some y
        → length ns < fuel
        → Appended db w ns m (ll_append fuel (pos w) ls (pos m) nx db)
    unfolding ll_append
    ll_append-Appended fuel db w m [] l d out at_m f =
        let at_w : load ls (pos w) db ≡ some nothing = l.head ∙ ap some l.chain in
        rw at_w (append_empty db w m at_w at_m)
    ll_append-Appended fuel db w m (n ∷ ns) l d out at_m f =
        let at_w : load ls (pos w) db ≡ some (pos n) = l.head ∙ ap some l.chain.0 in
        let (k, found, last) = ll_last-IsLast fuel db nx n ns f (refl, l.chain.1) d in
        rw (at_w, found) (append_behind db w m k (pos n) (n ∷ ns) at_w at_m out last)
