-- ===== src/Objects/Forest.antt =====
-- The containment of objects in objects: a field `up` of each object against the linked lists that
-- `ls` and `nx` make. Locations and contents are one such structure, parents and children another.
use lambda_moo_plus_foo.Prelude.{
  ◌==◌, if◌then◌else◌, ==_iff, Bool-cases, swap_test, and_false, or_false, ◌==ℤ◌, pos_injective,
  pos, some_injective, ℕ, ◌≡◌, refl, sym, ◌∙◌, inl, inr, true, false, Option, some, List, [], ◌∷◌,
  ◌++◌,
}
use lambda_moo_plus_foo.Value.{Objid, nothing}
use lambda_moo_plus_foo.Objects.{Db, Link, same_link, valid, load}
use lambda_moo_plus_foo.Objects.Chain.{has, IsDistinct, erase, erase_none, Chained-frame}
use lambda_moo_plus_foo.Objects.Unlink.{Listed}
use lambda_moo_plus_foo.Objects.Remove.{Removed}

-- Three fields that are different.
pub record Roles (up ls nx : Link) : Type 0 where
  pub ls_nx : same_link ls nx ≡ false
  pub nx_ls : same_link nx ls ≡ false
  pub up_ls : same_link up ls ≡ false
  pub up_nx : same_link up nx ≡ false
  pub ls_up : same_link ls up ≡ false
  pub nx_up : same_link nx up ≡ false

-- `kids w` is the list of `w`, for each valid `w`: the linked list agrees with it, it names no
-- object twice, and its members are exactly the objects whose `up` is `w`.
pub record Contained {F : Type 0} (up ls nx : Link) (db : Db F) (kids : ℕ → List ℕ) : Type 0 where
  pub listed : (w : ℕ) → valid db (pos w) ≡ true → Listed db ls w nx (kids w)
  pub distinct : (w : ℕ) → IsDistinct (kids w)
  pub inside :
      (w n : ℕ)
      → valid db (pos w) ≡ true
      → has n (kids w) ≡ true
      → load up (pos n) db ≡ some (pos w)
  pub complete :
      (w n : ℕ)
      → valid db (pos w) ≡ true
      → load up (pos n) db ≡ some (pos w)
      → has n (kids w) ≡ true

-- The lists after `m` has moved to `l`: `m` leaves its list, and comes last in that of `l`.
abbrev pub moved : ℕ → Objid → (ℕ → List ℕ) → ℕ → List ℕ
moved m l kids w = if pos w ==ℤ l then erase m (kids w) ++ m ∷ [] else erase m (kids w)

module _ {F : Type 0} {up ls nx : Link} (roles : Roles up ls nx) where
  pub Listed-frame :
      (db db' : Db F) (w : ℕ) (ns : List ℕ)
      → load ls (pos w) db' ≡ load ls (pos w) db
      → ((a : ℕ) → has a ns ≡ true → load nx (pos a) db' ≡ load nx (pos a) db)
      → Listed db ls w nx ns
      → Listed db' ls w nx ns
  Listed-frame db db' w ns same_head same l = record {
    first = l.first;
    head = same_head ∙ l.head;
    chain = Chained-frame db db' nx l.first ns same l.chain;
  }

  -- The table once `m` has left its list: its own `up` still names where it was.
  pub record Detached (db db' : Db F) (kids : ℕ → List ℕ) (m : ℕ) : Type 0 where
    pub listed : (w : ℕ) → valid db (pos w) ≡ true → Listed db' ls w nx (erase m (kids w))
    pub link : (q : Objid) × (load nx (pos m) db' ≡ some q)
    pub used : (a : Objid) → valid db' a ≡ valid db a
    pub others :
        (g : Link) (a : ℕ)
        → same_link g ls ≡ false
        → same_link g nx ≡ false
        → load g (pos a) db' ≡ load g (pos a) db

  module _ (db : Db F) (kids : ℕ → List ℕ) (c : Contained up ls nx db kids) (m : ℕ) where
    -- Two lists share no object.
    pub lists_apart :
        (w v a : ℕ)
        → valid db (pos w) ≡ true
        → valid db (pos v) ≡ true
        → (w == v) ≡ false
        → has a (kids w) ≡ true
        → has a (kids v) ≡ false
    lists_apart w v a ok_w ok_v ne i = elim (Bool-cases (has a (kids v))) [
      | inr e ↦ e
      | inl e ↦ cc (
        ne,
        (==_iff w v).1
            (pos_injective (some_injective (sym (c.inside w a ok_w i) ∙ c.inside v a ok_v e))),
      )
    ]

    pub Detached-Removed :
        (w : ℕ) (r : Option (Db F))
        → valid db (pos w) ≡ true
        → load up (pos m) db ≡ some (pos w)
        → Removed ls nx roles.ls_nx roles.nx_ls db w (kids w) m r
        → (db' : Db F) × (r ≡ some db') × Detached db db' kids m
    Detached-Removed w r ok_w at (db', is, l, m_end, s) = (
      db',
      is,
      record {
        listed = λ v ok_v. elim (Bool-cases (v == w)) [
          | inl e ↦ rw ((==_iff v w).0 e) l
          | inr e ↦ rw (not_there v ok_v e) (
              Listed-frame db db' v (kids v)
                (s.fields ls v (rw e (and_false (has v (kids w)) _ roles.ls_nx)))
                (λ a i. s.fields nx a (
                  rw (lists_apart v w a ok_v ok_w e i)
                    (or_false _ _ (and_false (a == w) _ roles.nx_ls) refl)))
                (c.listed v ok_v))
        ];
        link = (nothing, m_end);
        used = s.used;
        others = λ g a no_ls no_nx.
            s.fields g a
              (or_false _ _ (and_false (a == w) _ no_ls) (and_false (has a (kids w)) _ no_nx));
      },
    )
      where
        not_there : (v : ℕ) → valid db (pos v) ≡ true → (v == w) ≡ false → erase m (kids v) ≡ kids v
        not_there v ok_v ne =
            erase_none m (kids v)
              (lists_apart w v m ok_w ok_v (swap_test v w ne) (c.complete w m ok_w at))

    -- An object whose `up` is not valid is in no list.
    pub Detached-self :
        (p : Objid)
        → load up (pos m) db ≡ some p
        → valid db p ≡ false
        → ((q : Objid) × (load nx (pos m) db ≡ some q))
        → Detached db db kids m
    Detached-self p at bad link = record {
      listed = λ w ok_w. rw (erase_none m (kids w) (absent w ok_w)) (c.listed w ok_w);
      link = link;
      used = λ a. refl;
      others = λ g a no_ls no_nx. refl;
    }
      where
        absent : (w : ℕ) → valid db (pos w) ≡ true → has m (kids w) ≡ false
        absent w ok_w = elim (Bool-cases (has m (kids w))) [
          | inr e ↦ e
          | inl e ↦ cc (ok_w, bad, some_injective (sym (c.inside w m ok_w e) ∙ at))
        ]
