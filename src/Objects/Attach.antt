-- ===== src/Objects/Attach.antt =====
-- The second half of a move: `m` joins its new list, and its `up` is set.
use lambda_moo_plus_foo.Prelude.{
  ◌==◌, if◌then◌else◌, ==_iff, Bool-cases, and_false, or_false, if_and_true, ◌==ℤ◌, ==ℤ_iff, pos,
  some_injective, ℕ, ◌≡◌, refl, sym, ap, ◌∙◌, inl, inr, true, false, Option, some, List, [], ◌∷◌,
  ◌++◌, arith,
}
use lambda_moo_plus_foo.Value.{Objid}
use lambda_moo_plus_foo.Objects.{Db, Link, same_link, valid, load, store}
use lambda_moo_plus_foo.Objects.Fields.{
  same_link_refl, stored, store-stored, load-stored, valid-stored,
}
use lambda_moo_plus_foo.Objects.Chain.{
  has, IsDistinct, erase, has-append, has-erase, erase-IsDistinct, append-IsDistinct,
}
use lambda_moo_plus_foo.Objects.Unlink.{Listed}
use lambda_moo_plus_foo.Objects.Append.{Appended}
use lambda_moo_plus_foo.Objects.Forest.{
  Roles, Contained, moved, Listed-frame, Detached, lists_apart,
}

pub has-erase-false :
    (n m : ℕ) (xs : List ℕ) → IsDistinct xs → has n xs ≡ false → has n (erase m xs) ≡ false
has-erase-false n m xs d h = ground (arith, has-erase n m xs d)

pub has-erase_self : (m : ℕ) (xs : List ℕ) → IsDistinct xs → has m (erase m xs) ≡ false
has-erase_self m xs d = ground (arith, has-erase m m xs d)

-- The members of the lists after the move.
pub has-moved :
    (m : ℕ) (l : Objid) (kids : ℕ → List ℕ) (w n : ℕ)
    → IsDistinct (kids w)
    → has n (moved m l kids w) ≡ (if n == m then pos w ==ℤ l else has n (kids w))
has-moved m l kids w n d = elim (Bool-cases (pos w ==ℤ l)) [
  | inl e ↦
      rw (e, has-append n (erase m (kids w)) (m ∷ [])) (ground (arith, has-erase n m (kids w) d))
  | inr e ↦ rw e (ground (arith, has-erase n m (kids w) d))
]

pub moved-IsDistinct :
    (m : ℕ) (l : Objid) (kids : ℕ → List ℕ) (w : ℕ)
    → IsDistinct (kids w)
    → IsDistinct (moved m l kids w)
moved-IsDistinct m l kids w d = elim (Bool-cases (pos w ==ℤ l)) [
  | inl e ↦ rw e (
      append-IsDistinct m (erase m (kids w)) (erase-IsDistinct m (kids w) d)
        (has-erase_self m (kids w) d))
  | inr e ↦ rw e (erase-IsDistinct m (kids w) d)
]

module _ {F : Type 0} {up ls nx : Link} (roles : Roles up ls nx) where
  -- The table once `m` stands in its new list.
  pub record Attached (db db' : Db F) (kids : ℕ → List ℕ) (m : ℕ) (l : Objid) : Type 0 where
    pub listed : (w : ℕ) → valid db (pos w) ≡ true → Listed db' ls w nx (moved m l kids w)
    pub used : (a : Objid) → valid db' a ≡ valid db a
    pub others :
        (g : Link) (a : ℕ)
        → same_link g ls ≡ false
        → same_link g nx ≡ false
        → load g (pos a) db' ≡ load g (pos a) db

  module _ (db : Db F) (kids : ℕ → List ℕ) (c : Contained up ls nx db kids) (m : ℕ) where
    -- The new place is not valid: `m` joins no list.
    pub Attached-Detached :
        (db₁ : Db F) (l : Objid)
        → valid db l ≡ false
        → Detached roles db db₁ kids m
        → Attached db db₁ kids m l
    Attached-Detached db₁ l bad t = record {
      listed = λ w ok_w. elim (Bool-cases (pos w ==ℤ l)) [
        | inl e ↦ cc (ok_w, bad, (==ℤ_iff (pos w) l).0 e)
        | inr e ↦ rw e (t.listed w ok_w)
      ];
      used = t.used;
      others = t.others;
    }

    pub Attached-Appended :
        (db₁ : Db F) (w : ℕ) (r : Option (Db F))
        → valid db (pos w) ≡ true
        → Detached roles db db₁ kids m
        → Appended ls nx roles.ls_nx roles.nx_ls db₁ w (erase m (kids w)) m r
        → (db₂ : Db F) × (r ≡ some db₂) × Attached db db₂ kids m (pos w)
    Attached-Appended db₁ w r ok_w t (db₂, is, l, s) = (
      db₂,
      is,
      record {
        listed = λ v ok_v. elim (Bool-cases (v == w)) [
          | inl e ↦ rw ((==_iff v w).0 e, (==_iff w w).1 refl) l
          | inr e ↦ rw e (
              Listed-frame roles db₁ db₂ v (erase m (kids v))
                (s.fields ls v (rw e (and_false _ _ roles.ls_nx)))
                (λ a i. s.fields nx a (
                  or_false _ _ (and_false (a == w) _ roles.nx_ls)
                    (rw (not_there v a ok_v e i) refl)))
                (t.listed v ok_v))
        ];
        used = λ a. s.used a ∙ t.used a;
        others = λ g a no_ls no_nx.
            s.fields g a (or_false _ _ (and_false (a == w) _ no_ls) (and_false _ _ no_nx))
            ∙ t.others g a no_ls no_nx;
      },
    )
      where
        in_old :
            (v a : ℕ)
            → has a (erase m (kids v)) ≡ true
            → ((a == m) ≡ false) × (has a (kids v) ≡ true)
        in_old v a i = ground (arith, has-erase a m (kids v) (c.distinct v))

        not_there :
            (v a : ℕ)
            → valid db (pos v) ≡ true
            → (v == w) ≡ false
            → has a (erase m (kids v)) ≡ true
            → has a (erase m (kids w) ++ m ∷ []) ≡ false
        not_there v a ok_v ne i =
            let (ne_m, i_old) = in_old v a i in
            has-append a (erase m (kids w)) (m ∷ [])
            ∙ or_false _ _
                (has-erase-false a m (kids w) (c.distinct w)
                  (lists_apart roles db kids c m v w a ok_v ok_w ne i_old))
                (rw ne_m refl)

    -- Setting `up` makes the lists and the fields agree again.
    pub Contained-Attached :
        (db₂ : Db F) (l : Objid) {p : Objid}
        → load up (pos m) db ≡ some p
        → Attached db db₂ kids m l
        → (store up (pos m) l db₂ ≡ some (stored up m l db₂))
          × Contained up ls nx (stored up m l db₂) (moved m l kids)
    Contained-Attached db₂ l {p} at t = (
      store-stored up m l db₂ at₂,
      record {
        listed = λ w ok_w.
            Listed-frame roles db₂ (stored up m l db₂) w (moved m l kids w) (other ls w roles.ls_up)
              (λ a i. other nx a roles.nx_up) (t.listed w (back w ok_w));
        distinct = λ w. moved-IsDistinct m l kids w (c.distinct w);
        inside = λ w n ok_w i.
            ups n ∙ inside_case w n (back w ok_w) (sym (has-moved m l kids w n (c.distinct w)) ∙ i);
        complete = λ w n ok_w e.
            has-moved m l kids w n (c.distinct w)
            ∙ complete_case w n (back w ok_w) (sym (ups n) ∙ e);
      },
    )
      where
        at₂ : load up (pos m) db₂ ≡ some p
        at₂ = t.others up m roles.up_ls roles.up_nx ∙ at

        back : (w : ℕ) → valid (stored up m l db₂) (pos w) ≡ true → valid db (pos w) ≡ true
        back w ok = sym (valid-stored up m l db₂ (pos w) ∙ t.used (pos w)) ∙ ok

        other :
            (g : Link) (a : ℕ)
            → same_link g up ≡ false
            → load g (pos a) (stored up m l db₂) ≡ load g (pos a) db₂
        other g a ne = load-stored g up m a l db₂ at₂ ∙ rw (and_false (a == m) _ ne)

        ups :
            (n : ℕ)
            → load up (pos n) (stored up m l db₂) ≡ (if n == m then some l else load up (pos n) db)
        ups n =
            load-stored up up m n l db₂ at₂
            ∙ rw (same_link_refl up, t.others up n roles.up_ls roles.up_nx)
                (if_and_true (n == m) _ _)

        inside_case :
            (w n : ℕ)
            → valid db (pos w) ≡ true
            → (if n == m then pos w ==ℤ l else has n (kids w)) ≡ true
            → (if n == m then some l else load up (pos n) db) ≡ some (pos w)
        inside_case w n ok i = elim (Bool-cases (n == m)) [
          | inl e ↦ rw e (ap some (sym ((==ℤ_iff (pos w) l).0 (rw e at i))))
          | inr e ↦ rw e (c.inside w n ok (rw e at i))
        ]

        complete_case :
            (w n : ℕ)
            → valid db (pos w) ≡ true
            → (if n == m then some l else load up (pos n) db) ≡ some (pos w)
            → (if n == m then pos w ==ℤ l else has n (kids w)) ≡ true
        complete_case w n ok h = elim (Bool-cases (n == m)) [
          | inl e ↦ rw e ((==ℤ_iff (pos w) l).1 (sym (some_injective (rw e at h))))
          | inr e ↦ rw e (c.complete w n ok (rw e at h))
        ]
