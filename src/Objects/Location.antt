-- ===== src/Objects/Location.antt =====
-- `db_change_location` keeps locations and contents in agreement.
use lambda_moo_plus_foo.Prelude.{
  ltb, ◌==◌, Bool-cases, Option-cases, and_false, or_left, or_right, length, pos, negsuc, ℕ, ◌<◌,
  ◌≡◌, refl, ◌∙◌, inl, inr, true, false, ◌||◌, some, List, arith,
}
use lambda_moo_plus_foo.Value.{Objid}
use lambda_moo_plus_foo.Objects.{
  Db, Link, same_link, get, valid, load, ll_remove, ll_append, when, db_change_location, location,
  contents, next,
}
use lambda_moo_plus_foo.Objects.Fields.{stored, load-stored, load-stored_self, valid-stored}
use lambda_moo_plus_foo.Objects.Chain.{erase, length-erase, erase-IsDistinct}
use lambda_moo_plus_foo.Objects.Remove.{ll_remove-Removed}
use lambda_moo_plus_foo.Objects.Append.{ll_append-Appended}
use lambda_moo_plus_foo.Objects.Forest.{
  Roles, Contained, moved, Detached, Detached-Removed, Detached-self,
}
use lambda_moo_plus_foo.Objects.Attach.{
  has-erase_self, Attached, Attached-Detached, Attached-Appended, Contained-Attached,
}

pub location_roles : Roles location contents next
location_roles = record {
  ls_nx = refl;
  nx_ls = refl;
  up_ls = refl;
  up_nx = refl;
  ls_up = refl;
  nx_up = refl;
}

-- The contents of every valid object agree with the locations.
abbrev pub Located : {F : Type 0} → Db F → (ℕ → List ℕ) → Type 0
Located = Contained location contents next

module _ {F : Type 0} where
  pub valid_pos : (db : Db F) (p : Objid) → valid db p ≡ true → (w : ℕ) × (p ≡ pos w)
  unfolding valid
  valid_pos db (pos w) h = (w, refl)
  valid_pos db (negsuc w) h = cc

  pub load_of_valid :
      (db : Db F) (g : Link) (w : ℕ)
      → valid db (pos w) ≡ true
      → (q : Objid) × (load g (pos w) db ≡ some q)
  unfolding valid load
  load_of_valid db g w h = elim (Bool-cases (ltb w db.num_objects)) [
    | inr e ↦ cc (rw e at h)
    | inl e ↦ elim (Option-cases (db.objects w)) [
      | inl gone ↦ cc (rw (e, gone) at h)
      | inr (o, is) ↦ (get g o, rw is refl)
    ]
  ]

  module _ (db : Db F) (kids : ℕ → List ℕ) (c : Located db kids) (m fuel : ℕ) where
    removal :
        (p : Objid)
        → load location (pos m) db ≡ some p
        → valid db (pos m) ≡ true
        → ((w : ℕ) → length (kids w) < fuel)
        → (db₁ : Db F) × (when (valid db p) (ll_remove fuel p contents (pos m) next) db ≡ some db₁)
          × Detached location_roles db db₁ kids m
    removal p at ok f = elim (Bool-cases (valid db p)) [
      | inr bad ↦ (
        db,
        rw bad refl,
        Detached-self location_roles db kids c m p at bad (load_of_valid db next m ok),
      )
      | inl ok_p ↦
          let (w, is) = valid_pos db p ok_p in
          let ok_w : valid db (pos w) ≡ true = rw is at ok_p in
          let at' : load location (pos m) db ≡ some (pos w) = rw is at at in
          rw (ok_p, is)
            (Detached-Removed location_roles db kids c m w _ ok_w at' (
              ll_remove-Removed contents next refl refl fuel db w m (kids w) (c.listed w ok_w)
                (c.distinct w) (c.complete w m ok_w at') (f w)))
    ]

    insertion :
        (db₁ : Db F) (l : Objid)
        → Detached location_roles db db₁ kids m
        → ((w : ℕ) → length (kids w) < fuel)
        → (db₂ : Db F) × (when (valid db₁ l) (ll_append fuel l contents (pos m) next) db₁
            ≡ some db₂)
          × Attached location_roles db db₂ kids m l
    insertion db₁ l t f = elim (Bool-cases (valid db l)) [
      | inr bad ↦
          (db₁, rw (t.used l, bad) refl, Attached-Detached location_roles db kids c m db₁ l bad t)
      | inl ok_l ↦
          let (w, is) = valid_pos db l ok_l in
          let ok_w : valid db (pos w) ≡ true = rw is at ok_l in
          rw (t.used l, ok_l, is)
            (Attached-Appended location_roles db kids c m db₁ w _ ok_w t (
              ll_append-Appended contents next refl refl fuel db₁ w m (erase m (kids w))
                (t.listed w ok_w) (erase-IsDistinct m (kids w) (c.distinct w))
                (has-erase_self m (kids w) (c.distinct w)) t.link.1
                (omega (arith, length-erase m (kids w), f w))))
    ]

  -- The outcome of moving `m` to `l`.
  pub record Relocated (db db' : Db F) (kids : ℕ → List ℕ) (m : ℕ) (l : Objid) : Type 0 where
    pub located : Located db' (moved m l kids)
    pub at_new : load location (pos m) db' ≡ some l
    pub others_stay :
        (n : ℕ) → (n == m) ≡ false → load location (pos n) db' ≡ load location (pos n) db
    pub other_fields :
        (g : Link) (n : ℕ)
        → (same_link g location || (same_link g contents || same_link g next)) ≡ false
        → load g (pos n) db' ≡ load g (pos n) db
    pub used : (a : Objid) → valid db' a ≡ valid db a

  -- In a table whose contents lists agree with the locations, moving a valid object `m` to any
  -- place `l`, with more rounds than any list has members, runs without a fault. After it `m` is
  -- gone from the list of its old place and last in that of `l`, the lists agree with the locations
  -- again, the location of `m` is `l`, and no other location, no owner, parent, child, sibling or
  -- number, and no slot changes.
  pub db_change_location-Relocated :
      (fuel : ℕ) (db : Db F) (kids : ℕ → List ℕ) (m : ℕ) (l : Objid)
      → Located db kids
      → valid db (pos m) ≡ true
      → ((w : ℕ) → length (kids w) < fuel)
      → (db' : Db F) × (db_change_location fuel (pos m) l db ≡ some db') × Relocated db db' kids m l
  unfolding db_change_location
  db_change_location-Relocated fuel db kids m l c ok f =
      let (p, at) = load_of_valid db location m ok in
      let (db₁, is₁, t) = removal db kids c m fuel p at ok f in
      let (db₂, is₂, u) = insertion db kids c m fuel db₁ l t f in
      let (is₃, final) = Contained-Attached location_roles db kids c m db₂ l at u in
      let at₂ : load location (pos m) db₂ ≡ some p = u.others location m refl refl ∙ at in
      (
        stored location m l db₂,
        rw (at, is₁, is₂) is₃,
        record {
          located = final;
          at_new = load-stored_self location m l db₂ at₂;
          others_stay = λ n ne.
              load-stored location location m n l db₂ at₂ ∙ rw ne (u.others location n refl refl);
          other_fields = λ g n h.
              load-stored g location m n l db₂ at₂
              ∙ rw (and_false (n == m) (same_link g location) (or_left _ _ h))
                  (u.others g n (or_left _ _ (or_right _ _ h)) (or_right _ _ (or_right _ _ h)));
          used = λ a. valid-stored location m l db₂ a ∙ u.used a;
        },
      )
