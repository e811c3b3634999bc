-- ===== src/Objects/Fields.antt =====
-- Reading a field of the table after a write.
use lambda_moo_plus_foo.Prelude.{
  ltb, ◌==◌, if◌then◌else◌, ==_iff, Bool-cases, Option-cases, some_if, pos, negsuc, ℕ, ◌≡◌, refl,
  ap, ◌∙◌, inl, inr, true, ◌&&◌, Option, none, some,
}
use lambda_moo_plus_foo.Value.{Objid}
use lambda_moo_plus_foo.Objects.{
  Object, Db, Link, same_link, get, put, is_some, valid, map_slot, changed, load, store, id, owner,
  location, contents, next, parent, child, sibling,
}

pub same_link_refl : (f : Link) → same_link f f ≡ true
same_link_refl id = refl
same_link_refl _ = refl

module _ {F : Type 0} where
  get-put :
      (f g : Link) (v : Objid) (o : Object F)
      → get g (put f v o) ≡ (if same_link g f then v else get g o)
  unfolding get put
  get-put id id v o = refl
  get-put id owner v o = refl
  get-put id _ v o = refl
  get-put owner id v o = refl
  get-put owner owner v o = refl
  get-put owner _ v o = refl
  get-put location id v o = refl
  get-put location _ v o = refl
  get-put contents id v o = refl
  get-put contents _ v o = refl
  get-put next id v o = refl
  get-put next _ v o = refl
  get-put parent id v o = refl
  get-put parent _ v o = refl
  get-put child id v o = refl
  get-put child _ v o = refl
  get-put sibling id v o = refl
  get-put sibling _ v o = refl

  -- The table after a store that succeeds.
  abbrev pub stored : Link → ℕ → Objid → Db F → Db F
  stored f k v db = changed k (put f v) db

  pub store-stored :
      (f : Link) (k : ℕ) (v : Objid) (db : Db F) {x : Objid}
      → load f (pos k) db ≡ some x
      → store f (pos k) v db ≡ some (stored f k v db)
  unfolding store load
  store-stored f k v db h = elim (Option-cases (db.objects k)) [
    | inl e ↦ cc (rw e at h)
    | inr (o, e) ↦ rw e refl
  ]

  -- Reading any field after a store: the new value there, and what stood elsewhere.
  pub load-stored :
      (g f : Link) (k a : ℕ) (v : Objid) (db : Db F) {x : Objid}
      → load f (pos k) db ≡ some x
      → load g (pos a) (stored f k v db)
        ≡ (if a == k && same_link g f then some v else load g (pos a) db)
  unfolding load changed
  load-stored g f k a v db h = elim (Bool-cases (a == k)) [
    | inr e ↦ rw e refl
    | inl e ↦ elim (Option-cases (db.objects k)) [
      | inl none_there ↦ cc (rw none_there at h)
      | inr (o, is) ↦
          rw (e, (==_iff _ _).0 e, is)
            (ap some (get-put f g v o) ∙ some_if (same_link g f) v (get g o))
    ]
  ]

  pub load-stored_self :
      (f : Link) (k : ℕ) (v : Objid) (db : Db F) {x : Objid}
      → load f (pos k) db ≡ some x
      → load f (pos k) (stored f k v db) ≡ some v
  load-stored_self f k v db h =
      load-stored f f k k v db h ∙ rw ((==_iff k k).1 refl, same_link_refl f)

  is_some-map_slot :
      (f : Object F → Object F) (c : Option (Object F)) → is_some (map_slot f c) ≡ is_some c
  is_some-map_slot f none = refl
  is_some-map_slot f (some o) = refl

  -- A store changes neither which slots are used nor the size of the table.
  pub valid-stored :
      (f : Link) (k : ℕ) (v : Objid) (db : Db F) (a : Objid)
      → valid (stored f k v db) a ≡ valid db a
  unfolding valid changed
  valid-stored f k v db (negsuc a) = refl
  valid-stored f k v db (pos a) = elim (Bool-cases (a == k)) [
    | inr e ↦ rw e refl
    | inl e ↦ elim (Bool-cases (ltb k db.num_objects)) [
      | inl low ↦ rw (e, (==_iff _ _).0 e, low) (is_some-map_slot (put f v) (db.objects k))
      | inr high ↦ rw ((==_iff _ _).0 e, high) refl
    ]
  ]
