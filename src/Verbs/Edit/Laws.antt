-- ===== src/Verbs/Edit/Laws.antt =====
-- What the operations of src/db_verbs.c on verbs do to what is read back.
use lambda_moo_plus_foo.Prelude.{
  ◌==◌, ==_iff, Bool-cases, Option-cases, length, get_elem?, set, get_elem?-set_self,
  get_elem?-set_ne, ℤ, pos, ℕ, zero, suc, ◌<◌, ◌≡◌, refl, sym, inl, inr, false, ◌&&◌, Option, none,
  some, List, [], ◌∷◌, arith,
}
use lambda_moo_plus_foo.Verbs.{
  ArgSpec, aspec_code, dobj_bits, iobj_bits, flag_bits, Handle, verb_at, db_verb_flags,
  db_verb_arg_specs, aspec_none, aspec_any, aspec_this,
}
use lambda_moo_plus_foo.Verbs.Edit.{
  with_specs, with_flags, with_verbdefs, edit_verb, db_set_verb_flags, db_set_verb_arg_specs,
}
use lambda_moo_plus_foo.Objects.{short_bits, to_short, Verbdef, Object, Db, slot, changed}
use lambda_moo_plus_foo.Verbs.Cache.{CacheEntry, VerbCache, cleared, clear_cache, bucket_of}

-- The three fields of the permissions do not disturb each other.
with_specs_fields :
    (perms : ℕ) (dobj iobj : ArgSpec)
    → (dobj_bits (short_bits (with_specs (flag_bits perms) dobj iobj)) ≡ aspec_code dobj)
      × (iobj_bits (short_bits (with_specs (flag_bits perms) dobj iobj)) ≡ aspec_code iobj)
      × (flag_bits (short_bits (with_specs (flag_bits perms) dobj iobj)) ≡ flag_bits perms)
unfolding with_specs flag_bits dobj_bits iobj_bits short_bits
with_specs_fields perms aspec_none aspec_none = omega arith
with_specs_fields perms aspec_none aspec_any = omega arith
with_specs_fields perms aspec_none aspec_this = omega arith
with_specs_fields perms aspec_any aspec_none = omega arith
with_specs_fields perms aspec_any aspec_any = omega arith
with_specs_fields perms aspec_any aspec_this = omega arith
with_specs_fields perms aspec_this aspec_none = omega arith
with_specs_fields perms aspec_this aspec_any = omega arith
with_specs_fields perms aspec_this aspec_this = omega arith

-- `flags` has no bit outside PERMMASK.
abbrev pub AreFlags : ℕ → Type 0
AreFlags flags = flag_bits flags ≡ flags

with_flags_fields :
    (perms flags : ℕ)
    → AreFlags flags
    → (flag_bits (short_bits (with_flags perms flags)) ≡ flags)
      × (dobj_bits (short_bits (with_flags perms flags)) ≡ dobj_bits perms)
      × (iobj_bits (short_bits (with_flags perms flags)) ≡ iobj_bits perms)
unfolding with_flags flag_bits dobj_bits iobj_bits short_bits
with_flags_fields perms flags h = omega arith

abbrev pub handle : ℕ → ℕ → Handle
handle n i = record { definer = pos n; index = i }

pub lt-of_get_elem? {ℓ} :
    {A : Type ℓ} (xs : List A) (i : ℕ) (a : A) → get_elem? xs i ≡ some a → i < length xs
lt-of_get_elem? [] i a h = cc
lt-of_get_elem? (x ∷ xs) zero a h = omega arith
lt-of_get_elem? (x ∷ xs) (suc i) a h = omega (arith, lt-of_get_elem? xs i a h)

module _ {F : Type 0} (f : Verbdef → Verbdef) (db : Db F) (n i : ℕ) (v : Verbdef) where
  -- The table after the write.
  abbrev edited : Db F
  edited = changed n (with_verbdefs (λ vs. set vs i (f v))) db

  edit_verb-edited :
      (o : Object F)
      → db.objects n ≡ some o
      → verb_at db (handle n i) ≡ some v
      → edit_verb f (some (handle n i)) db ≡ some edited
  unfolding edit_verb
  edit_verb-edited o e at = rw (at, e) refl

  edited_here :
      (o : Object F)
      → db.objects n ≡ some o
      → get_elem? o.verbdefs i ≡ some v
      → verb_at edited (handle n i) ≡ some (f v)
  unfolding verb_at changed slot
  edited_here o e at =
      rw ((==_iff n n).1 refl, e)
        (get_elem?-set_self o.verbdefs i (f v) (lt-of_get_elem? o.verbdefs i v at))

  edited_elsewhere :
      (m j : ℕ) → (m == n && j == i) ≡ false → verb_at edited (handle m j) ≡ verb_at db (handle m j)
  unfolding verb_at changed slot
  edited_elsewhere m j h = elim (Bool-cases (m == n)) [
    | inr e ↦ rw e refl
    | inl e ↦
        let same : m ≡ n = (==_iff m n).0 e in
        let apart : ¬ (j ≡ i) = λ k. cc (h, e, (==_iff j i).1 k) in
        elim (Option-cases (db.objects n)) [
          | inl g ↦ rw (e, same, g) refl
          | inr (o, g) ↦ rw (e, same, g) (get_elem?-set_ne o.verbdefs (f v) (λ k. apart (sym k)))
        ]
  ]

-- A verb that is pointed to stands in an object.
object_of :
    {F : Type 0} (db : Db F) (n i : ℕ) (v : Verbdef)
    → verb_at db (handle n i) ≡ some v
    → (o : Object F) × (db.objects n ≡ some o) × (get_elem? o.verbdefs i ≡ some v)
unfolding verb_at slot
object_of db n i v at = elim (Option-cases (db.objects n)) [
  | inl e ↦ cc (rw e at at)
  | inr (o, e) ↦ (o, e, rw e at at)
]

cleared_empty :
    (t : Option (ℕ → List CacheEntry)) (c : VerbCache) (b : ℕ)
    → c.vc_table ≡ t
    → bucket_of (cleared t c) b ≡ []
cleared_empty none c b e = rw e refl
cleared_empty (some t) c b e = refl

pub clear_cache_empty : (c : VerbCache) (b : ℕ) → bucket_of (clear_cache c) b ≡ []
unfolding clear_cache
clear_cache_empty c b = cleared_empty c.vc_table c b refl

-- Setting the argument specifications of a verb runs without a fault and empties the cache. The two
-- of the objects are read back as they were set, and the preposition as what a `short` keeps of it.
-- The flags of the verb are as before, and so is every other verb.
pub db_set_verb_arg_specs_lem :
    {F : Type 0} (db : Db F) (c : VerbCache) (n i : ℕ) (v : Verbdef) (dobj : ArgSpec) (prep : ℤ)
    (iobj : ArgSpec)
    → verb_at db (handle n i) ≡ some v
    → (db' : Db F) × (c' : VerbCache) × (db_set_verb_arg_specs
          (some (handle n i))
          dobj
          prep
          iobj
          (db, c)
        ≡ some (db', c'))
      × (db_verb_arg_specs db' (some (handle n i))
          ≡ some (aspec_code dobj, to_short prep, aspec_code iobj))
      × (db_verb_flags db' (some (handle n i)) ≡ db_verb_flags db (some (handle n i)))
      × ((m j : ℕ)
          → (m == n && j == i) ≡ false
          → verb_at db' (handle m j) ≡ verb_at db (handle m j))
      × ((b : ℕ) → bucket_of c' b ≡ [])
unfolding db_set_verb_arg_specs db_verb_arg_specs db_verb_flags
db_set_verb_arg_specs_lem db c n i v dobj prep iobj at =
    let (o, e, in_list) = object_of db n i v at in
    let f : Verbdef → Verbdef = λ v. record v {
      perms = short_bits (with_specs (flag_bits v.perms) dobj iobj);
      prep = to_short prep;
    } in
    let here = edited_here f db n i v o e in_list in
    let (d, io, flags) = with_specs_fields v.perms dobj iobj in
    (
      edited f db n i v,
      clear_cache c,
      rw (edit_verb-edited f db n i v o e at) refl,
      rw here (rw (d, io) refl),
      rw (here, at) (rw flags refl),
      edited_elsewhere f db n i v,
      clear_cache_empty c,
    )

-- Setting the flags of a verb to bits of PERMMASK runs without a fault and empties the cache. They
-- are read back as they were set, the argument specifications are as before, and so is every other
-- verb.
pub db_set_verb_flags_lem :
    {F : Type 0} (db : Db F) (c : VerbCache) (n i : ℕ) (v : Verbdef) (flags : ℕ)
    → AreFlags flags
    → verb_at db (handle n i) ≡ some v
    → (db' : Db F) × (c' : VerbCache) × (db_set_verb_flags (some (handle n i)) flags (db, c)
        ≡ some (db', c'))
      × (db_verb_flags db' (some (handle n i)) ≡ some flags)
      × (db_verb_arg_specs db' (some (handle n i)) ≡ db_verb_arg_specs db (some (handle n i)))
      × ((m j : ℕ)
          → (m == n && j == i) ≡ false
          → verb_at db' (handle m j) ≡ verb_at db (handle m j))
      × ((b : ℕ) → bucket_of c' b ≡ [])
unfolding db_set_verb_flags db_verb_arg_specs db_verb_flags
db_set_verb_flags_lem db c n i v flags h at =
    let (o, e, in_list) = object_of db n i v at in
    let f : Verbdef → Verbdef = λ v. record v { perms = short_bits (with_flags v.perms flags) } in
    let here = edited_here f db n i v o e in_list in
    let (fl, d, io) = with_flags_fields v.perms flags h in
    (
      edited f db n i v,
      clear_cache c,
      rw (edit_verb-edited f db n i v o e at) refl,
      rw here (rw fl refl),
      rw (here, at) (rw (d, io) refl),
      edited_elsewhere f db n i v,
      clear_cache_empty c,
    )
