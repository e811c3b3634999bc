-- ===== src/Verbs/Cache.antt =====
-- The cache of verb lookups in src/db_verbs.c. The table is null until the first lookup; a bucket is
-- a list of entries, the newest first. An entry without a verb records a lookup that failed.
pub mod Lookup
pub mod Refines
use Prim.Native.Nat.{bit_xor}
use lambda_moo_plus_foo.Prelude.{
  ◌==◌, if◌then◌else◌, ◌==ℤ◌, pos, ◌>>=◌, ℕ, zero, suc, ◌+◌, ◌-◌, ◌%◌, ◌^◌, Bool, true, false, ◌&&◌,
  Option, none, some, List, [], ◌∷◌,
}
use lambda_moo_plus_foo.Text.{Text, mystrcasecmp, str_hash}
use lambda_moo_plus_foo.Value.{Objid, nothing}
use lambda_moo_plus_foo.Int32.{of_ℤ}
use lambda_moo_plus_foo.Objects.{Verbdef, Object, Db, dbpriv_find_object, id, parent}
use lambda_moo_plus_foo.Verbs.{Same, Handle, find_verbdef_by_name, first_ancestor}

-- `vc_entry`.
pub record CacheEntry : Type 0 where
  pub hash : ℕ
  pub oid_key : Objid
  pub verbname : Text
  pub found : Option Handle

-- The static variables.
pub record VerbCache : Type 0 where
  pub vc_table : Option (ℕ → List CacheEntry)
  pub vc_size : ℕ
  pub generation : ℕ
  pub hits : ℕ
  pub neg_hits : ℕ
  pub misses : ℕ

abbrev pub default_vc_size : ℕ
default_vc_size = 7507

-- `db_priv_affected_callable_verb_lookup`: every change of verbs or parents empties the cache.
abbrev pub cleared : Option (ℕ → List CacheEntry) → VerbCache → VerbCache
cleared none c = c
cleared (some t) c = record c { vc_table = some (λ b. []); generation = c.generation + 1 }

unfoldable pub clear_cache : VerbCache → VerbCache
clear_cache c = cleared c.vc_table c

unfoldable pub make_vc_table : ℕ → VerbCache → VerbCache
make_vc_table size c = record c { vc_table = some (λ b. []); vc_size = size }

-- `if (vc_table == NULL) make_vc_table(DEFAULT_VC_SIZE);`
abbrev pub made_from : Option (ℕ → List CacheEntry) → VerbCache → VerbCache
made_from none c = make_vc_table default_vc_size c
made_from (some t) c = c

abbrev pub made : VerbCache → VerbCache
made c = made_from c.vc_table c

abbrev pub bucket_in : Option (ℕ → List CacheEntry) → ℕ → List CacheEntry
bucket_in none b = []
bucket_in (some t) b = t b

abbrev pub bucket_of : VerbCache → ℕ → List CacheEntry
bucket_of c b = bucket_in c.vc_table b

-- `str_hash(verb) ^ (~first_parent_with_verbs)`
unfoldable pub verb_hash : Text → Objid → ℕ
verb_hash verb key = bit_xor (str_hash verb) (2 ^ 32 - 1 - of_ℤ key)

abbrev pub is_entry : ℕ → Objid → Text → CacheEntry → Bool
is_entry hash key verb e =
    e.hash == hash && (key ==ℤ e.oid_key && (mystrcasecmp verb e.verbname ==ℤ pos 0))

-- The loop over a bucket.
unfoldable pub find_cached : ℕ → Objid → Text → List CacheEntry → Option CacheEntry
find_cached hash key verb [] = none
find_cached hash key verb (e ∷ es) =
    if is_entry hash key verb e then some e else find_cached hash key verb es

-- A hit counts as negative if the entry holds no verb.
abbrev pub count_hit : Option Handle → VerbCache → VerbCache
count_hit none c = record c { neg_hits = c.neg_hits + 1 }
count_hit (some h) c = record c { hits = c.hits + 1 }

unfoldable pub add_entry : ℕ → CacheEntry → VerbCache → VerbCache
add_entry b e c = record c {
  vc_table = some (λ n. if n == b then e ∷ bucket_of c b else bucket_of c n);
}

abbrev pub any_verbs : List Verbdef → Bool
any_verbs [] = false
any_verbs (v ∷ vs) = true

abbrev pub stored_answer : VerbCache → ℕ → Text → Objid → Option Handle → Option Handle × VerbCache
stored_answer c hash verb key found = (
  found,
  add_entry (hash % c.vc_size)
      (record { hash = hash; oid_key = key; verbname = verb; found = found })
      (record c { misses = c.misses + 1 }),
)

module _ {F : Type 0} where
  -- The first loop: the nearest ancestor that defines any verbs.
  unfoldable pub parent_with_verbs : ℕ → Db F → Option (Object F) → Option (Option (Object F))
  parent_with_verbs zero db o = none
  parent_with_verbs (suc fuel) db none = some none
  parent_with_verbs (suc fuel) db (some o) =
      let rest = parent_with_verbs fuel db (dbpriv_find_object db o.parent) in
      if any_verbs o.verbdefs then some (some o) else rest

  abbrev pub key_of : Option (Object F) → Objid
  key_of none = nothing
  key_of (some o) = o.id

  -- The second loop: the first ancestor with a verb of that name that may be executed.
  unfoldable pub callable_from : Same → ℕ → Db F → Text → Option (Object F) → Option (Option Handle)
  unfolding first_ancestor find_verbdef_by_name
  callable_from same fuel db verb =
      first_ancestor fuel db (λ d vs. find_verbdef_by_name same d vs verb true)

  -- Behind the search of the bucket.
  unfoldable pub answer :
      Same
      → ℕ
      → Db F
      → Text
      → ℕ
      → Option (Object F)
      → VerbCache
      → Option CacheEntry
      → Option (Option Handle × VerbCache)
  unfolding callable_from add_entry
  answer same fuel db verb hash o c (some e) = some (e.found, count_hit e.found c)
  answer same fuel db verb hash o c none = callable_from same fuel db verb o >>= λ found.
      some (stored_answer c hash verb (key_of o) found)

  unfoldable pub db_find_callable_verb :
      Same → ℕ → Db F → Objid → Text → VerbCache → Option (Option Handle × VerbCache)
  unfolding parent_with_verbs answer find_cached
  db_find_callable_verb same fuel db oid verb c = do
    o ← parent_with_verbs fuel db (dbpriv_find_object db oid)
    let hash = verb_hash verb (key_of o)
    let bucket = bucket_of (made c) (hash % (made c).vc_size)
    answer same fuel db verb hash o (made c) (find_cached hash (key_of o) verb bucket)
