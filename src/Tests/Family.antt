-- ===== src/Tests/Family.antt =====
-- A parent, number 0, with the verb "look" and the property "ownership_quota", and its child, number
-- 1, with the property "color". The child's quota is clear, so that it is the parent's.
use lambda_moo_plus_foo.Prelude.{
  ltb, Bool-cases, length, get_elem?, pos, negsuc, some_injective, ℕ, zero, suc, ◌+◌, ◌<◌, ◌≡◌,
  refl, sym, ◌∙◌, ◌⊎◌, inl, inr, false, Option, none, some, [], ◌∷◌, arith,
}
use lambda_moo_plus_foo.Value.{Objid, nothing, Var, int, str, clear}
use lambda_moo_plus_foo.Objects.{Verbdef, Pval, Object, Db, dbpriv_find_object}
use lambda_moo_plus_foo.Verbs.Prepositions.{bytes}
use lambda_moo_plus_foo.Verbs.Cache.{VerbCache}
use lambda_moo_plus_foo.Objects.Ancestors.{IsNumbered, Ranked}
use lambda_moo_plus_foo.Properties.{dbpriv_new_propdef, is_clear}
use lambda_moo_plus_foo.Properties.Layout.{Laid}
use lambda_moo_plus_foo.Quota.{quota_name}
use lambda_moo_plus_foo.Tests.World.{thing}

abbrev pub look : Verbdef
look = record { name = bytes "l*ook"; program = none; owner = pos 0; perms = 13; prep = negsuc 0 }

abbrev pub pval : Var ℕ → Pval ℕ
pval v = record { var = v; owner = pos 0; perms = 7 }

abbrev pub base : Object ℕ
base = record (thing 0 nothing nothing nothing) {
  child = pos 1;
  verbdefs = look ∷ [];
  max_length = 8;
  propdefs = dbpriv_new_propdef quota_name ∷ [];
  propval = pval (int 5) ∷ [];
}

abbrev pub leaf : Object ℕ
leaf = record (thing 1 nothing nothing nothing) {
  parent = pos 0;
  max_length = 8;
  propdefs = dbpriv_new_propdef (bytes "color") ∷ [];
  propval = pval (str (bytes "red")) ∷ pval clear ∷ [];
}

abbrev pub members : ℕ → Option (Object ℕ)
members zero = some base
members (suc zero) = some leaf
members (suc (suc n)) = none

abbrev pub family : Db ℕ
family = record { objects = members; num_objects = 2; max_objects = 100; all_users = [] }

abbrev pub depth : Object ℕ → ℕ
depth o = elim o.id [ pos n ↦ n | negsuc n ↦ 0 ]

two_members :
    (q : Objid) (o : Object ℕ)
    → dbpriv_find_object family q ≡ some o
    → ((q ≡ pos 0) × (o ≡ base)) ⊎ ((q ≡ pos 1) × (o ≡ leaf))
unfolding dbpriv_find_object
two_members (pos zero) o h = inl (refl, sym (some_injective h))
two_members (pos (suc zero)) o h = inr (refl, sym (some_injective h))
two_members (pos (suc (suc n))) o h = elim (Bool-cases (ltb (suc (suc n)) 2)) [
  | inl e ↦ absurd (ground arith)
  | inr e ↦ cc (rw e at h)
]
two_members (negsuc n) o h = cc

pub base_at : dbpriv_find_object family (pos 0) ≡ some base
unfolding dbpriv_find_object
base_at = refl

pub leaf_at : dbpriv_find_object family (pos 1) ≡ some leaf
unfolding dbpriv_find_object
leaf_at = refl

no_parent : dbpriv_find_object family nothing ≡ none
unfolding dbpriv_find_object
no_parent = refl

pub family-Ranked : Ranked family depth 3
family-Ranked = record { falls = falls; below = below }
  where
    falls :
        (q : Objid) (o p : Object ℕ)
        → dbpriv_find_object family q ≡ some o
        → dbpriv_find_object family o.parent ≡ some p
        → depth p < depth o
    falls q o p e f = elim (two_members q o e) [
      | inl (a, b) ↦ cc (no_parent, rw b at f)
      | inr (a, b) ↦
          let up : base ≡ p = some_injective (sym base_at ∙ rw b at f) in
          rw (b, sym up) (omega arith)
    ]

    below : (q : Objid) (o : Object ℕ) → dbpriv_find_object family q ≡ some o → depth o + 1 < 3
    below q o e = elim (two_members q o e) [
      | inl (a, b) ↦ rw b (omega arith)
      | inr (a, b) ↦ rw b (omega arith)
    ]

pub family-IsNumbered : IsNumbered family
family-IsNumbered q o e = elim (two_members q o e) [
  | inl (a, b) ↦ rw (a, b) refl
  | inr (a, b) ↦ rw (a, b) refl
]

pub family-Laid : Laid family
family-Laid = record { topmost = topmost; inherited = inherited; unclear = unclear }
  where
    topmost :
        (q : Objid) (o : Object ℕ)
        → dbpriv_find_object family q ≡ some o
        → dbpriv_find_object family o.parent ≡ none
        → length o.propval ≡ length o.propdefs
    topmost q o e f = elim (two_members q o e) [
      | inl (a, b) ↦ rw b refl
      | inr (a, b) ↦ cc (base_at, rw b at f)
    ]

    inherited :
        (q : Objid) (o p : Object ℕ)
        → dbpriv_find_object family q ≡ some o
        → dbpriv_find_object family o.parent ≡ some p
        → length o.propval ≡ length o.propdefs + length p.propval
    inherited q o p e f = elim (two_members q o e) [
      | inl (a, b) ↦ cc (no_parent, rw b at f)
      | inr (a, b) ↦
          let up : base ≡ p = some_injective (sym base_at ∙ rw b at f) in rw (b, sym up) refl
    ]

    unclear :
        (q : Objid) (o : Object ℕ) (i : ℕ) (v : Pval ℕ)
        → dbpriv_find_object family q ≡ some o
        → i < length o.propdefs
        → get_elem? o.propval i ≡ some v
        → is_clear v.var ≡ false
    unclear q o zero v e l f = elim (two_members q o e) [
      | inl (a, b) ↦ let up : pval (int 5) ≡ v = some_injective (rw b at f) in rw (sym up) refl
      | inr (a, b) ↦
          let up : pval (str (bytes "red")) ≡ v = some_injective (rw b at f) in rw (sym up) refl
    ]
    unclear q o (suc i) v e l f = elim (two_members q o e) [
      | inl (a, b) ↦ let m = rw b at l in absurd (omega arith)
      | inr (a, b) ↦ let m = rw b at l in absurd (omega arith)
    ]

abbrev pub no_cache : VerbCache
no_cache = record {
  vc_table = none;
  vc_size = 0;
  generation = 0;
  hits = 0;
  neg_hits = 0;
  misses = 0;
}
