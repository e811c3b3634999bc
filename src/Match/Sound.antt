-- ===== src/Match/Sound.antt =====
-- What src/match.c finds is near the player, and has the name.
use lambda_moo_plus_foo.Prelude.{
  Bool-cases, Option-cases, length, drop, ◌==ℤ◌, ==ℤ_iff, pos, negsuc, ℕ, zero, suc, ◌<◌, ◌≡◌, refl,
  sym, ◌∙◌, ◌⊎◌, inl, inr, true, ◌||◌, some, List, [], ◌∷◌, arith,
}
use lambda_moo_plus_foo.Text.{Text, mystrncasecmp}
use lambda_moo_plus_foo.Value.{Objid, nothing, ambiguous, failed_match, Var, str}
use lambda_moo_plus_foo.Objects.{Object, Db, slot, valid, load, location, next}
use lambda_moo_plus_foo.Objects.Chain.{has, Chained}
use lambda_moo_plus_foo.Match.{
  MatchData, Enumeration, and_then, exact_match, partial_match, at_end, match_name, match_aliases,
  match_proc, match_chain, db_for_all_contents, match_step, verdict, match_contents, lost, stopped,
  done,
}
use lambda_moo_plus_foo.Objects.Location.{Located, load_of_valid}

-- The data so far name objects in `Q` only.
abbrev pub IsSound : (Objid → Type 0) → MatchData → Type 0
IsSound Q d =
    ((d.exact ≡ nothing) ⊎ Q d.exact)
    × ((d.partial ≡ failed_match) ⊎ ((d.partial ≡ ambiguous) ⊎ Q d.partial))

abbrev Finds : (Objid → Type 0) → Enumeration → Type 0
Finds Q lost = ⊥
Finds Q stopped = Unit
Finds Q (done d) = IsSound Q d

Finds-and_then :
    (Q : Objid → Type 0) (e : Enumeration) (f : MatchData → Enumeration)
    → Finds Q e
    → ((d : MatchData) → IsSound Q d → Finds Q (f d))
    → Finds Q (and_then e f)
Finds-and_then Q lost f h k = h
Finds-and_then Q stopped f h k = h
Finds-and_then Q (done d) f h k = k d h

-- The first `length what` characters of the name are those of `what`, but for case.
abbrev pub Starts : Text → Text → Type 0
Starts what name = mystrncasecmp name what (length what) ≡ pos 0

exact_match-Finds :
    (Q : Objid → Type 0) (oid : Objid) (d : MatchData)
    → Q oid
    → IsSound Q d
    → Finds Q (exact_match oid d)
unfolding exact_match
exact_match-Finds Q oid d q s = elim (Bool-cases (d.exact ==ℤ nothing || d.exact ==ℤ oid)) [
  | inl e ↦ rw e (inr q, s.1)
  | inr e ↦ rw e tt
]

partial_match-Finds :
    (Q : Objid → Type 0) (oid : Objid) (d : MatchData)
    → Q oid
    → IsSound Q d
    → Finds Q (partial_match oid d)
unfolding partial_match
partial_match-Finds Q oid d q s =
    elim (Bool-cases (d.partial ==ℤ failed_match || d.partial ==ℤ oid)) [
      | inl e ↦ rw e (s.0, inr (inr q))
      | inr e ↦ rw e (s.0, inr (inl refl))
    ]

match_name-Finds :
    (Q : Objid → Type 0) (what : Text) (oid : Objid) (name : Text) (d : MatchData)
    → (Starts what name → Q oid)
    → IsSound Q d
    → Finds Q (match_name what oid name d)
unfolding match_name
match_name-Finds Q what oid name d q s =
    elim (Bool-cases (mystrncasecmp name what (length what) ==ℤ pos 0)) [
      | inr e ↦ rw e s
      | inl e ↦
          let is : Q oid = q ((==ℤ_iff _ _).0 e) in
          elim (Bool-cases (at_end (drop (length what) name))) [
            | inl f ↦ rw (e, f) (exact_match-Finds Q oid d is s)
            | inr f ↦ rw (e, f) (partial_match-Finds Q oid d is s)
          ]
    ]

module _ {F : Type 0} (aliases : Objid → List (Var F)) (db : Db F) (what : Text) where
  abbrev pub IsAmong : List (Var F) → Text → Type 0
  IsAmong [] name = ⊥
  IsAmong (v ∷ vs) name = (v ≡ str name) ⊎ IsAmong vs name

  -- One of the names of the object, its own or an alias, starts with `what`.
  abbrev pub HasName : Objid → Type 0
  HasName oid =
      (name : Text) × (((o : Object F) × (slot db oid ≡ some o) × (o.name ≡ name))
        ⊎ IsAmong (aliases oid) name)
      × Starts what name

  match_aliases-Finds :
      (Q : Objid → Type 0) (oid : Objid) (vs : List (Var F)) (d : MatchData)
      → ((name : Text) → IsAmong vs name → Starts what name → Q oid)
      → IsSound Q d
      → Finds Q (match_aliases aliases what oid vs d)
  unfolding match_aliases
  match_aliases-Finds Q oid [] d q s = s
  match_aliases-Finds Q oid (str name ∷ vs) d q s =
      Finds-and_then Q (match_name what oid name d) (match_aliases aliases what oid vs)
        (match_name-Finds Q what oid name d (q name (inl refl)) s)
        (λ d' s'. match_aliases-Finds Q oid vs d' (λ n i. q n (inr i)) s')
  match_aliases-Finds Q oid (_ ∷ vs) d q s = match_aliases-Finds Q oid vs d (λ n i. q n (inr i)) s

  match_proc-Finds :
      (Q : Objid → Type 0) (oid : Objid) (o : Object F) (d : MatchData)
      → slot db oid ≡ some o
      → (HasName oid → Q oid)
      → IsSound Q d
      → Finds Q (match_proc aliases db what d oid)
  unfolding match_proc
  match_proc-Finds Q oid o d at q s = rw at (
      Finds-and_then Q (match_name what oid o.name d) (match_aliases aliases what oid (aliases oid))
        (match_name-Finds Q what oid o.name d (λ m. q (o.name, inl (o, at, refl), m)) s)
        (λ d' s'. match_aliases-Finds Q oid (aliases oid) d' (λ n i m. q (n, inr i, m)) s'))

  loaded : (oid p : Objid) → load next oid db ≡ some p → (o : Object F) × (slot db oid ≡ some o)
  unfolding load
  loaded oid p at = elim (Option-cases (slot db oid)) [
    | inl e ↦ absurd (cc (rw e at at))
    | inr r ↦ r
  ]

  match_chain-Finds :
      (Q : Objid → Type 0) (fuel : ℕ) (c : Objid) (ns : List ℕ) (d : MatchData)
      → Chained db next c ns
      → length ns < fuel
      → ((k : ℕ) → has k ns ≡ true → HasName (pos k) → Q (pos k))
      → IsSound Q d
      → Finds Q (match_chain aliases fuel db what c d)
  unfolding match_chain
  match_chain-Finds Q zero c ns d ch h q s = absurd (omega arith)
  match_chain-Finds Q (suc fuel) c [] d ch h q s = rw ch s
  match_chain-Finds Q (suc fuel) c (n ∷ ns) d (is, (p, at, ch)) h q s =
      let (o, e) = loaded (pos n) p at in
      rw (is, at)
        (Finds-and_then Q (match_proc aliases db what d (pos n)) _
          (match_proc-Finds Q (pos n) o d e (q n (ground arith)) s)
          (λ d' s'.
            match_chain-Finds Q fuel p ns d' ch (omega arith) (λ k i. q k (ground arith)) s'))

  -- Near `p`: contained in it or where it is.
  abbrev pub IsNear : ℕ → Objid → Type 0
  IsNear p r = (load location r db ≡ some (pos p)) ⊎ (load location r db ≡ load location (pos p) db)

  match_step-Finds :
      (kids : ℕ → List ℕ) (Q : Objid → Type 0) (fuel : ℕ) (w : Objid) (d : MatchData)
      → Located db kids
      → ((w : ℕ) → length (kids w) < fuel)
      → ((k : ℕ) → load location (pos k) db ≡ some w → HasName (pos k) → Q (pos k))
      → IsSound Q d
      → Finds Q (match_step aliases fuel db what w d)
  unfolding match_step db_for_all_contents valid
  match_step-Finds kids Q fuel (negsuc w) d l h q s = s
  match_step-Finds kids Q fuel (pos w) d l h q s = elim (Bool-cases (valid db (pos w))) [
    | inr e ↦ rw e s
    | inl e ↦
        let r = l.listed w e in
        rw (e, r.head)
          (match_chain-Finds Q fuel r.first (kids w) d r.chain (h w) (λ k i. q k (l.inside w k e i))
            s)
  ]

  abbrev IsAnswer : (Objid → Type 0) → Objid → Type 0
  IsAnswer Q r = (r ≡ ambiguous) ⊎ ((r ≡ failed_match) ⊎ Q r)

  verdict-Finds :
      (Q : Objid → Type 0) (e : Enumeration)
      → Finds Q e
      → (r : Objid) × (verdict aliases e ≡ some r) × IsAnswer Q r
  verdict-Finds Q lost h = absurd h
  verdict-Finds Q stopped h = (ambiguous, refl, inl refl)
  verdict-Finds Q (done d) h = elim (Bool-cases (d.exact ==ℤ nothing)) [
    | inl e ↦ (
      d.partial,
      rw e refl,
      elim h.1 [ inl f ↦ inr (inl f) | inr (inl a) ↦ inl a | inr (inr q) ↦ inr (inr q) ],
    )
    | inr e ↦ (
      d.exact,
      rw e refl,
      elim h.0 [ inl f ↦ absurd (cc (e, (==ℤ_iff _ _).1 f)) | inr q ↦ inr (inr q) ],
    )
  ]

  both_rounds :
      (fuel : ℕ) (player loc : Objid)
      → valid db player ≡ true
      → load location player db ≡ some loc
      → match_contents aliases fuel db player what
        ≡ verdict aliases (
            and_then
              (match_step aliases fuel db what player
                (record { exact = nothing; partial = failed_match }))
              (match_step aliases fuel db what loc))
  unfolding match_contents
  both_rounds fuel player loc v at = rw (v, at) refl

  -- In a table whose contents lists agree with the locations, and with more rounds than any list has
  -- members, matching a name near a valid player runs without a fault, and gives AMBIGUOUS,
  -- FAILED_MATCH, or an object that is in the player or has the player's location, and has a name
  -- that starts with the text, but for case.
  pub match_contents-IsNear :
      (kids : ℕ → List ℕ) (fuel p : ℕ)
      → Located db kids
      → ((w : ℕ) → length (kids w) < fuel)
      → valid db (pos p) ≡ true
      → (r : Objid) × (match_contents aliases fuel db (pos p) what ≡ some r)
        × ((r ≡ ambiguous) ⊎ ((r ≡ failed_match) ⊎ (HasName r × IsNear p r)))
  unfolding match_contents
  match_contents-IsNear kids fuel p l h v =
      let (loc, at) = load_of_valid db location p v in
      let (r, is, answer) =
        verdict-Finds (λ r. HasName r × IsNear p r) _
          (Finds-and_then (λ r. HasName r × IsNear p r)
            (match_step aliases fuel db what (pos p)
              (record { exact = nothing; partial = failed_match }))
            (match_step aliases fuel db what loc)
            (match_step-Finds kids _ fuel (pos p) _ l h (λ k i n. (n, inl i)) (inl refl, inl refl))
            (λ d s. match_step-Finds kids _ fuel loc d l h (λ k i n. (n, inr (i ∙ sym at))) s)) in
      (r, both_rounds fuel (pos p) loc v at ∙ is, answer)
