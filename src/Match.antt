-- ===== src/Match.antt =====
-- Matching a name against the objects near a player: src/match.c, with `db_for_all_contents` of
-- src/db_objects.c. The value of the property "aliases" is an argument (its elements, or none if
-- there is no such list), and so is `strtol` of the C library.
pub mod Sound
use lambda_moo_plus_foo.Prelude.{
  ◌==◌, if◌then◌else◌, length, drop, ℤ, ◌==ℤ◌, pos, ◌>>=◌, ℕ, zero, suc, Bool, true, false, ◌&&◌,
  ◌||◌, Option, none, some, List, [], ◌∷◌,
}
use lambda_moo_plus_foo.Text.{Text, mystrcasecmp, mystrncasecmp}
use lambda_moo_plus_foo.Value.{Objid, nothing, ambiguous, failed_match, Var, str}
use lambda_moo_plus_foo.Objects.{Object, Db, slot, valid, load, location, contents, next}

pub record MatchData : Type 0 where
  pub exact : Objid
  pub partial : Objid

-- An enumeration with a callback: a fault, a callback that returned 1, or the data at the end.
pub data Enumeration : Type 0 where
  lost : Enumeration
  stopped : Enumeration
  done : MatchData → Enumeration

abbrev pub and_then : Enumeration → (MatchData → Enumeration) → Enumeration
and_then lost f = lost
and_then stopped f = stopped
and_then (done d) f = f d

unfoldable pub exact_match : Objid → MatchData → Enumeration
exact_match oid d =
    if d.exact ==ℤ nothing || d.exact ==ℤ oid then done (record d { exact = oid }) else stopped

unfoldable pub partial_match : Objid → MatchData → Enumeration
partial_match oid d =
    if d.partial ==ℤ failed_match || d.partial ==ℤ oid
    then done (record d { partial = oid })
    else done (record d { partial = ambiguous })

abbrev pub at_end : Text → Bool
at_end [] = true
at_end (c ∷ s) = false

-- The body of the loop over the names of `oid`; `name[lname]` is the end of the name or not.
unfoldable pub match_name : Text → Objid → Text → MatchData → Enumeration
unfolding exact_match partial_match
match_name what oid name d =
    if mystrncasecmp name what (length what) ==ℤ pos 0
    then (if at_end (drop (length what) name) then exact_match oid d else partial_match oid d)
    else done d

module _ {F : Type 0} (aliases : Objid → List (Var F)) where
  unfoldable pub match_aliases : Text → Objid → List (Var F) → MatchData → Enumeration
  match_aliases what oid [] d = done d
  match_aliases what oid (str name ∷ vs) d =
      and_then (match_name what oid name d) (match_aliases what oid vs)
  match_aliases what oid (v ∷ vs) d = match_aliases what oid vs d

  -- The object's own name comes first.
  unfoldable pub match_names : Text → Objid → MatchData → Option (Object F) → Enumeration
  match_names what oid d none = lost
  match_names what oid d (some o) =
      and_then (match_name what oid o.name d) (match_aliases what oid (aliases oid))

  unfoldable pub match_proc : Db F → Text → MatchData → Objid → Enumeration
  unfolding match_names
  match_proc db what d oid = match_names what oid d (slot db oid)

  abbrev pub from_link : (Objid → MatchData → Enumeration) → Option Objid → MatchData → Enumeration
  from_link f none d = lost
  from_link f (some q) d = f q d

  -- `db_for_all_contents` with this callback, from the object `c` on.
  unfoldable pub match_chain : ℕ → Db F → Text → Objid → MatchData → Enumeration
  match_chain zero db what c d = lost
  match_chain (suc fuel) db what c d =
      if c ==ℤ nothing
      then done d
      else and_then (match_proc db what d c) (from_link (match_chain fuel db what) (load next c db))

  unfoldable pub db_for_all_contents : ℕ → Db F → Text → Objid → MatchData → Enumeration
  unfolding match_chain
  db_for_all_contents fuel db what oid = from_link (match_chain fuel db what) (load contents oid db)

  -- One round of the loop over the player and its location.
  unfoldable pub match_step : ℕ → Db F → Text → Objid → MatchData → Enumeration
  match_step fuel db what oid d =
      if valid db oid then db_for_all_contents fuel db what oid d else done d

  abbrev pub verdict : Enumeration → Option Objid
  verdict lost = none
  verdict stopped = some ambiguous
  verdict (done d) = some (if d.exact ==ℤ nothing then d.partial else d.exact)

  unfoldable pub match_contents : ℕ → Db F → Objid → Text → Option Objid
  unfolding match_step
  match_contents fuel db player name =
      if valid db player
      then (load location player db >>= λ loc. verdict (
          and_then
            (match_step fuel db name player (record { exact = nothing; partial = failed_match }))
            (match_step fuel db name loc)))
      else some failed_match

  abbrev pub match_number : Db F → ℤ × Text → Objid
  match_number db r = if at_end r.1 && valid db r.0 then r.0 else failed_match

  unfoldable pub match_object : (Text → ℤ × Text) → ℕ → Db F → Objid → Text → Option Objid
  unfolding match_contents
  match_object strtol fuel db player [] = some nothing
  match_object strtol fuel db player (c ∷ s) =
      if c == b'#'
      then some (match_number db (strtol s))
      else (if valid db player
          then (if mystrcasecmp (c ∷ s) (b'm' ∷ b'e' ∷ []) ==ℤ pos 0
              then some player
              else (if mystrcasecmp (c ∷ s) (b'h' ∷ b'e' ∷ b'r' ∷ b'e' ∷ []) ==ℤ pos 0
                  then load location player db
                  else match_contents fuel db player (c ∷ s)))
          else some failed_match)
