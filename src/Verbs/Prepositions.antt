-- ===== src/Verbs/Prepositions.antt =====
-- The prepositions of src/db_verbs.c: their table, and matching words against it. `strtol` of the C
-- library is an argument; a `long` that is stored in a `db_prep_spec` keeps its low 32 bits.
pub mod Bounds
pub mod Names
use Prim.Native.Char.{code}
use Prim.Native.String.{String}
use lambda_moo_plus_foo.Prelude.{
  leb, ◌==◌, if◌then◌else◌, length, get_elem?, ℤ, ◌==ℤ◌, ltb_ℤ, pos, negsuc, ◌>>=◌, push, ℕ, zero,
  suc, ◌+◌, ◌-◌, Bool, true, false, not, ◌&&◌, ◌||◌, Option, none, some, List, [], ◌∷◌,
}
use lambda_moo_plus_foo.Text.{Text, mystrcasecmp}
use lambda_moo_plus_foo.Int32.{to_ℤ, of_ℤ}
use lambda_moo_plus_foo.Parse.{parse_into_words}
use lambda_moo_plus_foo.Verbs.{prep_none, is_empty}

-- The bytes of a literal.
abbrev pub bytes : String → Text
bytes String.[] = []
bytes (String.◌∷◌ c s) = code c ∷ bytes s

unfoldable pub prep_list : List Text
prep_list =
    bytes "with/using"
    ∷ bytes "at/to"
    ∷ bytes "in front of"
    ∷ bytes "in/inside/into"
    ∷ bytes "on top of/on/onto/upon"
    ∷ bytes "out of/from inside/from"
    ∷ bytes "over"
    ∷ bytes "through"
    ∷ bytes "under/underneath/beneath"
    ∷ bytes "behind"
    ∷ bytes "beside"
    ∷ bytes "for/about"
    ∷ bytes "is"
    ∷ bytes "as"
    ∷ bytes "off/off of"
    ∷ []

-- A phrase is a list of words; an entry of the table is the list of its phrases.
abbrev pub Phrases : Type 0
Phrases = List (List Text)

-- `while (*p && *p != '/') *t++ = *p++;`
unfoldable pub take_phrase : Text → Text × Text
take_phrase [] = ([], [])
take_phrase (c ∷ p) =
    let rest = take_phrase p in if c == b'/' then ([], c ∷ p) else (c ∷ rest.0, rest.1)

abbrev pub skip_slash : Text → Text
skip_slash [] = []
skip_slash (c ∷ p) = if c == b'/' then p else c ∷ p

-- `while (*p)`, on fuel; a round takes at least one character.
unfoldable pub phrases_from : ℕ → Text → Option Phrases
unfolding take_phrase parse_into_words
phrases_from zero p = none
phrases_from (suc fuel) [] = some []
phrases_from (suc fuel) (c ∷ p) =
    let r = take_phrase (skip_slash (c ∷ p)) in
    let rest = phrases_from fuel r.1 in
    (do words ← parse_into_words (suc (length r.0)) r.0; push words rest)

unfoldable pub build_entries : List Text → Option (List Phrases)
unfolding phrases_from
build_entries [] = some []
build_entries (p ∷ ps) = do e ← phrases_from (suc (length p)) p; push e (build_entries ps)

unfoldable pub dbpriv_build_prep_table : Option (List Phrases)
unfolding build_entries prep_list
dbpriv_build_prep_table = build_entries prep_list

-- The words of `phrase` stand at the start of `argv`.
unfoldable pub phrase_starts : List Text → List Text → Bool
phrase_starts argv [] = true
phrase_starts [] (w ∷ phrase) = false
phrase_starts (a ∷ argv) (w ∷ phrase) = mystrcasecmp a w ==ℤ pos 0 && phrase_starts argv phrase

abbrev pub phrase_fits : Bool → List Text → List Text → Bool
phrase_fits exact argv phrase =
    phrase_starts argv phrase && (not exact || length phrase == length argv)

-- The loop over the phrases of an entry: the number of words of the first that fits.
unfoldable pub find_alias : Bool → List Text → Phrases → Option ℕ
unfolding phrase_starts
find_alias exact argv [] = none
find_alias exact argv (p ∷ ps) =
    if phrase_fits exact argv p then some (length p) else find_alias exact argv ps

abbrev pub entry_or : ℕ → Option ℕ → Option (ℕ × ℕ) → Option (ℕ × ℕ)
entry_or j none rest = rest
entry_or j (some n) rest = some (j, n)

-- The loop over the table, at entry `j`.
unfoldable pub find_entry : Bool → List Text → ℕ → List Phrases → Option (ℕ × ℕ)
unfolding find_alias
find_entry exact argv j [] = none
find_entry exact argv j (e ∷ es) =
    let rest = find_entry exact argv (j + 1) es in entry_or j (find_alias exact argv e) rest

abbrev pub place_or : ℕ → Option (ℕ × ℕ) → Option (ℕ × ℕ × ℕ) → Option (ℕ × ℕ × ℕ)
place_or i none rest = rest
place_or i (some e) rest = some (e.0, i, i + e.1 - 1)

-- The loop over the words, at word `i`: the preposition and its first and last word. An exact
-- match is looked for at the first word only.
unfoldable pub find_prep_from : List Phrases → Bool → ℕ → List Text → Option (ℕ × ℕ × ℕ)
unfolding find_entry
find_prep_from table exact i [] = none
find_prep_from table exact i (a ∷ argv) =
    let later = find_prep_from table exact (i + 1) argv in
    place_or i (find_entry exact (a ∷ argv) 0 table) (if exact then none else later)

unfoldable pub db_find_prep : List Phrases → Bool → List Text → Option (ℕ × ℕ × ℕ)
unfolding find_prep_from
db_find_prep table exact argv = find_prep_from table exact 0 argv

-- The preposition alone, or PREP_NONE.
abbrev pub prep_of : Option (ℕ × ℕ × ℕ) → ℤ
prep_of none = prep_none
prep_of (some r) = pos r.0

abbrev pub starts_with_digit : Text → Bool
starts_with_digit [] = false
starts_with_digit (c ∷ s) = leb b'0' c && leb c b'9'

abbrev pub skip_hash : Text → Text
skip_hash [] = []
skip_hash (c ∷ s) = if c == b'#' then s else c ∷ s

-- A number that is read whole.
abbrev pub numbered_prep : Text → ℤ → ℤ
numbered_prep s prep =
    if not (starts_with_digit s) || not (ltb_ℤ prep (pos (length prep_list)))
    then prep_none
    else prep

unfoldable pub db_match_prep : (Text → ℤ × Text) → List Phrases → Text → Option ℤ
unfolding take_phrase parse_into_words db_find_prep prep_list
db_match_prep strtol table prepname =
    let s = skip_hash prepname in
    let r = strtol s in
    let name = (take_phrase s).0 in
    if is_empty r.1 then some (numbered_prep s (to_ℤ (of_ℤ r.0))) else (do
      argv ← parse_into_words (suc (length name)) name
      some (prep_of (db_find_prep table true argv)))

-- `prep_list[prep]` reads outside the table for another number.
unfoldable pub db_unparse_prep : ℤ → Option Text
unfolding prep_list
db_unparse_prep (pos j) = get_elem? prep_list j
db_unparse_prep (negsuc zero) = some (bytes "none")
db_unparse_prep (negsuc (suc zero)) = some (bytes "any")
db_unparse_prep (negsuc (suc (suc n))) = none
