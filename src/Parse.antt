-- ===== src/Parse.antt =====
-- The division of a command into words, and its parse: src/parse_cmd.c. `db_find_prep` is an
-- argument: the preposition with the indices of its first and last word, if there is one.
pub mod Words
use lambda_moo_plus_foo.Prelude.{
  ◌==◌, if◌then◌else◌, length, take, drop, ◌>>=◌, push, ℕ, zero, suc, ◌+◌, ◌-◌, Bool, true, false,
  not, ◌&&◌, Option, none, some, List, [], ◌∷◌, ◌++◌, map,
}
use lambda_moo_plus_foo.Text.{Text}
use lambda_moo_plus_foo.Value.{Objid, nothing, Var, str}

-- `while (*input == ' ') input++;`
unfoldable pub skip_spaces : Text → Text
skip_spaces [] = []
skip_spaces (c ∷ s) = if c == b' ' then skip_spaces s else c ∷ s

-- Where the inner loop stands: before the next character, or behind a backslash.
pub data Reading : Type 0 where
  plain : Bool → Reading
  escaped : Bool → Reading

abbrev pub add_char : ℕ → Text × Bool × Text → Text × Bool × Text
add_char c r = (c ∷ r.0, r.1, r.2)

-- The inner loop of `parse_into_words`: the word, `in_quotes`, and the rest of the input.
unfoldable pub read_word : Reading → Text → Text × Bool × Text
read_word (plain q) [] = ([], q, [])
read_word (escaped q) [] = ([], q, [])
read_word (escaped q) (c ∷ s) = add_char c (read_word (plain q) s)
read_word (plain q) (c ∷ s) =
    let quoted = read_word (plain (not q)) s in
    let literal = read_word (escaped q) s in
    let kept = add_char c (read_word (plain q) s) in
    if not q && c == b' '
    then ([], q, c ∷ s)
    else (if c == b'"' then quoted else (if c == b'\\' then literal else kept))

-- The outer loop on fuel, `none` when it runs out.
unfoldable pub words_from : ℕ → Bool → Text → Option (List Text)
unfolding read_word skip_spaces
words_from zero q input = none
words_from (suc fuel) q [] = some []
words_from (suc fuel) q (c ∷ s) =
    let r = read_word (plain q) (c ∷ s) in push r.0 (words_from fuel r.1 (skip_spaces r.2))

unfoldable pub parse_into_words : ℕ → Text → Option (List Text)
unfolding words_from
parse_into_words fuel input = words_from fuel false (skip_spaces input)

abbrev pub with_spaces : List Text → Text
with_spaces [] = []
with_spaces (w ∷ ws) = b' ' ∷ w ++ with_spaces ws

-- `argv` holds the `argc` words.
unfoldable pub build_string : List Text → Text
build_string [] = []
build_string (w ∷ ws) = w ++ with_spaces ws

unfoldable pub parse_into_wordlist : {F : Type 0} → ℕ → Text → Option (List (Var F))
unfolding parse_into_words
parse_into_wordlist fuel command = parse_into_words fuel command >>= λ ws. some (map str ws)

-- The loop that skips the verb.
unfoldable pub skip_verb : Reading → Text → Text
skip_verb (plain q) [] = []
skip_verb (escaped q) [] = []
skip_verb (escaped q) (c ∷ s) = skip_verb (plain q) s
skip_verb (plain q) (c ∷ s) =
    let quoted = skip_verb (plain (not q)) s in
    let literal = skip_verb (escaped q) s in
    let kept = skip_verb (plain q) s in
    if not q && c == b' '
    then c ∷ s
    else (if c == b'"' then quoted else (if c == b'\\' then literal else kept))

-- `Parsed_Command`; no preposition is `none`.
pub record ParsedCommand (F : Type 0) : Type 0 where
  pub verb : Text
  pub argstr : Text
  pub args : List (Var F)
  pub dobjstr : Text
  pub dobj : Objid
  pub prepstr : Text
  pub prep : Option ℕ
  pub iobjstr : Text
  pub iobj : Objid

-- The text that is divided into words, and the argument string.
abbrev pub special : Text → Text → Text × Text
special verb argstr = (verb ++ b' ' ∷ argstr, argstr)

unfoldable pub expand : Text → Text × Text
unfolding skip_verb skip_spaces
expand [] = ([], skip_spaces (skip_verb (plain false) []))
expand (c ∷ s) =
    if c == b'"'
    then special (b's' ∷ b'a' ∷ b'y' ∷ []) s
    else (if c == b':'
        then special (b'e' ∷ b'm' ∷ b'o' ∷ b't' ∷ b'e' ∷ []) s
        else (if c == b';'
            then special (b'e' ∷ b'v' ∷ b'a' ∷ b'l' ∷ []) s
            else (c ∷ s, skip_spaces (skip_verb (plain false) (c ∷ s)))))

-- The preposition, with its indices in `argv`; without one both are `argc`.
abbrev pub prep_range : ℕ → Option (ℕ × ℕ × ℕ) → Option ℕ × ℕ × ℕ
prep_range argc none = (none, argc, argc)
prep_range argc (some r) = (some r.0, r.1 + 1, r.2 + 1)

-- `db_find_prep` is asked only if there are arguments.
abbrev pub asked_prep : (List Text → Option (ℕ × ℕ × ℕ)) → List Text → Option (ℕ × ℕ × ℕ)
asked_prep find_prep [] = none
asked_prep find_prep (w ∷ ws) = find_prep (w ∷ ws)

-- A string and the object it names, or an empty string and NOTHING.
abbrev pub named : (Text → Option Objid) → Bool → List Text → Option (Text × Objid)
named find false ws = some ([], nothing)
named find true ws = find (build_string ws) >>= λ o. some (build_string ws, o)

abbrev pub has_prep : Option ℕ → Bool
has_prep none = false
has_prep (some p) = true

-- `find` is `match_object` for the user.
module _ {F : Type 0} (find_prep : List Text → Option (ℕ × ℕ × ℕ))
    (find : Text → Option Objid) where
  -- The words are `verb` and `ws`.
  unfoldable pub parse_words : Text → Text → List Text → Option (ParsedCommand F)
  unfolding build_string
  parse_words argstr verb ws =
      let (prep, pstart, pend) = prep_range (length ws + 1) (asked_prep find_prep ws) in
      let argv = verb ∷ ws in
      (do
        (iobjstr, iobj) ← named find (has_prep prep) (drop (pend + 1) argv)
        (dobjstr, dobj) ← named find (not (pstart - 1 == 0)) (take (pstart - 1) ws)
        some (record {
          verb = verb;
          argstr = argstr;
          args = map str ws;
          dobjstr = dobjstr;
          dobj = dobj;
          prepstr =
              if has_prep prep
              then build_string (take (pend - pstart + 1) (drop pstart argv))
              else [];
          prep = prep;
          iobjstr = iobjstr;
          iobj = iobj;
        }))

  abbrev pub parse_argv : Text → List Text → Option (Option (ParsedCommand F))
  parse_argv argstr [] = some none
  parse_argv argstr (verb ∷ ws) = parse_words argstr verb ws >>= λ pc. some (some pc)

  -- A command without words gives the null pointer, `some none`.
  unfoldable pub parse_command : ℕ → Text → Option (Option (ParsedCommand F))
  unfolding expand parse_words parse_into_words
  parse_command fuel command =
      let (buf, argstr) = expand (skip_spaces command) in
      parse_into_words fuel buf >>= parse_argv argstr
