-- ===== src/Tests/Commands.antt =====
-- Commands.
use lambda_moo_plus_foo.Objects.{valid}
use lambda_moo_plus_foo.Verbs.Prepositions.{bytes}
use lambda_moo_plus_foo.Tests.Family.{family}
use lambda_moo_plus_foo.Command.{parse_user_command}
use lambda_moo_plus_foo.Value.{Objid}
use lambda_moo_plus_foo.Prelude.{ℤ, pos, ℕ, ◌≡◌, refl, Option, none, some, List, [], ◌∷◌, arith}
use lambda_moo_plus_foo.Text.{Text, ascii_tolower, char_diff, mystrcasecmp}
use lambda_moo_plus_foo.Parse.{parse_into_words, build_string, ParsedCommand}
use lambda_moo_plus_foo.Parse.Words.{parse_into_words_total, parse_into_words-build_string}

-- "a  "b c"", which has two words.
abbrev line : Text
line = b'a' ∷ b' ' ∷ b' ' ∷ b'"' ∷ b'b' ∷ b' ' ∷ b'c' ∷ b'"' ∷ []

abbrev two_words : List Text
two_words = (b'a' ∷ []) ∷ (b'b' ∷ b'c' ∷ []) ∷ []

parse_into_words_total_example : (ws : List Text) × (parse_into_words 9 line ≡ some ws)
parse_into_words_total_example = parse_into_words_total 9 line (omega arith)

parse_into_words-build_string_example : parse_into_words 3 (build_string two_words) ≡ some two_words
parse_into_words-build_string_example =
    parse_into_words-build_string 3 two_words
      (
        omega arith,
        (refl, refl, refl, tt),
        (omega arith, (refl, refl, refl, (refl, refl, refl, tt)), tt),
      )
      (omega arith)

quoted_words : parse_into_words 9 line ≡ some ((b'a' ∷ []) ∷ (b'b' ∷ b' ' ∷ b'c' ∷ []) ∷ [])
unfolding parse_into_words
quoted_words = refl

-- "put me in front of #0", by the child of the family.
abbrev parts : Option (Option (ParsedCommand ℕ)) → Option (Text × Objid × Option ℕ × Objid)
parts (some (some pc)) = some (pc.verb, pc.dobj, pc.prep, pc.iobj)
parts _ = none

abbrev reads_zero : Text → ℤ × Text
reads_zero s = (pos 0, [])

whole_command :
    parts (parse_user_command reads_zero 3 40 family (pos 1) (bytes "put me in front of #0"))
    ≡ some (bytes "put", pos 1, some 2, pos 0)
unfolding parse_user_command mystrcasecmp ascii_tolower char_diff valid
whole_command = refl
