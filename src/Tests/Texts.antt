-- ===== src/Tests/Texts.antt =====
-- Texts: comparisons, hashes, searches and substitution.
use lambda_moo_plus_foo.Prelude.{◌==ℤ◌, pos, ◌^◌, ◌<◌, ◌≡◌, refl, true, false, some, [], ◌∷◌, arith}
use lambda_moo_plus_foo.Text.{
  Text, ascii_tolower, char_diff, mystrcasecmp, mystrncasecmp, str_hash, same_start, strindex,
  strrindex, strsub,
}
use lambda_moo_plus_foo.Text.Verbs.{verb_loop, verbcasecmp, verbcasecmp-mystrcasecmp}
use lambda_moo_plus_foo.Text.Hash.{str_hash-mystrcasecmp}
use lambda_moo_plus_foo.Text.Search.{IsFirst, strindex-IsFirst}
use lambda_moo_plus_foo.Text.Sub.{Substitutes, strsub-Replaced}

-- "Look" and "LOOK".
abbrev upper : Text
upper = b'L' ∷ b'O' ∷ b'O' ∷ b'K' ∷ []

abbrev mixed : Text
mixed = b'L' ∷ b'o' ∷ b'o' ∷ b'k' ∷ []

abbrev o : Text
o = b'o' ∷ []

same_letters : mystrcasecmp upper mixed ≡ pos 0
unfolding mystrcasecmp ascii_tolower
same_letters = refl

str_hash-mystrcasecmp_example : (str_hash upper ≡ str_hash mixed) × (str_hash upper < 2 ^ 32)
str_hash-mystrcasecmp_example =
    str_hash-mystrcasecmp upper mixed (omega arith) (omega arith) same_letters

strindex-IsFirst_example : IsFirst false o 0 upper (strindex upper o false)
strindex-IsFirst_example = strindex-IsFirst upper o false

both_ends : (strindex upper o false ≡ 2) × (strrindex upper o false ≡ 3)
unfolding strindex strrindex same_start mystrncasecmp ascii_tolower char_diff
both_ends = (refl, refl)

strsub-Replaced_example : Substitutes true o upper mixed (strsub 5 mixed o upper true)
strsub-Replaced_example = strsub-Replaced 5 mixed o upper true (omega arith) (omega arith)

verbcasecmp-mystrcasecmp_example :
    verbcasecmp false 2 upper mixed ≡ some (mystrcasecmp upper mixed ==ℤ pos 0)
verbcasecmp-mystrcasecmp_example =
    verbcasecmp-mystrcasecmp false 0 b'L' (b'O' ∷ b'O' ∷ b'K' ∷ []) mixed
      (refl, refl, (refl, refl, (refl, refl, (refl, refl, tt)))) (omega arith) (omega arith)
      (λ e. cc e)

-- "l*ook" is matched by "LO" and not by "LL".
abbreviated :
    (verbcasecmp false 3 (b'l' ∷ b'*' ∷ b'o' ∷ b'o' ∷ b'k' ∷ []) (b'L' ∷ b'O' ∷ []) ≡ some true)
    × (verbcasecmp false 3 (b'l' ∷ b'*' ∷ b'o' ∷ b'o' ∷ b'k' ∷ []) (b'L' ∷ b'L' ∷ []) ≡ some false)
unfolding verbcasecmp verb_loop ascii_tolower
abbreviated = (refl, refl)
