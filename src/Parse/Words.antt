-- ===== src/Parse/Words.antt =====
-- The words of a command: `parse_into_words` and `build_string` of src/parse_cmd.c.
use lambda_moo_plus_foo.Prelude.{
  ◌==◌, Bool-cases, and_false, length, ℕ, zero, suc, ◌≤◌, ◌<◌, ◌≡◌, refl, inl, inr, Bool, true,
  false, not, ◌&&◌, some, List, [], ◌∷◌, ◌++◌, arith,
}
use lambda_moo_plus_foo.Text.{Text}
use lambda_moo_plus_foo.Parse.{
  skip_spaces, Reading, read_word, words_from, parse_into_words, with_spaces, build_string,
  skip_verb, plain, escaped,
}

-- Words without spaces, quotes and backslashes.
abbrev pub IsPlainWord : Text → Type 0
IsPlainWord [] = Unit
IsPlainWord (c ∷ s) =
    ((c == b' ') ≡ false) × ((c == b'"') ≡ false) × ((c == b'\\') ≡ false) × IsPlainWord s

abbrev pub ArePlainWords : List Text → Type 0
ArePlainWords [] = Unit
ArePlainWords (w ∷ ws) = (0 < length w) × IsPlainWord w × ArePlainWords ws

length-skip_spaces : (s : Text) → length (skip_spaces s) ≤ length s
unfolding skip_spaces
length-skip_spaces [] = omega arith
length-skip_spaces (c ∷ s) = elim (Bool-cases (c == b' ')) [
  | inl e ↦ rw e (omega (arith, length-skip_spaces s))
  | inr e ↦ rw e (omega arith)
]

-- No space, or nothing, is left in front.
abbrev Skipped : Text → Type 0
Skipped [] = Unit
Skipped (c ∷ s) = (c == b' ') ≡ false

skip_spaces-Skipped : (s : Text) → Skipped (skip_spaces s)
unfolding skip_spaces
skip_spaces-Skipped [] = tt
skip_spaces-Skipped (c ∷ s) = elim (Bool-cases (c == b' ')) [
  | inl e ↦ rw e (skip_spaces-Skipped s)
  | inr e ↦ rw e e
]

length-read_word : (m : Reading) (s : Text) → length (read_word m s).2 ≤ length s
unfolding read_word
length-read_word (plain q) [] = omega arith
length-read_word (escaped q) [] = omega arith
length-read_word (escaped q) (c ∷ s) = omega (arith, length-read_word (plain q) s)
length-read_word (plain q) (c ∷ s) = ground (
  arith,
  length-read_word (plain (not q)) s,
  length-read_word (escaped q) s,
  length-read_word (plain q) s,
)

-- A word that does not begin with a space takes at least one character.
read_word_shorter :
    (q : Bool) (c : ℕ) (s : Text)
    → (not q && c == b' ') ≡ false
    → length (read_word (plain q) (c ∷ s)).2 < length (c ∷ s)
unfolding read_word
read_word_shorter q c s h = ground (
  arith,
  length-read_word (plain (not q)) s,
  length-read_word (escaped q) s,
  length-read_word (plain q) s,
)

words_from_total :
    (fuel : ℕ) (q : Bool) (s : Text)
    → Skipped s
    → length s < fuel
    → (ws : List Text) × (words_from fuel q s ≡ some ws)
unfolding words_from
words_from_total zero q s k h = absurd (omega arith)
words_from_total (suc fuel) q [] k h = ([], refl)
words_from_total (suc fuel) q (c ∷ s) k h =
    let r = read_word (plain q) (c ∷ s) in
    let (ws, is) = words_from_total fuel r.1 (skip_spaces r.2) (skip_spaces-Skipped r.2) (
      omega (
        arith,
        length-skip_spaces r.2,
        read_word_shorter q c s (and_false (not q) (c == b' ') k),
        h,
      )) in
    (r.0 ∷ ws, rw is refl)

-- The division into words ends on every input, within one round more than it has characters.
pub parse_into_words_total :
    (fuel : ℕ) (input : Text)
    → length input < fuel
    → (ws : List Text) × (parse_into_words fuel input ≡ some ws)
unfolding parse_into_words
parse_into_words_total fuel input h =
    words_from_total fuel false (skip_spaces input) (skip_spaces-Skipped input)
      (omega (arith, length-skip_spaces input))

-- A word ends at the end of the input or at a space.
abbrev Stops : Text → Type 0
Stops [] = Unit
Stops (c ∷ s) = (c == b' ') ≡ true

read_word_plain :
    (w rest : Text)
    → IsPlainWord w
    → Stops rest
    → read_word (plain false) (w ++ rest) ≡ (w, false, rest)
unfolding read_word
read_word_plain [] [] p h = refl
read_word_plain [] (c ∷ s) p h = rw h refl
read_word_plain (c ∷ w) rest (space, quote, slash, p) h =
    rw (space, quote, slash, read_word_plain w rest p h) refl

with_spaces-Stops : (ws : List Text) → Stops (with_spaces ws)
with_spaces-Stops [] = tt
with_spaces-Stops (w ∷ ws) = refl

skip_spaces-build_string :
    (ws : List Text) → ArePlainWords ws → skip_spaces (build_string ws) ≡ build_string ws
unfolding skip_spaces build_string
skip_spaces-build_string [] h = refl
skip_spaces-build_string ([] ∷ ws) h = absurd (omega (arith, h.0))
skip_spaces-build_string ((c ∷ w) ∷ ws) h = rw h.1.0 refl

skip_spaces-with_spaces :
    (ws : List Text) → ArePlainWords ws → skip_spaces (with_spaces ws) ≡ build_string ws
unfolding skip_spaces build_string
skip_spaces-with_spaces [] h = refl
skip_spaces-with_spaces ([] ∷ ws) h = absurd (omega (arith, h.0))
skip_spaces-with_spaces ((c ∷ w) ∷ ws) h = rw h.1.0 refl

words_from-build_string :
    (fuel : ℕ) (ws : List Text)
    → ArePlainWords ws
    → length ws < fuel
    → words_from fuel false (build_string ws) ≡ some ws
unfolding words_from build_string
words_from-build_string zero ws p h = absurd (omega arith)
words_from-build_string (suc fuel) [] p h = refl
words_from-build_string (suc fuel) ([] ∷ ws) p h = absurd (omega (arith, p.0))
words_from-build_string (suc fuel) ((c ∷ w) ∷ ws) p h =
    rw
      (
        read_word_plain (c ∷ w) (with_spaces ws) p.1 (with_spaces-Stops ws),
        skip_spaces-with_spaces ws p.2,
        words_from-build_string fuel ws p.2 (omega arith),
      )
      refl

-- Words that are not empty and have no space, quote or backslash, joined by `build_string`, are
-- divided into the same words again, in one round more than there are words.
pub parse_into_words-build_string :
    (fuel : ℕ) (ws : List Text)
    → ArePlainWords ws
    → length ws < fuel
    → parse_into_words fuel (build_string ws) ≡ some ws
unfolding parse_into_words
parse_into_words-build_string fuel ws p h =
    rw (skip_spaces-build_string ws p) (words_from-build_string fuel ws p h)

-- The loop that skips the verb and the loop that reads a word stop at the same place.
pub skip_verb-read_word : (m : Reading) (s : Text) → skip_verb m s ≡ (read_word m s).2
unfolding skip_verb read_word
skip_verb-read_word (plain q) [] = refl
skip_verb-read_word (escaped q) [] = refl
skip_verb-read_word (escaped q) (c ∷ s) = skip_verb-read_word (plain q) s
skip_verb-read_word (plain q) (c ∷ s) = ground (
  arith,
  skip_verb-read_word (plain (not q)) s,
  skip_verb-read_word (escaped q) s,
  skip_verb-read_word (plain q) s,
)
