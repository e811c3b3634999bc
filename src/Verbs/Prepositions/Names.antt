-- ===== src/Verbs/Prepositions/Names.antt =====
-- The names of the prepositions: `db_unparse_prep` and `db_match_prep` of src/db_verbs.c.
use lambda_moo_plus_foo.Prelude.{
  leb, ◌==◌, length, ℤ, pos, ◌>>=◌, ℕ, zero, suc, ◌<◌, ◌≡◌, refl, true, false, ◌&&◌, Option, some,
  List, ◌∷◌, arith,
}
use lambda_moo_plus_foo.Text.{Text, ascii_tolower, char_diff, mystrcasecmp}
use lambda_moo_plus_foo.Parse.{parse_into_words}
use lambda_moo_plus_foo.Verbs.{is_empty}
use lambda_moo_plus_foo.Verbs.Prepositions.{
  bytes, prep_list, Phrases, take_phrase, dbpriv_build_prep_table, db_find_prep, prep_of,
  db_match_prep, db_unparse_prep,
}
use lambda_moo_plus_foo.Verbs.Prepositions.Bounds.{prep_table}

-- A name that is no number.
by_words : List Phrases → Text → Option ℤ
unfolding take_phrase parse_into_words db_find_prep
by_words table s =
    let name = (take_phrase s).0 in
    (do
      argv ← parse_into_words (suc (length name)) name
      some (prep_of (db_find_prep table true argv)))

db_match_prep-by_words :
    (strtol : Text → ℤ × Text) (table : List Phrases) (c : ℕ) (s : Text)
    → (c == b'#') ≡ false
    → is_empty (strtol (c ∷ s)).1 ≡ false
    → db_match_prep strtol table (c ∷ s) ≡ by_words table (c ∷ s)
unfolding db_match_prep by_words
db_match_prep-by_words strtol table c s h k = rw (h, k) refl

-- `strtol` leaves a text that begins with a small letter unread.
abbrev pub StopsAtLetters : (Text → ℤ × Text) → Type 0
StopsAtLetters strtol =
    (c : ℕ) (s : Text) → (leb b'a' c && leb c b'z') ≡ true → is_empty (strtol (c ∷ s)).1 ≡ false

-- `db_match_prep` finds every preposition by the name that `db_unparse_prep` gives it, if `strtol`
-- reads no number in a text that begins with a letter.
pub db_match_prep-db_unparse_prep :
    (strtol : Text → ℤ × Text) (j : ℕ)
    → StopsAtLetters strtol
    → j < length prep_list
    → (name : Text) × (db_unparse_prep (pos j) ≡ some name)
      × (db_match_prep strtol prep_table name ≡ some (pos j))
unfolding db_unparse_prep prep_list by_words prep_table dbpriv_build_prep_table mystrcasecmp
    ascii_tolower char_diff
db_match_prep-db_unparse_prep strtol zero h k =
    (bytes "with/using", refl, db_match_prep-by_words strtol prep_table _ _ refl (h _ _ refl))
db_match_prep-db_unparse_prep strtol (suc zero) h k =
    (bytes "at/to", refl, db_match_prep-by_words strtol prep_table _ _ refl (h _ _ refl))
db_match_prep-db_unparse_prep strtol (suc (suc zero)) h k =
    (bytes "in front of", refl, db_match_prep-by_words strtol prep_table _ _ refl (h _ _ refl))
db_match_prep-db_unparse_prep strtol (suc (suc (suc zero))) h k =
    (bytes "in/inside/into", refl, db_match_prep-by_words strtol prep_table _ _ refl (h _ _ refl))
db_match_prep-db_unparse_prep strtol (suc (suc (suc (suc zero)))) h k = (
  bytes "on top of/on/onto/upon",
  refl,
  db_match_prep-by_words strtol prep_table _ _ refl (h _ _ refl),
)
db_match_prep-db_unparse_prep strtol (suc (suc (suc (suc (suc zero))))) h k = (
  bytes "out of/from inside/from",
  refl,
  db_match_prep-by_words strtol prep_table _ _ refl (h _ _ refl),
)
db_match_prep-db_unparse_prep strtol (suc (suc (suc (suc (suc (suc zero)))))) h k =
    (bytes "over", refl, db_match_prep-by_words strtol prep_table _ _ refl (h _ _ refl))
db_match_prep-db_unparse_prep strtol (suc (suc (suc (suc (suc (suc (suc zero))))))) h k =
    (bytes "through", refl, db_match_prep-by_words strtol prep_table _ _ refl (h _ _ refl))
db_match_prep-db_unparse_prep strtol (suc (suc (suc (suc (suc (suc (suc (suc zero)))))))) h k = (
  bytes "under/underneath/beneath",
  refl,
  db_match_prep-by_words strtol prep_table _ _ refl (h _ _ refl),
)
db_match_prep-db_unparse_prep strtol (suc (suc (suc (suc (suc (suc (suc (suc (suc zero))))))))) h
      k =
    (bytes "behind", refl, db_match_prep-by_words strtol prep_table _ _ refl (h _ _ refl))
db_match_prep-db_unparse_prep strtol
      (suc (suc (suc (suc (suc (suc (suc (suc (suc (suc zero)))))))))) h k =
    (bytes "beside", refl, db_match_prep-by_words strtol prep_table _ _ refl (h _ _ refl))
db_match_prep-db_unparse_prep strtol
      (suc (suc (suc (suc (suc (suc (suc (suc (suc (suc (suc zero))))))))))) h k =
    (bytes "for/about", refl, db_match_prep-by_words strtol prep_table _ _ refl (h _ _ refl))
db_match_prep-db_unparse_prep strtol
      (suc (suc (suc (suc (suc (suc (suc (suc (suc (suc (suc (suc zero)))))))))))) h k =
    (bytes "is", refl, db_match_prep-by_words strtol prep_table _ _ refl (h _ _ refl))
db_match_prep-db_unparse_prep strtol
      (suc (suc (suc (suc (suc (suc (suc (suc (suc (suc (suc (suc (suc zero))))))))))))) h k =
    (bytes "as", refl, db_match_prep-by_words strtol prep_table _ _ refl (h _ _ refl))
db_match_prep-db_unparse_prep strtol
      (suc (suc (suc (suc (suc (suc (suc (suc (suc (suc (suc (suc (suc (suc zero)))))))))))))) h k =
    (bytes "off/off of", refl, db_match_prep-by_words strtol prep_table _ _ refl (h _ _ refl))
db_match_prep-db_unparse_prep strtol
      (suc (suc (suc (suc (suc (suc (suc (suc (suc (suc (suc (suc (suc (suc (suc j))))))))))))))) h
      k =
    absurd (omega arith)
