-- ===== src/Verbs/Info.antt =====
-- The description of a verb: `verb_info` and its helpers, of src/verbs.c. The dispatcher has checked
-- the object; the other argument may be anything. The options of the server are arguments.
pub mod Letters
use lambda_moo_plus_foo.Prelude.{
  ltb, ◌==◌, if◌then◌else◌, length, ℤ, ◌>>=◌, ℕ, ◌/◌, ◌%◌, Bool, true, false, ◌||◌, Option, none,
  some, List, [], ◌∷◌,
}
use lambda_moo_plus_foo.Text.{Text}
use lambda_moo_plus_foo.Value.{
  Objid, Error, Var, e_none, e_type, e_perm, e_verbnf, e_invarg, int, obj, str, list, nil, cons,
}
use lambda_moo_plus_foo.Int32.{is_negative}
use lambda_moo_plus_foo.ListOps.Builtins.{Package, returned, raised, fault}
use lambda_moo_plus_foo.Objects.{Db, valid}
use lambda_moo_plus_foo.Verbs.{
  Same, Handle, db_find_defined_verb, db_find_indexed_verb, db_verb_names, db_verb_owner,
  db_verb_flags,
}
use lambda_moo_plus_foo.Verbs.Edit.{db_verb_allows}

-- The bits of `db_verb_flag`.
abbrev pub vf_read : ℕ
vf_read = 1

abbrev pub vf_write : ℕ
vf_write = 2

abbrev pub vf_exec : ℕ
vf_exec = 4

abbrev pub vf_debug : ℕ
vf_debug = 8

abbrev pub vf_not_o : ℕ
vf_not_o = 1024

-- `flags & bit`
abbrev pub has_flag : ℕ → ℕ → Bool
has_flag flags bit = flags / bit % 2 == 1

abbrev pub letter : Bool → ℕ → List ℕ → List ℕ
letter true c s = c ∷ s
letter false c s = s

-- The last letter: "o" for a verb with that flag, or "b" for one without it in the other notation.
abbrev pub last_letter : (blocked not_o : Bool) → Text
last_letter false false = b'o' ∷ []
last_letter true true = b'b' ∷ []
last_letter _ _ = []

abbrev pub letters_of : (r w x d : Bool) → Text → Text
letters_of r w x d s = letter r b'r' (letter w b'w' (letter x b'x' (letter d b'd' s)))

-- The letters that are written.
unfoldable pub verb_letters : (blocked : Bool) → ℕ → Text
verb_letters blocked flags =
    letters_of (has_flag flags vf_read) (has_flag flags vf_write) (has_flag flags vf_exec)
      (has_flag flags vf_debug) (last_letter blocked (has_flag flags vf_not_o))

abbrev pub fitting : Text → Option Text
fitting s = if ltb (length s) 5 then some s else none

-- They are written, with a zero behind them, into the copy of "xxxx", which has five bytes.
unfoldable pub written_letters : (blocked : Bool) → ℕ → Option Text
unfolding verb_letters
written_letters blocked flags = fitting (verb_letters blocked flags)

module _ {F : Type 0} where
  unfoldable pub validate_verb_descriptor : Var F → Error
  unfolding is_negative
  validate_verb_descriptor (str s) = e_none
  validate_verb_descriptor (int n) = if n == 0 || is_negative n then e_invarg else e_none
  validate_verb_descriptor _ = e_type

  -- The descriptor is a text or a number.
  unfoldable pub find_described_verb :
      (Text → ℤ × Text) → Same → (numeric : Bool) → Db F → Objid → Var F → Option (Option Handle)
  unfolding db_find_indexed_verb db_find_defined_verb
  find_described_verb strtol same numeric db oid (int n) = db_find_indexed_verb db oid n
  find_described_verb strtol same numeric db oid (str s) =
      db_find_defined_verb strtol same db oid s numeric
  find_described_verb strtol same numeric db oid _ = none

  abbrev pub verb_info_pack : Option Objid → Option Text → Option Text → Package (Var F)
  verb_info_pack (some q) (some letters) (some names) =
      returned (list (cons (obj q) (cons (str letters) (cons (str names) nil))))
  verb_info_pack _ _ _ = fault

  abbrev pub allowed_or : Option Bool → Package (Var F) → Package (Var F)
  allowed_or none r = fault
  allowed_or (some false) r = raised e_perm
  allowed_or (some true) r = r

  -- `bf_verb_info` from the handle on.
  unfoldable pub verb_info :
      (blocked : Bool) → Db F → Objid → Option (Option Handle) → Package (Var F)
  unfolding db_verb_allows db_verb_owner db_verb_flags db_verb_names written_letters
  verb_info blocked db progr none = fault
  verb_info blocked db progr (some none) = raised e_verbnf
  verb_info blocked db progr (some (some h)) =
      allowed_or (db_verb_allows db (some h) progr vf_read) (
        verb_info_pack (db_verb_owner db (some h))
          (db_verb_flags db (some h) >>= λ flags. written_letters blocked flags)
          (db_verb_names db (some h)))

  -- The test of the descriptor comes before that of the object.
  abbrev pub described : Error → Bool → Package (Var F) → Package (Var F)
  described e_none true r = r
  described e_none false r = raised e_invarg
  described e _ r = raised e

  unfoldable pub bf_verb_info :
      (Text → ℤ × Text)
      → Same
      → (numeric blocked : Bool) → Db F
      → Objid
      → Var F
      → Objid
      → Package (Var F)
  unfolding validate_verb_descriptor valid find_described_verb verb_info
  bf_verb_info strtol same numeric blocked db oid desc progr =
      described (validate_verb_descriptor desc) (valid db oid)
        (verb_info blocked db progr (find_described_verb strtol same numeric db oid desc))
