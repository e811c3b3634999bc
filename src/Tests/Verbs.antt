-- ===== src/Tests/Verbs.antt =====
-- Verbs: their prepositions, the cache of lookups, and changes of them.
use lambda_moo_plus_foo.Value.{int, obj, str, list, nil, cons}
use lambda_moo_plus_foo.Verbs.Info.{
  vf_read, vf_write, vf_exec, vf_debug, vf_not_o, has_flag, verb_letters, written_letters,
  validate_verb_descriptor, find_described_verb, verb_info, bf_verb_info,
}
use lambda_moo_plus_foo.Verbs.Info.Letters.{written_letters-none}
use lambda_moo_plus_foo.Int32.{is_negative, of_ℤ}
use lambda_moo_plus_foo.ListOps.Builtins.{returned}
use lambda_moo_plus_foo.Verbs.Namespace.{
  match_open, match_both, single_names_share_namespace, split_names, shares_any, any_shares,
  verbnames_share_namespace,
}
use lambda_moo_plus_foo.Verbs.Namespace.Endless.{single_names_share_namespace_endless}
use lambda_moo_plus_foo.Text.Verbs.{verb_loop, verbcasecmp}
use lambda_moo_plus_foo.Prelude.{
  ◌==◌, length, ℤ, ◌==ℤ◌, pos, negsuc, ℕ, ◌-◌, ◌^◌, ◌≤◌, ◌<◌, ◌≡◌, refl, ◌↔◌, true, false, not,
  ◌&&◌, ◌||◌, Option, none, some, List, [], ◌∷◌, arith,
}
use lambda_moo_plus_foo.Text.{Text, ascii_tolower, char_diff, mystrcasecmp, hash_step, str_hash}
use lambda_moo_plus_foo.Objects.{to_short, Db, slot, dbpriv_find_object, valid}
use lambda_moo_plus_foo.Verbs.{
  aspec_code, flag_bits, Handle, first_verb, Same, never, db_find_indexed_verb, verb_at,
  db_verb_names, db_verb_owner, db_verb_flags, db_verb_arg_specs, aspec_none, aspec_any, aspec_this,
}
use lambda_moo_plus_foo.Verbs.Prepositions.{
  bytes, prep_list, db_find_prep, db_match_prep, db_unparse_prep,
}
use lambda_moo_plus_foo.Verbs.Prepositions.Bounds.{
  IsTable, FitsEntry, db_find_prep-Finds, prep_table,
}
use lambda_moo_plus_foo.Verbs.Prepositions.Names.{db_match_prep-db_unparse_prep}
use lambda_moo_plus_foo.Verbs.Cache.{
  VerbCache, make_vc_table, bucket_of, verb_hash, find_cached, add_entry, parent_with_verbs,
  callable_from, answer, db_find_callable_verb,
}
use lambda_moo_plus_foo.Verbs.Cache.Lookup.{Matches}
use lambda_moo_plus_foo.Verbs.Cache.Refines.{IsCoherent, db_find_callable_verb-IsCoherent}
use lambda_moo_plus_foo.Verbs.Edit.{
  db_add_verb, db_delete_verb, db_set_verb_arg_specs, db_verb_allows,
}
use lambda_moo_plus_foo.Verbs.Edit.Laws.{handle, db_set_verb_arg_specs_lem}
use lambda_moo_plus_foo.Verbs.Edit.Adding.{new_verb, db_delete_verb-db_add_verb}
use lambda_moo_plus_foo.Tests.Family.{
  look, leaf, family, depth, leaf_at, family-Ranked, family-IsNumbered, no_cache,
}

abbrev word : Text
word = bytes "LO"

word-Matches : Matches family never word
word-Matches oid o i v e at f = cc f

db_find_callable_verb-IsCoherent_example :
    (r : Option Handle) × (c' : VerbCache) × (db_find_callable_verb never 3 family
        (pos 1)
        word
        no_cache
      ≡ some (r, c'))
    × (callable_from never 3 family word (dbpriv_find_object family (pos 1)) ≡ some r)
    × IsCoherent family c'
db_find_callable_verb-IsCoherent_example =
    db_find_callable_verb-IsCoherent family depth 3 family-Ranked never (pos 1) word no_cache
      word-Matches family-IsNumbered (omega arith) (omega arith) (λ b. tt)

-- The child has no verbs of its own, and the parent's is found.
found_by_child :
    callable_from never 3 family word (dbpriv_find_object family (pos 1)) ≡ some (some (handle 0 0))
unfolding callable_from dbpriv_find_object verbcasecmp verb_loop ascii_tolower
found_by_child = refl

-- The string of the name "l*ook" of the parent's verb, as `verb_info` gives it, and one like it.
abbrev name_of_look : Text
name_of_look = bytes "l*ook"

abbrev very_name : Same
very_name oid i = (oid ==ℤ pos 0) && (i == 0)

-- A name with a star matches itself only through its address. The loop over the parents finds the
-- verb by the string of the verb, but not by the other one.
address_counts :
    (callable_from very_name 3 family name_of_look (dbpriv_find_object family (pos 1))
      ≡ some (some (handle 0 0)))
    × (callable_from never 3 family name_of_look (dbpriv_find_object family (pos 1)) ≡ some none)
unfolding callable_from dbpriv_find_object verbcasecmp verb_loop ascii_tolower
address_counts = (refl, refl)

-- So the cache, which does not compare addresses, answers that there is no such verb, where the loop
-- finds it, if the other string has been looked up before.
cache_differs :
    (c c' : VerbCache) × (db_find_callable_verb never 3 family (pos 1) name_of_look no_cache
      ≡ some (none, c))
    × (db_find_callable_verb very_name 3 family (pos 1) name_of_look c ≡ some (none, c'))
unfolding db_find_callable_verb answer find_cached parent_with_verbs callable_from verbcasecmp
    verb_loop ascii_tolower dbpriv_find_object add_entry make_vc_table verb_hash str_hash hash_step
    of_ℤ mystrcasecmp
cache_differs = (_, _, refl, refl)

db_delete_verb-db_add_verb_example :
    (db' : Db ℕ) × (c' : VerbCache) × (db_add_verb
        (pos 1)
        word
        (pos 0)
        13
        aspec_this
        (pos 0)
        aspec_none
        (family, no_cache)
      ≡ some (1, db', c'))
    × (verb_at db' (handle 1 0)
        ≡ some (new_verb family no_cache 1 leaf word (pos 0) 13 aspec_this (pos 0) aspec_none))
    × (db_find_indexed_verb db' (pos 1) 1 ≡ some (some (handle 1 0)))
    × ((m j : ℕ)
        → (m == 1 && j == 0) ≡ false
        → verb_at db' (handle m j) ≡ verb_at family (handle m j))
    × ((b : ℕ) → bucket_of c' b ≡ [])
    × ((db'' : Db ℕ) × (c'' : VerbCache) × (db_delete_verb (handle 1 0) (db', c')
          ≡ some (db'', c''))
        × ((m : ℕ) → db''.objects m ≡ family.objects m))
db_delete_verb-db_add_verb_example =
    db_delete_verb-db_add_verb family no_cache 1 leaf word (pos 0) 13 aspec_this (pos 0) aspec_none
      leaf_at refl

look_at : verb_at family (handle 0 0) ≡ some look
unfolding verb_at slot
look_at = refl

db_set_verb_arg_specs_lem_example :
    (db' : Db ℕ) × (c' : VerbCache) × (db_set_verb_arg_specs
        (some (handle 0 0))
        aspec_any
        (pos 2)
        aspec_this
        (family, no_cache)
      ≡ some (db', c'))
    × (db_verb_arg_specs db' (some (handle 0 0))
        ≡ some (aspec_code aspec_any, to_short (pos 2), aspec_code aspec_this))
    × (db_verb_flags db' (some (handle 0 0)) ≡ db_verb_flags family (some (handle 0 0)))
    × ((m j : ℕ)
        → (m == 0 && j == 0) ≡ false
        → verb_at db' (handle m j) ≡ verb_at family (handle m j))
    × ((b : ℕ) → bucket_of c' b ≡ [])
db_set_verb_arg_specs_lem_example =
    db_set_verb_arg_specs_lem family no_cache 0 0 look aspec_any (pos 2) aspec_this look_at

-- The preposition with the number of the least integer is stored as that with the number 0.
preposition_cut : (to_short (negsuc (2 ^ 31 - 1)) ≡ pos 0) × (to_short (pos 2) ≡ pos 2)
unfolding to_short of_ℤ
preposition_cut = (refl, refl)

-- "put the cup in front of me"
abbrev arguments : List Text
arguments = bytes "cup" ∷ bytes "in" ∷ bytes "front" ∷ bytes "of" ∷ bytes "me" ∷ []

in_front_of : db_find_prep prep_table false arguments ≡ some (2, 1, 3)
unfolding db_find_prep prep_table mystrcasecmp ascii_tolower char_diff
in_front_of = refl

prep_table-IsTable : IsTable prep_table
unfolding prep_table
prep_table-IsTable = omega arith

db_find_prep-Finds_example :
    (2 < length prep_table)
    × (1 ≤ 3)
    × (3 < 5)
    × FitsEntry false (bytes "in" ∷ bytes "front" ∷ bytes "of" ∷ bytes "me" ∷ []) 3 2 prep_table
db_find_prep-Finds_example =
    db_find_prep-Finds prep_table false arguments (2, 1, 3) prep_table-IsTable in_front_of

-- A `strtol` that reads nothing.
abbrev reads_nothing : Text → ℤ × Text
reads_nothing s = (pos 0, s)

two_is_low : 2 < length prep_list
unfolding prep_list
two_is_low = omega arith

db_match_prep-db_unparse_prep_example :
    (name : Text) × (db_unparse_prep (pos 2) ≡ some name)
    × (db_match_prep reads_nothing prep_table name ≡ some (pos 2))
db_match_prep-db_unparse_prep_example =
    db_match_prep-db_unparse_prep reads_nothing 2 (λ c s h. refl) two_is_low

single_names_share_namespace_endless_example :
    (single_names_share_namespace 1000 (bytes "*abz") (bytes "ab*c")
      ≡ some (match_both (bytes "z") (bytes "*c")))
    × (single_names_share_namespace 1000 (bytes "ab*c") (bytes "*abz") ≡ none)
single_names_share_namespace_endless_example =
    single_names_share_namespace_endless 1000 b'a' (bytes "b") (bytes "z") (bytes "c") refl
      (refl, tt)

-- In the other order, and with names without a star, the function answers.
apart : verbnames_share_namespace 1 (bytes "look l*") (bytes "get take") ≡ some false
unfolding verbnames_share_namespace split_names any_shares shares_any single_names_share_namespace
    match_open ascii_tolower
apart = refl

together : verbnames_share_namespace 1 (bytes "get l*ook") (bytes "put lo") ≡ some true
unfolding verbnames_share_namespace split_names any_shares shares_any single_names_share_namespace
    match_open ascii_tolower
together = refl

written_letters-none_example : (written_letters false 15 ≡ none) ↔ (
    ((has_flag 15 vf_read && has_flag 15 vf_write)
      && (has_flag 15 vf_exec && has_flag 15 vf_debug)
      && ((not false && not (has_flag 15 vf_not_o)) || (false && has_flag 15 vf_not_o)))
    ≡ true)
written_letters-none_example = written_letters-none false 15

-- The information on the verb "look", with the permissions "rxdo".
look_info :
    bf_verb_info reads_nothing never false false family (pos 0) (int 1) (pos 0)
    ≡ returned
        (list (cons (obj (pos 0)) (cons (str (bytes "rxdo")) (cons (str (bytes "l*ook")) nil))))
unfolding bf_verb_info validate_verb_descriptor valid find_described_verb verb_info is_negative
    db_find_indexed_verb first_verb db_verb_allows db_verb_owner db_verb_flags flag_bits
    db_verb_names written_letters verb_letters verb_at slot dbpriv_find_object
look_info = refl
