-- ===== src/Command.antt =====
-- A command of a player, parsed with the objects and prepositions of the database: `aliases` of
-- src/match.c and `parse_command` of src/parse_cmd.c with the functions that they call.
use lambda_moo_plus_foo.Prelude.{ℤ, ℕ, false, Option, none, some, List, []}
use lambda_moo_plus_foo.Text.{Text}
use lambda_moo_plus_foo.Value.{Objid, Var, elems, list}
use lambda_moo_plus_foo.Objects.{Db}
use lambda_moo_plus_foo.Match.{match_object}
use lambda_moo_plus_foo.Parse.{ParsedCommand, parse_command}
use lambda_moo_plus_foo.Verbs.Prepositions.{bytes, db_find_prep}
use lambda_moo_plus_foo.Verbs.Prepositions.Bounds.{prep_table}
use lambda_moo_plus_foo.Properties.{PropHandle, db_find_property}
use lambda_moo_plus_foo.Properties.Values.{value_of}

module _ {F : Type 0} where
  -- The elements of the list; another value, a property that is not there and a fault have none.
  abbrev pub names_in : Option (Var F) → List (Var F)
  names_in (some (list vs)) = elems vs
  names_in _ = []

  abbrev pub found_value : ℕ → Db F → Option (Option PropHandle) → Option (Var F)
  found_value most db (some (some h)) = value_of most db h
  found_value most db _ = none

  unfoldable pub aliases : ℕ → Db F → Objid → List (Var F)
  unfolding db_find_property value_of elems
  aliases most db oid =
      names_in (found_value most db (db_find_property most db oid (bytes "aliases")))

  -- `most` bounds the loops over ancestors and over contents, `fuel` the words of the command.
  unfoldable pub parse_user_command :
      (Text → ℤ × Text) → ℕ → ℕ → Db F → Objid → Text → Option (Option (ParsedCommand F))
  unfolding aliases match_object db_find_prep prep_table parse_command
  parse_user_command strtol most fuel db user command =
      parse_command (db_find_prep prep_table false)
        (match_object (aliases most db) strtol most db user) fuel command
