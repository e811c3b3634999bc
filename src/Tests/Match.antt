-- ===== src/Tests/Match.antt =====
-- Matching names in the small world.
use lambda_moo_plus_foo.Prelude.{pos, ℕ, zero, suc, ◌≡◌, refl, ◌⊎◌, some, List, [], ◌∷◌}
use lambda_moo_plus_foo.Text.{Text, ascii_tolower, char_diff, mystrncasecmp}
use lambda_moo_plus_foo.Value.{Objid, ambiguous, failed_match, Var, str}
use lambda_moo_plus_foo.Match.{
  match_name, match_aliases, match_proc, db_for_all_contents, match_contents,
}
use lambda_moo_plus_foo.Match.Sound.{HasName, IsNear, match_contents-IsNear}
use lambda_moo_plus_foo.Tests.World.{world, inside_of, world-Located, world-short, room_valid}
use lambda_moo_plus_foo.Objects.{valid, load}

-- The thing is called "box".
abbrev names : Objid → List (Var ℕ)
names (pos (suc zero)) = str (b'b' ∷ b'o' ∷ b'x' ∷ []) ∷ []
names _ = []

abbrev bo : Text
bo = b'b' ∷ b'o' ∷ []

match_contents-IsNear_example :
    (r : Objid) × (match_contents names 5 world (pos 0) bo ≡ some r)
    × ((r ≡ ambiguous)
        ⊎ ((r ≡ failed_match) ⊎ (HasName names world bo r × IsNear names world bo 0 r)))
match_contents-IsNear_example =
    match_contents-IsNear names world bo inside_of 5 0 world-Located world-short room_valid

-- A part of the name is enough.
box_found : match_contents names 5 world (pos 0) bo ≡ some (pos 1)
unfolding match_contents valid load db_for_all_contents match_proc match_name mystrncasecmp
    char_diff ascii_tolower match_aliases
box_found = refl
