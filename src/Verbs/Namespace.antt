-- ===== src/Verbs/Namespace.antt =====
-- Whether two lists of verb names share a name, which the rules on verbs without the flag "o" ask:
-- `verbnames_share_namespace` of src/verbs.c. A name is the characters of one word, and a star
-- stands for the end of the part that must be given. The second of the two loops that follow a
-- single star runs on fuel.
pub mod Endless
use lambda_moo_plus_foo.Prelude.{
  ◌==◌, if◌then◌else◌, ℕ, zero, suc, Bool, true, false, ◌&&◌, ◌||◌, Option, none, some, List, [],
  ◌∷◌,
}
use lambda_moo_plus_foo.Text.{Text, ascii_tolower}

abbrev pub is_star : ℕ → Bool
is_star c = c == b'*'

abbrev pub starts_star : Text → Bool
starts_star [] = false
starts_star (c ∷ s) = is_star c

abbrev pub same_letter : ℕ → ℕ → Bool
same_letter a b = ascii_tolower a == ascii_tolower b

-- The inner loop, for the name that had the star first: it passes over the stars of that name and
-- ends at a star of the other. The answer is what is left of the two, and whether the last character
-- passed in the first is a star; none is `return 0`.
unfoldable pub match_open : Bool → Text → Text → Option (Bool × Text × Text)
unfolding ascii_tolower
match_open last [] bar = some (last, [], bar)
match_open last (a ∷ foo) [] = some (last, a ∷ foo, [])
match_open last (a ∷ foo) (b ∷ bar) =
    let skip = match_open true foo (b ∷ bar) in
    let on = match_open false foo bar in
    if is_star b
    then some (last, a ∷ foo, b ∷ bar)
    else (if is_star a then skip else (if same_letter a b then on else none))

-- The loop at the end, when both had a star.
unfoldable pub match_both : Text → Text → Bool
unfolding ascii_tolower
match_both [] bar = true
match_both (a ∷ foo) [] = true
match_both (a ∷ foo) (b ∷ bar) =
    let skip_foo = match_both foo (b ∷ bar) in
    let skip_bar = match_both (a ∷ foo) bar in
    let on = match_both foo bar in
    if is_star a then skip_foo else (if is_star b then skip_bar else same_letter a b && on)

-- The body of the first loop, which is run once: a star in `bar` leads to the loop at the end.
abbrev pub after_first : Option (Bool × Text × Text) → Bool
after_first none = false
after_first (some (last, foo, [])) = true
after_first (some (last, foo, b ∷ bar)) = if is_star b then match_both foo (b ∷ bar) else last

-- The body of the second loop. A star in `foo` sets `barstar`, not `foostar`, and the loop goes on.
abbrev pub after_second : (Text → Text → Option Bool) → Option (Bool × Text × Text) → Option Bool
after_second again none = some false
after_second again (some (last, bar, [])) = some true
after_second again (some (last, bar, a ∷ foo)) =
    if is_star a then again (a ∷ foo) bar else some last

unfoldable pub second_loop : ℕ → Text → Text → Option Bool
unfolding match_open
second_loop zero foo bar = none
second_loop (suc fuel) foo bar =
    after_second (λ foo bar. second_loop fuel foo bar) (match_open false bar foo)

-- The loops after the plain start of the names, by which of them has a star.
abbrev pub by_stars : ℕ → Text → Text → Bool → Bool → Option Bool
by_stars fuel foo bar true true = some (match_both foo bar)
by_stars fuel foo bar true false = some (after_first (match_open false foo bar))
by_stars fuel foo bar false _ = second_loop fuel foo bar

unfoldable pub single_names_share_namespace : ℕ → Text → Text → Option Bool
unfolding match_both match_open second_loop ascii_tolower
single_names_share_namespace fuel [] [] = some true
single_names_share_namespace fuel [] (b ∷ bar) =
    if is_star b then by_stars fuel [] (b ∷ bar) false true else some false
single_names_share_namespace fuel (a ∷ foo) [] =
    if is_star a then by_stars fuel (a ∷ foo) [] true false else some false
single_names_share_namespace fuel (a ∷ foo) (b ∷ bar) =
    let on = single_names_share_namespace fuel foo bar in
    if is_star a || is_star b
    then by_stars fuel (a ∷ foo) (b ∷ bar) (is_star a) (is_star b)
    else (if same_letter a b then on else some false)

-- The words of a list of names; a word is not empty.
abbrev pub has_word : Text → List Text → List Text
has_word [] ws = ws
has_word (c ∷ s) ws = (c ∷ s) ∷ ws

-- The first word, which may be empty, and the words behind it.
unfoldable pub split_names : Text → Text × List Text
split_names [] = ([], [])
split_names (c ∷ s) =
    let (w, ws) = split_names s in if c == b' ' then ([], has_word w ws) else (c ∷ w, ws)

abbrev pub words_of : Text → List Text
words_of s = let (w, ws) = split_names s in has_word w ws

abbrev pub or_next : Option Bool → Option Bool → Option Bool
or_next none r = none
or_next (some true) r = some true
or_next (some false) r = r

unfoldable pub shares_any : ℕ → Text → List Text → Option Bool
unfolding single_names_share_namespace
shares_any fuel foo [] = some false
shares_any fuel foo (bar ∷ bars) =
    or_next (single_names_share_namespace fuel foo bar) (shares_any fuel foo bars)

unfoldable pub any_shares : ℕ → List Text → List Text → Option Bool
unfolding shares_any
any_shares fuel [] bars = some false
any_shares fuel (foo ∷ foos) bars = or_next (shares_any fuel foo bars) (any_shares fuel foos bars)

unfoldable pub verbnames_share_namespace : ℕ → Text → Text → Option Bool
unfolding any_shares split_names
verbnames_share_namespace fuel foo bar = any_shares fuel (words_of foo) (words_of bar)
