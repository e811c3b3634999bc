-- ===== src/Tests/SymTable.antt =====
-- Tables of variable names.
use lambda_moo_plus_foo.Prelude.{length, ℕ, ◌≡◌, refl, ◌⊎◌, none, some, [], ◌∷◌, arith}
use lambda_moo_plus_foo.Text.{Text, ascii_tolower, char_diff, mystrcasecmp}
use lambda_moo_plus_foo.SymTable.{
  Names, new_names, copy_names, first_user_slot, new_builtin_names, name_from, find_name,
  grown_names, find_or_add_name, IsTable, find_name-find_or_add_name,
}

-- A full table with the one name "x".
abbrev small : Names
small = record { max_size = 1; names = (b'x' ∷ []) ∷ [] }

find_name-find_or_add_name_example :
    (i : ℕ) × (u : Names) × (find_or_add_name small (b'y' ∷ []) ≡ some (i, u))
    × (((find_name small (b'y' ∷ []) ≡ some i) × (u ≡ small))
        ⊎ ((find_name small (b'y' ∷ []) ≡ none)
            × (i ≡ 1)
            × (u.names ≡ (b'x' ∷ []) ∷ (b'y' ∷ []) ∷ [])))
    × (find_name u (b'y' ∷ []) ≡ some i)
    × ((other : Text) (j : ℕ) → find_name small other ≡ some j → find_name u other ≡ some j)
    × IsTable u
find_name-find_or_add_name_example =
    find_name-find_or_add_name small (b'y' ∷ []) (omega arith, omega arith)

-- The table is doubled for "y"; "X" is the name that it has.
name_added :
    (find_or_add_name small (b'y' ∷ [])
      ≡ some (1, record { max_size = 2; names = (b'x' ∷ []) ∷ (b'y' ∷ []) ∷ [] }))
    × (find_or_add_name small (b'X' ∷ []) ≡ some (0, small))
unfolding find_or_add_name find_name name_from grown_names mystrcasecmp char_diff ascii_tolower
name_added = (refl, refl)

-- Eighteen names since the version with floating-point numbers.
builtins_counted : length (new_builtin_names 4).names ≡ 18
unfolding new_builtin_names copy_names first_user_slot new_names
builtins_counted = refl
