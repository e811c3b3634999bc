-- ===== src/SymTable.antt =====
-- The names of a verb's variables: src/sym_table.c. The size of a table is the length of its list.
use lambda_moo_plus_foo.Prelude.{
  ltb, leb, ◌==◌, if◌then◌else◌, ltb→lt, Bool-cases, Option-cases, length, length-append, ◌==ℤ◌,
  ==ℤ_iff, pos, ℕ, ◌+◌, ◌*◌, ◌≤◌, ◌<◌, ◌≡◌, refl, ap, ◌⊎◌, inl, inr, true, Option, none, some, List,
  [], ◌∷◌, ◌++◌, arith,
}
use lambda_moo_plus_foo.Text.{Text, mystrcasecmp}
use lambda_moo_plus_foo.Text.Case.{mystrcasecmp-of_fold}

pub record Names : Type 0 where
  pub max_size : ℕ
  pub names : List Text

unfoldable pub new_names : ℕ → Names
new_names n = record { max_size = n; names = [] }

unfoldable pub copy_names : Names → Names
unfolding new_names
copy_names old = record (new_names (length old.names)) { names = old.names }

-- The version of the database format that has floating-point numbers.
abbrev pub dbv_float : ℕ
dbv_float = 3

unfoldable pub first_user_slot : ℕ → ℕ
first_user_slot version = if leb dbv_float version then 16 + 2 else 16

abbrev pub first_names : List Text
first_names =
    (b'N' ∷ b'U' ∷ b'M' ∷ [])
    ∷ (b'O' ∷ b'B' ∷ b'J' ∷ [])
    ∷ (b'S' ∷ b'T' ∷ b'R' ∷ [])
    ∷ (b'L' ∷ b'I' ∷ b'S' ∷ b'T' ∷ [])
    ∷ (b'E' ∷ b'R' ∷ b'R' ∷ [])
    ∷ (b'p' ∷ b'l' ∷ b'a' ∷ b'y' ∷ b'e' ∷ b'r' ∷ [])
    ∷ (b't' ∷ b'h' ∷ b'i' ∷ b's' ∷ [])
    ∷ (b'c' ∷ b'a' ∷ b'l' ∷ b'l' ∷ b'e' ∷ b'r' ∷ [])
    ∷ (b'v' ∷ b'e' ∷ b'r' ∷ b'b' ∷ [])
    ∷ (b'a' ∷ b'r' ∷ b'g' ∷ b's' ∷ [])
    ∷ (b'a' ∷ b'r' ∷ b'g' ∷ b's' ∷ b't' ∷ b'r' ∷ [])
    ∷ (b'd' ∷ b'o' ∷ b'b' ∷ b'j' ∷ [])
    ∷ (b'd' ∷ b'o' ∷ b'b' ∷ b'j' ∷ b's' ∷ b't' ∷ b'r' ∷ [])
    ∷ (b'p' ∷ b'r' ∷ b'e' ∷ b'p' ∷ b's' ∷ b't' ∷ b'r' ∷ [])
    ∷ (b'i' ∷ b'o' ∷ b'b' ∷ b'j' ∷ [])
    ∷ (b'i' ∷ b'o' ∷ b'b' ∷ b'j' ∷ b's' ∷ b't' ∷ b'r' ∷ [])
    ∷ []

abbrev pub float_names : List Text
float_names = (b'I' ∷ b'N' ∷ b'T' ∷ []) ∷ (b'F' ∷ b'L' ∷ b'O' ∷ b'A' ∷ b'T' ∷ []) ∷ []

-- The table that the source builds once and copies.
unfoldable pub new_builtin_names : ℕ → Names
unfolding copy_names first_user_slot
new_builtin_names version = copy_names (record {
  max_size = first_user_slot version;
  names = first_names ++ (if leb dbv_float version then float_names else []);
})

-- The slot of a name, -1 where there is none being `none`.
unfoldable pub name_from : Text → ℕ → List Text → Option ℕ
name_from s i [] = none
name_from s i (n ∷ ns) =
    let rest = name_from s (i + 1) ns in if mystrcasecmp n s ==ℤ pos 0 then some i else rest

unfoldable pub find_name : Names → Text → Option ℕ
unfolding name_from
find_name t s = name_from s 0 t.names

-- A full table is copied into one twice as large.
unfoldable pub grown_names : Names → Names
grown_names t = if length t.names == t.max_size then record t { max_size = t.max_size * 2 } else t

-- The write of a new name; `none` is a write past the end of the array.
abbrev pub add_name : Names → Text → Option (ℕ × Names)
add_name t s =
    if ltb (length t.names) t.max_size
    then some (length t.names, record t { names = t.names ++ s ∷ [] })
    else none

abbrev pub or_add : Option ℕ → Names → Text → Option (ℕ × Names)
or_add none t s = add_name (grown_names t) s
or_add (some i) t s = some (i, t)

unfoldable pub find_or_add_name : Names → Text → Option (ℕ × Names)
unfolding find_name grown_names
find_or_add_name t s = or_add (find_name t s) t s

-- The names fit into the array, which has room.
abbrev pub IsTable : Names → Type 0
IsTable t = (length t.names ≤ t.max_size) × (0 < t.max_size)

-- The names of a new table are those of its slots.
pub length-new_builtin_names :
    (version : ℕ)
    → (length (new_builtin_names version).names ≡ first_user_slot version)
      × IsTable (new_builtin_names version)
unfolding new_builtin_names copy_names new_names first_user_slot
length-new_builtin_names version = elim (Bool-cases (leb dbv_float version)) [
  | inl e ↦ rw e (refl, (omega arith, omega arith))
  | inr e ↦ rw e (refl, (omega arith, omega arith))
]

-- A name found is found again in a longer table.
name_from-append :
    (s : Text) (i j : ℕ) (ns ms : List Text)
    → name_from s i ns ≡ some j
    → name_from s i (ns ++ ms) ≡ some j
unfolding name_from
name_from-append s i j [] ms h = cc
name_from-append s i j (n ∷ ns) ms h = elim (Bool-cases (mystrcasecmp n s ==ℤ pos 0)) [
  | inl e ↦ rw e (rw e at h)
  | inr e ↦ rw e (name_from-append s (i + 1) j ns ms (rw e at h))
]

name_from-append_last :
    (s : Text) (i j : ℕ) (ns : List Text)
    → name_from s i ns ≡ none
    → j ≡ i + length ns
    → name_from s i (ns ++ s ∷ []) ≡ some j
unfolding name_from
name_from-append_last s i j [] h e =
    let same : (mystrcasecmp s s ==ℤ pos 0) ≡ true =
      (==ℤ_iff (mystrcasecmp s s) (pos 0)).1 (mystrcasecmp-of_fold s s refl) in
    let n : i ≡ j = omega arith in rw (same, n) refl
name_from-append_last s i j (n ∷ ns) h e = elim (Bool-cases (mystrcasecmp n s ==ℤ pos 0)) [
  | inl f ↦ cc (rw f at h)
  | inr f ↦ rw f (name_from-append_last s (i + 1) j ns (rw f at h) (omega arith))
]

grown_names-room :
    (t : Names)
    → IsTable t
    → ((grown_names t).names ≡ t.names) × (ltb (length t.names) (grown_names t).max_size ≡ true)
unfolding grown_names
grown_names-room t h = elim (Bool-cases (length t.names == t.max_size)) [
  | inl e ↦ rw e (refl, ground (arith, h))
  | inr e ↦ rw e (refl, ground (arith, h))
]

-- In a table whose names fit, a name gets a slot without a write past the end. Where it is found,
-- case aside, the slot is the one that it has, and the table is as before. Where it is not, the slot
-- is the next free one, and this name alone is added, behind the others. The name is found in its
-- slot afterwards, each name found before keeps its slot, and the names fit again.
pub find_name-find_or_add_name :
    (t : Names) (s : Text)
    → IsTable t
    → (i : ℕ) × (u : Names) × (find_or_add_name t s ≡ some (i, u))
      × (((find_name t s ≡ some i) × (u ≡ t))
          ⊎ ((find_name t s ≡ none) × (i ≡ length t.names) × (u.names ≡ t.names ++ s ∷ [])))
      × (find_name u s ≡ some i)
      × ((other : Text) (j : ℕ) → find_name t other ≡ some j → find_name u other ≡ some j)
      × IsTable u
unfolding find_or_add_name find_name
find_name-find_or_add_name t s h = elim (Option-cases (name_from s 0 t.names)) [
  | inl e ↦
      let g = grown_names t in
      let (same, roomy) = grown_names-room t h in
      let room : ltb (length g.names) g.max_size ≡ true = rw same roomy in
      let first : name_from s 0 (g.names ++ s ∷ []) ≡ some (length g.names) =
        name_from-append_last s 0 (length g.names) g.names (rw same e) (omega arith) in
      let kept : (other : Text) (j : ℕ)
          → name_from other 0 t.names ≡ some j
          → name_from other 0 (g.names ++ s ∷ []) ≡ some j =
        λ other j at. name_from-append other 0 j g.names (s ∷ []) (rw same at) in
      let fits : length (g.names ++ s ∷ []) ≤ g.max_size =
        omega (arith, length-append g.names (s ∷ []), ltb→lt (length g.names) g.max_size room) in
      (
        length g.names,
        record g { names = g.names ++ s ∷ [] },
        rw (e, room) refl,
        inr (e, ap length same, ap (λ ns. ns ++ s ∷ []) same),
        first,
        kept,
        (fits, omega (arith, ltb→lt (length g.names) g.max_size room)),
      )
  | inr (i, e) ↦ (i, t, rw e refl, inl (e, refl), e, λ other j at. at, h)
]
