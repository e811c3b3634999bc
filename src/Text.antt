-- ===== src/Text.antt =====
-- Text routines of src/utils.c and include/utils.h. A C string is the list of its bytes before the
-- terminating zero, so reading `*s` at the end of the list gives 0.
pub mod Case
pub mod Hash
pub mod Search
pub mod Sub
pub mod Verbs
use lambda_moo_plus_foo.Prelude.{
  ℕ, zero, suc, ◌+◌, ◌-◌, ◌*◌, ◌/◌, ◌%◌, ◌^◌, ◌<◌, Bool, true, false, ◌&&◌, ◌||◌, List, [], ◌∷◌,
  ◌++◌, Option, none, some, ltb, leb, ◌==◌, if◌then◌else◌, length, drop, ℤ, pos, negsuc, ◌==ℤ◌,
}

abbrev pub Text : Type 0
Text = List ℕ

-- Every byte of a C string is a byte, and not the terminator.
abbrev pub IsText : Text → Type 0
IsText [] = Unit
IsText (c ∷ s) = (0 < c) × (c < 256) × IsText s

unfoldable pub ascii_tolower : ℕ → ℕ
ascii_tolower c = if leb b'A' c && leb c b'Z' then c + (b'a' - b'A') else c

-- `(int)a - (int)b`.
unfoldable pub char_diff : ℕ → ℕ → ℤ
char_diff a b = if leb b a then pos (a - b) else negsuc (b - a - 1)

-- The loop runs while the folded characters agree and are not the terminator.
unfoldable pub mystrcasecmp : Text → Text → ℤ
mystrcasecmp [] [] = pos 0
mystrcasecmp [] (b ∷ t) = char_diff 0 (ascii_tolower b)
mystrcasecmp (a ∷ s) [] = char_diff (ascii_tolower a) 0
mystrcasecmp (a ∷ s) (b ∷ t) =
    if ascii_tolower a == ascii_tolower b
    then mystrcasecmp s t
    else char_diff (ascii_tolower a) (ascii_tolower b)

unfoldable pub mystrncasecmp : Text → Text → ℕ → ℤ
mystrncasecmp s t zero = pos 0
mystrncasecmp [] [] (suc n) = pos 0
mystrncasecmp [] (b ∷ t) (suc n) = char_diff 0 (ascii_tolower b)
mystrncasecmp (a ∷ s) [] (suc n) = char_diff (ascii_tolower a) 0
mystrncasecmp (a ∷ s) (b ∷ t) (suc n) =
    if ascii_tolower a == ascii_tolower b
    then mystrncasecmp s t n
    else char_diff (ascii_tolower a) (ascii_tolower b)

-- The C library's `strcmp` and `strncmp`, as far as the code reads them: is the result 0?
abbrev pub str_eq : Text → Text → Bool
str_eq [] [] = true
str_eq (a ∷ s) (b ∷ t) = a == b && str_eq s t
str_eq _ _ = false

abbrev pub strn_eq : Text → Text → ℕ → Bool
strn_eq s t zero = true
strn_eq [] [] (suc n) = true
strn_eq (a ∷ s) (b ∷ t) (suc n) = a == b && strn_eq s t n
strn_eq _ _ (suc n) = false

-- The loop of `str_hash_len`, over a 32-bit accumulator.
unfoldable pub hash_step : ℕ → ℕ → ℕ
hash_step ans c = (ans * 2 ^ 3 % 2 ^ 32 + ans / 2 ^ 28 + ascii_tolower c) % 2 ^ 32

unfoldable pub hash_loop : ℕ → Text → ℕ
hash_loop ans [] = ans
hash_loop ans (c ∷ s) = hash_loop (hash_step ans c) s

unfoldable pub str_hash : Text → ℕ
unfolding hash_loop
str_hash s = hash_loop 0 s

-- `!(case_counts ? strncmp(s, what, lwhat) : mystrncasecmp(s, what, lwhat))`
unfoldable pub same_start : Bool → Text → Text → Bool
same_start true s what = strn_eq s what (length what)
same_start false s what = mystrncasecmp s what (length what) ==ℤ pos 0

-- The `for` loop of `strindex`; `i` is `s - source`. It runs while `lwhat` bytes are left.
unfoldable pub strindex_from : Bool → Text → ℕ → Text → ℕ
strindex_from case_counts what i [] =
    if leb (length what) 0 then (if same_start case_counts [] what then i + 1 else 0) else 0
strindex_from case_counts what i (c ∷ s) =
    if leb (length what) (length (c ∷ s))
    then (if same_start case_counts (c ∷ s) what
        then i + 1
        else strindex_from case_counts what (i + 1) s)
    else 0

unfoldable pub strindex : Text → Text → Bool → ℕ
unfolding strindex_from
strindex source what case_counts = strindex_from case_counts what 0 source

-- The `for` loop of `strrindex`, at `s == source + i` and downwards.
unfoldable pub strrindex_down : Bool → Text → Text → ℕ → ℕ
strrindex_down case_counts source what zero = if same_start case_counts source what then 1 else 0
strrindex_down case_counts source what (suc i) =
    if same_start case_counts (drop (suc i) source) what
    then suc i + 1
    else strrindex_down case_counts source what i

unfoldable pub strrindex : Text → Text → Bool → ℕ
unfolding strrindex_down
strrindex source what case_counts =
    if leb (length what) (length source)
    then strrindex_down case_counts source what (length source - length what)
    else 0

-- What the stream holds once the rest of the loop has run: `piece`, then the rest.
abbrev pub after : Text → Option Text → Option Text
after piece none = none
after piece (some rest) = some (piece ++ rest)

-- The `while` loop of `strsub` on fuel, `none` when it runs out.
unfoldable pub strsub_loop : ℕ → Bool → Text → Text → Text → Option Text
strsub_loop zero case_counts what with_text source = none
strsub_loop (suc fuel) case_counts what with_text [] = some []
strsub_loop (suc fuel) case_counts what with_text (c ∷ s) =
    let substituted =
      after with_text (strsub_loop fuel case_counts what with_text (drop (length what) (c ∷ s))) in
    let kept = after (c ∷ []) (strsub_loop fuel case_counts what with_text s) in
    if same_start case_counts (c ∷ s) what then substituted else kept

unfoldable pub strsub : ℕ → Text → Text → Text → Bool → Option Text
unfolding strsub_loop
strsub fuel source what with_text case_counts = strsub_loop fuel case_counts what with_text source
