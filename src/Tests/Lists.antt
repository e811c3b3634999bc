-- ===== src/Tests/Lists.antt =====
-- Values and lists.
use lambda_moo_plus_foo.Prelude.{
  length, get_elem?, set, take, drop, pos, copy, ℕ, suc, ◌<◌, ◌≡◌, refl, ◌⊎◌, false, some, List, [],
  ◌∷◌, ◌++◌, arith,
}
use lambda_moo_plus_foo.Value.{Var, equality_flat, equality, e_range, int, str, list, nil, cons}
use lambda_moo_plus_foo.Int32.{int_max, to_ℤ, add}
use lambda_moo_plus_foo.ListOps.{listinsert, listdelete, setadd, setremove}
use lambda_moo_plus_foo.ListOps.Slices.{listdelete-listinsert}
use lambda_moo_plus_foo.ListOps.Sets.{Lacks, setadd-setremove}
use lambda_moo_plus_foo.ListOps.Builtins.{
  bf_listappend, bf_listdelete, bf_listset, bf_listdelete-listset, returned, raised,
}
use lambda_moo_plus_foo.Tests.World.{floats}

abbrev nested : Var ℕ
nested = list (cons (int 3) (cons (str (b'a' ∷ [])) nil))

abbrev three : List ℕ
three = 10 ∷ 20 ∷ 30 ∷ []

listdelete-listinsert_example :
    (ys : List ℕ) × (listinsert 1 three 15 (pos 2) ≡ some ys)
    × (length ys ≡ suc (length three))
    × (get_elem? ys 1 ≡ some 15)
    × (listdelete ys 2 ≡ some three)
listdelete-listinsert_example = listdelete-listinsert 1 three 15 1 (omega arith)

abbrev pair : List ℕ
pair = 7 ∷ 8 ∷ []

abbrev two : List (Var ℕ)
two = int 1 ∷ nested ∷ []

two-Lacks : Lacks floats false (int 5) two
unfolding equality equality_flat
two-Lacks = (refl, (refl, tt))

setadd-setremove_example :
    (setadd floats 1 two (int 5) ≡ some (two ++ int 5 ∷ []))
    × (setadd floats 2 (two ++ int 5 ∷ []) (int 5) ≡ some (two ++ int 5 ∷ []))
    × (setremove floats (two ++ int 5 ∷ []) (int 5) ≡ some two)
setadd-setremove_example = setadd-setremove floats 1 2 two (int 5) tt two-Lacks

bf_listdelete-listset_example :
    (((i : ℕ) → 4 ≡ suc i → ¬ (i < length three))
      × (bf_listdelete three 4 ≡ raised e_range)
      × (bf_listset three 9 4 ≡ raised e_range))
    ⊎ ((i : ℕ) × (4 ≡ suc i)
        × (i < length three)
        × (bf_listdelete three 4 ≡ returned (take i three ++ drop (suc i) three))
        × (bf_listset three 9 4 ≡ returned (set three i 9)))
bf_listdelete-listset_example = bf_listdelete-listset three 9 4 (omega arith)

appended_in_front : bf_listappend 2 three 40 (some int_max) ≡ returned (40 ∷ three)
unfolding bf_listappend listinsert copy to_ℤ add
appended_in_front = refl
