-- ===== src/Value.antt =====
-- The values of the MOO language: `Var` of include/structures.h, and `is_true` and `equality`
-- of src/utils.c. An `int32_t` is its bit pattern, a number below 2^32; an `Objid` is
-- an integer; floating-point numbers are a parameter, with the comparisons of C.
pub mod Equality
use lambda_moo_plus_foo.Prelude.{
  ◌==◌, if◌then◌else◌, ℤ, ◌==ℤ◌, pos, negsuc, ℕ, suc, Bool, true, false, not, Option, none, some,
  List, [], ◌∷◌,
}
use lambda_moo_plus_foo.Text.{Text, mystrcasecmp, str_eq}

abbrev pub Objid : Type 0
Objid = ℤ

abbrev pub system_object : Objid
system_object = pos 0

abbrev pub nothing : Objid
nothing = negsuc 0

abbrev pub ambiguous : Objid
ambiguous = negsuc 1

abbrev pub failed_match : Objid
failed_match = negsuc 2

pub data Error : Type 0 where
  e_none e_type e_div e_perm e_propnf e_verbnf e_varnf e_invind : Error
  e_recmove e_maxrec e_range e_args e_nacc e_invarg e_quota e_float : Error

-- The number that stands for an error in the database.
unfoldable pub error_code : Error → ℕ
error_code e_none = 0
error_code e_type = 1
error_code e_div = 2
error_code e_perm = 3
error_code e_propnf = 4
error_code e_verbnf = 5
error_code e_varnf = 6
error_code e_invind = 7
error_code e_recmove = 8
error_code e_maxrec = 9
error_code e_range = 10
error_code e_args = 11
error_code e_nacc = 12
error_code e_invarg = 13
error_code e_quota = 14
error_code e_float = 15

-- A `Var`: the tag and the member of the union that belongs to it. `F` is `double`.
mutual
  pub data Var (F : Type 0) : Type 0 where
    int : ℕ → Var F
    obj : Objid → Var F
    err : Error → Var F
    str : Text → Var F
    float : F → Var F
    list : Vars F → Var F
    clear : Var F
    uninit : Var F
    catch : ℕ → Var F
    finally : ℕ → Var F

  pub data Vars (F : Type 0) : Type 0 where
    nil : Vars F
    cons : Var F → Vars F → Vars F

module _ {F : Type 0} where
  unfoldable pub elems : Vars F → List (Var F)
  elems nil = []
  elems (cons v vs) = v ∷ elems vs

  unfoldable pub vars : List (Var F) → Vars F
  vars [] = nil
  vars (v ∷ vs) = cons v (vars vs)

  -- `v.list[0].v.num`, the number of elements.
  unfoldable pub count : Vars F → ℕ
  count nil = 0
  count (cons v vs) = suc (count vs)

-- What the code uses of `double`: the comparison `==`, and the number 0.0.
pub record FloatEq (F : Type 0) : Type 0 where
  pub feq : F → F → Bool
  pub zero_float : F

module _ {F : Type 0} (fl : FloatEq F) where
  unfoldable pub is_true : Var F → Bool
  is_true (int n) = not (n == 0)
  is_true (float x) = not (fl.feq x fl.zero_float)
  is_true (str []) = false
  is_true (str (c ∷ s)) = true
  is_true (list nil) = false
  is_true (list (cons v vs)) = true
  is_true _ = false

  -- The case of two values of one type that holds no others. `none` is the call of `server_panic`.
  unfoldable pub equality_flat : Bool → Var F → Var F → Option Bool
  equality_flat m (int a) (int b) = some (a == b)
  equality_flat m (obj a) (obj b) = some (a ==ℤ b)
  equality_flat m (err a) (err b) = some (error_code a == error_code b)
  equality_flat true (str s) (str t) = some (str_eq s t)
  equality_flat false (str s) (str t) = some (mystrcasecmp s t ==ℤ pos 0)
  equality_flat m (float a) (float b) = some (fl.feq a b)
  equality_flat m clear clear = none
  equality_flat m uninit uninit = none
  equality_flat m (catch a) (catch b) = none
  equality_flat m (finally a) (finally b) = none
  equality_flat m _ _ = some false

  -- One round of the loop over two lists: the loop stops at the first difference.
  abbrev pub and_also : Option Bool → Option Bool → Option Bool
  and_also none rest = none
  and_also (some false) rest = some false
  and_also (some true) rest = rest

  unfoldable mutual
    pub equality : Bool → Var F → Var F → Option Bool
    equality m (list xs) (list ys) =
        if count xs == count ys then equality_items m xs ys else some false
    equality m (list xs) b = some false
    equality m (int a) b = equality_flat m (int a) b
    equality m (obj a) b = equality_flat m (obj a) b
    equality m (err a) b = equality_flat m (err a) b
    equality m (str a) b = equality_flat m (str a) b
    equality m (float a) b = equality_flat m (float a) b
    equality m clear b = equality_flat m clear b
    equality m uninit b = equality_flat m uninit b
    equality m (catch a) b = equality_flat m (catch a) b
    equality m (finally a) b = equality_flat m (finally a) b

    pub equality_items : Bool → Vars F → Vars F → Option Bool
    equality_items m nil ys = some true
    equality_items m (cons x xs) nil = some true
    equality_items m (cons x xs) (cons y ys) = and_also (equality m x y) (equality_items m xs ys)
