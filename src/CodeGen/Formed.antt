-- ===== src/CodeGen/Formed.antt =====
-- The trees that the parser builds, for src/code_gen.c: literals are values that a program can
-- write down, what is assigned to can be assigned to, `$` stands inside an index, and a loop that
-- is left is around the place. The flag says whether `$` may occur.
use lambda_moo_plus_foo.Prelude.{
  ℕ, ◌≡◌, ◌≢◌, ◌⊎◌, Bool, true, false, Option, none, some, List, [], ◌∷◌,
}
use lambda_moo_plus_foo.Value.{Var, int, obj, err, str, float}
use lambda_moo_plus_foo.Ast.{
  Expr, Maybe, Args, Scatters, Stmts, Arms, Excepts, expr_var, expr_id, expr_prop, expr_index,
  expr_verb, expr_range, expr_asgn, expr_call, expr_binary, expr_exp, expr_and, expr_or,
  expr_negate, expr_not, expr_list, expr_cond, expr_catch, expr_length, expr_scatter, absent,
  present, no_args, arg, no_scatters, scatter, no_stmts, stmt_cond, stmt_list, stmt_range,
  stmt_while, stmt_fork, stmt_expr, stmt_return, stmt_try_except, stmt_try_finally, stmt_break,
  stmt_continue, no_arms, arm, no_excepts, except,
}
use lambda_moo_plus_foo.CodeGen.Stmt.{is_loop}

-- The loops around the place, the innermost one first.
abbrev pub IsIn : ℕ → List (Option ℕ) → Type 0
IsIn n [] = ⊥
IsIn n (l ∷ ids) = (is_loop n l ≡ true) ⊎ IsIn n ids

abbrev pub IsExit : Option ℕ → List (Option ℕ) → Type 0
IsExit (some n) ids = IsIn n ids
IsExit none ids = ids ≢ []

module _ {F : Type 0} where
  abbrev pub IsLiteral : Var F → Type 0
  IsLiteral (int n) = Unit
  IsLiteral (obj o) = Unit
  IsLiteral (err e) = Unit
  IsLiteral (str s) = Unit
  IsLiteral (float x) = Unit
  IsLiteral _ = ⊥

  abbrev mutual
    pub IsExpr : Bool → Expr F → Type 0
    IsExpr d (expr_var v) = IsLiteral v
    IsExpr d (expr_id n) = Unit
    IsExpr d (expr_prop l r) = IsExpr d l × IsExpr d r
    IsExpr d (expr_index l r) = IsExpr d l × IsExpr true r
    IsExpr d (expr_verb o w args) = IsExpr d o × IsExpr d w × AreArgs d args
    IsExpr d (expr_range b f t) = IsExpr d b × IsExpr true f × IsExpr true t
    IsExpr d (expr_asgn (expr_scatter sc) r) = IsExpr d r × AreScatters d sc
    IsExpr d (expr_asgn l r) = IsLvalue d l × IsExpr d r
    IsExpr d (expr_call f args) = AreArgs d args
    IsExpr d (expr_binary b l r) = IsExpr d l × IsExpr d r
    IsExpr d (expr_exp l r) = IsExpr d l × IsExpr d r
    IsExpr d (expr_and l r) = IsExpr d l × IsExpr d r
    IsExpr d (expr_or l r) = IsExpr d l × IsExpr d r
    IsExpr d (expr_negate e) = IsExpr d e
    IsExpr d (expr_not e) = IsExpr d e
    IsExpr d (expr_list args) = AreArgs d args
    IsExpr d (expr_cond c a b) = IsExpr d c × IsExpr d a × IsExpr d b
    IsExpr d (expr_catch e codes h) = IsExpr d e × AreArgs d codes × IsMaybe d h
    IsExpr d expr_length = d ≡ true
    IsExpr d (expr_scatter sc) = ⊥

    pub IsMaybe : Bool → Maybe F → Type 0
    IsMaybe d absent = Unit
    IsMaybe d (present e) = IsExpr d e

    pub AreArgs : Bool → Args F → Type 0
    AreArgs d no_args = Unit
    AreArgs d (arg k e more) = IsExpr d e × AreArgs d more

    pub AreScatters : Bool → Scatters F → Type 0
    AreScatters d no_scatters = Unit
    AreScatters d (scatter k n e more) = IsMaybe d e × AreScatters d more

    -- A range is not indexed further.
    pub IsLvalue : Bool → Expr F → Type 0
    IsLvalue d (expr_range b f t) = IsBase d b × IsExpr true f × IsExpr true t
    IsLvalue d (expr_index l r) = IsBase d l × IsExpr true r
    IsLvalue d (expr_id n) = Unit
    IsLvalue d (expr_prop l r) = IsExpr d l × IsExpr d r
    IsLvalue d _ = ⊥

    pub IsBase : Bool → Expr F → Type 0
    IsBase d (expr_index l r) = IsBase d l × IsExpr true r
    IsBase d (expr_id n) = Unit
    IsBase d (expr_prop l r) = IsExpr d l × IsExpr d r
    IsBase d _ = ⊥

  abbrev mutual
    pub AreStmts : List (Option ℕ) → Stmts F → Type 0
    AreStmts ids no_stmts = Unit
    AreStmts ids (stmt_cond arms otherwise more) =
        AreArms ids arms × AreStmts ids otherwise × AreStmts ids more
    AreStmts ids (stmt_list n e body more) =
        IsExpr false e × AreStmts (some n ∷ ids) body × AreStmts ids more
    AreStmts ids (stmt_range n from to body more) =
        IsExpr false from × IsExpr false to × AreStmts (some n ∷ ids) body × AreStmts ids more
    AreStmts ids (stmt_while name condition body more) =
        IsExpr false condition × AreStmts (name ∷ ids) body × AreStmts ids more
    AreStmts ids (stmt_fork name time body more) =
        IsExpr false time × AreStmts [] body × AreStmts ids more
    AreStmts ids (stmt_expr e more) = IsExpr false e × AreStmts ids more
    AreStmts ids (stmt_return e more) = IsMaybe false e × AreStmts ids more
    AreStmts ids (stmt_try_except body excepts more) =
        AreStmts ids body × AreExcepts ids excepts × AreStmts ids more
    AreStmts ids (stmt_try_finally body handler more) =
        AreStmts ids body × AreStmts ids handler × AreStmts ids more
    AreStmts ids (stmt_break name more) = IsExit name ids × AreStmts ids more
    AreStmts ids (stmt_continue name more) = IsExit name ids × AreStmts ids more

    pub AreArms : List (Option ℕ) → Arms F → Type 0
    AreArms ids no_arms = Unit
    AreArms ids (arm condition body more) =
        IsExpr false condition × AreStmts ids body × AreArms ids more

    pub AreExcepts : List (Option ℕ) → Excepts F → Type 0
    AreExcepts ids no_excepts = Unit
    AreExcepts ids (except name codes body more) =
        AreArgs false codes × AreStmts ids body × AreExcepts ids more
