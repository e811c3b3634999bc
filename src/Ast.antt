-- ===== src/Ast.antt =====
-- The syntax trees of MOO programs: include/ast.h. A list that C links through `next` is a data
-- type of its own, whose end is the null pointer; an `id` that is -1 for "none" is an option. The
-- fields `label` and `next_label`, which the code generator and the decompiler write into the
-- tree, are results of those passes.
use lambda_moo_plus_foo.Prelude.{ℕ, Option}
use lambda_moo_plus_foo.Value.{Var}

pub data ArgKind : Type 0 where
  arg_normal arg_splice : ArgKind

pub data ScatterKind : Type 0 where
  scat_required scat_optional scat_rest : ScatterKind

-- The kinds of `Expr_Kind` that evaluate both operands and apply one operator to them.
pub data Binary : Type 0 where
  expr_plus expr_minus expr_times expr_divide expr_mod : Binary
  expr_eq expr_ne expr_lt expr_le expr_gt expr_ge expr_in : Binary

mutual
  pub data Expr (F : Type 0) : Type 0 where
    expr_var : Var F → Expr F
    expr_id : ℕ → Expr F
    expr_prop expr_index : Expr F → Expr F → Expr F
    expr_verb : Expr F → Expr F → Args F → Expr F
    expr_range : Expr F → Expr F → Expr F → Expr F
    expr_asgn : Expr F → Expr F → Expr F
    expr_call : ℕ → Args F → Expr F
    expr_binary : Binary → Expr F → Expr F → Expr F
    expr_exp expr_and expr_or : Expr F → Expr F → Expr F
    expr_negate expr_not : Expr F → Expr F
    expr_list : Args F → Expr F
    expr_cond : Expr F → Expr F → Expr F → Expr F
    expr_catch : Expr F → Args F → Maybe F → Expr F
    expr_length : Expr F
    expr_scatter : Scatters F → Expr F

  -- A pointer to an expression that may be null.
  pub data Maybe (F : Type 0) : Type 0 where
    absent : Maybe F
    present : Expr F → Maybe F

  -- `Arg_List`.
  pub data Args (F : Type 0) : Type 0 where
    no_args : Args F
    arg : ArgKind → Expr F → Args F → Args F

  -- `Scatter`.
  pub data Scatters (F : Type 0) : Type 0 where
    no_scatters : Scatters F
    scatter : ScatterKind → ℕ → Maybe F → Scatters F → Scatters F

mutual
  -- A statement and those after it.
  pub data Stmts (F : Type 0) : Type 0 where
    no_stmts : Stmts F
    stmt_cond : Arms F → Stmts F → Stmts F → Stmts F
    stmt_list : ℕ → Expr F → Stmts F → Stmts F → Stmts F
    stmt_range : ℕ → Expr F → Expr F → Stmts F → Stmts F → Stmts F
    stmt_while : Option ℕ → Expr F → Stmts F → Stmts F → Stmts F
    stmt_fork : Option ℕ → Expr F → Stmts F → Stmts F → Stmts F
    stmt_expr : Expr F → Stmts F → Stmts F
    stmt_return : Maybe F → Stmts F → Stmts F
    stmt_try_except : Stmts F → Excepts F → Stmts F → Stmts F
    stmt_try_finally : Stmts F → Stmts F → Stmts F → Stmts F
    stmt_break stmt_continue : Option ℕ → Stmts F → Stmts F

  -- `Cond_Arm`.
  pub data Arms (F : Type 0) : Type 0 where
    no_arms : Arms F
    arm : Expr F → Stmts F → Arms F → Arms F

  -- `Except_Arm`.
  pub data Excepts (F : Type 0) : Type 0 where
    no_excepts : Excepts F
    except : Option ℕ → Args F → Stmts F → Excepts F → Excepts F
