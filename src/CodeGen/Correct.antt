-- ===== src/CodeGen/Correct.antt =====
-- What the code generator of src/code_gen.c promises: it does not panic, its stack is balanced,
-- its vector is as long as its size says, and the numbers in the vector are read back.
use lambda_moo_plus_foo.Prelude.{
  leb, length, ℕ, suc, ◌+◌, ◌*◌, ◌≤◌, ◌≡◌, refl, ◌∙◌, Bool, true, Option, some, List, [], arith,
}
use lambda_moo_plus_foo.Value.{FloatEq}
use lambda_moo_plus_foo.Ast.{Expr, Stmts}
use lambda_moo_plus_foo.CodeGen.State.{width, Bytecodes, GState, State}
use lambda_moo_plus_foo.CodeGen.Expr.{generate_expr}
use lambda_moo_plus_foo.CodeGen.Exprs.{Covers}
use lambda_moo_plus_foo.CodeGen.Stmt.{stmt_to_code}
use lambda_moo_plus_foo.CodeGen.Vector.{ref_size, extra, measure, assemble}
use lambda_moo_plus_foo.CodeGen.Formed.{IsExpr, AreStmts}
use lambda_moo_plus_foo.CodeGen.Frame.{Around, At}
use lambda_moo_plus_foo.CodeGen.Balance.{expr-Runs}
use lambda_moo_plus_foo.CodeGen.Total.{stmt_to_code-Ends}
use lambda_moo_plus_foo.CodeGen.Layout.{Laid, Laid-Closed}
use lambda_moo_plus_foo.CodeGen.Filled.{stack_refs, length-assemble}

module _ {F : Type 0} (fl : FloatEq F) where
  -- In a state whose counters count its fixups and whose stack is within its maximum, the code of
  -- an expression as the parser builds them is generated without a panic. It leaves exactly one
  -- more value on the stack, which stays within its maximum, and restores the saved stack, and the
  -- counters count the fixups again. Where `$` may occur, a stack top has to be saved.
  pub generate_expr-balance :
      (e : Expr F) (d : Bool) (ids : List (Option ℕ)) (s : State F)
      → IsExpr d e
      → Covers d s.saved_stack
      → Laid s
      → s.cur_stack ≤ s.max_stack
      → Around s.loops ids
      → (t : State F) × (generate_expr fl e s ≡ some t)
        × (t.cur_stack ≡ suc s.cur_stack)
        × (t.cur_stack ≤ t.max_stack)
        × (t.saved_stack ≡ s.saved_stack)
        × Laid t
  generate_expr-balance e d ids s w k laid b a =
      let start : At Laid s.saved_stack ids s.cur_stack s = record {
        height = refl;
        bounded = b;
        saved = refl;
        looping = a;
        kept = laid;
      } in
      let (t, r, h) = expr-Runs fl Laid-Closed e d w k start in
      (t, r, h.height, omega (arith, h.height, h.bounded), h.saved, h.kept)

  -- The body of a verb as the parser builds them is compiled without a panic, and the stack is
  -- empty at its end. The vector holds as many bytes as its size says, and, for each stack
  -- reference, those that it takes beyond one.
  pub stmt_to_code-total :
      (b : Stmts F) (g : GState F)
      → AreStmts [] b
      → (t : State F) × (stmt_to_code fl b g ≡ some (assemble t, t.gstate))
        × (t.cur_stack ≡ 0)
        × (length (assemble t).vector
            ≡ (assemble t).size + stack_refs t.fixups * extra (assemble t).numbytes_stack)
  stmt_to_code-total b g w =
      let (t, e, h) = stmt_to_code-Ends fl Laid-Closed b g w in
      (t, e, h.height, length-assemble t h.kept)

  -- Where the stack of such a body is at most 256 high, the vector is exactly as long as its
  -- size.
  pub length-stmt_to_code :
      (b : Stmts F) (g h : GState F) (bc : Bytecodes)
      → AreStmts [] b
      → stmt_to_code fl b g ≡ some (bc, h)
      → bc.max_stack ≤ 256
      → length bc.vector ≡ bc.size
  unfolding assemble measure ref_size extra width
  length-stmt_to_code b g h bc w r le =
      let (t, e, z, n) = stmt_to_code-total b g w in
      let same : bc ≡ assemble t = cc (r, e) in
      let low : leb t.max_stack 256 ≡ true =
        let q : t.max_stack ≤ 256 = rw same at le in ground arith in
      rw same (n ∙ (rw low (omega arith)))
