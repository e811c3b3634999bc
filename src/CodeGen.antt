-- ===== src/CodeGen.antt =====
-- The code generator: src/code_gen.c.
pub mod Opcodes
pub mod State
pub mod Expr
pub mod Vector
pub mod Stmt
pub mod Formed
pub mod Frame
pub mod Exprs
pub mod Balance
pub mod Loops
pub mod Total
pub mod Layout
pub mod Filled
pub mod Chains
pub mod Labels
pub mod References
pub mod Correct
