-- ===== src/CodeGen/State/Records.antt =====
-- The records of the code generator, and its arithmetic: src/code_gen.c and include/program.h.
use lambda_moo_plus_foo.Prelude.{
  ltb, leb, if◌then◌else◌, ℕ, zero, suc, ◌+◌, ◌-◌, ◌^◌, Option, none, some, List,
}
use lambda_moo_plus_foo.Value.{Var}
use lambda_moo_plus_foo.CodeGen.Opcodes.{Byte}

pub data FixupKind : Type 0 where
  fixup_literal fixup_fork fixup_label fixup_var_ref fixup_stack : FixupKind

-- A place in the code whose number is filled in at the end.
pub record Fixup : Type 0 where
  pub kind : FixupKind
  pub pc : ℕ
  pub value : ℕ
  pub prev_literals : ℕ
  pub prev_forks : ℕ
  pub prev_var_refs : ℕ
  pub prev_labels : ℕ
  pub prev_stacks : ℕ
  pub next : Option ℕ

-- The sizes of the numbers in a vector: 1, 2 or 4 bytes.
pub data Width : Type 0 where
  one two four : Width

unfoldable pub width : Width → ℕ
width one = 1
width two = 2
width four = 4

pub record Bytecodes : Type 0 where
  pub numbytes_label : Width
  pub numbytes_literal : Width
  pub numbytes_fork : Width
  pub numbytes_var_name : Width
  pub numbytes_stack : Width
  pub vector : List Byte
  pub size : ℕ
  pub max_stack : ℕ

pub record GState (F : Type 0) : Type 0 where
  pub total_var_refs : ℕ
  pub literals : List (Var F)
  pub fork_vectors : List Bytecodes

pub record Loop : Type 0 where
  pub id : Option ℕ
  pub top_label : Fixup
  pub top_stack : ℕ
  pub bottom_label : Option ℕ
  pub bottom_stack : ℕ

-- The innermost loop comes first.
pub record State (F : Type 0) : Type 0 where
  pub max_literal : ℕ
  pub max_fork : ℕ
  pub max_var_ref : ℕ
  pub num_literals : ℕ
  pub num_forks : ℕ
  pub num_var_refs : ℕ
  pub num_labels : ℕ
  pub num_stacks : ℕ
  pub fixups : List Fixup
  pub bytes : List Byte
  pub cur_stack : ℕ
  pub max_stack : ℕ
  pub saved_stack : Option ℕ
  pub loops : List Loop
  pub gstate : GState F

-- The greater of a maximum and a new number.
abbrev pub raise : ℕ → ℕ → ℕ
raise m i = if ltb m i then i else m

abbrev pub pseudo_label : ℕ → Fixup
pseudo_label v = record {
  kind = fixup_label;
  pc = 0;
  value = v;
  prev_literals = 0;
  prev_forks = 0;
  prev_var_refs = 0;
  prev_labels = 0;
  prev_stacks = 0;
  next = none;
}

-- `c - n` of `unsigned` numbers: below zero it wraps around.
unfoldable pub less_by : ℕ → ℕ → ℕ
less_by c n = if leb n c then c - n else c + 2 ^ 32 - n

-- `cur_stack - 1`, which is `UINT_MAX` for an empty stack.
abbrev pub below : ℕ → Option ℕ
below zero = none
below (suc n) = some n
