-- ===== src/Lib.antt =====
-- The server of LambdaMOO: its text routines, its values and lists, its arithmetic, its table of
-- objects, the verbs and properties of objects with the built-in functions on properties, the
-- quotas of players, the matching of names, the parse of commands, its timers, and the generator
-- of code from syntax trees.
--
-- Text (Text, Text/...) is src/utils.c with `ascii_tolower` of include/utils.h. Value and
-- Value/Equality are `Var` of include/structures.h with `is_true` and `equality` of src/utils.c.
-- ListOps and ListOps/... are the primitives and built-in functions of src/list.c. Int32 is the
-- machine's integers, and Numbers with Numbers/... the operators of src/numbers.c. Objects with
-- Objects/... is src/db_objects.c: the slots, the links between objects (Chain, Unlink, Remove,
-- Append), containment (Forest, Attach, Location), flags and the list of users (Flags, Users), the
-- ancestors of an object (Ancestors), and the growth and renumbering of the table (Table). Objects
-- use the sets of ListOps for the list of users, and those use the equality of Value, which
-- compares texts by Text. Match and Match/Sound are src/match.c, on the lists of contents. Parse
-- and Parse/Words are src/parse_cmd.c, which asks Match for the objects. Timers is src/timers.c,
-- with Signals (the signals that it sends to its own process), Sorted, Order and Calls.
--
-- Verbs is src/db_verbs.c: the records and the searches, with Verbs/Prepositions (the table of
-- prepositions; Bounds and Names), Verbs/Cache (the cache that `db_find_callable_verb` keeps;
-- Lookup and Refines), Verbs/Edit (adding, deleting and setting; Laws and Adding), Verbs/Namespace
-- with Endless (whether two lists of verb names share one) and Verbs/Info with Letters
-- (`verb_info`), both of src/verbs.c. Verbs are compared by Text/Verbs, which is `verbcasecmp` of
-- src/utils.c. Properties is the search of src/db_properties.c, with Properties/Layout (the arrays
-- of values along the ancestors), Properties/Values (values, owners and permissions),
-- Properties/Edit (adding, renaming and deleting; Arrays, Writes, Steps and Adding), and
-- Properties/Parents (the arrays after a change of parents, with `db_change_parent` of
-- src/db_objects.c, which also empties the cache of verbs). Properties/Builtins, with Changes,
-- Kept and Safety, is src/property.c, and Quota with Quota/Laws is src/quota.c, which asks
-- Properties. Prelude has the shared tests, lists and integers. Tests has concrete runs.
--
-- SymTable is src/sym_table.c, the names of variables, which it compares by Text. Ast is
-- include/ast.h. CodeGen is src/code_gen.c: Opcodes (include/opcode.h), State with Records (the
-- state of a body and the emitting functions), Expr (`generate_expr` with the functions it calls),
-- Vector (the second half of `stmt_to_code`, and `READ_BYTES` of src/execute.c), and Stmt
-- (`generate_stmt`, `stmt_to_code`, `generate_code`), as they are compiled without
-- `BYTECODE_REDUCE_REF`. Formed says which trees the parser builds. Frame has the laws of an
-- invariant of the state and what each emitting function does to the stack; Exprs, Balance, Loops
-- and Total carry them over the tree, for any such invariant, and Layout, with Shapes, has the one
-- that the counters of the state obey. Chains, Filled, Labels and References are about the chains
-- of labels and the finished vector, and Correct puts these together. A body that the compiler
-- rejects by a panic gives `none`; the fuel of `define_label` is the number of fixups, where a
-- link leads to an earlier one. Counts of bytes, fixups and stack places are below 2^32, since
-- each takes memory.
--
-- A function keeps its name from the source. A C string is the list of its bytes before the zero.
-- A MOO list is the list of its elements, and a C array that is read or written outside its
-- bounds, a null pointer that is followed, and a call of `server_panic` give `none` (or `fault`,
-- in a built-in function). The static variables of src/db_objects.c are the record `Db`; an
-- operation that changes them takes the table and returns the new one. A field of an object that
-- holds an object number is named by `Link`, so that a macro with a field for a parameter is one
-- function.
--
-- A `while` loop over linked objects runs on fuel, and running out is `none`. One round for every
-- member of the list and one more are enough, and the theorems state that. A loop over the
-- ancestors of an object needs more rounds than the object has ancestors, which `Ranked` says. The
-- loops of `strsub`, `parse_into_words` and `dbpriv_build_prep_table` need one round more than the
-- text has characters, `verbcasecmp` one more than the names have, and the loop of `do_power`
-- needs 33. The second loop over two verb names has fuel of any amount. The walk over an object
-- and those below it has two bounds, `most` for the ancestors and for the children of one object,
-- and `fuel` for the depth.
--
-- An `int32_t` is its bit pattern below 2^32, and sums and products wrap around. Floating-point
-- numbers and their operations are parameters (`FloatEq`, `FloatOps`), and so are `strtol`,
-- `strcmp` and the clock, which stands still in an operation on timers. The addresses of strings,
-- which `verbcasecmp` compares, are an argument of each search of verbs by name (`Same`). A
-- `short` is its pattern below 2^16 where it is a set of bits. A signal that is not blocked is
-- handled before the call that sends it returns; the calls of procedures are recorded, and what
-- they do is not modelled. Parse takes `db_find_prep` and `match_object` as arguments, and Match
-- the value of the property "aliases"; Command puts the definitions of Verbs, Match and Properties
-- in their place. A handle of a verb is the object that defines it and its index there; one of a
-- property is a place in an object's array of values, or a built-in property with its object.
-- Reference counts matter only where the code looks at them, in `doinsert`; elsewhere memory
-- management is left out, and so are the statistics of the verb cache, the destruction of objects,
-- the built-in functions on objects, the others on verbs, the interpreter, tasks, the parser, the
-- network, and the reading and writing of the database.
pub mod Prelude
pub mod Text
pub mod Value
pub mod Int32
pub mod ListOps
pub mod Numbers
pub mod Objects
pub mod Timers
pub mod Match
pub mod Parse
pub mod Verbs
pub mod Properties
pub mod Quota
pub mod SymTable
pub mod Ast
pub mod CodeGen
pub mod Command
pub mod Tests
