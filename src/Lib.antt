-- ===== src/Lib.antt =====
-- A verification library for Dep0, the bootstrapping compiler of DepC: a C-like language with
-- dependent types. It models the syntax trees that the compiler works on, the operations on
-- variables and binders that its type checker rests on, the analyses of statements, the
-- arithmetic on numeric constants, and the scopes and quantities with which variables are counted.
--
-- The files, and the code that each is about (paths from the repository's root; `ast` stands for
-- dep0/lib/01_ast/include/dep0/ast and `typecheck` for dep0/lib/03_typecheck/src):
--
-- Qty         `qty_t` and its operators, ast/qty.hpp.
-- Ast         `expr_t`, `stmt_t`, `body_t` and `func_arg_t`, ast/ast.hpp, at the type checker's
--             properties: an expression is its sort and its value. A vector of expressions, of
--             arguments or of statements is a data type of its own in the mutual block.
-- Ast/OccursIn, Ast/MaxIndex, Ast/Replace, Ast/Rename, Ast/Size
--             `occurs_in`, `max_index`, `replace`, `rename` and `size`, the files of ast called
--             <name>_impl.hpp. An overload on arguments, return type and body takes a
--             `Signature`; where there is no body it is `none`.
-- Substitute  `substitute`, typecheck/substitute.cpp, on top of `occurs_in` and `rename`.
-- Fields      The overloads of `max_index`, `replace`, `rename` and `substitute` for the fields of a struct.
-- Ast/Unwrap  `unwrap_because` and `is_place_expression`, the files of ast so called.
-- Ast/Views, Ast/Member
--             `get_if_array` and `get_if_ref`, ast/views.hpp; `find_member_field`, the file of ast.
-- Ast/Index   `value.index()` of the variants of ast/ast.hpp.
-- Alpha       `is_alpha_equivalent`, ast/alpha_equivalence_impl.hpp, on top of `rename` and `replace`.
-- HashCode    `hash_code`, ast/hash_code_impl.hpp, as computations over `hash_code_state_t`.
-- BetaDelta   `is_beta_delta_equivalent`, typecheck/beta_delta_equivalence.cpp.
-- Unification `unify`, typecheck/unification.cpp, on top of both equivalences.
-- Rewrite     `rewrite`, typecheck/rewrite.cpp, on top of `is_alpha_equivalent` and `occurs_in`.
-- Stmts       `is_terminator`, `returns_from_all_branches` and `drop_unreachable_stmts`,
--             typecheck. Stmts/Run is an independent description of what a body does.
-- Impossible  `is_impossible`, typecheck/is_impossible.cpp. Impossible/Paths is an independent description
--             of the paths through a body, as relations.
-- Mutable     `is_mutable`, typecheck/is_mutable.cpp. Mutable/Parts is an independent description of what
--             is evaluated as part of an expression.
-- CppInt      `cpp_int_min`, `cpp_int_max`, `cpp_int_add`, `cpp_int_sub`, `cpp_int_mult` and
--             `cpp_int_div`, typecheck, for all widths and both signs.
-- ScopeMap    `scope_map`, dep0/lib/00_core/include/dep0/scope_map.hpp, at variables as keys: the
--             states that scopes share live on a heap, and a scope is an address.
-- Context     `ctx_t`, typecheck/context.cpp, on two of these maps. Context/Scoping says what a
--             context amounts to and what a declaration does to that.
-- Usage       `usage_t`, typecheck/usage.cpp, on ScopeMap, with Usage/Merge; a typing context is the function that its
--             `operator[]` is there. The move of `count` at a rollback is the new address.
-- VectorSplice
--             `vector_splice`, dep0/lib/00_core/include/dep0/vector_splice.hpp.
-- Prelude     Shared names: the library's, Boolean tests, and integers.
-- Tests       Runs on small inputs and instances of the theorems.
--
-- The code changes trees in place; here each operation returns the new tree. Mapping over an
-- expression goes through its value and its statements; its sort is changed by substitution alone,
-- as in the code. `substitute` renames what its loop has yet to visit, so it runs on fuel. The fuel
-- is the weight of the tree (Ast/Weight), which counts its nodes. It is enough because each call goes
-- to a part of the tree, and replacing a variable in what is left keeps the number of nodes. The same
-- holds of `is_alpha_equivalent`, which renames in both of the trees and starts with both weights.
--
-- Looking a name up goes from a scope to its parents, which are older and so have smaller addresses:
-- `lookup` takes its fuel from the address, which is enough because there are no more states before it.
-- The limit on positions is `std::size_t`'s highest value, as in the code.
--
-- How expressions evaluate is a parameter of Stmts/Run: a state type, a partial evaluation of
-- conditions, returned expressions and calls, and the law that a Boolean constant evaluates to
-- itself. The conversion from the integer library's numbers to machine words is the parameter
-- `Conversion` of CppInt, with the law that a number that fits is kept. Where C++ leaves the result
-- undefined (division by zero, an overflow of `int` after integer promotion) the model returns
-- `none`; where the code throws, at a function whose sort is no Pi-type, so does `is_mutable`.
--
-- The hash functions of boost and of the standard library are the fields of `HashFunctions`, of which
-- nothing is assumed. Reduction, `beta_delta_normalize`, is an argument of BetaDelta and Unification.
--
-- Not modelled: the parser, the printing of trees, the type checker's rules, reduction
-- and proof search, the transformations, and the code generator, which calls the LLVM library.
-- The definitions of a module are left out, as are the iterators of `scope_map`, and `rewrite` and
-- `decls` of a context.
pub mod Prelude
pub mod BetaDelta
pub mod Context
pub mod CppInt
pub mod Qty
pub mod Alpha
pub mod Ast
pub mod Fields
pub mod HashCode
pub mod Impossible
pub mod Mutable
pub mod Rewrite
pub mod ScopeMap
pub mod Stmts
pub mod Substitute
pub mod Unification
pub mod Usage
pub mod VectorSplice
pub mod Tests
