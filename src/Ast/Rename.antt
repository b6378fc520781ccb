-- ===== src/Ast/Rename.antt =====
-- dep0/lib/01_ast/include/dep0/ast/rename_impl.hpp: give a binding variable a fresh index.
pub mod Fresh
use depc.Prelude.{◌+◌, max}
use depc.Ast.{Var, Args, Signature}
use depc.Ast.MaxIndex.{max_index_args, max_index_signature}
use depc.Ast.Replace.{replace_args, replace_signature}

-- The new variable, and the arguments, return type and body with all occurrences replaced.
unfoldable pub rename : Var → Signature → Var × Signature
rename v g =
    let new_idx = 1 + max v.idx (max_index_signature g) in
    let new_var = record v { idx = new_idx } in (new_var, replace_signature v new_var g)

-- The overload for Sigma-types.
unfoldable pub rename_args : Var → Args → Var × Args
rename_args v gs =
    let new_idx = 1 + max v.idx (max_index_args 0 gs) in
    let new_var = record v { idx = new_idx } in (new_var, replace_args v new_var gs)
