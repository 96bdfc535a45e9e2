-- ===== src/Opt/FoldBranches/Tests.antt =====
-- clua/src/opt/passes.c, `lc_pass_fold_dead_branches` on a local that is false, tested around a
-- closure and returned.
use compiled_lua.Common.{ℕ}
use compiled_lua.Common.{◌≡◌, refl}
use compiled_lua.Common.{Option, some, List, [], ◌∷◌, arith}
use compiled_lua.Opt.TypeInfer.{OpCode, op_loadfalse, op_test, op_jmp, op_closure, op_return1}
use compiled_lua.Opt.FoldBranches.{
  IrInst, lc_op, guard, skip_extra, has_closure, neutral, covered, after, fold_insts, fold_blocks,
  lc_pass_fold_dead_branches,
}
use compiled_lua.Opt.FoldBranches.Folded.{FoldsBlocks, lc_pass_fold_dead_branches_lem}

abbrev inst_at : ℕ → OpCode → ℕ → ℕ → IrInst
inst_at pc op a c = record { pc = pc; bc_op = op; op = lc_op 0; a = a; c = c; flags = 1; nargs = 0 }

abbrev returned : IrInst
returned = inst_at 4 op_return1 0 0

-- local x = false; if x then local f = function() end end; return x
abbrev tested_local : List IrInst
tested_local =
    inst_at 0 op_loadfalse 0 0
    ∷ inst_at 1 op_test 0 0
    ∷ inst_at 2 op_jmp 0 4
    ∷ inst_at 3 op_closure 1 0
    ∷ returned
    ∷ []

-- The load of the local is folded with the branch, and the return still reads the register.
fold_test :
    lc_pass_fold_dead_branches (some 5) (some tested_local ∷ [])
    ≡ some (
        some (
          neutral (inst_at 0 op_loadfalse 0 0)
          ∷ neutral (inst_at 1 op_test 0 0)
          ∷ neutral (inst_at 2 op_jmp 0 4)
          ∷ neutral (inst_at 3 op_closure 1 0)
          ∷ returned
          ∷ [])
        ∷ [])
unfolding fold_blocks fold_insts guard skip_extra has_closure covered after
fold_test = refl

lc_pass_fold_dead_branches_lem_example :
    (out : List (Option (List IrInst))) × (lc_pass_fold_dead_branches
        (some 5)
        (some tested_local ∷ [])
      ≡ some out)
    × FoldsBlocks 5 (some tested_local ∷ []) out
lc_pass_fold_dead_branches_lem_example =
    lc_pass_fold_dead_branches_lem 5 (some tested_local ∷ [])
      (((omega arith, (omega arith, (omega arith, (omega arith, (omega arith, tt)))))), tt)
