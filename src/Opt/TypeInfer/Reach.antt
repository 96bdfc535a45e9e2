-- ===== src/Opt/TypeInfer/Reach.antt =====
-- clua/src/opt/passes.c, `ti_run` with `keep`: the instructions that control reaches. The worklist
-- is that of `lc_pass_dead_global`, with `reach[i] == 0` for a function that is dead.
use compiled_lua.Common.{ℕ}
use compiled_lua.Common.{true}
use compiled_lua.Common.{Option, none, some, List, [], ◌∷◌}
use compiled_lua.Common.{length, get_elem?}
pub mod Walked
use compiled_lua.Opt.Sweep.{Flags, Sweep, sweep, scan}
use compiled_lua.Opt.TypeInfer.Flow.{Inst, next_of}

-- calloc( n, 1 )
unfoldable pub unreached : List Inst → Flags
unreached [] = []
unreached (x ∷ xs) = some true ∷ unreached xs

unfoldable pub reach_edges : List Inst → ℕ → List ℕ
reach_edges insts u = elim (get_elem? insts u) [ none ↦ [] | some x ↦ next_of insts u x ]

-- `reach`, where both allocations are granted; `none` would be a walk that did not end.
unfoldable pub ti_reach : List Inst → Option Flags
ti_reach insts =
    sweep (reach_edges insts) (length insts)
      (scan (record { flags = unreached insts; pending = [] }) (0 ∷ []))
