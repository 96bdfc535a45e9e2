-- ===== src/Opt/DeadGlobal/Live.antt =====
-- What `lc_pass_dead_global` marks.
use compiled_lua.Common.{ℕ, zero, suc, ◌≤◌}
use compiled_lua.Common.{◌≡◌, refl, ◌↔◌, true, false}
use compiled_lua.Common.{Option, none, some, List, [], ◌∷◌, arith}
use compiled_lua.Common.{length}
use compiled_lua.Opt.{LcFunc, LcModule}
use compiled_lua.Opt.CallGraph.{Grants, Callees, lc_build_callgraph}
use compiled_lua.Opt.Sweep.{Flags, is_live, count_dead, Reach}
use compiled_lua.Opt.Sweep.Correct.{sweep_lem}
use compiled_lua.Opt.DeadGlobal.{conservative, roots_from, all_dead, edges_of, lc_pass_dead_global}

all_dead-live : (fs : List (Option LcFunc)) (v : ℕ) → is_live (all_dead fs) v ≡ false
unfolding all_dead is_live
all_dead-live [] v = refl
all_dead-live (none ∷ fs) zero = refl
all_dead-live (some f ∷ fs) zero = refl
all_dead-live (none ∷ fs) (suc v) = all_dead-live fs v
all_dead-live (some f ∷ fs) (suc v) = all_dead-live fs v

count-all_dead : (fs : List (Option LcFunc)) → count_dead (all_dead fs) ≤ length fs
unfolding all_dead count_dead
count-all_dead [] = omega arith
count-all_dead (none ∷ fs) = omega (arith, count-all_dead fs)
count-all_dead (some f ∷ fs) = omega (arith, count-all_dead fs)

-- With a worklist, the pass ends, and a function is live exactly when the call graph leads to it
-- from a root: the entry, or any module's main chunk where an escape shape was found.
pub lc_pass_dead_global_lem :
    (grants : Grants) (prior : Option Callees) (m : LcModule)
    → (out : Flags) × (lc_pass_dead_global grants true prior m ≡ some out)
      × ((v : ℕ)
          → (is_live out v ≡ true)
            ↔ Reach
                (all_dead m.funcs)
                (edges_of (lc_build_callgraph grants m prior))
                (roots_from m (conservative m) 0 m.funcs)
                v)
unfolding lc_pass_dead_global
lc_pass_dead_global_lem grants prior m =
    sweep_lem (all_dead m.funcs) (edges_of (lc_build_callgraph grants m prior))
      (roots_from m (conservative m) 0 m.funcs) (length m.funcs) (count-all_dead m.funcs)
      (all_dead-live m.funcs)
