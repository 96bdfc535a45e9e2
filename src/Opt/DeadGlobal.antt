-- ===== src/Opt/DeadGlobal.antt =====
-- clua/src/opt/passes.c: `lc_pass_dead_global`. `worklist` says whether the `malloc` of the
-- worklist succeeds; the debug print is left out.
use compiled_lua.Common.{ℕ, ◌+◌}
use compiled_lua.Common.{Bool, true, false, ◌&&◌, ◌||◌}
use compiled_lua.Common.{Option, none, some, List, [], ◌∷◌}
use compiled_lua.Common.{◌==◌, if◌then◌else◌}
use compiled_lua.Common.{length, get_or}
pub mod Live
use compiled_lua.Opt.{Name, LcFunc, LcModule}
use compiled_lua.Opt.Libs.{
  lc_module_uses_ffi, lc_module_uses_coroutine, lc_module_uses_debug, lc_module_reflects_globals,
}
use compiled_lua.Opt.CallGraph.{Grants, Callees, lc_build_callgraph}
use compiled_lua.Opt.Sweep.{Flags, Sweep, push, scan, sweep}

abbrev pub conservative : LcModule → Bool
conservative m =
    lc_module_uses_ffi m
    || lc_module_uses_coroutine m
    || lc_module_uses_debug m
    || lc_module_reflects_globals m

-- Whether function `i` is a root: the entry, or under the fallback every module's main chunk.
unfoldable pub is_root : LcModule → Bool → ℕ → Option LcFunc → Bool
is_root m wide i none = false
is_root m wide i (some f) = elim m.entry [
  | some e ↦ e == i || (wide && elim f.module_name [ none ↦ false | some n ↦ true ])
  | none ↦ wide && elim f.module_name [ none ↦ false | some n ↦ true ]
]

unfoldable pub roots_from : LcModule → Bool → ℕ → List (Option LcFunc) → List ℕ
unfolding is_root
roots_from m wide i [] = []
roots_from m wide i (f ∷ fs) =
    let later = roots_from m wide (i + 1) fs in if is_root m wide i f then i ∷ later else later

-- Every function starts out dead.
unfoldable pub all_dead : List (Option LcFunc) → Flags
all_dead [] = []
all_dead (none ∷ fs) = none ∷ all_dead fs
all_dead (some f ∷ fs) = some true ∷ all_dead fs

-- The edges that the sweep reads; with null tables there are none.
abbrev pub edges_of : Option Callees → ℕ → List ℕ
edges_of none fi = []
edges_of (some cs) fi = get_or cs fi []

-- The flags that the pass leaves, over the graph `prior` of an earlier build; an outer `none` would be a sweep that did not end.
unfoldable pub lc_pass_dead_global : Grants → Bool → Option Callees → LcModule → Option Flags
unfolding all_dead roots_from
lc_pass_dead_global grants worklist prior m =
    if worklist
    then sweep (edges_of (lc_build_callgraph grants m prior)) (length m.funcs) (
        scan (record { flags = all_dead m.funcs; pending = [] })
          (roots_from m (conservative m) 0 m.funcs))
    else some (all_dead m.funcs)
