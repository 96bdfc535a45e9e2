-- ===== src/Opt/Tests.antt =====
-- Runs of the optimizer's passes on a small program: the entry makes a closure of function 1 and
-- requires the module "m", function 2; nothing refers to function 3.
use compiled_lua.Common.{ℕ}
use compiled_lua.Common.{◌≡◌, refl, ◌↔◌, inl, true, false, ◌||◌}
use compiled_lua.Common.{Option, none, some, List, [], ◌∷◌, arith}
use compiled_lua.Common.{get_or}
use compiled_lua.Common.Int.{pos, negsuc}
use compiled_lua.Opt.{
  Name, codes, gettabup, loadk, closure, other, string, Instruction, Proto, LcInst, LcFunc,
  LcModule,
}
use compiled_lua.Opt.Libs.{
  lc_module_used_libs, lc_module_uses_ffi, module_has_string_const, any_constant, has_constant,
  lc_module_uses_coroutine, lc_module_reflects_globals, reflects_protos, reflects_code,
  reflects_instruction, lc_module_uses_debug,
}
use compiled_lua.Opt.Libs.Reached.{
  Named, bit, escapes, lib_name, any_code_indexes, lc_module_used_libs_lem,
}
use compiled_lua.Opt.CallGraph.{
  lc_build_callgraph, all_edges, func_edges, cg_add_require_edges, require_edges, block_edges,
  require_target, find_module_from, cg_add_edge, inst_edges, inst_target, find_proto_from, add_to,
}
use compiled_lua.Opt.CallGraph.Add.{granted}
use compiled_lua.Opt.CallGraph.Edges.{required, lc_build_callgraph_lem}
use compiled_lua.Opt.Sweep.{Flags, In, Reach, is_live, sweep, scan, push, is_dead, set_live}
use compiled_lua.Opt.DeadGlobal.{conservative, roots_from, all_dead, edges_of, lc_pass_dead_global}
use compiled_lua.Opt.TypeInfer.{
  TiInst, op_add, ti_top, ti_int, ti_unk, ti_transfer, effect, apply, ti_combine,
}
use compiled_lua.Opt.DeadGlobal.Live.{lc_pass_dead_global_lem}

abbrev get_require : Instruction
get_require = record { op = gettabup; b = 0; c = 0; bx = 0 }

abbrev load_name : Instruction
load_name = record { op = loadk; b = 0; c = 0; bx = 1 }

abbrev call_it : Instruction
call_it = record { op = other 68; b = 2; c = 1; bx = 0 }

abbrev main_proto : Proto
main_proto = record {
  address = 100;
  constants = string (codes "require") ∷ string (codes "m") ∷ [];
  code = get_require ∷ load_name ∷ call_it ∷ [];
  upvalue_names = [];
  protos = some 101 ∷ [];
}

abbrev leaf : ℕ → Proto
leaf a = record { address = a; constants = []; code = []; upvalue_names = []; protos = [] }

abbrev make_child : LcInst
make_child = record { bc_op = closure; b = pos 0; call_callee = negsuc 0 }

abbrev main_func : LcFunc
main_func = record {
  source = some main_proto;
  module_name = none;
  blocks = some (make_child ∷ []) ∷ [];
}

abbrev leaf_func : ℕ → Option Name → LcFunc
leaf_func a name = record { source = some (leaf a); module_name = name; blocks = [] }

abbrev program : LcModule
program = record {
  funcs =
      some main_func
      ∷ some (leaf_func 101 none)
      ∷ some (leaf_func 102 (some (codes "m")))
      ∷ some (leaf_func 103 none)
      ∷ [];
  entry = some 0;
}

callgraph_test : lc_build_callgraph granted program none ≡ some ((1 ∷ 2 ∷ []) ∷ [] ∷ [] ∷ [] ∷ [])
unfolding lc_build_callgraph all_edges func_edges cg_add_require_edges require_edges block_edges
    require_target find_module_from cg_add_edge inst_edges inst_target find_proto_from add_to
callgraph_test = refl

dead_test :
    lc_pass_dead_global granted true none program
    ≡ some (some false ∷ some false ∷ some false ∷ some true ∷ [])
unfolding lc_pass_dead_global lc_build_callgraph all_edges func_edges cg_add_require_edges
    require_edges block_edges require_target find_module_from cg_add_edge inst_edges inst_target
    find_proto_from add_to sweep scan lc_module_uses_ffi module_has_string_const any_constant
    has_constant lc_module_uses_coroutine lc_module_reflects_globals reflects_protos reflects_code
    reflects_instruction lc_module_uses_debug push is_dead set_live
dead_test = refl

lc_module_used_libs_lem_example :
    ((l : Named)
      → bit l (lc_module_used_libs program)
        ≡ (escapes program || module_has_string_const program (lib_name l)))
    × ((lc_module_used_libs program).string_lib ≡ (
        escapes program
        || (module_has_string_const program (codes "string")
            || any_code_indexes (main_proto ∷ leaf 101 ∷ leaf 102 ∷ leaf 103 ∷ []))))
lc_module_used_libs_lem_example = lc_module_used_libs_lem program

lc_build_callgraph_lem_example :
    (cs : List (List ℕ)) × (lc_build_callgraph granted program none ≡ some cs)
    × In 2 (get_or cs 0 [])
unfolding require_target find_module_from
lc_build_callgraph_lem_example =
    lc_build_callgraph_lem program none 0 2 main_func refl (omega arith) (omega arith)
      (required main_proto get_require load_name refl (inl (refl, refl)) refl)

lc_pass_dead_global_lem_example :
    (out : Flags) × (lc_pass_dead_global granted true none program ≡ some out)
    × ((v : ℕ)
        → (is_live out v ≡ true)
          ↔ Reach
              (all_dead program.funcs)
              (edges_of (lc_build_callgraph granted program none))
              (roots_from program (conservative program) 0 program.funcs)
              v)
lc_pass_dead_global_lem_example = lc_pass_dead_global_lem granted none program

abbrev add_loop : TiInst
add_loop = record { op = op_add; a = 2; b = 0; c = 1; call_ret_ti = ti_top }

ti_transfer_test :
    ti_transfer none add_loop (ti_int ∷ ti_int ∷ ti_unk ∷ []) ≡ ti_int ∷ ti_int ∷ ti_int ∷ []
unfolding ti_transfer effect apply ti_combine
ti_transfer_test = refl
