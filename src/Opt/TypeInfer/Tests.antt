-- ===== src/Opt/TypeInfer/Tests.antt =====
-- clua/src/opt/passes.c, `ti_run` on a function with a numeric loop and an addition in it.
use compiled_lua.Common.{ℕ}
use compiled_lua.Common.{◌≡◌, refl, ◌↔◌, Bool, true, false}
use compiled_lua.Common.{Option, none, some, List, [], ◌∷◌, arith}
use compiled_lua.Common.{get_elem?}
use compiled_lua.Opt.Sweep.{Flags, is_live, sweep, scan, push, is_dead, set_live, In}
use compiled_lua.Opt.TypeInfer.{
  State, OpCode, op_loadi, op_forprep, op_add, op_forloop, op_return0, op_closure, ti_reg, ti_top,
  ti_unk, ti_meet, ti_transfer, effect, apply, ti_combine, ti_int2, ti_only_int,
}
use compiled_lua.Opt.TypeInfer.Order.{LeState}
use compiled_lua.Opt.TypeInfer.Flow.{
  Known, Inst, Source, max_pc, index_insts, target, capture, captures, forget, out_state,
  successors, meet_row, changes, flow_all, sweep_insts, fixpoint, with_params, next_of, row,
}
use compiled_lua.Opt.TypeInfer.Annotate.Captured.{Captures, closes, stacked, captured_lem}
use compiled_lua.Opt.TypeInfer.Annotate.{
  operands, mark, entry_mask, mark_loop, annotate, ti_states, ti_run,
}
use compiled_lua.Opt.TypeInfer.Annotate.Run.{Arrives, Annotated, ti_states_lem, ti_run_lem}
use compiled_lua.Opt.TypeInfer.Reach.{unreached, reach_edges, ti_reach}
use compiled_lua.Opt.TypeInfer.Reach.Walked.{ti_reach_lem}

abbrev nothing : Known
nothing = record { b_int = false; c_int = false; b_flt = false; c_flt = false }

abbrev inst_at : ℕ → OpCode → ℕ → ℕ → ℕ → Inst
inst_at pc op a b c = record {
  inst = record { op = op; a = a; b = b; c = c; call_ret_ti = ti_top };
  pc = some pc;
  known = nothing;
  res_entry_int = [];
  res_entry_flt = [];
}

-- for i = 1, 10 do local x = i + i end
abbrev first_inst : Inst
first_inst = inst_at 0 op_loadi 0 1 0

abbrev later_insts : List Inst
later_insts =
    inst_at 1 op_loadi 1 10 0
    ∷ inst_at 2 op_loadi 2 1 0
    ∷ inst_at 3 op_forprep 0 0 6
    ∷ inst_at 4 op_add 4 3 3
    ∷ inst_at 5 op_forloop 0 0 4
    ∷ inst_at 6 op_return0 0 0 0
    ∷ []

abbrev counting : List Inst
counting = first_inst ∷ later_insts

abbrev counting_source : Source
counting_source = record {
  constants = [];
  code = 0 ∷ 0 ∷ 0 ∷ 0 ∷ 0 ∷ 0 ∷ 0 ∷ [];
  protos = [];
  maxstacksize = 5;
  numparams = 0;
}

abbrev flags_at : ℕ → Option (List Inst) → Known
flags_at i none = nothing
flags_at i (some out) = elim (get_elem? out i) [ none ↦ nothing | some y ↦ y.known ]

abbrev mask_at : ℕ → Option (List Inst) → List Bool
mask_at i none = []
mask_at i (some out) = elim (get_elem? out i) [ none ↦ [] | some y ↦ y.res_entry_int ]

-- The addition's operands are integers and so is the loop; the sum is unknown where it starts.
ti_run_test :
    (flags_at 4 (ti_run (some counting_source) none counting)
      ≡ record { b_int = true; c_int = true; b_flt = false; c_flt = false })
    × ((flags_at 5 (ti_run (some counting_source) none counting)).b_int ≡ true)
    × (mask_at 5 (ti_run (some counting_source) none counting)
        ≡ true ∷ true ∷ true ∷ true ∷ false ∷ [])
unfolding ti_run annotate mark_loop mark operands entry_mask fixpoint sweep_insts flow_all changes
    meet_row successors out_state forget captures capture target index_insts max_pc with_params
    ti_transfer effect apply ti_combine ti_int2 ti_only_int ti_meet
ti_run_test = (refl, refl, refl)

ti_run_lem_example :
    (out : List Inst) × (ti_run (some counting_source) none counting ≡ some out)
    × Annotated counting_source none counting out
ti_run_lem_example = ti_run_lem counting_source none counting tt

ti_states_lem_example :
    (st : List State) × (ti_states counting_source none counting ≡ some st)
    × ((i : ℕ) (s : State) → Arrives counting_source none counting i s → LeState (row st i) s)
ti_states_lem_example = ti_states_lem counting_source none first_inst later_insts tt

ti_reach_test :
    ti_reach (inst_at 0 op_return0 0 0 0 ∷ first_inst ∷ []) ≡ some (some false ∷ some true ∷ [])
unfolding ti_reach unreached reach_edges sweep scan push is_dead set_live successors target max_pc
    index_insts
ti_reach_test = refl

ti_reach_lem_example :
    (out : Flags) × (ti_reach counting ≡ some out)
    × ((v : ℕ) → (is_live out v ≡ true) ↔ ((s : State) × Arrives counting_source none counting v s))
ti_reach_lem_example = ti_reach_lem counting_source none counting

-- local i = 1; local f = function() i = "" end; return, with the upvalue in register 0
abbrev holding : List Inst
holding = inst_at 1 op_closure 1 0 0 ∷ inst_at 2 op_return0 0 0 0 ∷ []

abbrev holding_source : Source
holding_source = record {
  constants = [];
  code = 0 ∷ 0 ∷ 0 ∷ [];
  protos = some (record { instack = true; idx = 0 } ∷ []) ∷ [];
  maxstacksize = 2;
  numparams = 0;
}

captured_lem_example :
    (st : List State) × (ti_states holding_source none (first_inst ∷ holding) ≡ some st)
    × ((i j : ℕ) (s : State) (y : Inst)
        → Arrives holding_source none (first_inst ∷ holding) i s
        → get_elem? (first_inst ∷ holding) i ≡ some y
        → In j (next_of (first_inst ∷ holding) i y)
        → ti_reg (row st j) 0 ≡ ti_unk)
captured_lem_example =
    captured_lem holding_source none first_inst holding 0 tt
      (Captures.later (closes refl refl refl refl (stacked refl refl))) (omega arith)
