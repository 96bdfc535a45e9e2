-- ===== src/Opt/TypeInfer/Annotate.antt =====
-- clua/src/opt/passes.c, `ti_run`: what it leaves on the instructions, and the whole function.
use compiled_lua.Common.{ℕ, zero, suc, ◌+◌, ◌*◌}
use compiled_lua.Common.{Bool, true, false, ◌&&◌, ◌||◌}
use compiled_lua.Common.{Option, none, some, List, [], ◌∷◌, map}
use compiled_lua.Common.{if◌then◌else◌}
use compiled_lua.Common.{length, replicate}
pub mod Sound
pub mod Run
pub mod Captured
use mathlib.Core.Option
use compiled_lua.Opt.TypeInfer.{
  Ti, State, ti_reg, ti_int, ti_flt, TiInst, OpCode, op_add, op_sub, op_mul, op_div, op_band,
  op_bor, op_bxor, op_addi, op_addk, op_subk, op_mulk, op_divk, op_bandk, op_bork, op_bxork, op_eq,
  op_lt, op_le, op_eqi, op_lti, op_lei, op_gti, op_gei, op_move, op_forloop,
}
use compiled_lua.Opt.TypeInfer.Flow.{
  Known, Inst, Source, captures, fixpoint, entry_state, first_table, row, ti_same, target,
}

-- Whether the operands 1 and 2 of an annotated instruction are registers, and which.
unfoldable pub operands : OpCode → TiInst → Option ℕ × Option ℕ
operands op_add i = (some i.b, some i.c)
operands op_sub i = (some i.b, some i.c)
operands op_mul i = (some i.b, some i.c)
operands op_div i = (some i.b, some i.c)
operands op_band i = (some i.b, some i.c)
operands op_bor i = (some i.b, some i.c)
operands op_bxor i = (some i.b, some i.c)
operands op_addi i = (some i.b, none)
operands op_addk i = (some i.b, none)
operands op_subk i = (some i.b, none)
operands op_mulk i = (some i.b, none)
operands op_divk i = (some i.b, none)
operands op_bandk i = (some i.b, none)
operands op_bork i = (some i.b, none)
operands op_bxork i = (some i.b, none)
operands op_eq i = (some i.a, some i.b)
operands op_lt i = (some i.a, some i.b)
operands op_le i = (some i.a, some i.b)
operands op_eqi i = (some i.a, none)
operands op_lti i = (some i.a, none)
operands op_lei i = (some i.a, none)
operands op_gti i = (some i.a, none)
operands op_gei i = (some i.a, none)
operands op_move i = (some i.b, none)
operands _ i = (none, none)

abbrev pub holds : State → Ti → Option ℕ → Bool
holds sin t none = false
holds sin t (some o) = ti_same (ti_reg sin o) t

unfoldable pub mark : State → Option ℕ × Option ℕ → Known → Known
mark sin (o1, o2) k = record {
  b_int = k.b_int || holds sin ti_int o1;
  c_int = k.c_int || holds sin ti_int o2;
  b_flt = k.b_flt || holds sin ti_flt o1;
  c_flt = k.c_flt || holds sin ti_flt o2;
}

-- The bits of the slots below `lim` that have the type `t`.
unfoldable pub entry_mask : ℕ → Ti → State → List Bool
entry_mask zero t xs = []
entry_mask (suc lim) t [] = []
entry_mask (suc lim) t (x ∷ xs) = ti_same x t ∷ entry_mask lim t xs

abbrev pub target_mask : Ti → List State → Option ℕ → List Bool
target_mask t st none = []
target_mask t st (some j) = entry_mask 64 t (row st j)

-- OP_FORLOOP: an integer index and step.
unfoldable pub mark_loop : List State → List Inst → State → Inst → Inst
mark_loop st insts sin x =
    let to = target insts x.inst.c in
    if holds sin ti_int (some x.inst.a) && holds sin ti_int (some (x.inst.a + 2))
    then record x {
      known = record x.known { b_int = true };
      res_entry_int = target_mask ti_int st to;
      res_entry_flt = target_mask ti_flt st to;
    }
    else x

abbrev pub annotate_op : List State → List Inst → State → OpCode → Inst → Inst
annotate_op st insts sin op_forloop x = mark_loop st insts sin x
annotate_op st insts sin op x = record x { known = mark sin (operands op x.inst) x.known }

unfoldable pub annotate : List State → List Inst → ℕ → List Inst → List Inst
annotate st insts i [] = []
annotate st insts i (x ∷ rest) =
    annotate_op st insts (row st i) x.inst.op x ∷ annotate st insts (i + 1) rest

-- Rounds that are enough: a register's type goes down twice at most.
abbrev pub rounds : ℕ → ℕ → ℕ
rounds n nregs = 2 * (n * nregs) + 1

abbrev pub no_registers : ℕ → Bool
no_registers zero = true
no_registers (suc _) = false

abbrev pub captured_of : Source → List Inst → List Bool
captured_of p insts = captures p insts (replicate p.maxstacksize false)

abbrev pub ti_states : Source → Option (List Ti) → List Inst → Option (List State)
ti_states p params insts =
    fixpoint p (captured_of p insts) insts (rounds (length insts) p.maxstacksize)
      (first_table (entry_state p params) p.maxstacksize insts)

abbrev pub run_insts : Source → Option (List Ti) → List Inst → Option (List Inst)
run_insts p params insts = Option.map (λ st. annotate st insts 0 insts) (ti_states p params insts)

-- The instructions after the call; `none` means that the fuel ran out.
unfoldable pub ti_run : Option Source → Option (List Ti) → List Inst → Option (List Inst)
ti_run none params insts = some insts
ti_run (some p) params [] = some []
ti_run (some p) params (x ∷ xs) =
    if no_registers p.maxstacksize then some (x ∷ xs) else run_insts p params (x ∷ xs)
