-- ===== src/Opt/TypeInfer/Annotate/Run.antt =====
-- clua/src/opt/passes.c, `ti_run` as a whole: it ends, and what it notes is so on every path.
use compiled_lua.Common.{ℕ, zero, suc, ◌+◌, ◌<◌}
use compiled_lua.Common.{◌≡◌, refl, inl, inr}
use compiled_lua.Common.{Option, none, some, List, [], ◌∷◌, arith}
use compiled_lua.Common.{Bool-cases}
use compiled_lua.Common.{length, get_elem?}
use mathlib.Core.Path.{subst}
use compiled_lua.Opt.TypeInfer.{Ti, State}
use compiled_lua.Opt.TypeInfer.Order.{LeState}
use compiled_lua.Opt.TypeInfer.Flow.{Inst, Source, row, entry_state, with_params}
use compiled_lua.Opt.TypeInfer.Flow.Proper.{Proper, replicate-Proper}
use compiled_lua.Opt.TypeInfer.Flow.Paths.{Route, fixpoint_lem}
use compiled_lua.Opt.TypeInfer.Annotate.{
  annotate_op, annotate, rounds, no_registers, captured_of, ti_states, ti_run,
}
use compiled_lua.Opt.TypeInfer.Annotate.Sound.{
  Sound, annotate_op-Sound, annotate-get_elem?, unmarked-Sound,
}

-- The types given for the parameters, if any, are types.
abbrev pub HasTypes : Option (List Ti) → Type 0
HasTypes none = Unit
HasTypes (some ts) = Proper (length ts) ts

with_params-Proper :
    {w v : ℕ} {st ts : State} (k : ℕ) → Proper v ts → Proper w st → Proper w (with_params k ts st)
unfolding with_params
with_params-Proper zero ts h = h
with_params-Proper (suc k) Proper.nil h = h
with_params-Proper (suc k) (Proper.cons t ts) Proper.nil = Proper.nil
with_params-Proper (suc k) (Proper.cons t ts) (Proper.cons x h) =
    Proper.cons t (with_params-Proper k ts h)

entry-Proper :
    (p : Source) (params : Option (List Ti))
    → HasTypes params
    → Proper p.maxstacksize (entry_state p params)
entry-Proper p none h = replicate-Proper p.maxstacksize
entry-Proper p (some ts) h = with_params-Proper p.numparams h (replicate-Proper p.maxstacksize)

module _ (p : Source) (params : Option (List Ti)) (insts : List Inst) where
  -- Some path leads to instruction `i`, with the registers' types `s`.
  abbrev pub Arrives : ℕ → State → Type 0
  Arrives i s = (i < length insts) × Route p (captured_of p insts) insts (entry_state p params) i s

  -- What `ti_run` promises of the instructions `out`.
  abbrev pub Annotated : List Inst → Type 0
  Annotated out =
      (i : ℕ) (x : Inst) (s : State)
      → get_elem? insts i ≡ some x
      → Arrives i s
      → (y : Inst) × (get_elem? out i ≡ some y) × Sound insts Arrives s x y

  annotate-Annotated :
      (st : List State)
      → ((i : ℕ) (s : State) → Arrives i s → LeState (row st i) s)
      → Annotated (annotate st insts 0 insts)
  annotate-Annotated st below i x s at here =
      let place : i ≡ 0 + i = omega arith in
      let le = subst (λ n. LeState (row st n) s) place (below i s here) in
      (
        annotate_op st insts (row st (0 + i)) x.inst.op x,
        annotate-get_elem? insts st Arrives below insts 0 i at,
        annotate_op-Sound insts st Arrives below x x.inst.op refl le,
      )

-- The states that `ti_run` computes, for a function with an instruction and types for the
-- parameters that are none of them TI_TOP: the loop ends within two rounds for each register of
-- each instruction, and at an instruction a register is unknown or has the type that it has at the
-- end of each control path from the entry to there.
pub ti_states_lem :
    (p : Source) (params : Option (List Ti)) (x : Inst) (rest : List Inst)
    → HasTypes params
    → (st : List State) × (ti_states p params (x ∷ rest) ≡ some st)
      × ((i : ℕ) (s : State) → Arrives p params (x ∷ rest) i s → LeState (row st i) s)
ti_states_lem p params x rest types =
    let (st, ends, below) =
      fixpoint_lem p (captured_of p (x ∷ rest)) x rest (entry-Proper p params types)
        (rounds (length (x ∷ rest)) p.maxstacksize) (omega arith) in
    (st, ends, λ i s h. (below i s h.0 h.1).1)

-- `ti_run` on a function whose parameters, where types are given for them, have none of them
-- TI_TOP: it ends, it keeps the instructions, and whatever control path leads to an instruction, a
-- bit of `known` that is new there says what the path says of its operand, and so does each bit of
-- a FORLOOP's new masks of what its branch leads to.
pub ti_run_lem :
    (p : Source) (params : Option (List Ti)) (insts : List Inst)
    → HasTypes params
    → (out : List Inst) × (ti_run (some p) params insts ≡ some out) × Annotated p params insts out
unfolding ti_run
ti_run_lem p params [] types = ([], refl, λ i x s at here. cc at)
ti_run_lem p params (x ∷ rest) types = elim (Bool-cases (no_registers p.maxstacksize)) [
  | inl empty ↦ (
    x ∷ rest,
    rw empty refl,
    λ i y s at here. (y, at, unmarked-Sound (x ∷ rest) (Arrives p params (x ∷ rest)) s y),
  )
  | inr full ↦
      let (st, ends, below) = ti_states_lem p params x rest types in
      (
        annotate st (x ∷ rest) 0 (x ∷ rest),
        rw (full, ends) refl,
        annotate-Annotated p params (x ∷ rest) st below,
      )
]
