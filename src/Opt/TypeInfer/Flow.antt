-- ===== src/Opt/TypeInfer/Flow.antt =====
-- clua/src/opt/passes.c, `ti_run`: the fixpoint of the local type inference. The instructions are the array `insts`, the states its rows `st`. A prototype's
-- code is given as the Bx operand of each word, since the decoding macros are Lua's.
use compiled_lua.Common.{ℕ, zero, suc, ◌+◌}
use compiled_lua.Common.{Bool, true, false, not, ◌&&◌, ◌||◌}
use compiled_lua.Common.{Option, none, some, List, [], ◌∷◌, ◌++◌}
use compiled_lua.Common.{ltb, leb, if◌then◌else◌}
use compiled_lua.Common.{length, get_elem?, set, get_or, replicate}
pub mod Ends
pub mod Settled
pub mod Proper
pub mod Meets
pub mod Paths
pub mod Bounds
use compiled_lua.Opt.{Constant}
use compiled_lua.Opt.TypeInfer.{
  Ti, State, ti_meet, ti_reg, ti_transfer, ti_top, ti_int, ti_flt, ti_unk, TiInst, OpCode, op_eq,
  op_lt, op_le, op_eqk, op_eqi, op_lti, op_lei, op_gti, op_gei, op_forloop, op_forprep, op_tforloop,
  op_tforprep, op_return, op_return0, op_return1, op_tailcall, op_jmp, op_test, op_testset,
  op_lfalseskip, op_closure,
}

-- The bits LC_KNOWN_* of `known`.
pub record Known : Type 0 where
  pub b_int : Bool
  pub c_int : Bool
  pub b_flt : Bool
  pub c_flt : Bool

-- An IR instruction. `pc` is `bc_pc`, `none` where that is negative; the masks `res_entry_int` and
-- `res_entry_flt` are given by their bits, bit 0 first, a missing one being 0.
pub record Inst : Type 0 where
  pub inst : TiInst
  pub pc : Option ℕ
  pub known : Known
  pub res_entry_int : List Bool
  pub res_entry_flt : List Bool

pub record Upvalue : Type 0 where
  pub instack : Bool
  pub idx : ℕ

-- A nested prototype is its list of upvalues, `none` where the pointer is null.
pub record Source : Type 0 where
  pub constants : List Constant
  pub code : List ℕ
  pub protos : List (Option (List Upvalue))
  pub maxstacksize : ℕ
  pub numparams : ℕ

unfoldable pub max_pc : List Inst → ℕ → ℕ
max_pc [] m = m
max_pc (x ∷ xs) m = max_pc xs (elim x.pc [ none ↦ m | some pc ↦ if ltb m pc then pc else m ])

-- idxof[pc], filled from instruction `i` on
unfoldable pub index_insts : ℕ → List Inst → List (Option ℕ) → List (Option ℕ)
index_insts i [] idxof = idxof
index_insts i (x ∷ xs) idxof =
    index_insts (i + 1) xs (elim x.pc [ none ↦ idxof | some pc ↦ set idxof pc (some i) ])

abbrev pub index_of : List Inst → List (Option ℕ)
index_of insts = index_insts 0 insts (replicate (max_pc insts 0 + 2) none)

-- The index of the instruction that a branch to `c` goes to.
unfoldable pub target : List Inst → ℕ → Option ℕ
target insts c = if leb c (max_pc insts 0) then get_or (index_of insts) c none else none

unfoldable pub capture : List Upvalue → List Bool → List Bool
capture [] captured = captured
capture (u ∷ us) captured =
    capture us
      (if u.instack && ltb u.idx (length captured) then set captured u.idx true else captured)

abbrev pub capture_proto : Option (List Upvalue) → List Bool → List Bool
capture_proto none captured = captured
capture_proto (some us) captured = capture us captured

abbrev pub capture_closure : Source → OpCode → Option ℕ → List Bool → List Bool
capture_closure p op_closure (some pc) captured = elim (get_elem? p.code pc) [
  | none ↦ captured
  | some bx ↦ capture_proto (get_or p.protos bx none) captured
]
capture_closure p _ _ captured = captured

unfoldable pub captures : Source → List Inst → List Bool → List Bool
captures p [] captured = captured
captures p (x ∷ xs) captured = captures p xs (capture_closure p x.inst.op x.pc captured)

-- if (captured[r]) out[r] = TI_UNK
unfoldable pub forget : List Bool → State → State
forget [] st = st
forget (c ∷ cs) [] = []
forget (c ∷ cs) (x ∷ xs) = (if c then ti_unk else x) ∷ forget cs xs

unfoldable pub out_state : Source → List Bool → Inst → State → State
out_state p captured x st = forget captured (ti_transfer (some p.constants) x.inst st)

abbrev pub within : ℕ → ℕ → List ℕ
within n j = if ltb j n then j ∷ [] else []

abbrev pub to_target : Option ℕ → List ℕ
to_target none = []
to_target (some t) = t ∷ []

-- The successors of instruction `i` of `n`, where a branch of it goes to `t`.
unfoldable pub successors : ℕ → ℕ → Option ℕ → OpCode → List ℕ
successors n i t op_return = []
successors n i t op_return0 = []
successors n i t op_return1 = []
successors n i t op_tailcall = []
successors n i t op_jmp = to_target t
successors n i t op_forloop = to_target t ++ within n (i + 1)
successors n i t op_forprep = to_target t ++ within n (i + 1)
successors n i t op_tforloop = to_target t ++ within n (i + 1)
successors n i t op_tforprep = to_target t ++ within n (i + 1)
successors n i t op_eq = within n (i + 1) ++ within n (i + 2)
successors n i t op_lt = within n (i + 1) ++ within n (i + 2)
successors n i t op_le = within n (i + 1) ++ within n (i + 2)
successors n i t op_eqk = within n (i + 1) ++ within n (i + 2)
successors n i t op_eqi = within n (i + 1) ++ within n (i + 2)
successors n i t op_lti = within n (i + 1) ++ within n (i + 2)
successors n i t op_lei = within n (i + 1) ++ within n (i + 2)
successors n i t op_gti = within n (i + 1) ++ within n (i + 2)
successors n i t op_gei = within n (i + 1) ++ within n (i + 2)
successors n i t op_test = within n (i + 1) ++ within n (i + 2)
successors n i t op_testset = within n (i + 1) ++ within n (i + 2)
successors n i t op_lfalseskip = within n (i + 2)
successors n i t _ = within n (i + 1)

abbrev pub next_of : List Inst → ℕ → Inst → List ℕ
next_of insts i x = successors (length insts) i (target insts x.inst.c) x.inst.op

abbrev pub ti_same : Ti → Ti → Bool
ti_same ti_top ti_top = true
ti_same ti_int ti_int = true
ti_same ti_flt ti_flt = true
ti_same ti_unk ti_unk = true
ti_same _ _ = false

unfoldable pub meet_row : State → State → State
meet_row [] out = []
meet_row (s ∷ sin) [] = s ∷ sin
meet_row (s ∷ sin) (o ∷ out) = ti_meet s o ∷ meet_row sin out

-- Whether the meet differs from `sin` somewhere.
unfoldable pub changes : State → State → Bool
changes [] out = false
changes (s ∷ sin) [] = false
changes (s ∷ sin) (o ∷ out) = not (ti_same (ti_meet s o) s) || changes sin out

pub record Flow : Type 0 where
  pub st : List State
  pub changed : Bool

abbrev pub row : List State → ℕ → State
row st i = get_or st i []

abbrev pub flow_to : State → Flow → ℕ → Flow
flow_to out s j = record {
  st = set s.st j (meet_row (row s.st j) out);
  changed = s.changed || changes (row s.st j) out;
}

unfoldable pub flow_all : State → Flow → List ℕ → Flow
flow_all out s [] = s
flow_all out s (j ∷ js) = flow_all out (flow_to out s j) js

-- The body of the `while` from instruction `i` on, where `rest` are the instructions left.
unfoldable pub sweep_insts : Source → List Bool → List Inst → ℕ → List Inst → Flow → Flow
sweep_insts p captured insts i [] s = s
sweep_insts p captured insts i (x ∷ rest) s =
    sweep_insts p captured insts (i + 1) rest
      (flow_all (out_state p captured x (row s.st i)) s (next_of insts i x))

-- The loop `while (changed)`, with fuel; `none` means that the fuel ran out.
unfoldable pub fixpoint : Source → List Bool → List Inst → ℕ → List State → Option (List State)
fixpoint p captured insts zero st = none
fixpoint p captured insts (suc fuel) st =
    let s = sweep_insts p captured insts 0 insts (record { st = st; changed = false }) in
    elim s.changed [ true ↦ fixpoint p captured insts fuel s.st | false ↦ some s.st ]

-- st[r] = param_ti[r] for the parameters
unfoldable pub with_params : ℕ → List Ti → State → State
with_params zero ps st = st
with_params (suc k) [] st = st
with_params (suc k) (t ∷ ts) [] = []
with_params (suc k) (t ∷ ts) (x ∷ xs) = t ∷ with_params k ts xs

abbrev pub entry_state : Source → Option (List Ti) → State
entry_state p none = replicate p.maxstacksize ti_unk
entry_state p (some ts) = with_params p.numparams ts (replicate p.maxstacksize ti_unk)

-- The table before the loop: TI_TOP but for the first row.
abbrev pub first_table : State → ℕ → List Inst → List State
first_table entry w [] = []
first_table entry w (x ∷ xs) = entry ∷ replicate (length xs) (replicate w ti_top)
