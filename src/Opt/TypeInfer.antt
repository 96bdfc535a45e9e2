-- ===== src/Opt/TypeInfer.antt =====
-- clua/src/opt/passes.c, the local type inference: its lattice and `ti_transfer`. `n` is the
-- length of the state. The operands that it reads are unsigned fields of the instruction.
use compiled_lua.Common.{ℕ, zero, suc, ◌+◌}
use compiled_lua.Common.{Option, none, some, List, [], ◌∷◌}
use compiled_lua.Common.{◌==◌, if◌then◌else◌}
use compiled_lua.Common.{get_elem?, set, get_or}
pub mod Order
pub mod Flow
pub mod Annotate
pub mod Reach
mod Tests
use compiled_lua.Opt.{Constant, string, integer, float, nonstring}

pub data Ti : Type 0 where
  ti_top ti_int ti_flt ti_unk : Ti

unfoldable pub ti_meet : Ti → Ti → Ti
ti_meet ti_top b = b
ti_meet ti_int ti_top = ti_int
ti_meet ti_int ti_int = ti_int
ti_meet ti_int ti_flt = ti_unk
ti_meet ti_int ti_unk = ti_unk
ti_meet ti_flt ti_top = ti_flt
ti_meet ti_flt ti_int = ti_unk
ti_meet ti_flt ti_flt = ti_flt
ti_meet ti_flt ti_unk = ti_unk
ti_meet ti_unk b = ti_unk

abbrev pub State : Type 0
State = List Ti

abbrev pub ti_reg : State → ℕ → Ti
ti_reg st r = get_or st r ti_unk

abbrev pub constant_type : Constant → Ti
constant_type integer = ti_int
constant_type float = ti_flt
constant_type _ = ti_unk

-- The constants are `none` where there is no prototype.
unfoldable pub ti_ktype : Option (List Constant) → ℕ → Ti
ti_ktype none i = ti_unk
ti_ktype (some ks) i = elim (get_elem? ks i) [ none ↦ ti_unk | some k ↦ constant_type k ]

unfoldable pub ti_combine : Ti → Ti → Ti
ti_combine ti_int ti_int = ti_int
ti_combine ti_int ti_flt = ti_flt
ti_combine ti_flt ti_int = ti_flt
ti_combine ti_flt ti_flt = ti_flt
ti_combine _ _ = ti_unk

-- Division and power give a float of two numbers.
unfoldable pub ti_float2 : Ti → Ti → Ti
ti_float2 ti_int ti_int = ti_flt
ti_float2 ti_int ti_flt = ti_flt
ti_float2 ti_flt ti_int = ti_flt
ti_float2 ti_flt ti_flt = ti_flt
ti_float2 _ _ = ti_unk

unfoldable pub ti_int2 : Ti → Ti → Ti
ti_int2 ti_int ti_int = ti_int
ti_int2 _ _ = ti_unk

-- OP_ADDI, OP_UNM
unfoldable pub ti_same_number : Ti → Ti
ti_same_number ti_int = ti_int
ti_same_number ti_flt = ti_flt
ti_same_number _ = ti_unk

unfoldable pub ti_only_int : Ti → Ti
ti_only_int ti_int = ti_int
ti_only_int _ = ti_unk

-- Lua's opcodes; `op_unlisted` is any that the switch has no case for.
pub data OpCode : Type 0 where
  op_loadi op_loadf op_loadk op_move : OpCode
  op_add op_sub op_mul op_idiv op_mod op_div op_pow op_divk op_powk : OpCode
  op_addk op_subk op_mulk op_idivk op_modk op_addi op_unm : OpCode
  op_band op_bor op_bxor op_shl op_shr op_bandk op_bork op_bxork op_shli op_shri op_bnot : OpCode
  op_len op_loadnil op_self op_forprep op_forloop op_call : OpCode
  op_tailcall op_vararg op_varargprep op_tforcall op_tforprep op_tforloop : OpCode
  op_getupval op_gettabup op_gettable op_geti op_getfield op_newtable op_closure op_loadkx : OpCode
  op_loadfalse op_lfalseskip op_loadtrue op_not op_concat op_testset : OpCode
  op_jmp op_eq op_lt op_le op_eqk op_eqi op_lti op_lei op_gti op_gei op_test : OpCode
  op_setupval op_settabup op_settable op_seti op_setfield op_setlist : OpCode
  op_return op_return0 op_return1 op_close op_tbc op_mmbin op_mmbini op_mmbink op_extraarg : OpCode
  op_unlisted : OpCode

-- An instruction, as far as the transfer reads it.
pub record TiInst : Type 0 where
  pub op : OpCode
  pub a : ℕ
  pub b : ℕ
  pub c : ℕ
  pub call_ret_ti : Ti

-- for (i = a; i < n; i++) st[i] = TI_UNK
unfoldable pub clobber : ℕ → State → State
clobber a [] = []
clobber zero (x ∷ xs) = ti_unk ∷ clobber zero xs
clobber (suc a) (x ∷ xs) = x ∷ clobber a xs

-- The `count` registers from `a` on.
unfoldable pub clobber_range : ℕ → ℕ → State → State
clobber_range a count [] = []
clobber_range a zero (x ∷ xs) = x ∷ xs
clobber_range zero (suc count) (x ∷ xs) = ti_unk ∷ clobber_range zero count xs
clobber_range (suc a) (suc count) (x ∷ xs) = x ∷ clobber_range a (suc count) xs

-- OP_CALL with a callee whose one result has the type `ret`.
unfoldable pub call_effect : Ti → ℕ → ℕ → State → State
call_effect ti_int a c st = if c == 2 then set (clobber (a + 1) st) a ti_int else clobber a st
call_effect ti_flt a c st = if c == 2 then set (clobber (a + 1) st) a ti_flt else clobber a st
call_effect ti_top a c st = clobber a st
call_effect ti_unk a c st = clobber a st

-- The bodies of the switch.
pub data Effect : Type 0 where
  sets : ℕ → Ti → Effect
  sets_two : ℕ → Effect
  nils : ℕ → ℕ → Effect
  calls : Ti → ℕ → ℕ → Effect
  clobbers : ℕ → Effect
  keeps : Effect

unfoldable pub effect : Option (List Constant) → TiInst → State → OpCode → Effect
effect p i st op_loadi = sets i.a ti_int
effect p i st op_loadf = sets i.a ti_flt
effect p i st op_loadk = sets i.a (ti_ktype p i.b)
effect p i st op_move = sets i.a (ti_reg st i.b)
effect p i st op_add = sets i.a (ti_combine (ti_reg st i.b) (ti_reg st i.c))
effect p i st op_sub = sets i.a (ti_combine (ti_reg st i.b) (ti_reg st i.c))
effect p i st op_mul = sets i.a (ti_combine (ti_reg st i.b) (ti_reg st i.c))
effect p i st op_idiv = sets i.a (ti_combine (ti_reg st i.b) (ti_reg st i.c))
effect p i st op_mod = sets i.a (ti_combine (ti_reg st i.b) (ti_reg st i.c))
effect p i st op_div = sets i.a (ti_float2 (ti_reg st i.b) (ti_reg st i.c))
effect p i st op_pow = sets i.a (ti_float2 (ti_reg st i.b) (ti_reg st i.c))
effect p i st op_divk = sets i.a (ti_float2 (ti_reg st i.b) (ti_ktype p i.c))
effect p i st op_powk = sets i.a (ti_float2 (ti_reg st i.b) (ti_ktype p i.c))
effect p i st op_addk = sets i.a (ti_combine (ti_reg st i.b) (ti_ktype p i.c))
effect p i st op_subk = sets i.a (ti_combine (ti_reg st i.b) (ti_ktype p i.c))
effect p i st op_mulk = sets i.a (ti_combine (ti_reg st i.b) (ti_ktype p i.c))
effect p i st op_idivk = sets i.a (ti_combine (ti_reg st i.b) (ti_ktype p i.c))
effect p i st op_modk = sets i.a (ti_combine (ti_reg st i.b) (ti_ktype p i.c))
effect p i st op_addi = sets i.a (ti_same_number (ti_reg st i.b))
effect p i st op_unm = sets i.a (ti_same_number (ti_reg st i.b))
effect p i st op_band = sets i.a (ti_int2 (ti_reg st i.b) (ti_reg st i.c))
effect p i st op_bor = sets i.a (ti_int2 (ti_reg st i.b) (ti_reg st i.c))
effect p i st op_bxor = sets i.a (ti_int2 (ti_reg st i.b) (ti_reg st i.c))
effect p i st op_shl = sets i.a (ti_int2 (ti_reg st i.b) (ti_reg st i.c))
effect p i st op_shr = sets i.a (ti_int2 (ti_reg st i.b) (ti_reg st i.c))
effect p i st op_bandk = sets i.a (ti_only_int (ti_reg st i.b))
effect p i st op_bork = sets i.a (ti_only_int (ti_reg st i.b))
effect p i st op_bxork = sets i.a (ti_only_int (ti_reg st i.b))
effect p i st op_shli = sets i.a (ti_only_int (ti_reg st i.b))
effect p i st op_shri = sets i.a (ti_only_int (ti_reg st i.b))
effect p i st op_bnot = sets i.a (ti_only_int (ti_reg st i.b))
effect p i st op_len = sets i.a ti_unk
effect p i st op_loadnil = nils i.a (i.b + 1)
effect p i st op_self = sets_two i.a
effect p i st op_forprep = sets (i.a + 3) (ti_int2 (ti_reg st i.a) (ti_reg st (i.a + 2)))
effect p i st op_forloop = sets (i.a + 3) (ti_only_int (ti_reg st i.a))
effect p i st op_call = calls i.call_ret_ti i.a i.c
effect p i st op_tailcall = clobbers i.a
effect p i st op_vararg = clobbers i.a
effect p i st op_varargprep = clobbers 0
effect p i st op_tforcall = clobbers i.a
effect p i st op_tforprep = clobbers i.a
effect p i st op_tforloop = clobbers i.a
effect p i st op_getupval = sets i.a ti_unk
effect p i st op_gettabup = sets i.a ti_unk
effect p i st op_gettable = sets i.a ti_unk
effect p i st op_geti = sets i.a ti_unk
effect p i st op_getfield = sets i.a ti_unk
effect p i st op_newtable = sets i.a ti_unk
effect p i st op_closure = sets i.a ti_unk
effect p i st op_loadkx = sets i.a ti_unk
effect p i st op_loadfalse = sets i.a ti_unk
effect p i st op_lfalseskip = sets i.a ti_unk
effect p i st op_loadtrue = sets i.a ti_unk
effect p i st op_not = sets i.a ti_unk
effect p i st op_concat = sets i.a ti_unk
effect p i st op_testset = sets i.a ti_unk
effect p i st op_unlisted = clobbers i.a
effect p i st _ = keeps

unfoldable pub apply : Effect → State → State
apply (sets r t) st = set st r t
apply (sets_two a) st = set (set st a ti_unk) (a + 1) ti_unk
apply (nils a count) st = clobber_range a count st
apply (calls ret a c) st = call_effect ret a c st
apply (clobbers a) st = clobber a st
apply keeps st = st

unfoldable pub ti_transfer : Option (List Constant) → TiInst → State → State
ti_transfer p i st = apply (effect p i st i.op) st
