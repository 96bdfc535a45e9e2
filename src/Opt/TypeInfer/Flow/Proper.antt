-- ===== src/Opt/TypeInfer/Flow/Proper.antt =====
-- clua/src/opt/passes.c, `ti_transfer`: from a state whose registers all have a type, TI_UNK
-- counted, it makes another, of the same length.
use compiled_lua.Common.{ℕ, zero, suc, ◌+◌}
use compiled_lua.Common.{◌≡◌, refl, ap, Bool, true, false}
use compiled_lua.Common.{Option, none, some, List, [], ◌∷◌}
use compiled_lua.Common.{◌==◌, if◌then◌else◌}
use compiled_lua.Common.{length, get_elem?, set, replicate}
use compiled_lua.Opt.{Constant, string, integer, float, nonstring}
use compiled_lua.Opt.TypeInfer.{
  Ti, State, ti_reg, ti_ktype, ti_combine, ti_float2, ti_int2, ti_same_number, ti_only_int, OpCode,
  TiInst, clobber, clobber_range, call_effect, Effect, effect, apply, ti_transfer, ti_top, ti_int,
  ti_flt, ti_unk, op_move, op_add, op_sub, op_mul, op_idiv, op_mod, op_div, op_pow, op_divk,
  op_powk, op_addk, op_subk, op_mulk, op_idivk, op_modk, op_addi, op_unm, op_band, op_bor, op_bxor,
  op_shl, op_shr, op_bandk, op_bork, op_bxork, op_shli, op_shri, op_bnot, op_forprep, op_forloop,
  op_loadk, op_loadi, op_loadf, op_len, op_getupval, op_gettabup, op_gettable, op_geti, op_getfield,
  op_newtable, op_closure, op_loadkx, op_loadfalse, op_lfalseskip, op_loadtrue, op_not, op_concat,
  op_testset, constant_type, sets, sets_two, nils, calls, clobbers, keeps,
}

pub data NotTop : Ti → Type 0 where
  int : NotTop ti_int
  flt : NotTop ti_flt
  unk : NotTop ti_unk

-- A state of `w` registers, none of them TI_TOP.
pub data Proper : ℕ → State → Type 0 where
  nil : Proper 0 []
  cons : {x : Ti} {w : ℕ} {xs : State} → NotTop x → Proper w xs → Proper (suc w) (x ∷ xs)

pub Proper-length : {w : ℕ} {s : State} → Proper w s → length s ≡ w
Proper-length nil = refl
Proper-length (cons h hs) = ap suc (Proper-length hs)

pub replicate-Proper : (w : ℕ) → Proper w (replicate w ti_unk)
replicate-Proper zero = nil
replicate-Proper (suc w) = cons unk (replicate-Proper w)

reg-Proper : {w : ℕ} {s : State} → Proper w s → (r : ℕ) → NotTop (ti_reg s r)
reg-Proper nil r = unk
reg-Proper (cons h hs) zero = h
reg-Proper (cons h hs) (suc r) = reg-Proper hs r

combine-Proper : (a b : Ti) → NotTop (ti_combine a b)
unfolding ti_combine
combine-Proper ti_int ti_int = int
combine-Proper ti_int ti_flt = flt
combine-Proper ti_flt ti_int = flt
combine-Proper ti_flt ti_flt = flt
combine-Proper _ _ = unk

float2-Proper : (a b : Ti) → NotTop (ti_float2 a b)
unfolding ti_float2
float2-Proper ti_int ti_int = flt
float2-Proper ti_int ti_flt = flt
float2-Proper ti_flt ti_int = flt
float2-Proper ti_flt ti_flt = flt
float2-Proper _ _ = unk

int2-Proper : (a b : Ti) → NotTop (ti_int2 a b)
unfolding ti_int2
int2-Proper ti_int ti_int = int
int2-Proper _ _ = unk

same_number-Proper : (a : Ti) → NotTop (ti_same_number a)
unfolding ti_same_number
same_number-Proper ti_int = int
same_number-Proper ti_flt = flt
same_number-Proper _ = unk

only_int-Proper : (a : Ti) → NotTop (ti_only_int a)
unfolding ti_only_int
only_int-Proper ti_int = int
only_int-Proper _ = unk

constant-Proper : (k : Constant) → NotTop (constant_type k)
constant-Proper integer = int
constant-Proper float = flt
constant-Proper nonstring = unk
constant-Proper (string n) = unk

found-Proper : (o : Option Constant) → NotTop (elim o [ none ↦ ti_unk | some k ↦ constant_type k ])
found-Proper none = unk
found-Proper (some k) = constant-Proper k

ktype-Proper : (p : Option (List Constant)) (i : ℕ) → NotTop (ti_ktype p i)
unfolding ti_ktype
ktype-Proper none i = unk
ktype-Proper (some ks) i = found-Proper (get_elem? ks i)

set-Proper : {w : ℕ} {s : State} {x : Ti} → Proper w s → (r : ℕ) → NotTop x → Proper w (set s r x)
set-Proper nil r e = nil
set-Proper (cons h hs) zero e = cons e hs
set-Proper (cons h hs) (suc r) e = cons h (set-Proper hs r e)

clobber-Proper : {w : ℕ} {s : State} → Proper w s → (a : ℕ) → Proper w (clobber a s)
unfolding clobber
clobber-Proper nil zero = nil
clobber-Proper nil (suc a) = nil
clobber-Proper (cons h hs) zero = cons unk (clobber-Proper hs zero)
clobber-Proper (cons h hs) (suc a) = cons h (clobber-Proper hs a)

clobber_range-Proper :
    {w : ℕ} {s : State} → Proper w s → (a count : ℕ) → Proper w (clobber_range a count s)
unfolding clobber_range
clobber_range-Proper nil a count = nil
clobber_range-Proper (cons h hs) a zero = cons h hs
clobber_range-Proper (cons h hs) zero (suc count) = cons unk (clobber_range-Proper hs zero count)
clobber_range-Proper (cons h hs) (suc a) (suc count) =
    cons h (clobber_range-Proper hs a (suc count))

known_call-Proper :
    {w : ℕ} {s : State} {ret : Ti}
    → NotTop ret
    → Proper w s
    → (a : ℕ) (one : Bool) → Proper w (if one then set (clobber (a + 1) s) a ret else clobber a s)
known_call-Proper k h a true = set-Proper (clobber-Proper h (a + 1)) a k
known_call-Proper k h a false = clobber-Proper h a

call-Proper :
    {w : ℕ} {s : State} → (ret : Ti) → Proper w s → (a c : ℕ) → Proper w (call_effect ret a c s)
unfolding call_effect
call-Proper ti_int h a c = known_call-Proper int h a (c == 2)
call-Proper ti_flt h a c = known_call-Proper flt h a (c == 2)
call-Proper ti_top h a c = clobber-Proper h a
call-Proper ti_unk h a c = clobber-Proper h a

abbrev ProperEffect : Effect → Type 0
ProperEffect (sets r t) = NotTop t
ProperEffect _ = Unit

apply-Proper :
    {w : ℕ} {s : State} → (e : Effect) → ProperEffect e → Proper w s → Proper w (apply e s)
unfolding apply
apply-Proper (sets r x) k h = set-Proper h r k
apply-Proper (sets_two a) k h = set-Proper (set-Proper h a unk) (a + 1) unk
apply-Proper (nils a count) k h = clobber_range-Proper h a count
apply-Proper (calls ret a c) k h = call-Proper ret h a c
apply-Proper (clobbers a) k h = clobber-Proper h a
apply-Proper keeps k h = h

effect-Proper :
    (p : Option (List Constant)) (i : TiInst) (op : OpCode) {w : ℕ} {st : State}
    → Proper w st
    → ProperEffect (effect p i st op)
unfolding effect
effect-Proper p i op_move h = reg-Proper h i.b
effect-Proper p i op_add h = combine-Proper _ _
effect-Proper p i op_sub h = combine-Proper _ _
effect-Proper p i op_mul h = combine-Proper _ _
effect-Proper p i op_idiv h = combine-Proper _ _
effect-Proper p i op_mod h = combine-Proper _ _
effect-Proper p i op_div h = float2-Proper _ _
effect-Proper p i op_pow h = float2-Proper _ _
effect-Proper p i op_divk h = float2-Proper _ _
effect-Proper p i op_powk h = float2-Proper _ _
effect-Proper p i op_addk h = combine-Proper _ _
effect-Proper p i op_subk h = combine-Proper _ _
effect-Proper p i op_mulk h = combine-Proper _ _
effect-Proper p i op_idivk h = combine-Proper _ _
effect-Proper p i op_modk h = combine-Proper _ _
effect-Proper p i op_addi h = same_number-Proper _
effect-Proper p i op_unm h = same_number-Proper _
effect-Proper p i op_band h = int2-Proper _ _
effect-Proper p i op_bor h = int2-Proper _ _
effect-Proper p i op_bxor h = int2-Proper _ _
effect-Proper p i op_shl h = int2-Proper _ _
effect-Proper p i op_shr h = int2-Proper _ _
effect-Proper p i op_bandk h = only_int-Proper _
effect-Proper p i op_bork h = only_int-Proper _
effect-Proper p i op_bxork h = only_int-Proper _
effect-Proper p i op_shli h = only_int-Proper _
effect-Proper p i op_shri h = only_int-Proper _
effect-Proper p i op_bnot h = only_int-Proper _
effect-Proper p i op_forprep h = int2-Proper _ _
effect-Proper p i op_forloop h = only_int-Proper _
effect-Proper p i op_loadi h = int
effect-Proper p i op_loadf h = flt
effect-Proper p i op_loadk h = ktype-Proper p i.b
effect-Proper p i op_len h = unk
effect-Proper p i op_getupval h = unk
effect-Proper p i op_gettabup h = unk
effect-Proper p i op_gettable h = unk
effect-Proper p i op_geti h = unk
effect-Proper p i op_getfield h = unk
effect-Proper p i op_newtable h = unk
effect-Proper p i op_closure h = unk
effect-Proper p i op_loadkx h = unk
effect-Proper p i op_loadfalse h = unk
effect-Proper p i op_lfalseskip h = unk
effect-Proper p i op_loadtrue h = unk
effect-Proper p i op_not h = unk
effect-Proper p i op_concat h = unk
effect-Proper p i op_testset h = unk
effect-Proper p i _ h = tt

pub transfer-Proper :
    (p : Option (List Constant)) (i : TiInst) {w : ℕ} {st : State}
    → Proper w st
    → Proper w (ti_transfer p i st)
unfolding ti_transfer
transfer-Proper p i {st} h = apply-Proper (effect p i st i.op) (effect-Proper p i i.op h) h
