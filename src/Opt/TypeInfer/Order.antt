-- ===== src/Opt/TypeInfer/Order.antt =====
-- clua/src/opt/passes.c, `ti_transfer`: states in the order of the lattice, below the top.
use compiled_lua.Common.{ℕ, zero, suc, ◌+◌}
use compiled_lua.Common.{inl, inr}
use compiled_lua.Common.{Option, List, [], ◌∷◌}
use compiled_lua.Common.{◌==◌, if◌then◌else◌, Bool-cases}
use compiled_lua.Common.{set}
use compiled_lua.Opt.{Constant}
use compiled_lua.Opt.TypeInfer.{
  Ti, State, ti_reg, ti_combine, ti_float2, ti_int2, ti_same_number, ti_only_int, OpCode, TiInst,
  clobber, clobber_range, call_effect, Effect, effect, apply, ti_transfer, ti_top, ti_int, ti_flt,
  ti_unk, op_move, op_add, op_sub, op_mul, op_idiv, op_mod, op_div, op_pow, op_divk, op_powk,
  op_addk, op_subk, op_mulk, op_idivk, op_modk, op_addi, op_unm, op_band, op_bor, op_bxor, op_shl,
  op_shr, op_bandk, op_bork, op_bxork, op_shli, op_shri, op_bnot, op_forprep, op_forloop, sets,
  sets_two, nils, calls, clobbers, keeps,
}

-- The type `a` says no more than `b`: it is unknown, or the same.
pub data Le : Ti → Ti → Type 0 where
  unk_le : {b : Ti} → Le ti_unk b
  same : {a : Ti} → Le a a

pub data LeState : State → State → Type 0 where
  nil : LeState [] []
  cons : {x y : Ti} {xs ys : State} → Le x y → LeState xs ys → LeState (x ∷ xs) (y ∷ ys)

pub LeState-refl : (s : State) → LeState s s
LeState-refl [] = nil
LeState-refl (x ∷ xs) = cons same (LeState-refl xs)

pub reg-Le : {s t : State} → LeState s t → (r : ℕ) → Le (ti_reg s r) (ti_reg t r)
reg-Le nil r = same
reg-Le (cons h hs) zero = h
reg-Le (cons h hs) (suc r) = reg-Le hs r

combine-Le : {a b c d : Ti} → Le a c → Le b d → Le (ti_combine a b) (ti_combine c d)
unfolding ti_combine
combine-Le unk_le h = unk_le
combine-Le (same {a = ti_top}) unk_le = unk_le
combine-Le (same {a = ti_int}) unk_le = unk_le
combine-Le (same {a = ti_flt}) unk_le = unk_le
combine-Le (same {a = ti_unk}) unk_le = unk_le
combine-Le same same = same

float2-Le : {a b c d : Ti} → Le a c → Le b d → Le (ti_float2 a b) (ti_float2 c d)
unfolding ti_float2
float2-Le unk_le h = unk_le
float2-Le (same {a = ti_top}) unk_le = unk_le
float2-Le (same {a = ti_int}) unk_le = unk_le
float2-Le (same {a = ti_flt}) unk_le = unk_le
float2-Le (same {a = ti_unk}) unk_le = unk_le
float2-Le same same = same

int2-Le : {a b c d : Ti} → Le a c → Le b d → Le (ti_int2 a b) (ti_int2 c d)
unfolding ti_int2
int2-Le unk_le h = unk_le
int2-Le (same {a = ti_top}) unk_le = unk_le
int2-Le (same {a = ti_int}) unk_le = unk_le
int2-Le (same {a = ti_flt}) unk_le = unk_le
int2-Le (same {a = ti_unk}) unk_le = unk_le
int2-Le same same = same

same_number-Le : {a c : Ti} → Le a c → Le (ti_same_number a) (ti_same_number c)
unfolding ti_same_number
same_number-Le unk_le = unk_le
same_number-Le same = same

only_int-Le : {a c : Ti} → Le a c → Le (ti_only_int a) (ti_only_int c)
unfolding ti_only_int
only_int-Le unk_le = unk_le
only_int-Le same = same

set-Le : {s t : State} {x y : Ti} → LeState s t → (r : ℕ) → Le x y → LeState (set s r x) (set t r y)
set-Le nil r e = nil
set-Le (cons h hs) zero e = cons e hs
set-Le (cons h hs) (suc r) e = cons h (set-Le hs r e)

clobber-Le : {s t : State} → LeState s t → (a : ℕ) → LeState (clobber a s) (clobber a t)
unfolding clobber
clobber-Le nil zero = nil
clobber-Le nil (suc a) = nil
clobber-Le (cons h hs) zero = cons same (clobber-Le hs zero)
clobber-Le (cons h hs) (suc a) = cons h (clobber-Le hs a)

clobber_range-Le :
    {s t : State}
    → LeState s t
    → (a count : ℕ) → LeState (clobber_range a count s) (clobber_range a count t)
unfolding clobber_range
clobber_range-Le nil a count = nil
clobber_range-Le (cons h hs) a zero = cons h hs
clobber_range-Le (cons h hs) zero (suc count) = cons same (clobber_range-Le hs zero count)
clobber_range-Le (cons h hs) (suc a) (suc count) = cons h (clobber_range-Le hs a (suc count))

known_call-Le :
    {s t : State}
    → (ret : Ti) → LeState s t
    → (a c : ℕ)
    → LeState
        (if c == 2 then set (clobber (a + 1) s) a ret else clobber a s)
        (if c == 2 then set (clobber (a + 1) t) a ret else clobber a t)
known_call-Le ret h a c = elim (Bool-cases (c == 2)) [
  | inl one ↦ rw one (set-Le (clobber-Le h (a + 1)) a same)
  | inr more ↦ rw more (clobber-Le h a)
]

call-Le :
    {s t : State}
    → (ret : Ti) → LeState s t
    → (a c : ℕ) → LeState (call_effect ret a c s) (call_effect ret a c t)
unfolding call_effect
call-Le ti_int h a c = known_call-Le ti_int h a c
call-Le ti_flt h a c = known_call-Le ti_flt h a c
call-Le ti_top h a c = clobber-Le h a
call-Le ti_unk h a c = clobber-Le h a

data LeEffect : Effect → Effect → Type 0 where
  sets_le : {r : ℕ} {x y : Ti} → Le x y → LeEffect (sets r x) (sets r y)
  same_effect : {e : Effect} → LeEffect e e

apply_same-Le : {s t : State} → (e : Effect) → LeState s t → LeState (apply e s) (apply e t)
unfolding apply
apply_same-Le (sets r x) h = set-Le h r same
apply_same-Le (sets_two a) h = set-Le (set-Le h a same) (a + 1) same
apply_same-Le (nils a count) h = clobber_range-Le h a count
apply_same-Le (calls ret a c) h = call-Le ret h a c
apply_same-Le (clobbers a) h = clobber-Le h a
apply_same-Le keeps h = h

apply-Le :
    {e f : Effect} {s t : State} → LeEffect e f → LeState s t → LeState (apply e s) (apply f t)
apply-Le (sets_le {r} le) h = unfold apply in set-Le h r le
apply-Le (same_effect {e}) h = apply_same-Le e h

effect-Le :
    (p : Option (List Constant)) (i : TiInst) (op : OpCode) {s t : State}
    → LeState s t
    → LeEffect (effect p i s op) (effect p i t op)
unfolding effect
effect-Le p i op_move h = sets_le (reg-Le h i.b)
effect-Le p i op_add h = sets_le (combine-Le (reg-Le h i.b) (reg-Le h i.c))
effect-Le p i op_sub h = sets_le (combine-Le (reg-Le h i.b) (reg-Le h i.c))
effect-Le p i op_mul h = sets_le (combine-Le (reg-Le h i.b) (reg-Le h i.c))
effect-Le p i op_idiv h = sets_le (combine-Le (reg-Le h i.b) (reg-Le h i.c))
effect-Le p i op_mod h = sets_le (combine-Le (reg-Le h i.b) (reg-Le h i.c))
effect-Le p i op_div h = sets_le (float2-Le (reg-Le h i.b) (reg-Le h i.c))
effect-Le p i op_pow h = sets_le (float2-Le (reg-Le h i.b) (reg-Le h i.c))
effect-Le p i op_divk h = sets_le (float2-Le (reg-Le h i.b) same)
effect-Le p i op_powk h = sets_le (float2-Le (reg-Le h i.b) same)
effect-Le p i op_addk h = sets_le (combine-Le (reg-Le h i.b) same)
effect-Le p i op_subk h = sets_le (combine-Le (reg-Le h i.b) same)
effect-Le p i op_mulk h = sets_le (combine-Le (reg-Le h i.b) same)
effect-Le p i op_idivk h = sets_le (combine-Le (reg-Le h i.b) same)
effect-Le p i op_modk h = sets_le (combine-Le (reg-Le h i.b) same)
effect-Le p i op_addi h = sets_le (same_number-Le (reg-Le h i.b))
effect-Le p i op_unm h = sets_le (same_number-Le (reg-Le h i.b))
effect-Le p i op_band h = sets_le (int2-Le (reg-Le h i.b) (reg-Le h i.c))
effect-Le p i op_bor h = sets_le (int2-Le (reg-Le h i.b) (reg-Le h i.c))
effect-Le p i op_bxor h = sets_le (int2-Le (reg-Le h i.b) (reg-Le h i.c))
effect-Le p i op_shl h = sets_le (int2-Le (reg-Le h i.b) (reg-Le h i.c))
effect-Le p i op_shr h = sets_le (int2-Le (reg-Le h i.b) (reg-Le h i.c))
effect-Le p i op_bandk h = sets_le (only_int-Le (reg-Le h i.b))
effect-Le p i op_bork h = sets_le (only_int-Le (reg-Le h i.b))
effect-Le p i op_bxork h = sets_le (only_int-Le (reg-Le h i.b))
effect-Le p i op_shli h = sets_le (only_int-Le (reg-Le h i.b))
effect-Le p i op_shri h = sets_le (only_int-Le (reg-Le h i.b))
effect-Le p i op_bnot h = sets_le (only_int-Le (reg-Le h i.b))
effect-Le p i op_forprep h = sets_le (int2-Le (reg-Le h i.a) (reg-Le h (i.a + 2)))
effect-Le p i op_forloop h = sets_le (only_int-Le (reg-Le h i.a))
effect-Le p i _ h = same_effect

-- Knowing less before an instruction gives no other type after it: where some registers of a
-- state become unknown, the transfer's result differs by registers that become unknown.
pub ti_transfer-Le :
    (p : Option (List Constant)) (i : TiInst) {s t : State}
    → LeState s t
    → LeState (ti_transfer p i s) (ti_transfer p i t)
unfolding ti_transfer
ti_transfer-Le p i h = apply-Le (effect-Le p i i.op h) h
