-- ===== src/Opt/TypeInfer/Flow/Meets.antt =====
-- clua/src/opt/passes.c, `ti_run`: states below states, and what the meets of the loop keep.
use compiled_lua.Common.{ℕ, suc, ◌+◌}
use compiled_lua.Common.{◌≡◌, refl, ap, ◌⊎◌, Bool, true, false, not}
use compiled_lua.Common.{List, [], ◌∷◌, arith}
use compiled_lua.Common.{length, set}
use compiled_lua.Common.{get_or-set_cases}
use compiled_lua.Opt.TypeInfer.{Ti, State, ti_meet, ti_top, ti_int, ti_flt, ti_unk}
use compiled_lua.Opt.TypeInfer.Order.{Le, LeState, unk_le, same, nil, cons}
use compiled_lua.Opt.TypeInfer.Flow.{
  Inst, Source, Flow, ti_same, meet_row, changes, row, flow_to, flow_all, sweep_insts, next_of,
  out_state, forget,
}
use compiled_lua.Common.{neither}
use compiled_lua.Opt.TypeInfer.Flow.Proper.{NotTop, Proper, int, flt, unk}

Le-trans : {a b c : Ti} → Le a b → Le b c → Le a c
Le-trans unk_le g = unk_le
Le-trans same g = g

pub LeState-trans : {a b c : State} → LeState a b → LeState b c → LeState a c
LeState-trans nil nil = nil
LeState-trans (cons h hs) (cons g gs) = cons (Le-trans h g) (LeState-trans hs gs)

Le-NotTop : {a b : Ti} → Le a b → NotTop b → NotTop a
Le-NotTop unk_le k = unk
Le-NotTop same k = k

pub LeState-Proper : {w : ℕ} {s t : State} → LeState s t → Proper w t → Proper w s
LeState-Proper nil Proper.nil = Proper.nil
LeState-Proper (cons h hs) (Proper.cons k ks) = Proper.cons (Le-NotTop h k) (LeState-Proper hs ks)

pub forget-Le : {s t : State} → (c : List Bool) → LeState s t → LeState (forget c s) (forget c t)
unfolding forget
forget-Le [] h = h
forget-Le (b ∷ c) nil = nil
forget-Le (true ∷ c) (cons h hs) = cons same (forget-Le c hs)
forget-Le (false ∷ c) (cons h hs) = cons h (forget-Le c hs)

pub forget-Proper : {w : ℕ} {s : State} → (c : List Bool) → Proper w s → Proper w (forget c s)
unfolding forget
forget-Proper [] h = h
forget-Proper (b ∷ c) Proper.nil = Proper.nil
forget-Proper (true ∷ c) (Proper.cons h hs) = Proper.cons unk (forget-Proper c hs)
forget-Proper (false ∷ c) (Proper.cons h hs) = Proper.cons h (forget-Proper c hs)

-- A meet that changes nothing
settled-Le : (s o : Ti) → NotTop o → not (ti_same (ti_meet s o) s) ≡ false → Le s o
unfolding ti_meet
settled-Le ti_unk o k h = unk_le
settled-Le ti_int ti_int k h = same
settled-Le ti_flt ti_flt k h = same
settled-Le _ _ int h = cc h
settled-Le _ _ flt h = cc h
settled-Le _ _ unk h = cc h

pub settled-LeState :
    {w : ℕ} {sin out : State}
    → length sin ≡ w
    → Proper w out
    → changes sin out ≡ false
    → LeState sin out
unfolding changes
settled-LeState {sin = []} l Proper.nil h = nil
settled-LeState {sin = s ∷ sin} l Proper.nil h = absurd (omega (arith, l))
settled-LeState {sin = []} l (Proper.cons k ks) h = absurd (omega (arith, l))
settled-LeState {sin = s ∷ sin} {out = o ∷ out} l (Proper.cons k ks) h =
    let (here, later) = neither (not (ti_same (ti_meet s o) s)) (changes sin out) h in
    cons (settled-Le s o k here) (settled-LeState (omega (arith, l)) ks later)

below_top : {e : Ti} → Le ti_top e → NotTop e → ⊥
below_top same k = elim k [ ]

meet-Le : (a o e : Ti) → Le a e → NotTop e → Le (ti_meet a o) e
unfolding ti_meet
meet-Le ti_unk o e h k = unk_le
meet-Le ti_int ti_top e h k = h
meet-Le ti_int ti_int e h k = h
meet-Le ti_int ti_flt e h k = unk_le
meet-Le ti_int ti_unk e h k = unk_le
meet-Le ti_flt ti_top e h k = h
meet-Le ti_flt ti_int e h k = unk_le
meet-Le ti_flt ti_flt e h k = h
meet-Le ti_flt ti_unk e h k = unk_le
meet-Le ti_top o e h k = absurd (below_top h k)

pub meet_row-Le :
    {w : ℕ} {a e : State} → (out : State) → LeState a e → Proper w e → LeState (meet_row a out) e
unfolding meet_row
meet_row-Le out nil k = nil
meet_row-Le [] (cons h hs) k = cons h hs
meet_row-Le (o ∷ out) (cons {x} {y} h hs) (Proper.cons k ks) =
    cons (meet-Le x o y h k) (meet_row-Le out hs ks)

pub length-meet_row : (a out : State) → length (meet_row a out) ≡ length a
unfolding meet_row
length-meet_row [] out = refl
length-meet_row (s ∷ a) [] = refl
length-meet_row (s ∷ a) (o ∷ out) = ap suc (length-meet_row a out)

-- A meet into row `j` changes that row at most.
pub row-set :
    (st : List State) (j i : ℕ) (v : State)
    → (row (set st j v) i ≡ row st i) ⊎ ((i ≡ j) × (row (set st j v) i ≡ v))
row-set st j i v = get_or-set_cases st j i v []

-- What every meet keeps, the loop keeps.
module _ {ℓ} (P : List State → Type ℓ)
    (keep : (st : List State) (j : ℕ) (out : State)
      → P st
      → P (set st j (meet_row (row st j) out))) where
  flow_all_rule : (out : State) (s : Flow) (js : List ℕ) → P s.st → P (flow_all out s js).st
  unfolding flow_all
  flow_all_rule out s [] h = h
  flow_all_rule out s (j ∷ js) h = flow_all_rule out (flow_to out s j) js (keep s.st j out h)

  pub sweep_insts_rule :
      (p : Source) (captured : List Bool) (insts : List Inst) (i : ℕ) (rest : List Inst) (s : Flow)
      → P s.st
      → P (sweep_insts p captured insts i rest s).st
  unfolding sweep_insts
  sweep_insts_rule p captured insts i [] s h = h
  sweep_insts_rule p captured insts i (x ∷ rest) s h =
      let out = out_state p captured x (row s.st i) in
      let js = next_of insts i x in
      sweep_insts_rule p captured insts (i + 1) rest (flow_all out s js) (flow_all_rule out s js h)
