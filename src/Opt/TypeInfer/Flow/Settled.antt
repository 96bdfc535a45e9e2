-- ===== src/Opt/TypeInfer/Flow/Settled.antt =====
-- clua/src/opt/passes.c, `ti_run`: a round that changes nothing leaves each state below what the
-- instructions before it make.
use compiled_lua.Common.{neither}
use compiled_lua.Common.{ℕ, zero, suc, ◌+◌}
use compiled_lua.Common.{◌≡◌, refl, ap, ◌∙◌, inl, inr, Bool, true, false, not}
use compiled_lua.Common.{some, List, [], ◌∷◌, arith}
use compiled_lua.Common.{get_elem?, set}
use mathlib.Core.Path.{subst}
use compiled_lua.Opt.Sweep.{In}
use compiled_lua.Opt.TypeInfer.Flow.Ends.{round}
use compiled_lua.Opt.TypeInfer.{Ti, State, ti_meet, ti_top, ti_int, ti_flt, ti_unk}
use compiled_lua.Opt.TypeInfer.Flow.{
  Inst, Source, Flow, ti_same, meet_row, changes, row, flow_to, flow_all, sweep_insts, next_of,
  out_state,
}

pub ti_same-eq : (a b : Ti) → ti_same a b ≡ true → a ≡ b
ti_same-eq ti_top ti_top h = refl
ti_same-eq ti_int ti_int h = refl
ti_same-eq ti_flt ti_flt h = refl
ti_same-eq ti_unk ti_unk h = refl
ti_same-eq _ _ h = cc h

of_not : (a : Bool) → not a ≡ false → a ≡ true
of_not true h = refl
of_not false h = cc h

still-meet_row : (sin out : State) → changes sin out ≡ false → meet_row sin out ≡ sin
unfolding changes meet_row
still-meet_row [] out h = refl
still-meet_row (s ∷ sin) [] h = refl
still-meet_row (s ∷ sin) (o ∷ out) h =
    let (here, later) = neither (not (ti_same (ti_meet s o) s)) (changes sin out) h in
    let first = ti_same-eq (ti_meet s o) s (of_not (ti_same (ti_meet s o) s) here) in
    rw (first, still-meet_row sin out later) refl

set-row : (st : List State) (j : ℕ) → set st j (row st j) ≡ st
set-row [] j = refl
set-row (x ∷ xs) zero = refl
set-row (x ∷ xs) (suc j) = ap (λ ys. x ∷ ys) (set-row xs j)

-- What a run of meets that changed nothing says.
record Still (out : State) (s t : Flow) (js : List ℕ) : Type 0 where
  before : s.changed ≡ false
  same : t.st ≡ s.st
  all : (j : ℕ) → In j js → changes (row s.st j) out ≡ false

flow_to-same :
    (out : State) (st : List State) (j : ℕ)
    → changes (row st j) out ≡ false
    → set st j (meet_row (row st j) out) ≡ st
flow_to-same out st j h = rw (still-meet_row (row st j) out h) (set-row st j)

flow_all-Still :
    (out : State) (s : Flow) (js : List ℕ)
    → (flow_all out s js).changed ≡ false
    → Still out s (flow_all out s js) js
unfolding flow_all
flow_all-Still out s [] h = record { before = h; same = refl; all = λ j none_in. absurd none_in }
flow_all-Still out s (j ∷ js) h =
    let rest = flow_all-Still out (flow_to out s j) js h in
    let (early, here) = neither s.changed (changes (row s.st j) out) rest.before in
    let same_table = flow_to-same out s.st j here in
    record {
      before = early;
      same = rest.same ∙ same_table;
      all = λ k. elim [
        | inl e ↦ rw e here
        | inr later ↦ subst (λ t. changes (row t k) out ≡ false) same_table (rest.all k later)
      ];
    }

module _ (p : Source) (captured : List Bool) (insts : List Inst) where
  -- No successor of instruction `i` would change.
  abbrev pub Settled : List State → ℕ → Inst → Type 0
  Settled st i x =
      (j : ℕ)
      → In j (next_of insts i x)
      → changes (row st j) (out_state p captured x (row st i)) ≡ false

  record Quiet (s t : Flow) (i : ℕ) (rest : List Inst) : Type 0 where
    before : s.changed ≡ false
    same : t.st ≡ s.st
    settled : (k : ℕ) (x : Inst) → get_elem? rest k ≡ some x → Settled s.st (i + k) x

  Settled-cons :
      (st : List State) (i : ℕ) (y : Inst) (rest : List Inst)
      → Settled st i y
      → ((k : ℕ) (x : Inst) → get_elem? rest k ≡ some x → Settled st (i + 1 + k) x)
      → (k : ℕ) (x : Inst) → get_elem? (y ∷ rest) k ≡ some x
      → Settled st (i + k) x
  Settled-cons st i y rest first later zero x e =
      let same : y ≡ x = cc e in
      let place : i ≡ i + 0 = omega arith in
      subst (Settled st (i + 0)) same (subst (λ n. Settled st n y) place first)
  Settled-cons st i y rest first later (suc k) x e =
      let place : i + 1 + k ≡ i + suc k = omega arith in
      subst (λ n. Settled st n x) place (later k x e)

  sweep_insts-Quiet :
      (i : ℕ) (rest : List Inst) (s : Flow)
      → (sweep_insts p captured insts i rest s).changed ≡ false
      → Quiet s (sweep_insts p captured insts i rest s) i rest
  unfolding sweep_insts
  sweep_insts-Quiet i [] s h = record {
    before = h;
    same = refl;
    settled = λ k x none_at. absurd (cc none_at);
  }
  sweep_insts-Quiet i (y ∷ rest) s h =
      let out = out_state p captured y (row s.st i) in
      let later = sweep_insts-Quiet (i + 1) rest (flow_all out s (next_of insts i y)) h in
      let here = flow_all-Still out s (next_of insts i y) later.before in
      record {
        before = here.before;
        same = later.same ∙ here.same;
        settled = Settled-cons s.st i y rest here.all (
            subst (λ t. (k : ℕ) (x : Inst) → get_elem? rest k ≡ some x → Settled t (i + 1 + k) x)
              here.same later.settled);
      }

  pub round-Settled :
      (st : List State)
      → (round p captured insts st).changed ≡ false
      → ((round p captured insts st).st ≡ st)
        × ((i : ℕ) (x : Inst) → get_elem? insts i ≡ some x → Settled st i x)
  round-Settled st h =
      let quiet = sweep_insts-Quiet 0 insts (record { st = st; changed = false }) h in
      let plain = λ (i : ℕ). (let e : 0 + i ≡ i = omega arith in e) in
      (quiet.same, λ i x at. subst (λ n. Settled st n x) (plain i) (quiet.settled i x at))
