-- ===== src/Opt/TypeInfer/Flow/Ends.antt =====
-- clua/src/opt/passes.c, `ti_run`: a register's type goes down twice at most, so the loop ends.
use compiled_lua.Common.{ℕ, zero, suc, ◌+◌, ◌*◌, ◌≤◌, ◌<◌}
use compiled_lua.Common.{◌≡◌, refl, ap, inl, inr, Bool, true, false, not, ◌||◌}
use compiled_lua.Common.{Option, some, List, [], ◌∷◌, arith}
use compiled_lua.Common.{Bool-cases}
use compiled_lua.Common.{length, set, replicate, length-replicate}
use native.Mathlib.Nat.{suc-mul}
use compiled_lua.Opt.TypeInfer.{Ti, State, ti_meet, ti_top, ti_int, ti_flt, ti_unk}
use compiled_lua.Opt.TypeInfer.Flow.{
  Inst, Source, Flow, ti_same, meet_row, changes, row, flow_to, flow_all, sweep_insts, fixpoint,
  next_of, out_state, first_table,
}

abbrev weight : Ti → ℕ
weight ti_top = 2
weight ti_int = 1
weight ti_flt = 1
weight ti_unk = 0

unfoldable pub weights : State → ℕ
weights [] = 0
weights (x ∷ xs) = weight x + weights xs

unfoldable pub total : List State → ℕ
total [] = 0
total (x ∷ xs) = weights x + total xs

abbrev pub bit : Bool → ℕ
bit true = 1
bit false = 0

bit_or_le : (a b : Bool) → bit (a || b) ≤ bit a + bit b
bit_or_le true b = omega arith
bit_or_le false b = omega arith

meet-weight : (s o : Ti) → bit (not (ti_same (ti_meet s o) s)) + weight (ti_meet s o) ≤ weight s
unfolding ti_meet
meet-weight ti_top ti_top = omega arith
meet-weight ti_top ti_int = omega arith
meet-weight ti_top ti_flt = omega arith
meet-weight ti_top ti_unk = omega arith
meet-weight ti_int ti_top = omega arith
meet-weight ti_int ti_int = omega arith
meet-weight ti_int ti_flt = omega arith
meet-weight ti_int ti_unk = omega arith
meet-weight ti_flt ti_top = omega arith
meet-weight ti_flt ti_int = omega arith
meet-weight ti_flt ti_flt = omega arith
meet-weight ti_flt ti_unk = omega arith
meet-weight ti_unk o = omega arith

row-weights : (sin out : State) → bit (changes sin out) + weights (meet_row sin out) ≤ weights sin
unfolding changes meet_row weights
row-weights [] out = omega arith
row-weights (s ∷ sin) [] = omega arith
row-weights (s ∷ sin) (o ∷ out) = omega (
  arith,
  meet-weight s o,
  row-weights sin out,
  bit_or_le (not (ti_same (ti_meet s o) s)) (changes sin out),
)

table-total :
    (st : List State) (j : ℕ) (out : State)
    → bit (changes (row st j) out) + total (set st j (meet_row (row st j) out)) ≤ total st
unfolding total
table-total [] j out = unfold changes in omega arith
table-total (x ∷ xs) zero out = omega (arith, row-weights x out)
table-total (x ∷ xs) (suc j) out = omega (arith, table-total xs j out)

weight-bound : (x : Ti) → weight x ≤ 2
weight-bound ti_top = omega arith
weight-bound ti_int = omega arith
weight-bound ti_flt = omega arith
weight-bound ti_unk = omega arith

weights-bound : (s : State) → weights s ≤ 2 * length s
unfolding weights
weights-bound [] = omega arith
weights-bound (x ∷ xs) = omega (arith, weight-bound x, weights-bound xs)

total-replicate :
    (xs : List Inst) (w : ℕ) (r : State)
    → weights r ≤ 2 * w
    → total (replicate (length xs) r) ≤ 2 * (length xs * w)
unfolding total
total-replicate [] w r h = omega arith
total-replicate (x ∷ xs) w r h =
    let unroll : suc (length xs) * w ≡ length xs * w + w = suc-mul (length xs) w in
    omega (arith, h, total-replicate xs w r h, unroll)

pub total-first_table :
    (entry : State) (x : Inst) (rest : List Inst) {w : ℕ}
    → length entry ≡ w
    → total (first_table entry w (x ∷ rest)) ≤ 2 * (length (x ∷ rest) * w)
unfolding total
total-first_table entry x rest {w} e =
    let tops : List Ti = replicate w ti_top in
    let row_bound : weights tops ≤ 2 * w =
      omega (arith, weights-bound tops, length-replicate w ti_top) in
    let unroll : suc (length rest) * w ≡ length rest * w + w = suc-mul (length rest) w in
    omega (arith, weights-bound entry, total-replicate rest w tops row_bound, unroll, e)

abbrev left : Flow → ℕ
left s = bit s.changed + total s.st

flow_to-left : (out : State) (s : Flow) (j : ℕ) → left (flow_to out s j) ≤ left s
flow_to-left out s j =
    omega (arith, table-total s.st j out, bit_or_le s.changed (changes (row s.st j) out))

flow_all-left : (out : State) (s : Flow) (js : List ℕ) → left (flow_all out s js) ≤ left s
unfolding flow_all
flow_all-left out s [] = omega arith
flow_all-left out s (j ∷ js) =
    omega (arith, flow_to-left out s j, flow_all-left out (flow_to out s j) js)

module _ (p : Source) (captured : List Bool) (insts : List Inst) where
  sweep_insts-left :
      (i : ℕ) (rest : List Inst) (s : Flow) → left (sweep_insts p captured insts i rest s) ≤ left s
  unfolding sweep_insts
  sweep_insts-left i [] s = omega arith
  sweep_insts-left i (x ∷ rest) s =
      let out = out_state p captured x (row s.st i) in
      omega (
        arith,
        flow_all-left out s (next_of insts i x),
        sweep_insts-left (i + 1) rest (flow_all out s (next_of insts i x)),
      )

  abbrev pub round : List State → Flow
  round st = sweep_insts p captured insts 0 insts (record { st = st; changed = false })

  fixpoint-more :
      (fuel : ℕ) (st : List State) {r : Option (List State)}
      → (round st).changed ≡ true
      → fixpoint p captured insts fuel (round st).st ≡ r
      → fixpoint p captured insts (suc fuel) st ≡ r
  unfolding fixpoint
  fixpoint-more fuel st more ends = rw (more, fixpoint) ends

  -- With more rounds than the table's total the loop ends, at a table from which a round changes
  -- nothing, and what each round keeps holds of that table.
  pub fixpoint_ends {ℓ} :
      (P : List State → Type ℓ)
      → ((st : List State) → P st → P (round st).st)
      → (fuel : ℕ) (st : List State) → total st < fuel
      → P st
      → (q : List State) × (fixpoint p captured insts fuel st ≡ some (round q).st)
        × ((round q).changed ≡ false)
        × P q
  unfolding fixpoint
  fixpoint_ends P keep zero st h e = absurd (omega arith)
  fixpoint_ends P keep (suc fuel) st h e =
      let less = sweep_insts-left 0 insts (record { st = st; changed = false }) in
      elim (Bool-cases (round st).changed) [
        | inl more ↦
            let shorter : total (round st).st < fuel = omega (arith, less, ap bit more) in
            let (q, ends, still, kept) =
              fixpoint_ends P keep fuel (round st).st shorter (keep st e) in
            (q, fixpoint-more fuel st more ends, still, kept)
        | inr still ↦ (st, rw (still, fixpoint) refl, still, e)
      ]
