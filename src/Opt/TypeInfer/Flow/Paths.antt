-- ===== src/Opt/TypeInfer/Flow/Paths.antt =====
-- clua/src/opt/passes.c, `ti_run`: the state found for an instruction is below the state of every
-- control path to it.
use compiled_lua.Common.{ℕ, zero, suc, ◌*◌, ◌<◌}
use compiled_lua.Common.{◌≡◌, ◌∙◌, inl, inr, Bool, false}
use compiled_lua.Common.{some, List, [], ◌∷◌, arith}
use compiled_lua.Common.{length, get_elem?, set, replicate, length-replicate}
use compiled_lua.Opt.Sweep.{In}
use compiled_lua.Opt.TypeInfer.{State, ti_top}
use compiled_lua.Opt.TypeInfer.Order.{LeState, LeState-refl, ti_transfer-Le}
use compiled_lua.Opt.TypeInfer.Flow.{
  Inst, Source, meet_row, row, next_of, out_state, fixpoint, first_table,
}
use compiled_lua.Opt.TypeInfer.Flow.Ends.{round, total, total-first_table, fixpoint_ends}
use compiled_lua.Opt.TypeInfer.Flow.Settled.{Settled, round-Settled}
use compiled_lua.Opt.TypeInfer.Flow.Proper.{Proper, Proper-length, transfer-Proper}
use compiled_lua.Opt.TypeInfer.Flow.Meets.{
  LeState-trans, LeState-Proper, forget-Le, forget-Proper, settled-LeState, meet_row-Le,
  length-meet_row, row-set, sweep_insts_rule,
}

pub get_elem?-lt {ℓ} :
    {A : Type ℓ} (xs : List A) (i : ℕ) {x : A} → get_elem? xs i ≡ some x → i < length xs
get_elem?-lt [] i h = cc h
get_elem?-lt (y ∷ ys) zero h = omega arith
get_elem?-lt (y ∷ ys) (suc i) h = omega (arith, get_elem?-lt ys i h)

top_rows-length :
    (xs : List Inst) (w j : ℕ)
    → j < length xs
    → length (row (replicate (length xs) (replicate w ti_top)) j) ≡ w
top_rows-length [] w j lt = absurd (omega (arith, lt))
top_rows-length (x ∷ xs) w zero lt = length-replicate w ti_top
top_rows-length (x ∷ xs) w (suc j) lt = top_rows-length xs w j (omega (arith, lt))

first-length :
    {w : ℕ} {entry : State} (xs : List Inst)
    → Proper w entry
    → (j : ℕ) → j < length xs
    → length (row (first_table entry w xs) j) ≡ w
first-length [] h j lt = absurd (omega (arith, lt))
first-length (x ∷ xs) h zero lt = Proper-length h
first-length {w} (x ∷ xs) h (suc j) lt = top_rows-length xs w j (omega (arith, lt))

module _ (p : Source) (captured : List Bool) (insts : List Inst) (entry : State) where
  -- A control path from the first instruction, with the types of the registers at its end when
  -- each instruction on it makes what the transfer says.
  pub data Route : ℕ → State → Type 0 where
    start : Route 0 entry
    next :
        {i j : ℕ} {s : State} {x : Inst}
        → Route i s
        → get_elem? insts i ≡ some x
        → In j (next_of insts i x)
        → Route j (out_state p captured x s)

  -- Every row has `w` registers, and the first says no more than the entry.
  record IsTable (w : ℕ) (st : List State) : Type 0 where
    sized : (j : ℕ) → j < length insts → length (row st j) ≡ w
    entered : LeState (row st 0) entry

  IsTable-meet :
      {w : ℕ}
      → Proper w entry
      → (st : List State) (j : ℕ) (out : State) → IsTable w st
      → IsTable w (set st j (meet_row (row st j) out))
  IsTable-meet proper st j out h = record {
    sized = λ i lt. elim (row-set st j i (meet_row (row st j) out)) [
      | inl old ↦ rw old (h.sized i lt)
      | inr (e, new) ↦ rw new (length-meet_row (row st j) out ∙ rw (← e) (h.sized i lt))
    ];
    entered = elim (row-set st j 0 (meet_row (row st j) out)) [
      | inl old ↦ rw old h.entered
      | inr (e, new) ↦ rw new (meet_row-Le out (rw (← e) h.entered) proper)
    ];
  }

  out_state-Le :
      (x : Inst) {s t : State}
      → LeState s t
      → LeState (out_state p captured x s) (out_state p captured x t)
  unfolding out_state
  out_state-Le x h = forget-Le captured (ti_transfer-Le (some p.constants) x.inst h)

  out_state-Proper :
      (x : Inst) {w : ℕ} {s : State} → Proper w s → Proper w (out_state p captured x s)
  unfolding out_state
  out_state-Proper x h = forget-Proper captured (transfer-Proper (some p.constants) x.inst h)

  path-Le :
      {w : ℕ} (st : List State)
      → Proper w entry
      → IsTable w st
      → ((i : ℕ) (x : Inst) → get_elem? insts i ≡ some x → Settled p captured insts st i x)
      → {i : ℕ} {s : State} → i < length insts
      → Route i s
      → Proper w s × LeState (row st i) s
  path-Le st proper h settled lt start = (proper, h.entered)
  path-Le st proper h settled {i = j} lt (next {i} {s} {x} path at edge) =
      let (here, below) = path-Le st proper h settled (get_elem?-lt insts i at) path in
      let made = out_state-Proper x here in
      let less = out_state-Le x below in
      let still = settled i x at j edge in
      (made, LeState-trans (settled-LeState (h.sized j lt) (LeState-Proper less made) still) less)

-- With a first instruction, and an entry state of a type for each register, the loop ends with a
-- table that on every path from the entry says no more than the path.
pub fixpoint_lem :
    (p : Source) (captured : List Bool) (x : Inst) (rest : List Inst) {w : ℕ} {entry : State}
    → Proper w entry
    → (fuel : ℕ) → 2 * (length (x ∷ rest) * w) < fuel
    → (st : List State) × (fixpoint p captured (x ∷ rest) fuel (first_table entry w (x ∷ rest))
        ≡ some st)
      × ((i : ℕ) (s : State)
          → i < length (x ∷ rest)
          → Route p captured (x ∷ rest) entry i s
          → Proper w s × LeState (row st i) s)
fixpoint_lem p captured x rest {w} {entry} proper fuel enough =
    let insts : List Inst = x ∷ rest in
    let first = first_table entry w insts in
    let P = IsTable p captured insts entry w in
    let keep = IsTable-meet p captured insts entry proper in
    let ok : P first = record { sized = first-length insts proper; entered = LeState-refl entry } in
    let shorter : total first < fuel =
      omega (arith, total-first_table entry x rest (Proper-length proper)) in
    let (q, ends, still, kept) =
      fixpoint_ends p captured insts P
        (λ st h.
          sweep_insts_rule P keep p captured insts 0 insts (record { st = st; changed = false }) h)
        fuel first shorter ok in
    let (same, settled) = round-Settled p captured insts q still in
    (
      (round p captured insts q).st,
      ends,
      λ i s lt path. rw same (path-Le p captured insts entry q proper kept settled lt path),
    )
