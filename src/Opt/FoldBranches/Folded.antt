-- ===== src/Opt/FoldBranches/Folded.antt =====
-- clua/src/opt/passes.c, `lc_pass_fold_dead_branches`: the pass ends, with each block as the one
-- pass of Regions reads it.
use compiled_lua.Common.{sym, ℕ, zero, suc, ◌+◌, ◌≤◌, ◌<◌}
use compiled_lua.Common.{◌≡◌, refl, ◌∙◌, inl, inr, Bool, true, false, ◌||◌}
use compiled_lua.Common.{Option, none, some, List, [], ◌∷◌, ◌++◌, map, arith}
use compiled_lua.Common.{ltb, if◌then◌else◌, ltb→lt, lt→ltb, Bool-cases, Option-cases}
use compiled_lua.Common.{length}
use mathlib.Core.Option
use compiled_lua.Opt.FoldBranches.{
  IrInst, guard, neutral, covered, after, is_empty, fold_insts, fold_block, fold_blocks,
  lc_pass_fold_dead_branches,
}
use compiled_lua.Opt.FoldBranches.Complete.{Guards-guard}
use compiled_lua.Opt.FoldBranches.Regions.{
  Above, Jumps, jumps, Tests, tested, Guards, guards, Folds, ends, inside, opens, keeps,
  guard-Guards,
}

Above-weaken : {m n : ℕ} (xs : List IrInst) → m ≤ n → Above n xs → Above m xs
Above-weaken [] le h = tt
Above-weaken (x ∷ xs) le (low, h) = (omega (arith, le, low), h)

after-Above : (n hi : ℕ) (xs : List IrInst) → Above n xs → Above hi (after hi xs)
unfolding after
after-Above n hi [] h = tt
after-Above n hi (x ∷ xs) (low, h) = elim (Bool-cases (ltb x.pc hi)) [
  | inl covers ↦ rw covers (after-Above (x.pc + 1) hi xs h)
  | inr past ↦ rw past (ground arith, h)
]

length-after : (hi : ℕ) (xs : List IrInst) → length (after hi xs) ≤ length xs
unfolding after
length-after hi [] = omega arith
length-after hi (x ∷ xs) = elim (Bool-cases (ltb x.pc hi)) [
  | inl covers ↦ rw covers (let le = length-after hi xs in omega (arith, le))
  | inr past ↦ rw past (omega arith)
]

closes :
    (m rest : List IrInst) (o : Option (List IrInst))
    → is_empty rest ≡ true
    → (if is_empty rest || false then some (m ++ rest) else o) ≡ some (m ++ rest)
closes m rest o e = rw e refl

goes_on :
    (m rest : List IrInst) (o : Option (List IrInst)) {ys : List IrInst}
    → is_empty rest ≡ false
    → o ≡ some ys
    → (if is_empty rest || false then some (m ++ rest) else Option.map (λ ys. m ++ ys) o)
      ≡ some (m ++ ys)
goes_on m rest o e f = rw (e, f) refl

Folds-empty :
    (sizecode hi : ℕ) (rest : List IrInst) → is_empty rest ≡ true → Folds sizecode hi rest rest
Folds-empty sizecode hi [] e = ends
Folds-empty sizecode hi (x ∷ xs) e = cc e

module _ (sizecode : ℕ) where
  -- A guard's jump stands behind its load, and goes further.
  Jumps-ahead : {hi : ℕ} {xs : List IrInst} → Jumps sizecode hi xs → (m : ℕ) → Above m xs → m < hi
  Jumps-ahead (jumps op to ahead room closes) m h = omega (arith, ahead, h.0)
  Jumps-ahead (Jumps.fused {x} op rest) m h = omega (arith, Jumps-ahead rest (x.pc + 1) h.1, h.0)

  Tests-ahead :
      {r hi : ℕ} {xs : List IrInst} → Tests sizecode r hi xs → (m : ℕ) → Above m xs → m < hi
  Tests-ahead (tested {t} op reg bit rest) m h = omega (arith, Jumps-ahead rest (t.pc + 1) h.1, h.0)
  Tests-ahead (Tests.fused {x} op rest) m h = omega (arith, Tests-ahead rest (x.pc + 1) h.1, h.0)

  Guards-ahead :
      {n hi : ℕ} {x : IrInst} {xs : List IrInst}
      → Guards sizecode hi (x ∷ xs)
      → Above n (x ∷ xs)
      → x.pc < hi
  Guards-ahead (guards {x} op rest) h = omega (arith, Tests-ahead rest (x.pc + 1) h.1)

  covered-Folds :
      (hi : ℕ) (xs : List IrInst) {ys : List IrInst}
      → Folds sizecode hi (after hi xs) ys
      → Folds sizecode hi xs (map neutral (covered hi xs) ++ ys)
  unfolding after covered
  covered-Folds hi [] f = f
  covered-Folds hi (x ∷ xs) f = elim (Bool-cases (ltb x.pc hi)) [
    | inl covers ↦ rw covers (inside (ltb→lt x.pc hi covers) (covered-Folds hi xs (rw covers at f)))
    | inr past ↦ rw past (rw past at f)
  ]

  fold-keeps :
      (fuel : ℕ) (prev : Bool) (x : IrInst) (xs : List IrInst) {ys : List IrInst}
      → guard sizecode (x ∷ xs) ≡ none
      → fold_insts sizecode fuel true xs ≡ some ys
      → fold_insts sizecode (suc fuel) prev (x ∷ xs) ≡ some (x ∷ ys)
  unfolding fold_insts
  fold-keeps fuel prev x xs g e = rw (g, fold_insts, e) refl

  fold-opens :
      (fuel hi : ℕ) (prev : Bool) (x : IrInst) (xs : List IrInst)
      → guard sizecode (x ∷ xs) ≡ some hi
      → ltb x.pc hi ≡ true
      → fold_insts sizecode (suc fuel) prev (x ∷ xs) ≡ (
          if is_empty (after hi xs) || false
          then some (map neutral (x ∷ covered hi xs) ++ after hi xs)
          else Option.map
              (λ ys. map neutral (x ∷ covered hi xs) ++ ys)
              (fold_insts sizecode fuel true (after hi xs)))
  unfolding fold_insts covered after
  fold-opens fuel hi prev x xs g lt = rw (g, fold_insts, lt) refl

  fold_insts_lem :
      (fuel h : ℕ) (prev : Bool) (xs : List IrInst)
      → length xs < fuel
      → Above h xs
      → (out : List IrInst) × (fold_insts sizecode fuel prev xs ≡ some out)
        × Folds sizecode h xs out
  fold_insts_lem zero h prev xs lt up = absurd (omega (arith, lt))
  fold_insts_lem (suc fuel) h prev [] lt up = ([], unfold fold_insts in refl, ends)
  fold_insts_lem (suc fuel) h prev (x ∷ xs) lt (low, up) =
      elim (Option-cases (guard sizecode (x ∷ xs))) [
        | inl g ↦
            let (ys, runs, f) =
              fold_insts_lem fuel h true xs (omega arith)
                (Above-weaken xs (omega (arith, low)) up) in
            (
              x ∷ ys,
              fold-keeps fuel prev x xs g runs,
              keeps low (λ hi gd. cc (sym g ∙ Guards-guard gd)) f,
            )
        | inr (hi, g) ↦
            let guarded = guard-Guards sizecode hi (x ∷ xs) g in
            let ahead : x.pc < hi = Guards-ahead guarded (low, up) in
            let step = fold-opens fuel hi prev x xs g (lt→ltb x.pc hi ahead) in
            let body = map neutral (x ∷ covered hi xs) in
            let rest = after hi xs in
            elim (Bool-cases (is_empty rest)) [
              | inl none_left ↦ (
                body ++ rest,
                step ∙ closes body rest _ none_left,
                opens low guarded ahead
                    (covered-Folds hi xs (Folds-empty sizecode hi rest none_left)),
              )
              | inr some_left ↦
                  let (ys, runs, f) =
                    fold_insts_lem fuel hi true rest (omega (arith, lt, length-after hi xs))
                      (after-Above (x.pc + 1) hi xs up) in
                  (
                    body ++ ys,
                    step ∙ goes_on body rest _ some_left runs,
                    opens low guarded ahead (covered-Folds hi xs f),
                  )
            ]
      ]

-- Blocks before and after: each as the one pass reads it, those that are null left so.
pub data FoldsBlocks (sizecode : ℕ)
    : List (Option (List IrInst)) → List (Option (List IrInst)) → Type 0 where
  nil : FoldsBlocks sizecode [] []
  null :
      {bs cs : List (Option (List IrInst))}
      → FoldsBlocks sizecode bs cs
      → FoldsBlocks sizecode (none ∷ bs) (none ∷ cs)
  block :
      {b c : List IrInst} {bs cs : List (Option (List IrInst))}
      → Folds sizecode 0 b c
      → FoldsBlocks sizecode bs cs
      → FoldsBlocks sizecode (some b ∷ bs) (some c ∷ cs)

abbrev pub AllAbove : List (Option (List IrInst)) → Type 0
AllAbove [] = Unit
AllAbove (none ∷ bs) = AllAbove bs
AllAbove (some b ∷ bs) = Above 0 b × AllAbove bs

fold_blocks-some :
    (sizecode : ℕ) (b : List IrInst) (bs : List (Option (List IrInst))) {c : List IrInst}
    {cs : List (Option (List IrInst))}
    → fold_block sizecode b ≡ some c
    → fold_blocks sizecode bs ≡ some cs
    → fold_blocks sizecode (some b ∷ bs) ≡ some (some c ∷ cs)
unfolding fold_blocks
fold_blocks-some sizecode b bs e f = rw (e, f) refl

fold_blocks-none :
    (sizecode : ℕ) (bs : List (Option (List IrInst))) {cs : List (Option (List IrInst))}
    → fold_blocks sizecode bs ≡ some cs
    → fold_blocks sizecode (none ∷ bs) ≡ some (none ∷ cs)
unfolding fold_blocks
fold_blocks-none sizecode bs e = rw e refl

-- The pass on a function whose blocks have their instructions in the order of their positions: it
-- ends, and an instruction is folded exactly where the one pass over its block says, below the end
-- of a region that a test of a register just set to false, with a jump over a body with a closure,
-- opened before it; every other instruction, and the order, stays.
pub lc_pass_fold_dead_branches_lem :
    (sizecode : ℕ) (blocks : List (Option (List IrInst)))
    → AllAbove blocks
    → (out : List (Option (List IrInst))) × (lc_pass_fold_dead_branches (some sizecode) blocks
        ≡ some out)
      × FoldsBlocks sizecode blocks out
lc_pass_fold_dead_branches_lem sizecode [] up = ([], unfold fold_blocks in refl, nil)
lc_pass_fold_dead_branches_lem sizecode (none ∷ bs) up =
    let (cs, runs, f) = lc_pass_fold_dead_branches_lem sizecode bs up in
    (none ∷ cs, fold_blocks-none sizecode bs runs, null f)
lc_pass_fold_dead_branches_lem sizecode (some b ∷ bs) (up, rest) =
    let (c, ends_here, f) = fold_insts_lem sizecode (length b + 1) 0 false b (omega arith) up in
    let (cs, runs, fs) = lc_pass_fold_dead_branches_lem sizecode bs rest in
    (some c ∷ cs, fold_blocks-some sizecode b bs ends_here runs, block f fs)
