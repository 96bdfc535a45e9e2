-- ===== src/Opt/FoldBranches.antt =====
-- clua/src/opt/passes.c, `lc_pass_fold_dead_branches`. A block is the list of its instructions in
-- order; `bc_pc` and the operands are natural numbers, as the verifier of clua/src/ir/ir.c wants
-- them. `prev` says whether the instruction at hand has a predecessor in its block.
use compiled_lua.Common.{ℕ, zero, suc, ◌+◌}
use compiled_lua.Common.{Bool, true, false, not, ◌&&◌, ◌||◌}
use compiled_lua.Common.{Option, none, some, List, [], ◌∷◌, ◌++◌, map}
use compiled_lua.Common.{ltb, leb, ◌==◌, if◌then◌else◌}
use compiled_lua.Common.{length}
pub mod Regions
mod Complete
pub mod Folded
mod Tests
use compiled_lua.Common.{◌>>=◌}
use mathlib.Core.Option
use compiled_lua.Opt.TypeInfer.{
  OpCode, op_loadfalse, op_lfalseskip, op_test, op_jmp, op_closure, op_extraarg,
}

-- The IR opcodes: LC_OP_JMP and any other, by its number.
pub data LcOpcode : Type 0 where
  lc_op_jmp : LcOpcode
  lc_op : ℕ → LcOpcode

pub record IrInst : Type 0 where
  pub pc : ℕ
  pub bc_op : OpCode
  pub op : LcOpcode
  pub a : ℕ
  pub c : ℕ
  pub flags : ℕ
  pub nargs : ℕ

abbrev pub is_loadfalse : OpCode → Bool
is_loadfalse op_loadfalse = true
is_loadfalse op_lfalseskip = true
is_loadfalse _ = false

abbrev pub is_test : OpCode → Bool
is_test op_test = true
is_test _ = false

abbrev pub is_jmp : OpCode → Bool
is_jmp op_jmp = true
is_jmp _ = false

abbrev pub is_closure : OpCode → Bool
is_closure op_closure = true
is_closure _ = false

abbrev pub is_extraarg : OpCode → Bool
is_extraarg op_extraarg = true
is_extraarg _ = false

-- while ( itest && itest->bc_op == OP_EXTRAARG ) itest = itest->next;
unfoldable pub skip_extra : List IrInst → List IrInst
skip_extra [] = []
skip_extra (x ∷ xs) = let rest = skip_extra xs in if is_extraarg x.bc_op then rest else x ∷ xs

-- Whether the body, from `lo` to below `hi`, has a closure.
unfoldable pub has_closure : ℕ → ℕ → List IrInst → Bool
has_closure lo hi [] = false
has_closure lo hi (x ∷ xs) =
    let rest = has_closure lo hi xs in
    if leb hi x.pc then false else (leb lo x.pc && is_closure x.bc_op) || rest

abbrev pub guard_jmp : ℕ → List IrInst → Option ℕ
guard_jmp sizecode [] = none
guard_jmp sizecode (j ∷ js) =
    if is_jmp j.bc_op && (ltb (j.pc + 1) j.c && (has_closure (j.pc + 1) j.c js && leb j.c sizecode))
    then some j.c
    else none

abbrev pub guard_test : ℕ → ℕ → List IrInst → Option ℕ
guard_test sizecode r [] = none
guard_test sizecode r (t ∷ ts) =
    if is_test t.bc_op && (t.a == r && t.c == 0) then guard_jmp sizecode (skip_extra ts) else none

-- Where the guard that starts at the first instruction jumps to, if there is one to fold.
unfoldable pub guard : ℕ → List IrInst → Option ℕ
guard sizecode [] = none
guard sizecode (x ∷ xs) =
    if is_loadfalse x.bc_op then guard_test sizecode x.a (skip_extra xs) else none

abbrev pub neutral : IrInst → IrInst
neutral x = record x { bc_op = op_extraarg; op = lc_op_jmp; c = x.pc; flags = 0; nargs = 0 }

-- What `cur` passes on its way to the first instruction at `hi` or behind it, and what is left.
unfoldable pub covered : ℕ → List IrInst → List IrInst
covered hi [] = []
covered hi (x ∷ xs) = if ltb x.pc hi then x ∷ covered hi xs else []

unfoldable pub after : ℕ → List IrInst → List IrInst
after hi [] = []
after hi (x ∷ xs) = let rest = after hi xs in if ltb x.pc hi then rest else x ∷ xs

abbrev pub is_empty : List IrInst → Bool
is_empty [] = true
is_empty (_ ∷ _) = false

-- The loop over a block, with fuel; `none` means that it ran out. Where nothing was passed, the
-- loop comes back to the same instruction.
unfoldable pub fold_insts : ℕ → ℕ → Bool → List IrInst → Option (List IrInst)
fold_insts sizecode zero prev xs = none
fold_insts sizecode (suc fuel) prev [] = some []
fold_insts sizecode (suc fuel) prev (x ∷ xs) = elim (guard sizecode (x ∷ xs)) [
  | none ↦ Option.map (λ ys. x ∷ ys) (fold_insts sizecode fuel true xs)
  | some hi ↦
      let body = covered hi (x ∷ xs) in
      let rest = after hi (x ∷ xs) in
      let later = Option.map (λ ys. map neutral body ++ ys) (fold_insts sizecode fuel true rest) in
      if is_empty rest || (is_empty body && not prev)
      then some (map neutral body ++ rest)
      else later
]

abbrev pub fold_block : ℕ → List IrInst → Option (List IrInst)
fold_block sizecode xs = fold_insts sizecode (length xs + 1) false xs

unfoldable pub fold_blocks : ℕ → List (Option (List IrInst)) → Option (List (Option (List IrInst)))
fold_blocks sizecode [] = some []
fold_blocks sizecode (none ∷ bs) = Option.map (λ cs. none ∷ cs) (fold_blocks sizecode bs)
fold_blocks sizecode (some b ∷ bs) = do
  c ← fold_block sizecode b
  cs ← fold_blocks sizecode bs
  some (some c ∷ cs)

-- The blocks after the pass; `sizecode` is that of the prototype, `none` where there is none.
abbrev pub lc_pass_fold_dead_branches :
    Option ℕ → List (Option (List IrInst)) → Option (List (Option (List IrInst)))
lc_pass_fold_dead_branches none blocks = some blocks
lc_pass_fold_dead_branches (some sizecode) blocks = fold_blocks sizecode blocks
