-- ===== src/Opt/FoldBranches/Complete.antt =====
-- clua/src/opt/passes.c, `lc_pass_fold_dead_branches`: every guard is found.
use compiled_lua.Common.{ℕ, ◌+◌, ◌≤◌, ◌<◌}
use compiled_lua.Common.{◌≡◌, refl, inl, inr, Bool, true, false, ◌&&◌, ◌||◌}
use compiled_lua.Common.{some, List, arith}
use compiled_lua.Common.{leb, ◌==◌, lt→ltb}
use compiled_lua.Opt.FoldBranches.{
  IrInst, is_closure, skip_extra, has_closure, guard_jmp, guard_test, guard,
}
use compiled_lua.Opt.FoldBranches.Regions.{
  Closes, makes, Jumps, jumps, Tests, tested, Guards, guards,
}

le→leb : (a b : ℕ) → a ≤ b → leb a b ≡ true
le→leb a b h = ground arith

lt-leb : (a b : ℕ) → b < a → leb a b ≡ false
lt-leb a b h = ground arith

or_true : (b : Bool) → (b || true) ≡ true
or_true true = refl
or_true false = refl

Closes-has_closure : {lo hi : ℕ} {xs : List IrInst} → Closes lo hi xs → has_closure lo hi xs ≡ true
unfolding has_closure
Closes-has_closure {lo} {hi} (makes {x} low below op) =
    rw (lt-leb hi x.pc below, le→leb lo x.pc low, op) refl
Closes-has_closure {lo} {hi} (Closes.later {x} {xs} below rest) =
    rw (lt-leb hi x.pc below, Closes-has_closure rest) (or_true (leb lo x.pc && is_closure x.bc_op))

==-refl : (n : ℕ) → (n == n) ≡ true
==-refl n = ground arith

module _ {sizecode hi : ℕ} where
  Jumps-guard_jmp :
      {xs : List IrInst} → Jumps sizecode hi xs → guard_jmp sizecode (skip_extra xs) ≡ some hi
  unfolding skip_extra
  Jumps-guard_jmp (Jumps.fused op rest) = rw op (Jumps-guard_jmp rest)
  Jumps-guard_jmp (jumps {j} {js} op to ahead room closes) =
      rw (op, to, lt→ltb (j.pc + 1) hi ahead, Closes-has_closure closes, le→leb hi sizecode room)
        refl

  Tests-guard_test :
      {r : ℕ} {xs : List IrInst}
      → Tests sizecode r hi xs
      → guard_test sizecode r (skip_extra xs) ≡ some hi
  unfolding skip_extra
  Tests-guard_test (Tests.fused op rest) = rw op (Tests-guard_test rest)
  Tests-guard_test {r} (tested {t} {ts} op reg bit rest) =
      rw (op, reg, bit, ==-refl r) (Jumps-guard_jmp rest)

  pub Guards-guard : {xs : List IrInst} → Guards sizecode hi xs → guard sizecode xs ≡ some hi
  unfolding guard
  Guards-guard (guards (inl op) rest) = rw op (Tests-guard_test rest)
  Guards-guard (guards (inr op) rest) = rw op (Tests-guard_test rest)
