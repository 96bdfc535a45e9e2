-- ===== src/Opt/FoldBranches/Regions.antt =====
-- clua/src/opt/passes.c, `lc_pass_fold_dead_branches`: what is folded, read in one pass.
use compiled_lua.Common.{ℕ, ◌+◌, ◌≤◌, ◌<◌}
use compiled_lua.Common.{◌≡◌, refl, ◌⊎◌, inl, inr, Bool, true, false, ◌&&◌}
use compiled_lua.Common.{Option, none, some, List, [], ◌∷◌, arith}
use compiled_lua.Common.{
  ltb, leb, ◌==◌, if◌then◌else◌, ltb→lt, leb→le, ==_iff, Bool-cases, both, either,
}
use mathlib.Core.Path.{subst}
use compiled_lua.Opt.TypeInfer.{
  OpCode, op_loadfalse, op_lfalseskip, op_test, op_jmp, op_closure, op_extraarg,
}
use compiled_lua.Opt.FoldBranches.{
  IrInst, is_loadfalse, is_test, is_jmp, is_closure, is_extraarg, skip_extra, has_closure,
  guard_jmp, guard_test, guard, neutral,
}

-- The positions go up, from `n` on.
abbrev pub Above : ℕ → List IrInst → Type 0
Above n [] = Unit
Above n (x ∷ xs) = (n ≤ x.pc) × Above (x.pc + 1) xs

-- Somewhere from `lo` to below `hi` a closure is made.
pub data Closes (lo hi : ℕ) : List IrInst → Type 0 where
  makes :
      {x : IrInst} {xs : List IrInst}
      → lo ≤ x.pc
      → x.pc < hi
      → x.bc_op ≡ op_closure
      → Closes lo hi (x ∷ xs)
  later : {x : IrInst} {xs : List IrInst} → x.pc < hi → Closes lo hi xs → Closes lo hi (x ∷ xs)

-- But for fused operands, a jump to `hi`, forward over a body with a closure, comes first.
pub data Jumps (sizecode hi : ℕ) : List IrInst → Type 0 where
  jumps :
      {j : IrInst} {js : List IrInst}
      → j.bc_op ≡ op_jmp
      → j.c ≡ hi
      → j.pc + 1 < hi
      → hi ≤ sizecode
      → Closes (j.pc + 1) hi js
      → Jumps sizecode hi (j ∷ js)
  fused :
      {x : IrInst} {xs : List IrInst}
      → x.bc_op ≡ op_extraarg
      → Jumps sizecode hi xs
      → Jumps sizecode hi (x ∷ xs)

-- But for fused operands, a test of register `r` for being false comes first, with such a jump.
pub data Tests (sizecode r hi : ℕ) : List IrInst → Type 0 where
  tested :
      {t : IrInst} {ts : List IrInst}
      → t.bc_op ≡ op_test
      → t.a ≡ r
      → t.c ≡ 0
      → Jumps sizecode hi ts
      → Tests sizecode r hi (t ∷ ts)
  fused :
      {x : IrInst} {xs : List IrInst}
      → x.bc_op ≡ op_extraarg
      → Tests sizecode r hi xs
      → Tests sizecode r hi (x ∷ xs)

-- `false` is put in a register, tested, and the branch to `hi` taken.
pub data Guards (sizecode hi : ℕ) : List IrInst → Type 0 where
  guards :
      {x : IrInst} {xs : List IrInst}
      → (x.bc_op ≡ op_loadfalse) ⊎ (x.bc_op ≡ op_lfalseskip)
      → Tests sizecode x.a hi xs
      → Guards sizecode hi (x ∷ xs)

-- The block read in one pass, where the region to fold ends at `h`.
pub data Folds (sizecode : ℕ) : ℕ → List IrInst → List IrInst → Type 0 where
  ends : {h : ℕ} → Folds sizecode h [] []
  inside :
      {h : ℕ} {x : IrInst} {xs ys : List IrInst}
      → x.pc < h
      → Folds sizecode h xs ys
      → Folds sizecode h (x ∷ xs) (neutral x ∷ ys)
  opens :
      {h hi : ℕ} {x : IrInst} {xs ys : List IrInst}
      → h ≤ x.pc
      → Guards sizecode hi (x ∷ xs)
      → x.pc < hi
      → Folds sizecode hi xs ys
      → Folds sizecode h (x ∷ xs) (neutral x ∷ ys)
  keeps :
      {h : ℕ} {x : IrInst} {xs ys : List IrInst}
      → h ≤ x.pc
      → ((hi : ℕ) → ¬ Guards sizecode hi (x ∷ xs))
      → Folds sizecode h xs ys
      → Folds sizecode h (x ∷ xs) (x ∷ ys)

pub of_extraarg : (op : OpCode) → is_extraarg op ≡ true → op ≡ op_extraarg
of_extraarg op_extraarg h = refl
of_extraarg _ h = cc h

of_test : (op : OpCode) → is_test op ≡ true → op ≡ op_test
of_test op_test h = refl
of_test _ h = cc h

of_jmp : (op : OpCode) → is_jmp op ≡ true → op ≡ op_jmp
of_jmp op_jmp h = refl
of_jmp _ h = cc h

of_closure : (op : OpCode) → is_closure op ≡ true → op ≡ op_closure
of_closure op_closure h = refl
of_closure _ h = cc h

of_loadfalse : (op : OpCode) → is_loadfalse op ≡ true → (op ≡ op_loadfalse) ⊎ (op ≡ op_lfalseskip)
of_loadfalse op_loadfalse h = inl refl
of_loadfalse op_lfalseskip h = inr refl
of_loadfalse _ h = cc h

pub leb-lt : (a b : ℕ) → leb a b ≡ false → b < a
leb-lt a b h = ground arith

has_closure-Closes : (lo hi : ℕ) (xs : List IrInst) → has_closure lo hi xs ≡ true → Closes lo hi xs
unfolding has_closure
has_closure-Closes lo hi [] h = cc h
has_closure-Closes lo hi (x ∷ xs) h = elim (Bool-cases (leb hi x.pc)) [
  | inl past ↦ cc (rw past at h)
  | inr before ↦
      elim (either (leb lo x.pc && is_closure x.bc_op) (has_closure lo hi xs) (rw before at h)) [
        | inl here ↦
            let (low, closure) = both (leb lo x.pc) (is_closure x.bc_op) here in
            makes (leb→le lo x.pc low) (leb-lt hi x.pc before) (of_closure x.bc_op closure)
        | inr rest ↦ later (leb-lt hi x.pc before) (has_closure-Closes lo hi xs rest)
      ]
]

-- `if b then some a else none`, where it gives something
granted_by {ℓ} :
    {A : Type ℓ} (b : Bool) (o : Option A) {r : A}
    → (if b then o else none) ≡ some r
    → (b ≡ true) × (o ≡ some r)
granted_by true o h = (refl, h)
granted_by false o h = cc h

module _ (sizecode hi : ℕ) where
  jmp-Jumps : (xs : List IrInst) → guard_jmp sizecode xs ≡ some hi → Jumps sizecode hi xs
  jmp-Jumps [] h = cc h
  jmp-Jumps (j ∷ js) h =
      let body = has_closure (j.pc + 1) j.c js && leb j.c sizecode in
      let (all, to) = granted_by (is_jmp j.bc_op && (ltb (j.pc + 1) j.c && body)) (some j.c) h in
      let (op, forward) = both (is_jmp j.bc_op) (ltb (j.pc + 1) j.c && body) all in
      let (ahead, full) = both (ltb (j.pc + 1) j.c) body forward in
      let (closure, room) = both (has_closure (j.pc + 1) j.c js) (leb j.c sizecode) full in
      let target : j.c ≡ hi = cc to in
      let lt = ltb→lt (j.pc + 1) j.c ahead in
      let le = leb→le j.c sizecode room in
      jumps (of_jmp j.bc_op op) target (omega (arith, target, lt)) (omega (arith, target, le))
        (subst (λ t. Closes (j.pc + 1) t js) target (has_closure-Closes (j.pc + 1) j.c js closure))

  skip-Jumps :
      (xs : List IrInst) → guard_jmp sizecode (skip_extra xs) ≡ some hi → Jumps sizecode hi xs
  unfolding skip_extra
  skip-Jumps [] h = cc h
  skip-Jumps (x ∷ xs) h = elim (Bool-cases (is_extraarg x.bc_op)) [
    | inl extra ↦ fused (of_extraarg x.bc_op extra) (skip-Jumps xs (rw extra at h))
    | inr plain ↦ jmp-Jumps (x ∷ xs) (rw plain at h)
  ]

  test-Tests :
      (r : ℕ) (xs : List IrInst) → guard_test sizecode r xs ≡ some hi → Tests sizecode r hi xs
  test-Tests r [] h = cc h
  test-Tests r (t ∷ ts) h =
      let zero_bit = t.a == r && t.c == 0 in
      let (all, to) =
        granted_by (is_test t.bc_op && zero_bit) (guard_jmp sizecode (skip_extra ts)) h in
      let (op, bits) = both (is_test t.bc_op) zero_bit all in
      let (reg, k) = both (t.a == r) (t.c == 0) bits in
      tested (of_test t.bc_op op) ((==_iff t.a r).0 reg) ((==_iff t.c 0).0 k) (skip-Jumps ts to)

  skip-Tests :
      (r : ℕ) (xs : List IrInst)
      → guard_test sizecode r (skip_extra xs) ≡ some hi
      → Tests sizecode r hi xs
  unfolding skip_extra
  skip-Tests r [] h = cc h
  skip-Tests r (x ∷ xs) h = elim (Bool-cases (is_extraarg x.bc_op)) [
    | inl extra ↦ Tests.fused (of_extraarg x.bc_op extra) (skip-Tests r xs (rw extra at h))
    | inr plain ↦ test-Tests r (x ∷ xs) (rw plain at h)
  ]

  pub guard-Guards : (xs : List IrInst) → guard sizecode xs ≡ some hi → Guards sizecode hi xs
  unfolding guard
  guard-Guards [] h = cc h
  guard-Guards (x ∷ xs) h =
      let (load, rest) =
        granted_by (is_loadfalse x.bc_op) (guard_test sizecode x.a (skip_extra xs)) h in
      guards (of_loadfalse x.bc_op load) (skip-Tests x.a xs rest)
