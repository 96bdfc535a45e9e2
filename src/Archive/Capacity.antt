-- ===== src/Archive/Capacity.antt =====
-- The capacity of the slot tables: `ar_slot_cap` of clua/src/link/ar_read.c.
use compiled_lua.Common.{ℕ, zero, suc, ◌+◌, ◌*◌, ◌%◌, ◌^◌, ◌≤◌, ◌<◌}
use compiled_lua.Common.{◌≡◌, refl, ap, ◌∙◌, ◌⊎◌, inl, inr, true, false}
use compiled_lua.Common.{Option, some, arith}
use compiled_lua.Common.{ltb, ltb→lt, Bool-cases}
use compiled_lua.Archive.Data.{slot_cap_from, ar_slot_cap, ar_index_max}
use compiled_lua.Common.Bits.{two_pow-suc}
use native.Mathlib.Nat.{pow-le-pow_right}

exponent-lt : (j k : ℕ) → 2 ^ j < 2 ^ k → j < k
exponent-lt j k h = elim (Bool-cases (ltb j k)) [
  | inl less ↦ ltb→lt j k less
  | inr more ↦
      let wrong = pow-le-pow_right {n = 2} (omega arith) {i = k} {j = j} (ground arith) in
      omega (arith, h, wrong)
]

-- The smallest power of two that reaches the target, from 16.
abbrev Reaches : ℕ → Option ℕ → Type 0
Reaches target o =
    (m : ℕ) × (o ≡ some (2 ^ m)) × (target ≤ 2 ^ m) × ((2 ^ m < 2 * target) ⊎ (m ≡ 4))

doubling :
    (n target cap next : ℕ)
    → ltb cap target ≡ true
    → cap * 2 % 2 ^ 32 ≡ next
    → Reaches target (slot_cap_from n target next)
    → Reaches target (slot_cap_from (suc n) target cap)
unfolding slot_cap_from
doubling n target cap next less wrap (m, run, reach, tight) = (m, rw (less, wrap) run, reach, tight)

slot_cap_from-Reaches :
    (n target j : ℕ)
    → target ≤ 2 ^ 31
    → 31 ≤ j + n
    → (2 ^ j < 2 * target) ⊎ (j ≡ 4)
    → Reaches target (slot_cap_from n target (2 ^ j))
unfolding slot_cap_from
slot_cap_from-Reaches zero target j small enough tight =
    let reach = pow-le-pow_right {n = 2} (omega arith) {i = 31} {j = j} (omega arith) in
    let stop : ltb (2 ^ j) target ≡ false = ground (arith, reach, small) in
    (j, rw stop refl, omega (arith, reach, small), tight)
slot_cap_from-Reaches (suc n) target j small enough tight = elim (Bool-cases (ltb (2 ^ j) target)) [
  | inl less ↦
      let below = ltb→lt (2 ^ j) target less in
      let double = two_pow-suc j in
      let wrap : 2 ^ j * 2 % 2 ^ 32 ≡ 2 ^ suc j = omega (arith, below, small, double) in
      doubling n target (2 ^ j) (2 ^ suc j) less wrap (
        slot_cap_from-Reaches n target (suc j) small (omega (arith, enough))
          (inl (omega (arith, below, double))))
  | inr stop ↦ (j, rw stop refl, ground arith, tight)
]

exponent-le : (m n : ℕ) → n ≤ 2 ^ 28 → (2 ^ m < 2 * (n * 2 + 16)) ⊎ (m ≡ 4) → m ≤ 30
exponent-le m n few (inl tight) = let e = exponent-lt m 31 (omega arith) in omega (arith, e)
exponent-le m n few (inr e) = omega (arith, e)

-- For every count that the indexes accept, `ar_slot_cap` ends, with a power of two that is at
-- least twice the count plus 16, at most 2^30, and below twice that bound unless it is 16.
pub ar_slot_cap_bounds :
    (n : ℕ)
    → n ≤ ar_index_max
    → (m : ℕ) × (ar_slot_cap n ≡ some (2 ^ m))
      × (n * 2 + 16 ≤ 2 ^ m)
      × (2 ^ m ≤ 2 ^ 30)
      × ((2 ^ m < 2 * (n * 2 + 16)) ⊎ (m ≡ 4))
unfolding ar_slot_cap
ar_slot_cap_bounds n few =
    let same : (n * 2 + 16) % 2 ^ 32 ≡ n * 2 + 16 = omega arith in
    let (m, run, reach, tight) =
      slot_cap_from-Reaches 28 (n * 2 + 16) 4 (omega arith) (omega arith) (inr refl) in
    (
      m,
      ap (λ x. slot_cap_from 28 x 16) same ∙ run,
      reach,
      pow-le-pow_right (omega arith) (exponent-le m n few tight),
      tight,
    )
