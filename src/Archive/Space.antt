-- ===== src/Archive/Space.antt =====
-- Empty slots, and distances around the table: clua/src/link/ar_read.c.
use compiled_lua.Common.{ℕ, zero, suc, ◌+◌, ◌-◌, ◌*◌, ◌/◌, ◌%◌, ◌^◌, ◌≤◌, ◌<◌}
use compiled_lua.Common.{◌≡◌, refl, ap, ◌∙◌, inl, inr}
use compiled_lua.Common.{List, [], ◌∷◌, arith}
use compiled_lua.Common.{leb, ◌==◌, if◌then◌else◌, leb→le, Bool-cases}
use compiled_lua.Common.{length, set, get_or, replicate}
use compiled_lua.Common.Bits.{two_pow-pos}
use native.Mathlib.Nat.{div-add-mod, mod-lt, mod-eq_of_lt, add-mul-mod_self_left, mul-suc}

-- How many slots are empty.
abbrev pub zeros : List ℕ → ℕ
zeros [] = 0
zeros (s ∷ ss) = (if s == 0 then 1 else 0) + zeros ss

pub zeros-set : (ss : List ℕ) (p v : ℕ) → zeros ss ≤ zeros (set ss p v) + 1
zeros-set [] p v = omega arith
zeros-set (s ∷ ss) zero v = ground arith
zeros-set (s ∷ ss) (suc p) v = ground (arith, zeros-set ss p v)

pub zeros-replicate : (n : ℕ) → zeros (replicate n 0) ≡ n
zeros-replicate zero = refl
zeros-replicate (suc n) = omega (arith, zeros-replicate n)

pub some_zero : (ss : List ℕ) → 0 < zeros ss → (q : ℕ) × (q < length ss) × (get_or ss q 0 ≡ 0)
some_zero [] h = elim h [ ]
some_zero (s ∷ ss) h = elim (Bool-cases (s == 0)) [
  | inl empty ↦ (0, omega arith, ground arith)
  | inr full ↦
      let (q, inside, empty) = some_zero ss (ground arith) in (suc q, omega (arith, inside), empty)
]

mul_suc_add : (a b : ℕ) → a * suc b ≡ a * b + a
mul_suc_add a b = mul-suc a b

whole_turns : (q M x k : ℕ) → q < M → x ≡ q + M * k → x % M ≡ q
whole_turns q M x k inside sum =
    ap (λ y. y % M) sum ∙ add-mul-mod_self_left q M k ∙ mod-eq_of_lt inside

-- Every slot is at some distance from every hash.
pub distance : (m h q : ℕ) → q < 2 ^ m → (v : ℕ) × (v < 2 ^ m) × ((h + v) % 2 ^ m ≡ q)
distance m h q inside =
    let M = 2 ^ m in
    let k = h / M in
    let whole = div-add-mod h M in
    let small = mod-lt h (two_pow-pos m) in
    let more = mul_suc_add M k in
    elim (Bool-cases (leb (h % M) q)) [
      | inl before ↦
          let le = leb→le (h % M) q before in
          let sum : h + (q - h % M) ≡ q + M * k = omega arith in
          (q - h % M, omega arith, whole_turns q M (h + (q - h % M)) k inside sum)
      | inr beyond ↦
          let gt : q < h % M = ground arith in
          let sum : h + (q + M - h % M) ≡ q + M * suc k = omega arith in
          (q + M - h % M, omega arith, whole_turns q M (h + (q + M - h % M)) (suc k) inside sum)
    ]
