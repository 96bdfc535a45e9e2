-- ===== src/CodeBuf/Growth.antt =====
-- The doubling loop of `LcCodeBuf_Append`.
use compiled_lua.Common.{ℕ, zero, suc, ◌*◌, ◌%◌, ◌^◌, ◌≤◌, ◌<◌}
use compiled_lua.Common.{◌≡◌, refl, ap, ◌⊎◌, inl, inr}
use compiled_lua.Common.{some, arith}
use compiled_lua.Common.{ltb, ltb→lt, Bool-cases}
use compiled_lua.CodeBuf.{grow}
use native.Mathlib.Nat.{pow-suc}

-- From a capacity above 0 whose doublings reach the need within the fuel, and for a need of at
-- most 2 ^ 63, the loop ends with room for the need and no less than before: with the capacity
-- that there was if that is room enough, and otherwise with less than twice the need.
pub grow_lem :
    (fuel nc need : ℕ)
    → 0 < nc
    → need ≤ nc * 2 ^ fuel
    → need ≤ 2 ^ 63
    → (r : ℕ) × (grow (suc fuel) nc need ≡ some r)
      × (need ≤ r)
      × (nc ≤ r)
      × (((need ≤ nc) × (r ≡ nc)) ⊎ ((nc < need) × (r < 2 * need)))
unfolding grow
grow_lem zero nc need pos reach small =
    (nc, ground arith, omega arith, omega arith, inl (omega arith, refl))
grow_lem (suc fuel) nc need pos reach small = elim (Bool-cases (ltb nc need)) [
  | inl more ↦
      let below : nc < need = ltb→lt nc need more in
      let wraps : nc * 2 % 2 ^ 64 ≡ nc * 2 = omega arith in
      let (r, runs, enough, grown, tight) =
        grow_lem fuel (nc * 2 % 2 ^ 64) need (omega arith)
          (omega
            (arith, ap (λ (t : ℕ). nc * t) (pow-suc 2 fuel), ap (λ (t : ℕ). t * 2 ^ fuel) wraps))
          small in
      (r, rw more runs, enough, omega arith, inr (below, omega (arith, tight, below)))
  | inr enough ↦ (nc, rw enough, ground arith, omega arith, inl (ground arith, refl))
]
