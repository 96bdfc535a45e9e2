-- ===== src/FrameAbi/RoundTrip.antt =====
-- Packing, then unpacking: clua/src/common/rt_frame_abi.h.
use compiled_lua.Common.{ℕ, zero, suc, ◌+◌, ◌*◌, ◌/◌, ◌%◌, ◌^◌, ◌≤◌, ◌<◌}
use compiled_lua.Common.{◌≡◌, ◌∙◌, true}
use compiled_lua.Common.{arith}
use compiled_lua.Common.{tests}
use compiled_lua.FrameAbi.{fits, flag, pack, field_a, field_b, field_c, field_k}
use compiled_lua.Common.Bits.{bit_or-shifted, bit_and-mask}

flag-le : (k : ℕ) → flag k ≤ 1
unfolding flag
flag-le zero = omega arith
flag-le (suc k) = omega arith

-- The disjoint fields of the word add up.
pub pack_lem :
    (a b c k : ℕ)
    → a < 1024
    → b < 1024
    → c < 1024
    → pack a b c k ≡ a + b * 2 ^ 10 + c * 2 ^ 20 + flag k * 2 ^ 30
unfolding pack
pack_lem a b c k p q r =
    let f = flag-le k in
    let wrap_b : b * 2 ^ 10 % 2 ^ 32 ≡ b * 2 ^ 10 = omega arith in
    let wrap_c : c * 2 ^ 20 % 2 ^ 32 ≡ c * 2 ^ 20 = omega arith in
    let wrap_k : flag k * 2 ^ 30 % 2 ^ 32 ≡ flag k * 2 ^ 30 = omega arith in
    rw (
      wrap_b,
      wrap_c,
      wrap_k,
      bit_or-shifted 10 a b p,
      bit_or-shifted 20 (a + b * 2 ^ 10) c (omega arith),
      bit_or-shifted 30 (a + b * 2 ^ 10 + c * 2 ^ 20) (flag k) (omega arith),
    )

module _ (a b c k : ℕ) (h : fits a b c ≡ true) where
  -- Operands that pass `LC_RTF_FITS` come back from the packed word, the flag as 0 or 1, and
  -- the word is a positive 32-bit integer.
  pub pack_round_trip :
      (field_a (pack a b c k) ≡ a)
      × (field_b (pack a b c k) ≡ b)
      × (field_c (pack a b c k) ≡ c)
      × (field_k (pack a b c k) ≡ flag k)
      × (pack a b c k < 2 ^ 31)
  unfolding fits field_a field_b field_c field_k
  pack_round_trip =
      let p : a < 1024 = grind (arith, tests) in
      let q : b < 1024 = grind (arith, tests) in
      let r : c < 1024 = grind (arith, tests) in
      let f = flag-le k in
      let w = pack a b c k in
      let sum : w ≡ a + b * 2 ^ 10 + c * 2 ^ 20 + flag k * 2 ^ 30 = pack_lem a b c k p q r in
      (
        bit_and-mask 10 w ∙ omega arith,
        bit_and-mask 10 (w / 2 ^ 10) ∙ omega arith,
        bit_and-mask 10 (w / 2 ^ 20) ∙ omega arith,
        bit_and-mask 1 (w / 2 ^ 30) ∙ omega arith,
        omega arith,
      )
