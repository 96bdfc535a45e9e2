-- ===== src/FrameAbi.antt =====
-- The packed operands of the table helpers: clua/src/common/rt_frame_abi.h.
use compiled_lua.Common.{ℕ, zero, suc, ◌-◌, ◌*◌, ◌/◌, ◌%◌, ◌^◌, bit_and, bit_or}
use compiled_lua.Common.{Bool, ◌&&◌}
use compiled_lua.Common.{leb}
pub mod RoundTrip
mod Tests

abbrev pub rtf_bits : ℕ
rtf_bits = 10

abbrev pub rtf_max : ℕ
rtf_max = 2 ^ rtf_bits - 1

-- `LC_RTF_FITS`, on the unsigned values
unfoldable pub fits : ℕ → ℕ → ℕ → Bool
fits a b c = leb a rtf_max && leb b rtf_max && leb c rtf_max

-- `( k ) != 0`
unfoldable pub flag : ℕ → ℕ
flag zero = 0
flag (suc k) = 1

-- `LC_RTF_PACK`
unfoldable pub pack : ℕ → ℕ → ℕ → ℕ → ℕ
pack a b c k =
    bit_or (bit_or (bit_or a (b * 2 ^ rtf_bits % 2 ^ 32)) (c * 2 ^ (2 * rtf_bits) % 2 ^ 32))
      (flag k * 2 ^ (3 * rtf_bits) % 2 ^ 32)

unfoldable pub field_a : ℕ → ℕ
field_a w = bit_and w rtf_max

unfoldable pub field_b : ℕ → ℕ
field_b w = bit_and (w / 2 ^ rtf_bits) rtf_max

unfoldable pub field_c : ℕ → ℕ
field_c w = bit_and (w / 2 ^ (2 * rtf_bits)) rtf_max

unfoldable pub field_k : ℕ → ℕ
field_k w = bit_and (w / 2 ^ (3 * rtf_bits)) 1
