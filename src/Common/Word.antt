-- ===== src/Common/Word.antt =====
-- Machine words. A `uint8_t`, `int32_t` or `int64_t` is its bit pattern, a native number below
-- 2 ^ 8, 2 ^ 32 or 2 ^ 64; memory holds it as bytes, lowest first.
use Prim.Native.Nat.{ℕ, zero, suc, ◌+◌, ◌-◌, ◌*◌, ◌/◌, ◌%◌, ◌^◌, ◌<◌}
use mathlib.Core.Path.{◌≡◌}
use mathlib.Core.Bool.{Bool, true, ◌&&◌, ◌||◌}
use mathlib.Core.List.{List, [], ◌∷◌, ◌++◌}
use native.Mathlib.Omega.{arith}
use compiled_lua.Common.Tests.{ltb, leb, if◌then◌else◌}

-- The 4 and the 8 bytes that `memcpy` takes from a little-endian word.
abbrev pub bytes32 : ℕ → List ℕ
bytes32 w = w % 256 ∷ w / 256 % 256 ∷ w / 65536 % 256 ∷ w / 16777216 % 256 ∷ []

abbrev pub bytes64 : ℕ → List ℕ
bytes64 w = bytes32 (w % 2 ^ 32) ++ bytes32 (w / 2 ^ 32)

-- The word that four bytes hold.
abbrev pub word32 : ℕ → ℕ → ℕ → ℕ → ℕ
word32 a b c d = a + 256 * b + 65536 * c + 16777216 * d

pub word32-bytes32 :
    (w : ℕ)
    → w < 2 ^ 32
    → word32 (w % 256) (w / 256 % 256) (w / 65536 % 256) (w / 16777216 % 256) ≡ w
word32-bytes32 w h = omega arith

-- `-128 <= x && x <= 127` for an `int32_t` with the pattern `w`.
abbrev pub fits_int8 : ℕ → Bool
fits_int8 w = ltb w 128 || leb (2 ^ 32 - 128) w

-- `(int32_t)(int8_t)b`, and `(int64_t)(int32_t)w`, on patterns.
abbrev pub sign_extend8 : ℕ → ℕ
sign_extend8 b = if ltb b 128 then b else b + (2 ^ 32 - 256)

abbrev pub sign_extend32 : ℕ → ℕ
sign_extend32 w = if ltb w (2 ^ 31) then w else w + (2 ^ 64 - 2 ^ 32)

pub sign_extend8-mod : (w : ℕ) → w < 2 ^ 32 → fits_int8 w ≡ true → sign_extend8 (w % 256) ≡ w
sign_extend8-mod w h fits = ground arith

-- `p x` for all `x` below `n`, by evaluation.
unfoldable pub all_below : ℕ → (ℕ → Bool) → Bool
all_below zero p = true
all_below (suc n) p = p n && all_below n p

pub all_below_lem : (n : ℕ) (p : ℕ → Bool) (x : ℕ) → all_below n p ≡ true → x < n → p x ≡ true
unfolding all_below
all_below_lem zero p x h lt = absurd (omega arith)
all_below_lem (suc n) p x h lt = ground (arith, all_below_lem n p x)
