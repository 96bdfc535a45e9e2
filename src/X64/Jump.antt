-- ===== src/X64/Jump.antt =====
-- clua/src/codegen/x64_emit.c: relative jumps, their placeholders, and patching. Offsets are
-- `size_t`. The displacement is a difference of `long long` values, written out here for offsets
-- below 2 ^ 63.
use compiled_lua.Common.{ℕ, ◌+◌, ◌-◌, ◌/◌, ◌%◌, ◌^◌, bit_and, bit_or}
use compiled_lua.Common.{Bool, not, ◌&&◌}
use compiled_lua.Common.{List, [], ◌∷◌}
use compiled_lua.Common.{ltb, leb, if◌then◌else◌}
use compiled_lua.Common.{set}
use compiled_lua.CodeBuf.{LcCodeBuf, Outcome, done, refused, diverges, Emit, ◌>>◌, used, append}
use compiled_lua.X64.{append_byte, append_bytes}

-- What a placeholder returns: the offset to patch, or (size_t)-1.
pub data Placed : Type 0 where
  at_offset : ℕ → LcCodeBuf → Placed
  failed : LcCodeBuf → Placed
  hangs : Placed

-- `if ( !m ) return ( size_t )-1; return Buf->used - width;`
abbrev pub placed : ℕ → Outcome → Placed
placed width (done c) = at_offset (used c - width) c
placed width (refused c) = failed c
placed width diverges = hangs

-- What a patch does: the changed buffer with 1, the old one with 0, or a store outside it.
pub data Patched : Type 0 where
  patched : LcCodeBuf → Patched
  rejected : LcCodeBuf → Patched
  fault : Patched

-- Delta >= lo && Delta <= hi for Delta = target - from, with lo = -below.
abbrev pub delta_within : ℕ → ℕ → ℕ → ℕ → Bool
delta_within below above target from = leb from (target + below) && leb target (from + above)

-- The low `2 ^ bits` pattern of target - from.
abbrev pub delta_pattern : ℕ → ℕ → ℕ → ℕ
delta_pattern modulus target from = (target + 2 ^ 64 - from) % modulus

unfoldable pub patch_rel8 : LcCodeBuf → ℕ → ℕ → Patched
patch_rel8 b patch target =
    if leb (used b) patch
    then rejected b
    else if not (delta_within 128 127 target (patch + 1))
    then rejected b
    else patched (record b { bytes = set b.bytes patch (delta_pattern 256 target (patch + 1)) })

-- The four stores of a little-endian word.
abbrev pub set_word : List ℕ → ℕ → ℕ → List ℕ
set_word bs i w =
    set (set (set (set bs i (w % 256)) (i + 1) (w / 256 % 256)) (i + 2) (w / 65536 % 256)) (i + 3)
      (w / 16777216 % 256)

-- The sum in the guard is of `size_t`: it wraps at an offset of (size_t)-1.
unfoldable pub patch_rel32 : LcCodeBuf → ℕ → ℕ → Patched
patch_rel32 b patch target =
    let end_of_jump = (patch + 4) % 2 ^ 64 in
    if ltb (used b) end_of_jump
    then rejected b
    else if not (delta_within (2 ^ 31) (2 ^ 31 - 1) target end_of_jump)
    then rejected b
    else if ltb (used b) (patch + 4)
    then fault
    else patched
        (record b { bytes = set_word b.bytes patch (delta_pattern (2 ^ 32) target end_of_jump) })

module _ (grants : LcCodeBuf → ℕ → Bool) where
  unfoldable pub jne_rel8 : ℕ → Emit
  jne_rel8 rel = append_byte grants 0x75 >> append_bytes grants (rel ∷ [])

  unfoldable pub je_rel8 : ℕ → Emit
  je_rel8 rel = append_byte grants 0x74 >> append_bytes grants (rel ∷ [])

  unfoldable pub jbe_rel8 : ℕ → Emit
  jbe_rel8 rel = append_byte grants 0x76 >> append_bytes grants (rel ∷ [])

  unfoldable pub jmp_rel8 : ℕ → Emit
  jmp_rel8 rel = append_byte grants 0xeb >> append_bytes grants (rel ∷ [])

  unfoldable pub jmp_rel8_placeholder : LcCodeBuf → Placed
  jmp_rel8_placeholder b = placed 1 (append grants (0xeb ∷ 0x00 ∷ []) b)

  unfoldable pub jmp_rel32_placeholder : LcCodeBuf → Placed
  jmp_rel32_placeholder b = placed 4 (append grants (0xe9 ∷ 0x00 ∷ 0x00 ∷ 0x00 ∷ 0x00 ∷ []) b)

  unfoldable pub jcc_rel32_placeholder : ℕ → LcCodeBuf → Placed
  jcc_rel32_placeholder cc_code b =
      placed 4 (
        append grants (0x0f ∷ bit_or 0x80 (bit_and cc_code 0xf) ∷ 0x00 ∷ 0x00 ∷ 0x00 ∷ 0x00 ∷ []) b)
