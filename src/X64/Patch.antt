-- ===== src/X64/Patch.antt =====
-- clua/src/codegen/x64_emit.c: the patches of relative jumps, by where the jump then goes.
use compiled_lua.Common.{ℕ, zero, suc, ◌+◌, ◌-◌, ◌/◌, ◌%◌, ◌^◌, ◌≤◌, ◌<◌}
use compiled_lua.Common.{◌≡◌, refl, ap, ◌≢◌, ◌⊎◌, inl, inr, true, false}
use compiled_lua.Common.{List, [], ◌∷◌, arith}
use compiled_lua.Common.{ltb, leb, Bool-cases}
use compiled_lua.Common.{length, set, length-set, get_or}
use compiled_lua.Common.Word.{word32, word32-bytes32, sign_extend8, sign_extend32}
use compiled_lua.CodeBuf.{LcCodeBuf, used}
use compiled_lua.X64.Jump.{
  patched, rejected, fault, delta_within, delta_pattern, patch_rel8, patch_rel32, set_word,
}

-- The 64-bit address that a rel8 or rel32 displacement at `at` leads to: the end of the
-- instruction plus the sign-extended displacement.
abbrev pub land8 : List ℕ → ℕ → ℕ
land8 bs at = (at + 1 + sign_extend32 (sign_extend8 (get_or bs at 0))) % 2 ^ 64

abbrev pub land32 : List ℕ → ℕ → ℕ
land32 bs at =
    (at
      + 4
      + sign_extend32 (
          word32 (get_or bs at 0) (get_or bs (at + 1) 0) (get_or bs (at + 2) 0)
            (get_or bs (at + 3) 0)))
    % 2 ^ 64

get_or-set : (bs : List ℕ) (i v : ℕ) → i < length bs → get_or (set bs i v) i 0 ≡ v
get_or-set [] i v h = elim h [ ]
get_or-set (x ∷ bs) zero v h = refl
get_or-set (x ∷ bs) (suc i) v h = get_or-set bs i v (omega arith)

get_or-set_ne : (bs : List ℕ) (i j v : ℕ) → i ≢ j → get_or (set bs i v) j 0 ≡ get_or bs j 0
get_or-set_ne [] i j v h = refl
get_or-set_ne (x ∷ bs) zero zero v h = absurd (h refl)
get_or-set_ne (x ∷ bs) zero (suc j) v h = refl
get_or-set_ne (x ∷ bs) (suc i) zero v h = refl
get_or-set_ne (x ∷ bs) (suc i) (suc j) v h = get_or-set_ne bs i j v (λ e. h (ap suc e))

-- The bytes outside `width` bytes at `at` stay.
abbrev pub SameElsewhere : ℕ → ℕ → List ℕ → List ℕ → Type 0
SameElsewhere at width bs cs =
    (length cs ≡ length bs)
    × ((j : ℕ) → (j < at) ⊎ (at + width ≤ j) → get_or cs j 0 ≡ get_or bs j 0)

delta8 :
    (target from : ℕ)
    → target < 2 ^ 63
    → from < 2 ^ 63
    → delta_within 128 127 target from ≡ true
    → (from + sign_extend32 (sign_extend8 (delta_pattern 256 target from))) % 2 ^ 64 ≡ target
delta8 target from ht hf within = ground arith

delta32 :
    (target from : ℕ)
    → target < 2 ^ 63
    → from < 2 ^ 63
    → delta_within (2 ^ 31) (2 ^ 31 - 1) target from ≡ true
    → (from + sign_extend32 (delta_pattern (2 ^ 32) target from)) % 2 ^ 64 ≡ target
delta32 target from ht hf within = ground arith

-- A rel8 patch inside the buffer, with offsets below 2 ^ 63: it succeeds exactly when the target
-- is within reach of a signed byte, and then the jump lands on the target and no other byte has
-- changed.
pub patch_rel8_lem :
    (b : LcCodeBuf) (at target : ℕ)
    → at < used b
    → used b < 2 ^ 63
    → target < 2 ^ 63
    → ((delta_within 128 127 target (at + 1) ≡ true)
        × (c : LcCodeBuf) × (patch_rel8 b at target ≡ patched c)
        × (land8 c.bytes at ≡ target)
        × SameElsewhere at 1 b.bytes c.bytes)
      ⊎ ((delta_within 128 127 target (at + 1) ≡ false) × (patch_rel8 b at target ≡ rejected b))
unfolding patch_rel8
patch_rel8_lem b at target inside small ht =
    let bound : leb (used b) at ≡ false = ground arith in
    elim (Bool-cases (delta_within 128 127 target (at + 1))) [
      | inl near ↦ inl (
        near,
        record b { bytes = set b.bytes at (delta_pattern 256 target (at + 1)) },
        rw (bound, near),
        rw (get_or-set b.bytes at (delta_pattern 256 target (at + 1)) inside)
            (delta8 target (at + 1) ht (omega arith) near),
        (length-set b.bytes at _, λ j out. get_or-set_ne b.bytes at j _ (omega arith)),
      )
      | inr far ↦ inr (far, rw (bound, far))
    ]

module _ (bs : List ℕ) (at w : ℕ) (inside : at + 4 ≤ length bs) where
  length-set_word : length (set_word bs at w) ≡ length bs
  length-set_word = simp length-set

  set_word-SameElsewhere : SameElsewhere at 4 bs (set_word bs at w)
  set_word-SameElsewhere = (
    length-set_word,
    λ j out. rw (
      get_or-set_ne _ (at + 3) j (w / 16777216 % 256) (omega arith),
      get_or-set_ne _ (at + 2) j (w / 65536 % 256) (omega arith),
      get_or-set_ne _ (at + 1) j (w / 256 % 256) (omega arith),
      get_or-set_ne _ at j (w % 256) (omega arith),
    ),
  )

  -- The four stores read back as the word.
  word-set_word :
      w < 2 ^ 32
      → let cs = set_word bs at w in
        word32 (get_or cs at 0) (get_or cs (at + 1) 0) (get_or cs (at + 2) 0) (get_or cs (at + 3) 0)
        ≡ w
  word-set_word h =
      let one = set bs at (w % 256) in
      let two = set one (at + 1) (w / 256 % 256) in
      let three = set two (at + 2) (w / 65536 % 256) in
      let l1 = length-set bs at (w % 256) in
      let l2 = length-set one (at + 1) (w / 256 % 256) in
      let l3 = length-set two (at + 2) (w / 65536 % 256) in
      rw
        (
          get_or-set three (at + 3) (w / 16777216 % 256) (omega arith),
          get_or-set_ne three (at + 3) (at + 2) (w / 16777216 % 256) (omega arith),
          get_or-set_ne three (at + 3) (at + 1) (w / 16777216 % 256) (omega arith),
          get_or-set_ne three (at + 3) at (w / 16777216 % 256) (omega arith),
          get_or-set two (at + 2) (w / 65536 % 256) (omega arith),
          get_or-set_ne two (at + 2) (at + 1) (w / 65536 % 256) (omega arith),
          get_or-set_ne two (at + 2) at (w / 65536 % 256) (omega arith),
          get_or-set one (at + 1) (w / 256 % 256) (omega arith),
          get_or-set_ne one (at + 1) at (w / 256 % 256) (omega arith),
          get_or-set bs at (w % 256) (omega arith),
        )
        (word32-bytes32 w h)

-- A rel32 patch of four bytes inside the buffer, with offsets below 2 ^ 63: it succeeds exactly
-- when the target is within reach of an `int32_t`, and then the jump lands on the target and no
-- other byte has changed.
pub patch_rel32_lem :
    (b : LcCodeBuf) (at target : ℕ)
    → at + 4 ≤ used b
    → used b < 2 ^ 63
    → target < 2 ^ 63
    → ((delta_within (2 ^ 31) (2 ^ 31 - 1) target (at + 4) ≡ true)
        × (c : LcCodeBuf) × (patch_rel32 b at target ≡ patched c)
        × (land32 c.bytes at ≡ target)
        × SameElsewhere at 4 b.bytes c.bytes)
      ⊎ ((delta_within (2 ^ 31) (2 ^ 31 - 1) target (at + 4) ≡ false)
          × (patch_rel32 b at target ≡ rejected b))
unfolding patch_rel32
patch_rel32_lem b at target inside small ht =
    let wraps : (at + 4) % 2 ^ 64 ≡ at + 4 = omega arith in
    let bound : ltb (used b) (at + 4) ≡ false = ground arith in
    let w = delta_pattern (2 ^ 32) target (at + 4) in
    elim (Bool-cases (delta_within (2 ^ 31) (2 ^ 31 - 1) target (at + 4))) [
      | inl near ↦ inl (
        near,
        record b { bytes = set_word b.bytes at w },
        rw (wraps, bound, near),
        rw (word-set_word b.bytes at w inside (omega arith))
            (delta32 target (at + 4) ht (omega arith) near),
        set_word-SameElsewhere b.bytes at w inside,
      )
      | inr far ↦ inr (far, rw (wraps, bound, far))
    ]

-- The guard of `X64Emit_PatchRel32` lets the offset (size_t)-1 of a failed placeholder through:
-- on every buffer of 3 to 2 ^ 31 - 1 bytes, with a target in it, the store is outside the buffer.
-- `X64Emit_PatchRel8` rejects that offset.
pub patch_rel32_failed :
    (b : LcCodeBuf) (target : ℕ)
    → 3 ≤ used b
    → used b < 2 ^ 31
    → target ≤ used b
    → (patch_rel32 b (2 ^ 64 - 1) target ≡ fault) × (patch_rel8 b (2 ^ 64 - 1) target ≡ rejected b)
unfolding patch_rel32 patch_rel8
patch_rel32_failed b target some_code small inside = ground arith
