-- ===== src/X64/Load.antt =====
-- `X64Emit_MovImm32ToReg` against `X64Emit_MovImm64ToReg`, by the value that the register holds.
use compiled_lua.Common.{ℕ, ◌+◌, ◌*◌, ◌/◌, ◌%◌, ◌^◌, ◌<◌, bit_or}
use compiled_lua.Common.{◌≡◌, refl, ap, inl, inr, Bool, true, false, not, ◌&&◌}
use compiled_lua.Common.{Option, none, some, List, [], ◌∷◌, ◌++◌, append_assoc, arith}
use compiled_lua.Common.{ltb, ◌==◌, if◌then◌else◌, Bool-cases}
use compiled_lua.Common.Word.{bytes32, bytes64, word32, word32-bytes32, sign_extend32}
use compiled_lua.CodeBuf.{LcCodeBuf, Emit, ◌>>◌, when}
use compiled_lua.CodeBuf.Laws.{Emits, append-Emits, seq-Emits, when-Emits, Emits-subst}
use compiled_lua.X64.{Gpr, rax, num, is_hi, lo3, mod_rm, append_byte, append_bytes}
use compiled_lua.X64.Int.{rex_of, mov_imm64_to_reg, mov_imm32_to_reg}
use compiled_lua.X64.Decode.{Rm, direct, Inst, Short, decode, decode_short}

-- What a register is left with.
pub record Loaded : Type 0 where
  pub reg : ℕ
  pub value : ℕ

-- mov r64, imm64 and mov r32, imm32; the latter clears the upper half.
unfoldable pub loaded_short : Option (Short × List ℕ) → Option Loaded
loaded_short (some (i, a ∷ b ∷ c ∷ d ∷ [])) =
    if i.opcode == 0xb8 && not i.wide
    then some (record { reg = i.reg; value = word32 a b c d })
    else none
loaded_short (some (i, a ∷ b ∷ c ∷ d ∷ e ∷ f ∷ g ∷ h ∷ [])) =
    if i.opcode == 0xb8 && i.wide
    then some (record { reg = i.reg; value = word32 a b c d + 2 ^ 32 * word32 e f g h })
    else none
loaded_short _ = none

-- xor r32, r32 of a register with itself, and mov r64, simm32.
abbrev pub loaded_direct : Inst → Rm → List ℕ → Option Loaded
loaded_direct i (direct t) [] =
    if i.opcode == 0x31 && not i.wide && i.reg == t
    then some (record { reg = t; value = 0 })
    else none
loaded_direct i (direct t) (a ∷ b ∷ c ∷ d ∷ []) =
    if i.opcode == 0xc7 && i.wide && i.reg == 0
    then some (record { reg = t; value = sign_extend32 (word32 a b c d) })
    else none
loaded_direct i _ _ = none

unfoldable pub loaded_long : Option (Inst × List ℕ) → Option Loaded
loaded_long none = none
loaded_long (some (i, imm)) = loaded_direct i i.rm imm

-- The effect of a piece of code that is one of the four instructions which load a constant.
pub data Loads (bs : List ℕ) (l : Loaded) : Type 0 where
  short : loaded_short (decode_short bs) ≡ some l → Loads bs l
  long : loaded_long (decode bs) ≡ some l → Loads bs l

zero_list : Gpr → List ℕ
zero_list r = (if is_hi r then 0x45 ∷ [] else []) ++ (0x31 ∷ mod_rm 3 (lo3 r) (lo3 r) ∷ [])

zero_loads :
    (r : Gpr) → loaded_long (decode (zero_list r)) ≡ some (record { reg = num r; value = 0 })
unfolding zero_list loaded_long decode is_hi lo3 mod_rm
zero_loads rax = refl
zero_loads _ = refl

short_list : Gpr → ℕ → List ℕ
short_list r imm = (if is_hi r then 0x41 ∷ [] else []) ++ (bit_or 0xb8 (lo3 r) ∷ bytes32 imm)

short_loads :
    (r : Gpr) (imm : ℕ)
    → imm < 2 ^ 32
    → loaded_short (decode_short (short_list r imm)) ≡ some (record { reg = num r; value = imm })
unfolding short_list loaded_short decode_short is_hi lo3
short_loads rax imm h = ap (λ v. some (record { reg = 0; value = v })) (word32-bytes32 imm h)
short_loads r imm h = ap (λ v. some (record { reg = num r; value = v })) (word32-bytes32 imm h)

signed_list : Gpr → ℕ → List ℕ
signed_list r imm = rex_of true false (is_hi r) ∷ 0xc7 ∷ mod_rm 3 0 (lo3 r) ∷ bytes32 imm

signed_loads :
    (r : Gpr) (imm : ℕ)
    → imm < 2 ^ 32
    → loaded_long (decode (signed_list r imm))
      ≡ some (record { reg = num r; value = sign_extend32 imm })
unfolding signed_list loaded_long decode is_hi lo3 mod_rm
signed_loads rax imm h =
    ap (λ v. some (record { reg = 0; value = sign_extend32 v })) (word32-bytes32 imm h)
signed_loads r imm h =
    ap (λ v. some (record { reg = num r; value = sign_extend32 v })) (word32-bytes32 imm h)

wide_list : Gpr → ℕ → List ℕ
wide_list r imm64 = rex_of true false (is_hi r) ∷ bit_or 0xb8 (lo3 r) ∷ bytes64 imm64

halves :
    (w : ℕ)
    → w < 2 ^ 64
    → word32
          (w % 2 ^ 32 % 256)
          (w % 2 ^ 32 / 256 % 256)
          (w % 2 ^ 32 / 65536 % 256)
          (w % 2 ^ 32 / 16777216 % 256)
        + 2 ^ 32
          * word32
              (w / 2 ^ 32 % 256)
              (w / 2 ^ 32 / 256 % 256)
              (w / 2 ^ 32 / 65536 % 256)
              (w / 2 ^ 32 / 16777216 % 256)
      ≡ w
halves w h =
    omega
      (arith, word32-bytes32 (w % 2 ^ 32) (omega arith), word32-bytes32 (w / 2 ^ 32) (omega arith))

wide_loads :
    (r : Gpr) (imm64 : ℕ)
    → imm64 < 2 ^ 64
    → loaded_short (decode_short (wide_list r imm64)) ≡ some (record { reg = num r; value = imm64 })
unfolding wide_list loaded_short decode_short is_hi lo3
wide_loads rax w h = ap (λ v. some (record { reg = 0; value = v })) (halves w h)
wide_loads r w h = ap (λ v. some (record { reg = num r; value = v })) (halves w h)

module _ (grants : LcCodeBuf → ℕ → Bool) where
  -- `m` writes an instruction that leaves `value` in register `r`.
  abbrev pub LoadsValue : Emit → Gpr → ℕ → Type 0
  LoadsValue m r value =
      (bs : List ℕ) × Emits grants m bs × Loads bs (record { reg = num r; value = value })

  zero_form :
      (r : Gpr)
      → LoadsValue
          (when (is_hi r) (append_byte grants (bit_or (bit_or 0x40 0x04) 0x01))
            >> append_byte grants 0x31
            >> append_byte grants (mod_rm 3 (lo3 r) (lo3 r)))
          r
          0
  unfolding append_byte zero_list
  zero_form r = (
    zero_list r,
    Emits-subst grants (simp append_assoc) (
        seq-Emits grants
          (seq-Emits grants (when-Emits grants _ (append-Emits grants _)) (append-Emits grants _))
          (append-Emits grants _)),
    long (zero_loads r),
  )

  short_form :
      (r : Gpr) (imm : ℕ)
      → imm < 2 ^ 32
      → LoadsValue
          (when (is_hi r) (append_byte grants (bit_or 0x40 0x01))
            >> append_byte grants (bit_or 0xb8 (lo3 r))
            >> append_bytes grants (bytes32 imm))
          r
          imm
  unfolding append_byte append_bytes short_list
  short_form r imm h = (
    short_list r imm,
    Emits-subst grants (simp append_assoc) (
        seq-Emits grants
          (seq-Emits grants (when-Emits grants _ (append-Emits grants _)) (append-Emits grants _))
          (append-Emits grants _)),
    short (short_loads r imm h),
  )

  signed_form :
      (r : Gpr) (imm : ℕ)
      → imm < 2 ^ 32
      → LoadsValue
          (append_byte grants (rex_of true false (is_hi r))
            >> append_byte grants 0xc7
            >> append_byte grants (mod_rm 3 0 (lo3 r))
            >> append_bytes grants (bytes32 imm))
          r
          (sign_extend32 imm)
  unfolding append_byte append_bytes signed_list
  signed_form r imm h = (
    signed_list r imm,
    seq-Emits grants
        (seq-Emits grants (seq-Emits grants (append-Emits grants _) (append-Emits grants _))
          (append-Emits grants _))
        (append-Emits grants _),
    long (signed_loads r imm h),
  )

  pub mov_imm64_to_reg-LoadsValue :
      (r : Gpr) (imm64 : ℕ) → imm64 < 2 ^ 64 → LoadsValue (mov_imm64_to_reg grants r imm64) r imm64
  unfolding mov_imm64_to_reg append_byte append_bytes wide_list
  mov_imm64_to_reg-LoadsValue r w h = (
    wide_list r w,
    seq-Emits grants (seq-Emits grants (append-Emits grants _) (append-Emits grants _))
        (append-Emits grants _),
    short (wide_loads r w h),
  )

  -- The short form and the ten-byte form leave the same 64-bit value in the register: for every
  -- register and every `int32_t`, both load its sign extension.
  pub mov_imm32_to_reg-mov_imm64_to_reg :
      (r : Gpr) (imm : ℕ)
      → imm < 2 ^ 32
      → LoadsValue (mov_imm32_to_reg grants r imm) r (sign_extend32 imm)
        × LoadsValue (mov_imm64_to_reg grants r (sign_extend32 imm)) r (sign_extend32 imm)
  unfolding mov_imm32_to_reg
  mov_imm32_to_reg-mov_imm64_to_reg r imm h = (
    elim (Bool-cases (imm == 0)) [
      | inl nil ↦ rw nil let value : sign_extend32 imm ≡ 0 = ground arith in rw value (zero_form r)
      | inr other ↦ elim (Bool-cases (ltb imm (2 ^ 31))) [
        | inl up ↦ rw (other, up) (short_form r imm h)
        | inr down ↦ rw (other, down) (rw down at (signed_form r imm h))
      ]
    ],
    mov_imm64_to_reg-LoadsValue r (sign_extend32 imm) (ground arith),
  )
