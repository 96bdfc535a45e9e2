-- ===== src/X64/Int.antt =====
-- clua/src/codegen/x64_emit.c: the emitters of integer instructions. `imm` and `disp` are the
-- patterns of an `int32_t`, `imm8` that of an `int8_t`, and `imm64` that of a `uint64_t`.
use compiled_lua.Common.{ℕ, ◌+◌, ◌*◌, ◌%◌, ◌^◌, bit_or}
use compiled_lua.Common.{Bool, true, false, not, ◌&&◌, ◌||◌}
use compiled_lua.Common.{[], ◌∷◌}
use compiled_lua.Common.{ltb, ◌==◌, if◌then◌else◌}
use compiled_lua.Common.Word.{bytes32, bytes64, fits_int8}
use compiled_lua.CodeBuf.{LcCodeBuf, Emit, ◌>>◌, return_one, return_zero, when}
use compiled_lua.X64.{
  Gpr, rax, rex_base, rex_w, rex_r, rex_b, is_hi, lo3, mod_rm, append_byte, append_bytes,
}

-- The REX prefix of a 64-bit instruction with `reg` and `rm` as its two registers.
abbrev pub rex_of : Bool → Bool → Bool → ℕ
rex_of wide reg_hi rm_hi =
    bit_or (bit_or (bit_or rex_base (if wide then rex_w else 0)) (if reg_hi then rex_r else 0))
      (if rm_hi then rex_b else 0)

-- The mode bits of [base + disp].
unfoldable pub disp_mode : Gpr → ℕ → ℕ
unfolding lo3
disp_mode base disp =
    if disp == 0 && not (lo3 base == 5) then 0 else if fits_int8 disp then 1 else 2

module _ (grants : LcCodeBuf → ℕ → Bool) where
  unfoldable pub mov_imm64_to_reg : Gpr → ℕ → Emit
  mov_imm64_to_reg dst imm64 =
      append_byte grants (rex_of true false (is_hi dst))
      >> append_byte grants (bit_or 0xb8 (lo3 dst))
      >> append_bytes grants (bytes64 imm64)

  unfoldable pub mov_imm32_to_reg : Gpr → ℕ → Emit
  mov_imm32_to_reg dst imm =
      if imm == 0
      then when (is_hi dst) (append_byte grants (bit_or (bit_or rex_base rex_r) rex_b))
        >> append_byte grants 0x31
        >> append_byte grants (mod_rm 3 (lo3 dst) (lo3 dst))
      else if ltb imm (2 ^ 31)
      then when (is_hi dst) (append_byte grants (bit_or rex_base rex_b))
        >> append_byte grants (bit_or 0xb8 (lo3 dst))
        >> append_bytes grants (bytes32 imm)
      else append_byte grants (rex_of true false (is_hi dst))
        >> append_byte grants 0xc7
        >> append_byte grants (mod_rm 3 0 (lo3 dst))
        >> append_bytes grants (bytes32 imm)

  unfoldable pub mov_reg_to_reg : Gpr → Gpr → Emit
  mov_reg_to_reg dst src =
      append_byte grants (rex_of true (is_hi src) (is_hi dst))
      >> append_byte grants 0x89
      >> append_byte grants (mod_rm 3 (lo3 src) (lo3 dst))

  unfoldable pub arith_rax_reg : ℕ → Gpr → Emit
  arith_rax_reg op src =
      append_byte grants (rex_of true false (is_hi src))
      >> when (op == 0xaf) (append_byte grants 0x0f)
      >> append_byte grants op
      >> append_byte grants (mod_rm 3 0 (lo3 src))

  unfoldable pub ret : Emit
  ret = append_byte grants 0xc3

  -- The displacement bytes behind a ModR/M byte with mode `mode`.
  unfoldable pub disp_bytes : ℕ → ℕ → Emit
  disp_bytes mode disp =
      if mode == 1
      then append_bytes grants (disp % 256 ∷ [])
      else if mode == 2
      then append_bytes grants (bytes32 disp)
      else return_one

  unfoldable pub emit_mem_op : ℕ → ℕ → Bool → Gpr → ℕ → Bool → Emit
  unfolding lo3
  emit_mem_op opcode reg_field reg_hi base disp use_w =
      when (use_w || reg_hi || is_hi base) (append_byte grants (rex_of use_w reg_hi (is_hi base)))
      >> append_byte grants opcode
      >> append_byte grants (mod_rm (disp_mode base disp) reg_field (lo3 base))
      >> when (lo3 base == 4) (append_byte grants (bit_or (4 * 8) (lo3 base)))
      >> disp_bytes (disp_mode base disp) disp

  unfoldable pub mov_mem_to_reg : Gpr → Gpr → ℕ → Emit
  mov_mem_to_reg dst base disp = emit_mem_op 0x8b (lo3 dst) (is_hi dst) base disp true

  unfoldable pub lea_reg_mem : Gpr → Gpr → ℕ → Emit
  lea_reg_mem dst base disp = emit_mem_op 0x8d (lo3 dst) (is_hi dst) base disp true

  unfoldable pub mov_reg_to_mem : Gpr → ℕ → Gpr → Emit
  mov_reg_to_mem base disp src = emit_mem_op 0x89 (lo3 src) (is_hi src) base disp true

  unfoldable pub mov_imm32_to_mem : Gpr → ℕ → ℕ → Emit
  mov_imm32_to_mem base disp imm =
      emit_mem_op 0xc7 0 false base disp false >> append_bytes grants (bytes32 imm)

  unfoldable pub cmp_mem32_imm32 : Gpr → ℕ → ℕ → Emit
  cmp_mem32_imm32 base disp imm =
      emit_mem_op 0x81 7 false base disp false >> append_bytes grants (bytes32 imm)

  unfoldable pub cmp_mem8_imm8 : Gpr → ℕ → ℕ → Emit
  cmp_mem8_imm8 base disp imm8 =
      emit_mem_op 0x80 7 false base disp false >> append_bytes grants (imm8 ∷ [])

  unfoldable pub test_mem8_imm8 : Gpr → ℕ → ℕ → Emit
  test_mem8_imm8 base disp imm8 =
      emit_mem_op 0xf6 0 false base disp false >> append_bytes grants (imm8 ∷ [])

  unfoldable pub add_mem_to_reg : Gpr → Gpr → ℕ → Emit
  add_mem_to_reg dst base disp = emit_mem_op 0x03 (lo3 dst) (is_hi dst) base disp true

  unfoldable pub cmp_mem32_reg : Gpr → ℕ → Gpr → Emit
  cmp_mem32_reg base disp src = emit_mem_op 0x39 (lo3 src) (is_hi src) base disp false

  unfoldable pub sub_rax_imm8 : ℕ → Emit
  sub_rax_imm8 imm8 = append_bytes grants (0x48 ∷ 0x83 ∷ 0xe8 ∷ imm8 ∷ [])

  unfoldable pub shl_rax_imm8 : ℕ → Emit
  shl_rax_imm8 imm8 = append_bytes grants (0x48 ∷ 0xc1 ∷ 0xe0 ∷ imm8 ∷ [])

  unfoldable pub lea_reg_base_index : Gpr → Gpr → Gpr → Emit
  lea_reg_base_index dst base index =
      if is_hi dst || is_hi base || is_hi index
      then return_zero
      else if lo3 base == 5
      then return_zero
      else if lo3 index == 4
      then return_zero
      else append_bytes grants (
          0x48
          ∷ 0x8d
          ∷ bit_or (bit_or (0 * 64) (lo3 dst * 8)) 4
          ∷ bit_or (bit_or (0 * 64) (lo3 index * 8)) (lo3 base)
          ∷ [])

  unfoldable pub test_eax_eax : Emit
  test_eax_eax = append_bytes grants (0x85 ∷ 0xc0 ∷ [])

  unfoldable pub cmp_eax_imm8 : ℕ → Emit
  cmp_eax_imm8 imm8 = append_bytes grants (0x83 ∷ 0xf8 ∷ imm8 ∷ [])

  unfoldable pub push_reg : Gpr → Emit
  push_reg r =
      when (is_hi r) (append_byte grants (bit_or rex_base rex_b))
      >> append_byte grants ((0x50 + lo3 r) % 256)

  unfoldable pub pop_reg : Gpr → Emit
  pop_reg r =
      when (is_hi r) (append_byte grants (bit_or rex_base rex_b))
      >> append_byte grants ((0x58 + lo3 r) % 256)

  unfoldable pub sub_rsp_imm : ℕ → Emit
  sub_rsp_imm imm =
      append_byte grants (bit_or rex_base rex_w)
      >> (if fits_int8 imm
          then append_byte grants 0x83
            >> append_byte grants (mod_rm 3 5 4)
            >> append_bytes grants (imm % 256 ∷ [])
          else append_byte grants 0x81
            >> append_byte grants (mod_rm 3 5 4)
            >> append_bytes grants (bytes32 imm))

  unfoldable pub add_rsp_imm : ℕ → Emit
  add_rsp_imm imm =
      append_byte grants (bit_or rex_base rex_w)
      >> (if fits_int8 imm
          then append_byte grants 0x83
            >> append_byte grants (mod_rm 3 0 4)
            >> append_bytes grants (imm % 256 ∷ [])
          else append_byte grants 0x81
            >> append_byte grants (mod_rm 3 0 4)
            >> append_bytes grants (bytes32 imm))

  unfoldable pub add_reg_imm32 : Gpr → ℕ → Emit
  add_reg_imm32 r imm =
      append_byte grants (rex_of true false (is_hi r))
      >> append_byte grants 0x81
      >> append_byte grants (mod_rm 3 0 (lo3 r))
      >> append_bytes grants (bytes32 imm)

  -- `target` is the address as a 64-bit pattern.
  unfoldable pub call_abs : ℕ → Emit
  call_abs target =
      mov_imm64_to_reg rax target >> append_byte grants 0xff >> append_byte grants (mod_rm 3 2 0)
