-- ===== src/X64/Sse.antt =====
-- clua/src/codegen/x64_emit.c: the scalar-double (SSE2) emitters. XMM numbers are C `int`s: a
-- negative `rm_xmm` selects the memory form.
use compiled_lua.Common.{ℕ, ◌*◌, ◌%◌, bit_and, bit_or}
use compiled_lua.Common.{Bool, false, not, ◌&&◌}
use compiled_lua.Common.{List, [], ◌∷◌, ◌++◌}
use compiled_lua.Common.{ltb, leb, ◌==◌, if◌then◌else◌}
use compiled_lua.Common.Word.{bytes32, fits_int8}
use compiled_lua.Common.Int.{ℤ, pos, negsuc}
use compiled_lua.CodeBuf.{LcCodeBuf, Emit, ◌>>◌, return_zero, when, append}
use compiled_lua.X64.{Gpr, rax, num, is_hi, lo3, append_byte}
use compiled_lua.X64.Int.{disp_mode, disp_bytes}

-- Disp == 0 && (int)Base != X64_RBP, and so on; here R13 is not taken apart.
unfoldable pub sse_mode : Gpr → ℕ → ℕ
sse_mode base disp = if disp == 0 && not (num base == 5) then 0 else if fits_int8 disp then 1 else 2

-- The displacement that goes into the byte array of the instruction.
abbrev pub disp_list : ℕ → ℕ → List ℕ
disp_list mode disp = if mode == 1 then disp % 256 ∷ [] else if mode == 2 then bytes32 disp else []

-- ( hi << 6 ) | ( ( reg & 7 ) << 3 ) | ( rm & 7 )
abbrev pub sse_mod_rm : ℕ → ℕ → ℕ → ℕ
sse_mod_rm mode reg rm = bit_or (bit_or (mode * 64) (bit_and reg 7 * 8)) (bit_and rm 7) % 256

abbrev pub sse_rex : ℕ → Bool → ℕ
sse_rex xmm_reg rm_hi =
    bit_or (bit_or 0x40 (if leb 8 xmm_reg then 4 else 0)) (if rm_hi then 1 else 0)

abbrev pub sse_prefix : ℕ → ℕ → Bool → List ℕ
sse_prefix pfx xmm_reg rm_hi =
    (if pfx == 0 then [] else pfx ∷ [])
    ++ (if sse_rex xmm_reg rm_hi == 0x40 then [] else sse_rex xmm_reg rm_hi ∷ [])

module _ (grants : LcCodeBuf → ℕ → Bool) where
  -- EmitSse2MemForm and EmitSse66MemForm: they differ in their first byte.
  unfoldable pub emit_prefixed_mem_form : ℕ → ℕ → Gpr → ℕ → Emit
  unfolding lo3
  emit_prefixed_mem_form pfx opcode base disp =
      append grants (pfx ∷ 0x0f ∷ opcode ∷ [])
      >> append_byte grants (bit_or (bit_or (disp_mode base disp * 64) (0 * 8)) (lo3 base) % 256)
      >> when (lo3 base == 4) (append_byte grants (bit_or (4 * 8) (lo3 base)))
      >> disp_bytes grants (disp_mode base disp) disp

  unfoldable pub emit_sse2_mem_form : ℕ → Gpr → ℕ → Emit
  emit_sse2_mem_form opcode base disp = emit_prefixed_mem_form 0xf2 opcode base disp

  unfoldable pub emit_sse66_mem_form : ℕ → Gpr → ℕ → Emit
  emit_sse66_mem_form opcode base disp = emit_prefixed_mem_form 0x66 opcode base disp

  unfoldable pub ucomisd_xmm0_mem : Gpr → ℕ → Emit
  ucomisd_xmm0_mem base disp = emit_sse66_mem_form 0x2e base disp

  -- The memory operand: ModR/M, SIB and displacement of [base + disp].
  abbrev pub sse_mem : ℕ → Gpr → ℕ → List ℕ
  sse_mem xmm_reg base disp =
      sse_mod_rm (sse_mode base disp) xmm_reg (num base)
      ∷ ((if num base == 4 then 0x24 ∷ [] else []) ++ disp_list (sse_mode base disp) disp)

  unfoldable pub emit_sse_xmm_rm : ℕ → ℕ → ℤ → ℤ → Gpr → ℕ → Emit
  emit_sse_xmm_rm pfx op (negsuc _) rm_xmm base disp = return_zero
  emit_sse_xmm_rm pfx op (pos xmm_reg) (pos rm_xmm) base disp =
      if ltb 15 xmm_reg
      then return_zero
      else append grants (
          sse_prefix pfx xmm_reg (leb 8 rm_xmm)
          ++ 0x0f ∷ op ∷ bit_or (bit_or 0xc0 (bit_and xmm_reg 7 * 8)) (bit_and rm_xmm 7) % 256 ∷ [])
  emit_sse_xmm_rm pfx op (pos xmm_reg) (negsuc _) base disp =
      if ltb 15 xmm_reg
      then return_zero
      else if ltb 7 (num base)
      then return_zero
      else append grants (sse_prefix pfx xmm_reg false ++ 0x0f ∷ op ∷ sse_mem xmm_reg base disp)

  unfoldable pub movsd_load_xmm : ℤ → Gpr → ℕ → Emit
  movsd_load_xmm xmm base disp = emit_sse_xmm_rm 0xf2 0x10 xmm (negsuc 0) base disp

  unfoldable pub movsd_store_xmm : ℤ → Gpr → ℕ → Emit
  movsd_store_xmm xmm base disp = emit_sse_xmm_rm 0xf2 0x11 xmm (negsuc 0) base disp

  unfoldable pub movsd_xmm_xmm : ℤ → ℤ → Emit
  movsd_xmm_xmm dst src = emit_sse_xmm_rm 0xf2 0x10 dst src rax 0

  unfoldable pub arith_sd_xmm0_xmm : ℕ → ℤ → Emit
  arith_sd_xmm0_xmm op src = emit_sse_xmm_rm 0xf2 op (pos 0) src rax 0

  unfoldable pub arith_sd_xmm0_mem : ℕ → Gpr → ℕ → Emit
  arith_sd_xmm0_mem op base disp = emit_sse_xmm_rm 0xf2 op (pos 0) (negsuc 0) base disp

  unfoldable pub ucomisd_xmm0_xmm : ℤ → Emit
  ucomisd_xmm0_xmm src = emit_sse_xmm_rm 0x66 0x2e (pos 0) src rax 0

  unfoldable pub arith_sd_xmm_xmm : ℕ → ℤ → ℤ → Emit
  arith_sd_xmm_xmm op dst src = emit_sse_xmm_rm 0xf2 op dst src rax 0

  unfoldable pub arith_sd_xmm_mem : ℕ → ℤ → Gpr → ℕ → Emit
  arith_sd_xmm_mem op dst base disp = emit_sse_xmm_rm 0xf2 op dst (negsuc 0) base disp

  unfoldable pub movups_store_xmm : ℤ → Gpr → ℕ → Emit
  movups_store_xmm xmm base disp = emit_sse_xmm_rm 0 0x11 xmm (negsuc 0) base disp

  unfoldable pub movups_load_xmm : ℤ → Gpr → ℕ → Emit
  movups_load_xmm xmm base disp = emit_sse_xmm_rm 0 0x10 xmm (negsuc 0) base disp

  unfoldable pub ucomisd_xmm0_xmm1 : Emit
  ucomisd_xmm0_xmm1 = append grants (0x66 ∷ 0x0f ∷ 0x2e ∷ 0xc1 ∷ [])

  unfoldable pub movsd_mem_to_xmm0 : Gpr → ℕ → Emit
  movsd_mem_to_xmm0 base disp = emit_sse2_mem_form 0x10 base disp

  unfoldable pub movsd_xmm0_to_mem : Gpr → ℕ → Emit
  movsd_xmm0_to_mem base disp = emit_sse2_mem_form 0x11 base disp

  unfoldable pub addsd_mem_to_xmm0 : Gpr → ℕ → Emit
  addsd_mem_to_xmm0 base disp = emit_sse2_mem_form 0x58 base disp

  unfoldable pub subsd_mem_to_xmm0 : Gpr → ℕ → Emit
  subsd_mem_to_xmm0 base disp = emit_sse2_mem_form 0x5c base disp

  unfoldable pub mulsd_mem_to_xmm0 : Gpr → ℕ → Emit
  mulsd_mem_to_xmm0 base disp = emit_sse2_mem_form 0x59 base disp

  unfoldable pub divsd_mem_to_xmm0 : Gpr → ℕ → Emit
  divsd_mem_to_xmm0 base disp = emit_sse2_mem_form 0x5e base disp

  unfoldable pub emit_mov_scalar_mem_to_xmm_n : ℕ → ℤ → Gpr → ℕ → Emit
  emit_mov_scalar_mem_to_xmm_n prefix_byte (negsuc _) base disp = return_zero
  emit_mov_scalar_mem_to_xmm_n prefix_byte (pos xmm) base disp =
      if ltb 7 xmm
      then return_zero
      else if ltb 7 (num base)
      then return_zero
      else append grants (prefix_byte ∷ 0x0f ∷ 0x10 ∷ sse_mem xmm base disp)

  unfoldable pub movsd_mem_to_xmm_n : ℤ → Gpr → ℕ → Emit
  movsd_mem_to_xmm_n xmm base disp = emit_mov_scalar_mem_to_xmm_n 0xf2 xmm base disp

  unfoldable pub movss_mem_to_xmm_n : ℤ → Gpr → ℕ → Emit
  movss_mem_to_xmm_n xmm base disp = emit_mov_scalar_mem_to_xmm_n 0xf3 xmm base disp

  unfoldable pub movq_xmm0_to_reg64 : Gpr → Emit
  movq_xmm0_to_reg64 dst = append grants (
      0x66
      ∷ bit_or 0x48 (if is_hi dst then 1 else 0)
      ∷ 0x0f
      ∷ 0x7e
      ∷ bit_or (bit_or 0xc0 (0 * 8)) (bit_and (num dst) 7)
      ∷ [])

  unfoldable pub movq_reg64_to_xmm0 : Gpr → Emit
  movq_reg64_to_xmm0 src = append grants (
      0x66
      ∷ bit_or 0x48 (if is_hi src then 1 else 0)
      ∷ 0x0f
      ∷ 0x6e
      ∷ bit_or (bit_or 0xc0 (0 * 8)) (bit_and (num src) 7)
      ∷ [])

  unfoldable pub movq_reg64_to_xmm_n : ℤ → Gpr → Emit
  movq_reg64_to_xmm_n (negsuc _) src = return_zero
  movq_reg64_to_xmm_n (pos xmm) src =
      if ltb 15 xmm
      then return_zero
      else append grants (
          0x66
          ∷ bit_or (bit_or 0x48 (if leb 8 xmm then 4 else 0)) (if is_hi src then 1 else 0)
          ∷ 0x0f
          ∷ 0x6e
          ∷ bit_or (bit_or 0xc0 (bit_and xmm 7 * 8)) (bit_and (num src) 7)
          ∷ [])

  unfoldable pub arith_sd_xmm0_xmm1 : ℕ → Emit
  arith_sd_xmm0_xmm1 op =
      if not (op == 0x58) && not (op == 0x5c) && not (op == 0x59) && not (op == 0x5e)
      then return_zero
      else append grants (0xf2 ∷ 0x0f ∷ op ∷ 0xc1 ∷ [])
