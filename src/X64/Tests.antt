-- ===== src/X64/Tests.antt =====
-- Concrete runs of the encoder, and its theorems at concrete inputs.
use compiled_lua.Common.{ℕ, ◌-◌, ◌*◌, ◌^◌, ◌≤◌, ◌<◌}
use compiled_lua.Common.{◌≡◌, refl, ◌⊎◌, Bool, true, false}
use compiled_lua.Common.{some, List, [], ◌∷◌, arith}
use compiled_lua.CodeBuf.{LcCodeBuf, done, refused, grow, append}
use compiled_lua.CodeBuf.Growth.{grow_lem}
use compiled_lua.CodeBuf.Append.{Appended, append_lem}
use compiled_lua.Common.Word.{bytes32, sign_extend32}
use compiled_lua.X64.{
  rax, rcx, rdx, rbx, rsp, r8, r12, r13, is_hi, lo3, mod_rm, append_byte, append_bytes,
}
use compiled_lua.X64.Int.{
  emit_mem_op, disp_bytes, disp_mode, mov_imm64_to_reg, mov_imm32_to_reg, mov_reg_to_reg,
  arith_rax_reg, mov_mem_to_reg, lea_reg_mem, mov_reg_to_mem, add_mem_to_reg, cmp_mem32_reg,
  mov_imm32_to_mem, cmp_mem32_imm32, cmp_mem8_imm8, test_mem8_imm8, sub_rsp_imm, add_rsp_imm,
  add_reg_imm32, lea_reg_base_index,
}
use compiled_lua.X64.Jump.{patched, rejected, fault, patch_rel8, patch_rel32, delta_within}
use compiled_lua.X64.Sse.{emit_sse_xmm_rm, sse_mode, movsd_load_xmm}
use compiled_lua.Common.Int.{pos}
use compiled_lua.X64.Load.{LoadsValue, mov_imm32_to_reg-mov_imm64_to_reg}
use compiled_lua.X64.Operand.{Encodes, Indexable, address, operand, memory_emitters-Encodes}
use compiled_lua.X64.Patch.{
  land8, land32, SameElsewhere, patch_rel8_lem, patch_rel32_lem, patch_rel32_failed,
}
use compiled_lua.X64.Register.{between, AdjustsRsp, register_emitters-Encodes}

abbrev always : LcCodeBuf → ℕ → Bool
always b n = true

abbrev buffer : List ℕ → LcCodeBuf
buffer bs = record { bytes = bs; capacity = 32; relocs = []; relocap = 0 }

-- mov rax, [r12 + 0x10] needs a SIB byte; mov r8, [r13] a displacement.
mov_r12 :
    (mov_mem_to_reg always rax r12 0x10 (buffer [])
      ≡ done (buffer (0x49 ∷ 0x8b ∷ 0x44 ∷ 0x24 ∷ 0x10 ∷ [])))
    × (mov_mem_to_reg always r8 r13 0 (buffer []) ≡ done (buffer (0x4d ∷ 0x8b ∷ 0x45 ∷ 0x00 ∷ [])))
unfolding mov_mem_to_reg emit_mem_op append_byte append disp_bytes disp_mode append_bytes is_hi
    mod_rm lo3
mov_r12 = (refl, refl)

xor_r8 : mov_imm32_to_reg always r8 0 (buffer []) ≡ done (buffer (0x45 ∷ 0x31 ∷ 0xc0 ∷ []))
unfolding mov_imm32_to_reg is_hi append_byte append mod_rm lo3
xor_r8 = refl

movsd_runs :
    movsd_load_xmm always (pos 9) rsp 8 (buffer [])
    ≡ done (buffer (0xf2 ∷ 0x44 ∷ 0x0f ∷ 0x10 ∷ 0x4c ∷ 0x24 ∷ 0x08 ∷ []))
unfolding movsd_load_xmm emit_sse_xmm_rm append sse_mode
movsd_runs = refl

memory_emitters-Encodes_example :
    Encodes always (mov_mem_to_reg always r8 r13 0) (operand always 0x8b true 8 r13 0) []
    × Encodes always (lea_reg_mem always r8 r13 0) (operand always 0x8d true 8 r13 0) []
    × Encodes always (mov_reg_to_mem always r13 0 r8) (operand always 0x89 true 8 r13 0) []
    × Encodes always (add_mem_to_reg always r8 r13 0) (operand always 0x03 true 8 r13 0) []
    × Encodes always (cmp_mem32_reg always r13 0 r8) (operand always 0x39 false 8 r13 0) []
    × Encodes always
        (mov_imm32_to_mem always r13 0 7)
        (operand always 0xc7 false 0 r13 0)
        (bytes32 7)
    × Encodes always
        (cmp_mem32_imm32 always r13 0 7)
        (operand always 0x81 false 7 r13 0)
        (bytes32 7)
    × Encodes always (cmp_mem8_imm8 always r13 0 19) (operand always 0x80 false 7 r13 0) (19 ∷ [])
    × Encodes always (test_mem8_imm8 always r13 0 19) (operand always 0xf6 false 0 r13 0) (19 ∷ [])
    × ((Indexable always r8 r13 rcx
          × Encodes always (lea_reg_base_index always r8 r13 rcx) (address always r8 r13 rcx) [])
        ⊎ ((¬ Indexable always r8 r13 rcx)
            × ((b : LcCodeBuf) → lea_reg_base_index always r8 r13 rcx b ≡ refused b)))
memory_emitters-Encodes_example = memory_emitters-Encodes always r8 r13 rcx 0 7 19 (omega arith)

mov_imm32_to_reg-mov_imm64_to_reg_example :
    LoadsValue always (mov_imm32_to_reg always r8 0xffff_ffff) r8 (sign_extend32 0xffff_ffff)
    × LoadsValue always
        (mov_imm64_to_reg always r8 (sign_extend32 0xffff_ffff))
        r8
        (sign_extend32 0xffff_ffff)
mov_imm32_to_reg-mov_imm64_to_reg_example =
    mov_imm32_to_reg-mov_imm64_to_reg always r8 0xffff_ffff (omega arith)

register_emitters-Encodes_example :
    Encodes always (mov_reg_to_reg always rcx r12) (between 0x89 true false 12 1) []
    × Encodes always (arith_rax_reg always 0xaf r12) (between 0xaf true true 0 12) []
    × Encodes always (add_reg_imm32 always rcx 200) (between 0x81 true false 0 1) (bytes32 200)
    × AdjustsRsp always (sub_rsp_imm always 200) 5 200
    × AdjustsRsp always (add_rsp_imm always 200) 0 200
register_emitters-Encodes_example =
    register_emitters-Encodes always rcx r12 0xaf 200 (refl, refl, refl) (omega arith)

abbrev empty : LcCodeBuf
empty = record (buffer []) { capacity = 0 }

append_lem_example : Appended always (1 ∷ 2 ∷ []) empty (append always (1 ∷ 2 ∷ []) empty)
append_lem_example = append_lem always (1 ∷ 2 ∷ []) empty (omega arith)

grow_lem_example :
    (r : ℕ) × (grow 65 16 100 ≡ some r)
    × (100 ≤ r)
    × (16 ≤ r)
    × (((100 ≤ 16) × (r ≡ 16)) ⊎ ((16 < 100) × (r < 2 * 100)))
grow_lem_example = grow_lem 64 16 100 (omega arith) (omega arith) (omega arith)

abbrev jump_back : LcCodeBuf
jump_back = buffer (0x90 ∷ 0xe9 ∷ 0 ∷ 0 ∷ 0 ∷ 0 ∷ [])

-- lea rdx, [rcx + rbx]; the index RSP is refused.
lea_runs :
    (lea_reg_base_index always rdx rcx rbx (buffer [])
      ≡ done (buffer (0x48 ∷ 0x8d ∷ 0x14 ∷ 0x19 ∷ [])))
    × (lea_reg_base_index always rdx rcx rsp (buffer []) ≡ refused (buffer []))
unfolding lea_reg_base_index append_bytes append is_hi lo3
lea_runs = (refl, refl)

patch_rel8_lem_example :
    ((delta_within 128 127 0 3 ≡ true)
      × (c : LcCodeBuf) × (patch_rel8 jump_back 2 0 ≡ patched c)
      × (land8 c.bytes 2 ≡ 0)
      × SameElsewhere 2 1 jump_back.bytes c.bytes)
    ⊎ ((delta_within 128 127 0 3 ≡ false) × (patch_rel8 jump_back 2 0 ≡ rejected jump_back))
patch_rel8_lem_example = patch_rel8_lem jump_back 2 0 (omega arith) (omega arith) (omega arith)

patch_rel32_lem_example :
    ((delta_within (2 ^ 31) (2 ^ 31 - 1) 0 6 ≡ true)
      × (c : LcCodeBuf) × (patch_rel32 jump_back 2 0 ≡ patched c)
      × (land32 c.bytes 2 ≡ 0)
      × SameElsewhere 2 4 jump_back.bytes c.bytes)
    ⊎ ((delta_within (2 ^ 31) (2 ^ 31 - 1) 0 6 ≡ false)
        × (patch_rel32 jump_back 2 0 ≡ rejected jump_back))
patch_rel32_lem_example = patch_rel32_lem jump_back 2 0 (omega arith) (omega arith) (omega arith)

patch_rel32_failed_example :
    (patch_rel32 jump_back (2 ^ 64 - 1) 0 ≡ fault)
    × (patch_rel8 jump_back (2 ^ 64 - 1) 0 ≡ rejected jump_back)
patch_rel32_failed_example =
    patch_rel32_failed jump_back 0 (omega arith) (omega arith) (omega arith)
