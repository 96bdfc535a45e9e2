-- ===== src/X64/Sym.antt =====
-- clua/src/codegen/x64_emit.c: the emitters that leave a relocation. The addend -4 is the
-- pattern 2 ^ 32 - 4.
use compiled_lua.Common.{ℕ, ◌-◌, ◌*◌, ◌%◌, ◌^◌, bit_and, bit_or}
use compiled_lua.Common.{sym, Bool}
use compiled_lua.Common.{List, [], ◌∷◌}
use compiled_lua.Common.{if◌then◌else◌}
use compiled_lua.CodeBuf.{LcCodeBuf, Emit, ◌>>◌, used, append, add_reloc, rel32, rel32_rdata}
use compiled_lua.X64.{Gpr, num, is_hi}

module _ (grants : LcCodeBuf → ℕ → Bool) where
  unfoldable pub call_sym : List ℕ → Emit
  call_sym sym = append grants (0xe8 ∷ []) >> (λ b.
      (append grants (0 ∷ 0 ∷ 0 ∷ 0 ∷ [])
          >> add_reloc grants rel32 (used b % 2 ^ 32) sym (2 ^ 32 - 4))
        b)

  unfoldable pub lea_rip_sym : Gpr → List ℕ → Emit
  lea_rip_sym dst sym =
      append grants (
        bit_or 0x48 (if is_hi dst then 4 else 0)
        ∷ 0x8d
        ∷ bit_or (bit_or 0 (bit_and (num dst) 7 * 8)) 5
        ∷ [])
      >> (λ b.
          (append grants (0 ∷ 0 ∷ 0 ∷ 0 ∷ [])
              >> add_reloc grants rel32_rdata (used b % 2 ^ 32) sym (2 ^ 32 - 4))
            b)
