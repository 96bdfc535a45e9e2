-- ===== src/X64.antt =====
-- clua/src/codegen/x64_emit.c and .h: the x86-64 instruction encoder. This module has what the
-- emitters share: registers, REX bits, the ModR/M byte and the two append helpers.
use compiled_lua.Common.{ℕ, ◌*◌, ◌%◌, bit_and, bit_or}
use compiled_lua.Common.{Bool}
use compiled_lua.Common.{List, [], ◌∷◌}
use compiled_lua.Common.{leb}
pub mod Int
pub mod Jump
pub mod Sse
pub mod Sym
pub mod Decode
pub mod Fields
pub mod Memory
pub mod Operand
pub mod Patch
mod Tests
pub mod Register
pub mod Load
use compiled_lua.CodeBuf.{LcCodeBuf, Emit, append}

-- X64_GPR_T
pub data Gpr : Type 0 where
  rax rcx rdx rbx rsp rbp rsi rdi r8 r9 r10 r11 r12 r13 r14 r15 : Gpr

abbrev pub num : Gpr → ℕ
num rax = 0
num rcx = 1
num rdx = 2
num rbx = 3
num rsp = 4
num rbp = 5
num rsi = 6
num rdi = 7
num r8 = 8
num r9 = 9
num r10 = 10
num r11 = 11
num r12 = 12
num r13 = 13
num r14 = 14
num r15 = 15

abbrev pub rex_base : ℕ
rex_base = 0x40

abbrev pub rex_w : ℕ
rex_w = 0x08

abbrev pub rex_r : ℕ
rex_r = 0x04

abbrev pub rex_x : ℕ
rex_x = 0x02

abbrev pub rex_b : ℕ
rex_b = 0x01

unfoldable pub is_hi : Gpr → Bool
is_hi r = leb 8 (num r)

unfoldable pub lo3 : Gpr → ℕ
lo3 r = bit_and (num r) 7

-- ( Mod << 6 ) | ( ( Reg & 7 ) << 3 ) | ( Rm & 7 ), as a byte
unfoldable pub mod_rm : ℕ → ℕ → ℕ → ℕ
mod_rm mode reg rm = bit_or (bit_or (mode * 64) (bit_and reg 7 * 8)) (bit_and rm 7) % 256

module _ (grants : LcCodeBuf → ℕ → Bool) where
  unfoldable pub append_byte : ℕ → Emit
  append_byte b = append grants (b ∷ [])

  unfoldable pub append_bytes : List ℕ → Emit
  append_bytes p = append grants p
