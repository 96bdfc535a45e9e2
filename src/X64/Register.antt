-- ===== src/X64/Register.antt =====
-- The emitters between registers, of immediates and of stack adjustments, against the decoder.
use compiled_lua.Common.{ℕ, ◌+◌, ◌*◌, ◌/◌, ◌%◌, ◌^◌, ◌≤◌, ◌<◌, bit_or}
use compiled_lua.Common.{◌≡◌, refl, ap, ◌∙◌, inl, inr, Bool, true, false}
use compiled_lua.Common.{Option, none, some, List, [], ◌∷◌, ◌++◌, arith}
use compiled_lua.Common.{◌==◌, if◌then◌else◌, Bool-cases}
use compiled_lua.Common.Word.{bytes32, fits_int8, sign_extend8, sign_extend8-mod, word32-bytes32}
use compiled_lua.CodeBuf.{LcCodeBuf, Emit, ◌>>◌}
use compiled_lua.CodeBuf.Laws.{Emits, append-Emits, seq-Emits, one-Emits}
use compiled_lua.X64.{Gpr, num, is_hi, lo3, mod_rm, append_byte, append_bytes}
use compiled_lua.X64.Int.{
  rex_of, mov_reg_to_reg, arith_rax_reg, sub_rsp_imm, add_rsp_imm, add_reg_imm32,
}
use compiled_lua.X64.Decode.{direct, Inst, decode_body, decode}
use compiled_lua.X64.Fields.{lo3-lt, num_split, mod_rm_lem}
use compiled_lua.X64.Memory.{IsOpcode, decode_rex, decode_rex_escape}
use compiled_lua.X64.Operand.{Encodes}
use native.Mathlib.Nat.{add-zero}

-- A register in the r/m field.
pub decode_body-direct :
    (p rex : ℕ) (esc : Bool) (op reg rm : ℕ) (rest : List ℕ)
    → reg < 8
    → rm < 8
    → decode_body p rex esc (op ∷ mod_rm 3 reg rm ∷ rest)
      ≡ some (
        record {
          prefix = p;
          wide = rex / 8 % 2 == 1;
          escape = esc;
          opcode = op;
          reg = reg + rex / 4 % 2 * 8;
          rm = direct (rm + rex % 2 * 8);
        },
        rest,
      )
unfolding decode_body
decode_body-direct p rex esc op reg rm rest hr hb =
    let m = mod_rm_lem 3 reg rm (omega arith) hr hb in
    let mode : mod_rm 3 reg rm / 64 ≡ 3 = omega arith in
    let field : mod_rm 3 reg rm / 8 % 8 ≡ reg = omega arith in
    let low : mod_rm 3 reg rm % 8 ≡ rm = omega arith in rw (mode, field, low)

-- An instruction between registers `reg` and `rm`.
abbrev pub between : ℕ → Bool → Bool → ℕ → ℕ → Inst
between op wide esc reg rm = record {
  prefix = 0;
  wide = wide;
  escape = esc;
  opcode = op;
  reg = reg;
  rm = direct rm;
}

pub rex_bits :
    (wide reg_hi rm_hi : Bool)
    → let x = rex_of wide reg_hi rm_hi in
      (64 ≤ x)
      × (x < 80)
      × ((x / 8 % 2 == 1) ≡ wide)
      × (x / 4 % 2 * 8 ≡ (if reg_hi then 8 else 0))
      × (x % 2 * 8 ≡ (if rm_hi then 8 else 0))
rex_bits false false false = (omega arith, omega arith, refl, refl, refl)
rex_bits false false true = (omega arith, omega arith, refl, refl, refl)
rex_bits false true false = (omega arith, omega arith, refl, refl, refl)
rex_bits false true true = (omega arith, omega arith, refl, refl, refl)
rex_bits true false false = (omega arith, omega arith, refl, refl, refl)
rex_bits true false true = (omega arith, omega arith, refl, refl, refl)
rex_bits true true false = (omega arith, omega arith, refl, refl, refl)
rex_bits true true true = (omega arith, omega arith, refl, refl, refl)

pub decode_registers :
    (op reg rm : ℕ) (wide reg_hi rm_hi : Bool) (rest : List ℕ)
    → IsOpcode op
    → reg < 8
    → rm < 8
    → decode (rex_of wide reg_hi rm_hi ∷ op ∷ mod_rm 3 reg rm ∷ rest)
      ≡ some (
        between op wide false (reg + (if reg_hi then 8 else 0)) (rm + (if rm_hi then 8 else 0)),
        rest,
      )
decode_registers op reg rm wide reg_hi rm_hi rest plain hr hb =
    let (lo, hi, w, r, b) = rex_bits wide reg_hi rm_hi in
    decode_rex (rex_of wide reg_hi rm_hi) op _ lo hi plain
    ∙ decode_body-direct 0 (rex_of wide reg_hi rm_hi) false op reg rm rest hr hb
    ∙ rw (w, r, b)

-- The same behind the escape byte.
decode_escaped :
    (op reg rm : ℕ) (wide reg_hi rm_hi : Bool) (rest : List ℕ)
    → reg < 8
    → rm < 8
    → decode (rex_of wide reg_hi rm_hi ∷ 0x0f ∷ op ∷ mod_rm 3 reg rm ∷ rest)
      ≡ some (
        between op wide true (reg + (if reg_hi then 8 else 0)) (rm + (if rm_hi then 8 else 0)),
        rest,
      )
decode_escaped op reg rm wide reg_hi rm_hi rest hr hb =
    let (lo, hi, w, r, b) = rex_bits wide reg_hi rm_hi in
    decode_rex_escape (rex_of wide reg_hi rm_hi) (op ∷ mod_rm 3 reg rm ∷ rest) lo hi
    ∙ decode_body-direct 0 (rex_of wide reg_hi rm_hi) true op reg rm rest hr hb
    ∙ rw (w, r, b)

module _ (grants : LcCodeBuf → ℕ → Bool) where
  three_bytes :
      (x y z : ℕ)
      → Emits grants
          (append_byte grants x >> append_byte grants y >> append_byte grants z)
          (x ∷ y ∷ z ∷ [])
  unfolding append_byte
  three_bytes x y z =
      seq-Emits grants (seq-Emits grants (append-Emits grants _) (append-Emits grants _))
        (append-Emits grants _)

  mov_reg_to_reg-Encodes :
      (dst src : Gpr)
      → Encodes grants
          (mov_reg_to_reg grants dst src)
          (between 0x89 true false (num src) (num dst))
          []
  unfolding mov_reg_to_reg
  mov_reg_to_reg-Encodes dst src = (
    rex_of true (is_hi src) (is_hi dst) ∷ 0x89 ∷ mod_rm 3 (lo3 src) (lo3 dst) ∷ [],
    three_bytes _ _ _,
    λ rest.
        rw (num_split, num_split) at
          (decode_registers 0x89 (lo3 src) (lo3 dst) true (is_hi src) (is_hi dst) rest
            (refl, refl, refl) (lo3-lt src) (lo3-lt dst)),
  )

  -- IMUL is the opcode 0xaf behind the escape byte.
  arith_rax_reg-Encodes :
      (op : ℕ) (src : Gpr) (imul : Bool)
      → IsOpcode op
      → (op == 0xaf) ≡ imul
      → Encodes grants (arith_rax_reg grants op src) (between op true imul 0 (num src)) []
  unfolding arith_rax_reg append_byte
  arith_rax_reg-Encodes op src true plain imul = (
    rex_of true false (is_hi src) ∷ 0x0f ∷ op ∷ mod_rm 3 0 (lo3 src) ∷ [],
    rw imul (
        seq-Emits grants
          (seq-Emits grants (seq-Emits grants (append-Emits grants _) (append-Emits grants _))
            (append-Emits grants _))
          (append-Emits grants _)),
    λ rest.
        rw num_split at
          (decode_escaped op 0 (lo3 src) true false (is_hi src) rest (omega arith) (lo3-lt src)),
  )
  arith_rax_reg-Encodes op src false plain other = (
    rex_of true false (is_hi src) ∷ op ∷ mod_rm 3 0 (lo3 src) ∷ [],
    rw other (
        seq-Emits grants
          (seq-Emits grants (seq-Emits grants (append-Emits grants _) (one-Emits grants))
            (append-Emits grants _))
          (append-Emits grants _)),
    λ rest. rw num_split at (
        decode_registers op 0 (lo3 src) true false (is_hi src) rest plain (omega arith)
          (lo3-lt src)),
  )

  add_reg_imm32-Encodes :
      (r : Gpr) (imm : ℕ)
      → Encodes grants
          (add_reg_imm32 grants r imm)
          (between 0x81 true false 0 (num r))
          (bytes32 imm)
  unfolding add_reg_imm32 append_bytes
  add_reg_imm32-Encodes r imm = (
    rex_of true false (is_hi r) ∷ 0x81 ∷ mod_rm 3 0 (lo3 r) ∷ bytes32 imm,
    seq-Emits grants (three_bytes _ _ _) (append-Emits grants _),
    λ rest. rw num_split at (
        decode_registers 0x81 0 (lo3 r) true false (is_hi r) (bytes32 imm ++ rest)
          (refl, refl, refl) (omega arith) (lo3-lt r)),
  )

  -- The two forms of a stack adjustment.
  rsp_form :
      (op ext : ℕ) (imm : List ℕ)
      → IsOpcode op
      → ext < 8
      → Encodes grants
          (append_byte grants (bit_or 0x40 0x08)
            >> (append_byte grants op
                >> append_byte grants (mod_rm 3 ext 4)
                >> append_bytes grants imm))
          (between op true false ext 4)
          imm
  unfolding append_byte append_bytes
  rsp_form op ext imm plain he = (
    0x48 ∷ op ∷ mod_rm 3 ext 4 ∷ imm,
    seq-Emits grants (append-Emits grants _) (
        seq-Emits grants (seq-Emits grants (append-Emits grants _) (append-Emits grants _))
          (append-Emits grants _)),
    λ rest.
        decode_rex 0x48 op _ (omega arith) (omega arith) plain
        ∙ decode_body-direct 0 0x48 false op ext 4 (imm ++ rest) he (omega arith)
        ∙ rw add-zero,
  )

  -- The immediate of an `81` or `83` instruction, extended to 32 bits.
  abbrev pub immediate : ℕ → List ℕ → Option ℕ
  immediate op (i ∷ []) = if op == 0x83 then some (sign_extend8 i) else none
  immediate op (a ∷ b ∷ c ∷ d ∷ []) =
      if op == 0x81 then some (a + 256 * b + 65536 * c + 16777216 * d) else none
  immediate op _ = none

  -- `m` adjusts RSP by `imm` with the opcode extension `ext`, in one of the two forms.
  abbrev pub AdjustsRsp : Emit → ℕ → ℕ → Type 0
  AdjustsRsp m ext imm =
      (op : ℕ) × (bytes : List ℕ) × Encodes grants m (between op true false ext 4) bytes
      × (immediate op bytes ≡ some imm)

  adjust_rsp :
      (ext imm : ℕ)
      → ext < 8
      → imm < 2 ^ 32
      → AdjustsRsp
          (append_byte grants (bit_or 0x40 0x08)
            >> (if fits_int8 imm
                then append_byte grants 0x83
                  >> append_byte grants (mod_rm 3 ext 4)
                  >> append_bytes grants (imm % 256 ∷ [])
                else append_byte grants 0x81
                  >> append_byte grants (mod_rm 3 ext 4)
                  >> append_bytes grants (bytes32 imm)))
          ext
          imm
  adjust_rsp ext imm he hi = elim (Bool-cases (fits_int8 imm)) [
    | inl short ↦ rw short (
      0x83,
      imm % 256 ∷ [],
      rsp_form 0x83 ext _ (refl, refl, refl) he,
      ap some (sign_extend8-mod imm hi short),
    )
    | inr long ↦ rw long (
      0x81,
      bytes32 imm,
      rsp_form 0x81 ext _ (refl, refl, refl) he,
      ap some (word32-bytes32 imm hi),
    )
  ]

  -- For all registers, an opcode that is no prefix, no REX and no escape byte, and an `int32_t`
  -- immediate: the move between registers, the arithmetic on RAX, the addition of an immediate to
  -- a register and the two stack adjustments write bytes that decode to that operation on those
  -- registers, the arithmetic with the escape byte exactly where the opcode is the one of IMUL;
  -- the immediate of a stack adjustment, in whichever of its two forms, extends to the value asked
  -- for.
  pub register_emitters-Encodes :
      (dst src : Gpr) (op imm : ℕ)
      → IsOpcode op
      → imm < 2 ^ 32
      → Encodes grants
          (mov_reg_to_reg grants dst src)
          (between 0x89 true false (num src) (num dst))
          []
        × Encodes grants (arith_rax_reg grants op src) (between op true (op == 0xaf) 0 (num src)) []
        × Encodes grants
            (add_reg_imm32 grants dst imm)
            (between 0x81 true false 0 (num dst))
            (bytes32 imm)
        × AdjustsRsp (sub_rsp_imm grants imm) 5 imm
        × AdjustsRsp (add_rsp_imm grants imm) 0 imm
  unfolding sub_rsp_imm add_rsp_imm
  register_emitters-Encodes dst src op imm plain hi = (
    mov_reg_to_reg-Encodes dst src,
    arith_rax_reg-Encodes op src (op == 0xaf) plain refl,
    add_reg_imm32-Encodes dst imm,
    adjust_rsp 5 imm (omega arith) hi,
    adjust_rsp 0 imm (omega arith) hi,
  )
