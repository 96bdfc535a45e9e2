-- ===== src/X64/Operand.antt =====
-- The integer emitters with a memory operand, against the decoder.
use compiled_lua.Common.{ℕ, ◌+◌, ◌*◌, ◌^◌, ◌/◌, ◌%◌, ◌<◌, bit_or}
use compiled_lua.Common.{◌≡◌, ◌≢◌, refl, ap, ◌∙◌, ◌⊎◌, inl, inr, Bool, true, false, ◌||◌}
use compiled_lua.Common.{some, List, [], ◌∷◌, ◌++◌, append_assoc, arith}
use compiled_lua.Common.{◌==◌, if◌then◌else◌, Bool-cases}
use compiled_lua.Common.Word.{bytes32}
use compiled_lua.CodeBuf.{LcCodeBuf, Emit, refused, ◌>>◌}
use compiled_lua.CodeBuf.Laws.{Emits, append-Emits, seq-Emits, one-Emits, when-Emits, Emits-subst}
use compiled_lua.X64.{Gpr, num, is_hi, lo3, append_byte, append_bytes}
use compiled_lua.X64.Int.{
  disp_bytes, emit_mem_op, mov_mem_to_reg, lea_reg_mem, mov_reg_to_mem, mov_imm32_to_mem,
  cmp_mem32_imm32, cmp_mem8_imm8, test_mem8_imm8, add_mem_to_reg, cmp_mem32_reg, lea_reg_base_index,
}
use compiled_lua.X64.Sse.{disp_list}
use compiled_lua.X64.Decode.{memory, indexed, Inst, finish, decode_body, decode}
use compiled_lua.X64.Fields.{lo3_lem, lo3-lt, num_split, bit_or_fields}
use compiled_lua.X64.Memory.{mem_op_list, IsOpcode, decode_rex, take_rm-indexed, decode-mem_op_list}

module _ (grants : LcCodeBuf → ℕ → Bool) where
  -- `m` writes one instruction that decodes to `inst`, followed by the immediate bytes `imm`.
  abbrev pub Encodes : Emit → Inst → List ℕ → Type 0
  Encodes m inst imm =
      (bs : List ℕ) × Emits grants m bs
      × ((rest : List ℕ) → decode (bs ++ rest) ≡ some (inst, imm ++ rest))

  pub disp_bytes-Emits :
      (mode disp : ℕ) → Emits grants (disp_bytes grants mode disp) (disp_list mode disp)
  unfolding disp_bytes append_bytes
  disp_bytes-Emits mode disp = elim (Bool-cases (mode == 1)) [
    | inl one ↦ rw one (append-Emits grants _)
    | inr other ↦ elim (Bool-cases (mode == 2)) [
      | inl two ↦ rw (other, two) (append-Emits grants _)
      | inr zero_mode ↦ rw (other, zero_mode) (one-Emits grants)
    ]
  ]

  pub emit_mem_op-Emits :
      (opcode reg : ℕ) (reg_hi : Bool) (base : Gpr) (disp : ℕ) (use_w : Bool)
      → Emits grants
          (emit_mem_op grants opcode reg reg_hi base disp use_w)
          (mem_op_list opcode reg reg_hi base disp use_w)
  unfolding emit_mem_op append_byte
  emit_mem_op-Emits opcode reg reg_hi base disp use_w = Emits-subst grants (simp append_assoc) (
      seq-Emits grants
        (seq-Emits grants
          (seq-Emits grants
            (seq-Emits grants (when-Emits grants _ (append-Emits grants _)) (append-Emits grants _))
            (append-Emits grants _))
          (when-Emits grants _ (append-Emits grants _)))
        (disp_bytes-Emits _ _))

  -- An instruction with opcode `op`, a register or an opcode extension, and [base + disp].
  abbrev pub operand : ℕ → Bool → ℕ → Gpr → ℕ → Inst
  operand op wide reg base disp = record {
    prefix = 0;
    wide = wide;
    escape = false;
    opcode = op;
    reg = reg;
    rm = memory (num base) disp;
  }

  emit_mem_op-Encodes :
      (op reg : ℕ) (reg_hi : Bool) (base : Gpr) (disp : ℕ) (wide : Bool)
      → IsOpcode op
      → reg < 8
      → disp < 2 ^ 32
      → Encodes
          (emit_mem_op grants op reg reg_hi base disp wide)
          (operand op wide (reg + (if reg_hi then 8 else 0)) base disp)
          []
  emit_mem_op-Encodes op reg reg_hi base disp wide plain hr hd = (
    mem_op_list op reg reg_hi base disp wide,
    emit_mem_op-Emits op reg reg_hi base disp wide,
    λ rest. decode-mem_op_list op reg reg_hi base disp wide rest plain hr hd,
  )

  with_imm :
      {m : Emit} {i : Inst} (imm : List ℕ)
      → Encodes m i []
      → Encodes (m >> append_bytes grants imm) i imm
  unfolding append_bytes
  with_imm imm (bs, emits, back) = (
    bs ++ imm,
    seq-Emits grants emits (append-Emits grants imm),
    λ rest. rw append_assoc (back (imm ++ rest)),
  )

  reg_operand :
      (op : ℕ) (r base : Gpr) (disp : ℕ) (wide : Bool)
      → IsOpcode op
      → disp < 2 ^ 32
      → Encodes
          (emit_mem_op grants op (lo3 r) (is_hi r) base disp wide)
          (operand op wide (num r) base disp)
          []
  reg_operand op r base disp wide plain hd =
      rw num_split at (emit_mem_op-Encodes op (lo3 r) (is_hi r) base disp wide plain (lo3-lt r) hd)

  -- The registers that a SIB byte without REX bits and displacement can name.
  abbrev pub Indexable : Gpr → Gpr → Gpr → Type 0
  Indexable dst base index =
      (num dst < 8) × (num base < 8) × (num index < 8) × (num base ≢ 5) × (num index ≢ 4)

  -- An address of `base` and `index`, loaded into `dst`.
  abbrev pub address : Gpr → Gpr → Gpr → Inst
  address dst base index = record {
    prefix = 0;
    wide = true;
    escape = false;
    opcode = 0x8d;
    reg = num dst;
    rm = indexed (num base) (num index) 0 0;
  }

  decode-address :
      (m s : ℕ) (dst base index : Gpr) (rest : List ℕ)
      → Indexable dst base index
      → m ≡ num dst * 8 + 4
      → s ≡ num index * 8 + num base
      → decode (0x48 ∷ 0x8d ∷ m ∷ s ∷ rest) ≡ some (address dst base index, rest)
  unfolding decode_body
  decode-address m s dst base index rest (hd, hb, hi, nb, ni) em es =
      let field : m / 8 % 8 + 0 ≡ num dst = omega arith in
      decode_rex 0x48 0x8d (m ∷ s ∷ rest) (omega arith) (omega arith) (refl, refl, refl)
      ∙ ap (finish 0 0x48 false 0x8d m) (
          take_rm-indexed m s (num base) (num index) rest (omega arith) (omega arith) (omega arith)
            (omega arith) (omega arith) nb ni)
      ∙ rw field

  lea_reg_base_index-Encodes :
      (dst base index : Gpr)
      → (Indexable dst base index
          × Encodes (lea_reg_base_index grants dst base index) (address dst base index) [])
        ⊎ ((¬ Indexable dst base index)
            × ((b : LcCodeBuf) → lea_reg_base_index grants dst base index b ≡ refused b))
  unfolding lea_reg_base_index is_hi append_bytes
  lea_reg_base_index-Encodes dst base index =
      let ld = lo3_lem dst in
      let lb = lo3_lem base in
      let li = lo3_lem index in
      elim (Bool-cases (is_hi dst || is_hi base || is_hi index)) [
        | inl high ↦ inr (λ (d, b, i, nb, ni). ground arith, λ b. rw high)
        | inr low ↦ elim (Bool-cases (lo3 base == 5)) [
          | inl rbp ↦ inr (λ (d, b, i, nb, ni). ground arith, λ b. rw (low, rbp))
          | inr nb ↦ elim (Bool-cases (lo3 index == 4)) [
            | inl rsp ↦ inr (λ (d, b, i, nb, ni). ground arith, λ b. rw (low, nb, rsp))
            | inr ni ↦
                let ok : Indexable dst base index =
                  (ground arith, ground arith, ground arith, ground arith, ground arith) in
                let there : Encodes (lea_reg_base_index grants dst base index)
                    (address dst base index) [] =
                  (
                    0x48
                        ∷ 0x8d
                        ∷ bit_or (bit_or (0 * 64) (lo3 dst * 8)) 4
                        ∷ bit_or (bit_or (0 * 64) (lo3 index * 8)) (lo3 base)
                        ∷ [],
                    rw (low, nb, ni) (append-Emits grants _),
                    λ rest.
                        decode-address _ _ dst base index rest ok
                          (bit_or_fields 0 (lo3 dst) 4 (omega arith) (lo3-lt dst) (omega arith)
                            ∙ omega (arith, ok))
                          (bit_or_fields 0 (lo3 index) (lo3 base) (omega arith) (lo3-lt index)
                              (lo3-lt base)
                            ∙ omega (arith, ok)),
                  ) in
                inl (ok, there)
          ]
        ]
      ]

  -- For all registers and every 32-bit displacement: the nine integer emitters with a memory
  -- operand of a base and a displacement write bytes that an independent decoder reads as the
  -- instruction asked for: the opcode, the width, the register or opcode extension, the base and
  -- the displacement, then the immediate. The load of the address of a base and an index does so
  -- where all registers are below 8, the base is not RBP and the index is not RSP, and otherwise
  -- returns 0 and writes nothing.
  pub memory_emitters-Encodes :
      (r base index : Gpr) (disp imm imm8 : ℕ)
      → disp < 2 ^ 32
      → Encodes (mov_mem_to_reg grants r base disp) (operand 0x8b true (num r) base disp) []
        × Encodes (lea_reg_mem grants r base disp) (operand 0x8d true (num r) base disp) []
        × Encodes (mov_reg_to_mem grants base disp r) (operand 0x89 true (num r) base disp) []
        × Encodes (add_mem_to_reg grants r base disp) (operand 0x03 true (num r) base disp) []
        × Encodes (cmp_mem32_reg grants base disp r) (operand 0x39 false (num r) base disp) []
        × Encodes
            (mov_imm32_to_mem grants base disp imm)
            (operand 0xc7 false 0 base disp)
            (bytes32 imm)
        × Encodes
            (cmp_mem32_imm32 grants base disp imm)
            (operand 0x81 false 7 base disp)
            (bytes32 imm)
        × Encodes (cmp_mem8_imm8 grants base disp imm8) (operand 0x80 false 7 base disp) (imm8 ∷ [])
        × Encodes
            (test_mem8_imm8 grants base disp imm8)
            (operand 0xf6 false 0 base disp)
            (imm8 ∷ [])
        × ((Indexable r base index
              × Encodes (lea_reg_base_index grants r base index) (address r base index) [])
            ⊎ ((¬ Indexable r base index)
                × ((b : LcCodeBuf) → lea_reg_base_index grants r base index b ≡ refused b)))
  unfolding mov_mem_to_reg lea_reg_mem mov_reg_to_mem add_mem_to_reg cmp_mem32_reg mov_imm32_to_mem
      cmp_mem32_imm32 cmp_mem8_imm8 test_mem8_imm8
  memory_emitters-Encodes r base index disp imm imm8 hd = (
    reg_operand 0x8b r base disp true (refl, refl, refl) hd,
    reg_operand 0x8d r base disp true (refl, refl, refl) hd,
    reg_operand 0x89 r base disp true (refl, refl, refl) hd,
    reg_operand 0x03 r base disp true (refl, refl, refl) hd,
    reg_operand 0x39 r base disp false (refl, refl, refl) hd,
    with_imm _
        (emit_mem_op-Encodes 0xc7 0 false base disp false (refl, refl, refl) (omega arith) hd),
    with_imm _
        (emit_mem_op-Encodes 0x81 7 false base disp false (refl, refl, refl) (omega arith) hd),
    with_imm _
        (emit_mem_op-Encodes 0x80 7 false base disp false (refl, refl, refl) (omega arith) hd),
    with_imm _
        (emit_mem_op-Encodes 0xf6 0 false base disp false (refl, refl, refl) (omega arith) hd),
    lea_reg_base_index-Encodes r base index,
  )
