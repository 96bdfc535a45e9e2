-- ===== src/X64/Memory.antt =====
-- clua/src/codegen/x64_emit.c, `EmitMemOp`: the memory operand [base + disp], against the decoder.
use compiled_lua.Common.{ℕ, ◌+◌, ◌*◌, ◌/◌, ◌%◌, ◌^◌, ◌≤◌, ◌<◌, bit_or}
use compiled_lua.Common.{◌≡◌, refl, ◌∙◌, ◌≢◌, Bool, true, false, ◌||◌}
use compiled_lua.Common.{some, List, [], ◌∷◌, ◌++◌, append_assoc, arith}
use compiled_lua.Common.{◌==◌, if◌then◌else◌}
use compiled_lua.Common.{ℕ_discrete}
use compiled_lua.Common.Word.{word32-bytes32, sign_extend8-mod}
use compiled_lua.X64.{Gpr, num, is_hi, lo3, mod_rm}
use compiled_lua.X64.Int.{rex_of, disp_mode}
use compiled_lua.X64.Sse.{disp_list}
use compiled_lua.X64.Decode.{
  memory, indexed, is_prefix, is_rex, take_disp, take_sib, take_rm, decode_body, decode,
}
use compiled_lua.X64.Fields.{lo3_lem, lo3-lt, hi_bit_lem, mod_rm_lem}

-- The displacement comes back from its bytes, under each mode that `disp_mode` picks.
take_disp-disp_list :
    (base : Gpr) (disp : ℕ) (rest : List ℕ)
    → disp < 2 ^ 32
    → take_disp (disp_mode base disp) (disp_list (disp_mode base disp) disp ++ rest)
      ≡ some (disp, rest)
unfolding disp_mode take_disp
take_disp-disp_list base disp rest h =
    ground (arith, sign_extend8-mod disp h, word32-bytes32 disp h)

abbrev sib_list : Gpr → List ℕ
sib_list base = if lo3 base == 4 then bit_or (4 * 8) (lo3 base) ∷ [] else []

-- ModR/M, SIB and displacement of [base + disp], with `reg` in the reg field.
abbrev pub mem_list : ℕ → Gpr → ℕ → List ℕ
mem_list reg base disp =
    mod_rm (disp_mode base disp) reg (lo3 base)
    ∷ (sib_list base ++ disp_list (disp_mode base disp) disp)

disp_mode-lt : (base : Gpr) (disp : ℕ) → disp_mode base disp < 3
unfolding disp_mode
disp_mode-lt base disp = ground arith

-- Mode 0 is not chosen for the bases under which it means something else.
disp_mode_rip : (base : Gpr) (disp : ℕ) → lo3 base ≡ 5 → disp_mode base disp ≢ 0
unfolding disp_mode
disp_mode_rip base disp h = ground arith

take_rm_plain :
    (m mode low rex disp number : ℕ) (tail rest : List ℕ)
    → m / 64 ≡ mode
    → m % 8 ≡ low
    → mode < 3
    → low ≢ 4
    → (low ≡ 5 → mode ≢ 0)
    → low + rex % 2 * 8 ≡ number
    → take_disp mode tail ≡ some (disp, rest)
    → take_rm m rex tail ≡ some (memory number disp, rest)
unfolding take_rm
take_rm_plain m mode low rex disp number tail rest hm hl lt nsib nrip hn e = ground arith

take_rm_sib :
    (m mode rex disp number : ℕ) (tail rest : List ℕ)
    → m / 64 ≡ mode
    → m % 8 ≡ 4
    → mode < 3
    → rex / 2 % 2 ≡ 0
    → 4 + rex % 2 * 8 ≡ number
    → take_disp mode tail ≡ some (disp, rest)
    → take_rm m rex (0x24 ∷ tail) ≡ some (memory number disp, rest)
unfolding take_rm
take_rm_sib m mode rex disp number tail rest hm hl lt hx hn e = ground arith

take_rm_any :
    (m mode low rex disp number : ℕ) (tail rest : List ℕ)
    → m / 64 ≡ mode
    → m % 8 ≡ low
    → mode < 3
    → (low ≡ 5 → mode ≢ 0)
    → rex / 2 % 2 ≡ 0
    → low + rex % 2 * 8 ≡ number
    → take_disp mode tail ≡ some (disp, rest)
    → take_rm m rex ((if low == 4 then bit_or (4 * 8) low ∷ [] else []) ++ tail)
      ≡ some (memory number disp, rest)
take_rm_any m mode low rex disp number tail rest hm hl lt nrip hx hn e = elim (ℕ_discrete low 4) [
  | yes four ↦
      rw four (take_rm_sib m mode rex disp number tail rest hm (hl ∙ four) lt hx (omega arith) e)
  | no other ↦
      let plain : (low == 4) ≡ false = ground arith in
      rw plain (take_rm_plain m mode low rex disp number tail rest hm hl lt other nrip hn e)
]

pub take_rm-mem_list :
    (reg : ℕ) (base : Gpr) (disp rex : ℕ) (rest : List ℕ)
    → reg < 8
    → disp < 2 ^ 32
    → rex % 2 ≡ num base / 8
    → rex / 2 % 2 ≡ 0
    → take_rm
        (mod_rm (disp_mode base disp) reg (lo3 base))
        rex
        (sib_list base ++ (disp_list (disp_mode base disp) disp ++ rest))
      ≡ some (memory (num base) disp, rest)
take_rm-mem_list reg base disp rex rest hr hd hb hx =
    let mode_lt = disp_mode-lt base disp in
    let low = lo3_lem base in
    let m = mod_rm_lem (disp_mode base disp) reg (lo3 base) (omega arith) hr (lo3-lt base) in
    let low_lt = lo3-lt base in
    take_rm_any _ (disp_mode base disp) (lo3 base) rex disp (num base) _ rest (omega arith)
      (omega arith) mode_lt (disp_mode_rip base disp) hx (omega arith)
      (take_disp-disp_list base disp rest hd)

-- The bytes that `EmitMemOp` writes.
abbrev pub mem_op_list : ℕ → ℕ → Bool → Gpr → ℕ → Bool → List ℕ
mem_op_list opcode reg reg_hi base disp use_w =
    (if use_w || reg_hi || is_hi base then rex_of use_w reg_hi (is_hi base) ∷ [] else [])
    ++ (opcode ∷ mem_list reg base disp)

-- An opcode that is no prefix, no REX and no escape byte.
abbrev pub IsOpcode : ℕ → Type 0
IsOpcode op = (is_prefix op ≡ false) × (is_rex op ≡ false) × ((op == 0x0f) ≡ false)

decode_body-mem_list :
    (p rex : ℕ) (esc : Bool) (op reg : ℕ) (base : Gpr) (disp : ℕ) (rest : List ℕ)
    → reg < 8
    → disp < 2 ^ 32
    → rex % 2 ≡ num base / 8
    → rex / 2 % 2 ≡ 0
    → decode_body p rex esc (op ∷ (mem_list reg base disp ++ rest))
      ≡ some (
        record {
          prefix = p;
          wide = rex / 8 % 2 == 1;
          escape = esc;
          opcode = op;
          reg = reg + rex / 4 % 2 * 8;
          rm = memory (num base) disp;
        },
        rest,
      )
unfolding decode_body
decode_body-mem_list p rex esc op reg base disp rest hr hd hb hx =
    let mode_lt = disp_mode-lt base disp in
    let m = mod_rm_lem (disp_mode base disp) reg (lo3 base) (omega arith) hr (lo3-lt base) in
    let low_lt = lo3-lt base in
    let field : mod_rm (disp_mode base disp) reg (lo3 base) / 8 % 8 ≡ reg = omega arith in
    rw (append_assoc, take_rm-mem_list reg base disp rex rest hr hd hb hx, field)

pub decode_bare :
    (op : ℕ) (tail : List ℕ)
    → IsOpcode op
    → decode (op ∷ tail) ≡ decode_body 0 0x40 false (op ∷ tail)
unfolding decode
decode_bare op tail (np, nr, ne) = rw (np, nr, ne)

pub decode_rex :
    (rex op : ℕ) (tail : List ℕ)
    → 64 ≤ rex
    → rex < 80
    → IsOpcode op
    → decode (rex ∷ op ∷ tail) ≡ decode_body 0 rex false (op ∷ tail)
unfolding decode
decode_rex rex op tail lo hi (np, nr, ne) =
    let p : is_prefix rex ≡ false = ground arith in
    let r : is_rex rex ≡ true = ground arith in rw (p, r, ne)

pub decode_rex_escape :
    (rex : ℕ) (tail : List ℕ)
    → 64 ≤ rex
    → rex < 80
    → decode (rex ∷ 0x0f ∷ tail) ≡ decode_body 0 rex true tail
unfolding decode
decode_rex_escape rex tail lo hi =
    let p : is_prefix rex ≡ false = ground arith in
    let r : is_rex rex ≡ true = ground arith in rw (p, r)

-- A SIB byte with an index and a base, no displacement, and registers below 8.
pub take_rm-indexed :
    (m s base index : ℕ) (rest : List ℕ)
    → m / 64 ≡ 0
    → m % 8 ≡ 4
    → s / 64 ≡ 0
    → s / 8 % 8 ≡ index
    → s % 8 ≡ base
    → base ≢ 5
    → index ≢ 4
    → take_rm m 0x48 (s ∷ rest) ≡ some (indexed base index 0 0, rest)
unfolding take_rm take_sib take_disp
take_rm-indexed m s base index rest mode low scale hi hb nb ni = ground arith

-- With and without REX; `rm_hi` is `IsHi( Base )`.
decode_front_cases :
    (opcode reg : ℕ) (reg_hi : Bool) (base : Gpr) (disp : ℕ) (use_w rm_hi : Bool) (rest : List ℕ)
    → IsOpcode opcode
    → reg < 8
    → disp < 2 ^ 32
    → (if rm_hi then 1 else 0) ≡ num base / 8
    → decode (
        ((if use_w || reg_hi || rm_hi then rex_of use_w reg_hi rm_hi ∷ [] else [])
          ++ (opcode ∷ mem_list reg base disp))
        ++ rest)
      ≡ some (
        record {
          prefix = 0;
          wide = use_w;
          escape = false;
          opcode = opcode;
          reg = reg + (if reg_hi then 8 else 0);
          rm = memory (num base) disp;
        },
        rest,
      )
decode_front_cases opcode reg false base disp false false rest op hr hd hi =
    decode_bare opcode _ op
    ∙ decode_body-mem_list 0 0x40 false opcode reg base disp rest hr hd hi refl
decode_front_cases opcode reg false base disp false true rest op hr hd hi =
    decode_rex 0x41 opcode _ (omega arith) (omega arith) op
    ∙ decode_body-mem_list 0 0x41 false opcode reg base disp rest hr hd hi refl
decode_front_cases opcode reg true base disp false false rest op hr hd hi =
    decode_rex 0x44 opcode _ (omega arith) (omega arith) op
    ∙ decode_body-mem_list 0 0x44 false opcode reg base disp rest hr hd hi refl
decode_front_cases opcode reg true base disp false true rest op hr hd hi =
    decode_rex 0x45 opcode _ (omega arith) (omega arith) op
    ∙ decode_body-mem_list 0 0x45 false opcode reg base disp rest hr hd hi refl
decode_front_cases opcode reg false base disp true false rest op hr hd hi =
    decode_rex 0x48 opcode _ (omega arith) (omega arith) op
    ∙ decode_body-mem_list 0 0x48 false opcode reg base disp rest hr hd hi refl
decode_front_cases opcode reg false base disp true true rest op hr hd hi =
    decode_rex 0x49 opcode _ (omega arith) (omega arith) op
    ∙ decode_body-mem_list 0 0x49 false opcode reg base disp rest hr hd hi refl
decode_front_cases opcode reg true base disp true false rest op hr hd hi =
    decode_rex 0x4c opcode _ (omega arith) (omega arith) op
    ∙ decode_body-mem_list 0 0x4c false opcode reg base disp rest hr hd hi refl
decode_front_cases opcode reg true base disp true true rest op hr hd hi =
    decode_rex 0x4d opcode _ (omega arith) (omega arith) op
    ∙ decode_body-mem_list 0 0x4d false opcode reg base disp rest hr hd hi refl

-- The bytes of `EmitMemOp` decode to its opcode, its reg field with the REX.R bit, and the memory
-- operand [base + disp], whatever follows them.
pub decode-mem_op_list :
    (opcode reg : ℕ) (reg_hi : Bool) (base : Gpr) (disp : ℕ) (use_w : Bool) (rest : List ℕ)
    → IsOpcode opcode
    → reg < 8
    → disp < 2 ^ 32
    → decode (mem_op_list opcode reg reg_hi base disp use_w ++ rest)
      ≡ some (
        record {
          prefix = 0;
          wide = use_w;
          escape = false;
          opcode = opcode;
          reg = reg + (if reg_hi then 8 else 0);
          rm = memory (num base) disp;
        },
        rest,
      )
unfolding decode
decode-mem_op_list opcode reg reg_hi base disp use_w rest op hr hd =
    decode_front_cases opcode reg reg_hi base disp use_w (is_hi base) rest op hr hd
      (hi_bit_lem base)
