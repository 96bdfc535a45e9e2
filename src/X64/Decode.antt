-- ===== src/X64/Decode.antt =====
-- An x86-64 instruction decoder, written from the instruction format alone: legacy prefix, REX,
-- escape byte, opcode, ModR/M, SIB, displacement. It is the independent description against
-- which the encoder is proved; immediates are left to the caller.
use compiled_lua.Common.{ℕ, zero, suc, ◌+◌, ◌*◌, ◌/◌, ◌%◌}
use compiled_lua.Common.{Bool, true, false, ◌&&◌, ◌||◌}
use compiled_lua.Common.{Option, none, some, List, [], ◌∷◌}
use compiled_lua.Common.{ltb, leb, ◌==◌, if◌then◌else◌}
use compiled_lua.Common.Word.{word32, sign_extend8}

-- Displacements and immediates are patterns of 32 bits.
pub data Rm : Type 0 where
  direct : ℕ → Rm
  memory : ℕ → ℕ → Rm
  indexed : ℕ → ℕ → ℕ → ℕ → Rm
  no_base : ℕ → ℕ → ℕ → Rm
  rip : ℕ → Rm

pub record Inst : Type 0 where
  pub prefix : ℕ
  pub wide : Bool
  pub escape : Bool
  pub opcode : ℕ
  pub reg : ℕ
  pub rm : Rm

abbrev pub is_prefix : ℕ → Bool
is_prefix b = b == 0x66 || b == 0xf2 || b == 0xf3

abbrev pub is_rex : ℕ → Bool
is_rex b = leb 0x40 b && ltb b 0x50

unfoldable pub take_prefix : List ℕ → ℕ × List ℕ
take_prefix [] = (0, [])
take_prefix (b ∷ bs) = if is_prefix b then (b, bs) else (0, b ∷ bs)

unfoldable pub take_rex : List ℕ → ℕ × List ℕ
take_rex [] = (0x40, [])
take_rex (b ∷ bs) = if is_rex b then (b, bs) else (0x40, b ∷ bs)

unfoldable pub take_escape : List ℕ → Bool × List ℕ
take_escape [] = (false, [])
take_escape (b ∷ bs) = if b == 0x0f then (true, bs) else (false, b ∷ bs)

-- The displacement that mode `mode` announces.
unfoldable pub take_disp : ℕ → List ℕ → Option (ℕ × List ℕ)
take_disp zero bs = some (0, bs)
take_disp (suc zero) (d ∷ bs) = some (sign_extend8 d, bs)
take_disp (suc (suc zero)) (a ∷ b ∷ c ∷ d ∷ bs) = some (word32 a b c d, bs)
take_disp _ _ = none

abbrev pub with_disp : (ℕ → Rm) → Option (ℕ × List ℕ) → Option (Rm × List ℕ)
with_disp f none = none
with_disp f (some (d, bs)) = some (f d, bs)

-- A SIB byte: index 4 with no REX.X is no index, base 5 under mode 0 is no base.
unfoldable pub take_sib : ℕ → ℕ → List ℕ → Option (Rm × List ℕ)
unfolding take_disp
take_sib mode rex [] = none
take_sib mode rex (s ∷ bs) =
    let index = s / 8 % 8 + rex / 2 % 2 * 8 in
    let base = s % 8 + rex % 2 * 8 in
    if mode == 0 && s % 8 == 5
    then with_disp (no_base index (s / 64)) (take_disp 2 bs)
    else if index == 4
    then with_disp (memory base) (take_disp mode bs)
    else with_disp (indexed base index (s / 64)) (take_disp mode bs)

unfoldable pub take_rm : ℕ → ℕ → List ℕ → Option (Rm × List ℕ)
unfolding take_sib
take_rm m rex bs =
    let low = m % 8 in
    let number = m % 8 + rex % 2 * 8 in
    if m / 64 == 3
    then some (direct number, bs)
    else if low == 4
    then take_sib (m / 64) rex bs
    else if m / 64 == 0 && low == 5
    then with_disp rip (take_disp 2 bs)
    else with_disp (memory number) (take_disp (m / 64) bs)

abbrev pub finish : ℕ → ℕ → Bool → ℕ → ℕ → Option (Rm × List ℕ) → Option (Inst × List ℕ)
finish p rex esc op m none = none
finish p rex esc op m (some (operand, bs)) = some (
  record {
    prefix = p;
    wide = rex / 8 % 2 == 1;
    escape = esc;
    opcode = op;
    reg = m / 8 % 8 + rex / 4 % 2 * 8;
    rm = operand;
  },
  bs,
)

unfoldable pub decode_body : ℕ → ℕ → Bool → List ℕ → Option (Inst × List ℕ)
unfolding take_rm
decode_body p rex esc (op ∷ m ∷ bs) = finish p rex esc op m (take_rm m rex bs)
decode_body p rex esc _ = none

-- An instruction with a ModR/M byte, and what follows it.
unfoldable pub decode : List ℕ → Option (Inst × List ℕ)
unfolding take_prefix take_rex take_escape decode_body
decode bs =
    let (p, bs₁) = take_prefix bs in
    let (rex, bs₂) = take_rex bs₁ in let (esc, bs₃) = take_escape bs₂ in decode_body p rex esc bs₃

-- An instruction that has its register in the opcode: REX.W, the opcode without it, the register.
pub record Short : Type 0 where
  pub wide : Bool
  pub opcode : ℕ
  pub reg : ℕ

unfoldable pub decode_short : List ℕ → Option (Short × List ℕ)
unfolding take_rex
decode_short bs =
    let (rex, rest) = take_rex bs in
    elim rest [
      | [] ↦ none
      | op ∷ more ↦ some (
        record { wide = rex / 8 % 2 == 1; opcode = op / 8 * 8; reg = op % 8 + rex % 2 * 8 },
        more,
      )
    ]
