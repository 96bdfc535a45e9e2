-- ===== src/Cipher.antt =====
-- The stream cipher of the embedded payloads: clua/src/common/stream_cipher.h.
use compiled_lua.Common.{ℕ, suc, ◌+◌, ◌*◌, ◌/◌, ◌%◌, ◌^◌, bit_xor}
use compiled_lua.Common.{List, [], ◌∷◌}
pub mod Keystream
mod Tests
use compiled_lua.Common.Memory.{read32}

-- STREAM_STATE_T
pub record StreamState : Type 0 where
  pub s0 : ℕ
  pub s1 : ℕ
  pub s2 : ℕ
  pub s3 : ℕ

-- `StreamCipher_SplitMix64`: the value, and what `*X` becomes.
unfoldable pub split_mix64 : ℕ → ℕ × ℕ
split_mix64 x =
    let x' = (x + 0x9E37_79B9_7F4A_7C15) % 2 ^ 64 in
    let z = bit_xor x' (x' / 2 ^ 30) * 0xBF58_476D_1CE4_E5B9 % 2 ^ 64 in
    let z' = bit_xor z (z / 2 ^ 27) * 0x94D0_49BB_1331_11EB % 2 ^ 64 in
    (bit_xor z' (z' / 2 ^ 31), x')

-- A 64-bit word of the key, the low byte first.
abbrev read64 : List ℕ → ℕ → ℕ
read64 m i = read32 m i + 2 ^ 32 * read32 m (i + 4)

-- `StreamCipher_Init`
unfoldable pub init : List ℕ → StreamState
init key = record { s0 = read64 key 0; s1 = read64 key 8; s2 = read64 key 16; s3 = read64 key 24 }

-- `StreamCipher_NextU64`
unfoldable pub next_u64 : StreamState → ℕ × StreamState
next_u64 s =
    let a = split_mix64 s.s0 in
    let b = split_mix64 s.s1 in
    let c = split_mix64 s.s2 in
    let d = split_mix64 s.s3 in
    (bit_xor (bit_xor (bit_xor a.0 b.0) c.0) d.0, record { s0 = a.1; s1 = b.1; s2 = c.1; s3 = d.1 })

-- `( uint8_t )( K >> ( J * 8 ) )`
unfoldable pub key_byte : ℕ → ℕ → ℕ
key_byte k j = k / 2 ^ (j * 8) % 256

-- The loop over the last bytes, from the J-th of the round.
unfoldable pub apply_tail : ℕ → ℕ → List ℕ → List ℕ
apply_tail k j [] = []
apply_tail k j (b ∷ bs) = bit_xor b (key_byte k j) ∷ apply_tail k (suc j) bs

-- The loops of `StreamCipher_Apply`: rounds of eight bytes while there are eight, then the tail.
unfoldable pub apply_rounds : StreamState → List ℕ → List ℕ
apply_rounds s (b0 ∷ b1 ∷ b2 ∷ b3 ∷ b4 ∷ b5 ∷ b6 ∷ b7 ∷ bs) =
    let r = next_u64 s in
    bit_xor b0 (key_byte r.0 0)
    ∷ bit_xor b1 (key_byte r.0 1)
    ∷ bit_xor b2 (key_byte r.0 2)
    ∷ bit_xor b3 (key_byte r.0 3)
    ∷ bit_xor b4 (key_byte r.0 4)
    ∷ bit_xor b5 (key_byte r.0 5)
    ∷ bit_xor b6 (key_byte r.0 6)
    ∷ bit_xor b7 (key_byte r.0 7)
    ∷ apply_rounds r.1 bs
apply_rounds s [] = []
apply_rounds s (b ∷ bs) = apply_tail (next_u64 s).0 0 (b ∷ bs)

-- `StreamCipher_Apply`
unfoldable pub apply : List ℕ → List ℕ → List ℕ
apply key buf = apply_rounds (init key) buf
