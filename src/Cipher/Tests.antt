-- ===== src/Cipher/Tests.antt =====
-- Concrete runs for clua/src/common/stream_cipher.h.
use compiled_lua.Common.{ℕ, ◌<◌, bit_xor}
use compiled_lua.Common.{◌≡◌, refl}
use compiled_lua.Common.{List, [], ◌∷◌}
use compiled_lua.Common.{length, get_or}
use compiled_lua.Cipher.{split_mix64, apply_rounds, apply}
use compiled_lua.Cipher.Keystream.{keystream, apply-keystream, apply_twice}

abbrev key : List ℕ
key = 1 ∷ 2 ∷ 3 ∷ 4 ∷ []

-- A round and two bytes more.
abbrev buf : List ℕ
buf = 27 ∷ 76 ∷ 117 ∷ 97 ∷ 84 ∷ 0 ∷ 25 ∷ 147 ∷ 13 ∷ 10 ∷ []

-- The first output of SplitMix64 from the state 0.
split_mix64-zero : (split_mix64 0).0 ≡ 0xE220_A839_7B1D_CDAF
unfolding split_mix64
split_mix64-zero = refl

apply-empty : apply key [] ≡ []
unfolding apply apply_rounds
apply-empty = refl

apply-keystream_example :
    (length (apply key buf) ≡ length buf)
    × ((i : ℕ)
        → i < length buf
        → get_or (apply key buf) i 0 ≡ bit_xor (get_or buf i 0) (keystream key i))
apply-keystream_example = apply-keystream key buf

apply_twice_example : apply key (apply key buf) ≡ buf
apply_twice_example = apply_twice key buf
