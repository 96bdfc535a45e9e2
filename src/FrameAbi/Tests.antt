-- ===== src/FrameAbi/Tests.antt =====
-- Concrete runs for clua/src/common/rt_frame_abi.h.
use compiled_lua.Common.{ℕ, ◌-◌, ◌^◌, ◌<◌}
use compiled_lua.Common.{◌≡◌, refl, false}
use compiled_lua.FrameAbi.{fits, flag, pack, field_a, field_b, field_c, field_k}
use compiled_lua.FrameAbi.RoundTrip.{pack_round_trip}

-- The largest operands, with the flag.
abbrev word : ℕ
word = pack 1023 1023 1023 7

word_value : word ≡ 2 ^ 31 - 1
unfolding pack flag
word_value = refl

fits-wide : fits 1024 0 0 ≡ false
unfolding fits
fits-wide = refl

pack_round_trip_example :
    (field_a word ≡ 1023)
    × (field_b word ≡ 1023)
    × (field_c word ≡ 1023)
    × (field_k word ≡ flag 7)
    × (word < 2 ^ 31)
unfolding fits
pack_round_trip_example = pack_round_trip 1023 1023 1023 7 refl
