-- ===== src/Blob/Tests.antt =====
-- Runs of the blob.
use compiled_lua.Common.{ℕ, zero, suc, ◌+◌, ◌*◌, ◌^◌, ◌≤◌, ◌<◌}
use compiled_lua.Common.{◌≡◌, refl, ap, Bool, true}
use compiled_lua.Common.{none, some, List, [], ◌∷◌, ◌++◌, arith}
use compiled_lua.Common.{length, get_elem?, replicate}
use mathlib.Core.Option
use compiled_lua.Common.Name.{Name, codes}
use compiled_lua.Blob.{
  Module, Reader, total_size, name_pool, payload_sum, all_named, blob_build, image, header, table,
  names, payloads, blob_reader_open, blob_reader_find, blob_reader_get_entry, header_size,
  entry_size,
}
use compiled_lua.Blob.Reading.{contents, first_named}
use compiled_lua.Blob.RoundTrip.{blob_round_trip, blob_build-too_large}
use compiled_lua.Blob.Bounds.{Inside, blob_reader_bounds}

abbrev always : ℕ → Bool
always n = true

abbrev two_modules : List Module
two_modules =
    record { name = codes "main"; bytes = 1 ∷ 2 ∷ [] }
    ∷ record { name = codes "m"; bytes = 3 ∷ [] }
    ∷ []

total_size_test : total_size two_modules ≡ 98
unfolding total_size name_pool payload_sum
total_size_test = refl

blob_round_trip_example :
    (blob : List ℕ) × (r : Reader) × (blob_build always two_modules 0 ≡ some blob)
    × (blob_reader_open blob ≡ some r)
    × ((name : Name) → contents r (blob_reader_find r name) ≡ some (first_named two_modules name))
    × (contents r (blob_reader_get_entry r)
        ≡ some (Option.map (λ m. m.bytes) (get_elem? two_modules 0)))
unfolding total_size name_pool payload_sum all_named
blob_round_trip_example =
    blob_round_trip always two_modules 0 refl refl (omega arith) (omega arith) (omega arith)

-- Shut, so that 4 GiB of them are never written out.
zeros : ℕ → List ℕ
zeros zero = []
zeros (suc n) = 0 ∷ zeros n

length-zeros : (n : ℕ) → length (zeros n) ≡ n
unfolding zeros
length-zeros zero = refl
length-zeros (suc n) = ap suc (length-zeros n)

abbrev huge : Module
huge = record { name = codes "a"; bytes = zeros (2 ^ 32) }

huge_named : all_named (huge ∷ []) ≡ true
unfolding all_named
huge_named = ground (arith, length-zeros (2 ^ 32))

huge_large : 2 ^ 32 ≤ total_size (huge ∷ [])
unfolding total_size name_pool payload_sum
huge_large = omega (arith, length-zeros (2 ^ 32))

blob_build-too_large_example :
    (blob : List ℕ) × (blob_build always (huge ∷ []) 0 ≡ some blob) × (blob_reader_open blob ≡ none)
blob_build-too_large_example =
    blob_build-too_large always (huge ∷ []) 0 refl huge_named (omega arith) huge_large

-- The blob that the writer makes of one module, of 65 bytes.
abbrev small_blob : List ℕ
small_blob =
    0x4c
    ∷ 0x56
    ∷ 0x4d
    ∷ 0x42
    ∷ 4
    ∷ 0
    ∷ 0
    ∷ 0
    ∷ 1
    ∷ 0
    ∷ 0
    ∷ 0
    ∷ 0
    ∷ 0
    ∷ 0
    ∷ 0
    ∷ 75
    ∷ 0
    ∷ 0
    ∷ 0
    ∷ 0
    ∷ 0
    ∷ 0
    ∷ 0
    ∷ (replicate 32 0
        ++ (72 ∷ 0 ∷ 0 ∷ 0 ∷ 1 ∷ 0 ∷ 0 ∷ 0 ∷ 74 ∷ 0 ∷ 0 ∷ 0 ∷ 1 ∷ 0 ∷ 0 ∷ 0 ∷ 109 ∷ 0 ∷ 7 ∷ []))

blob_build_test :
    blob_build always (record { name = codes "m"; bytes = 7 ∷ [] } ∷ []) 0 ≡ some small_blob
unfolding blob_build image header table names payloads total_size name_pool payload_sum all_named
blob_build_test = refl

abbrev small_reader : Reader
small_reader = record { base = small_blob; count = 1; entry_index = 0 }

blob_reader_bounds_example :
    (small_reader.base ≡ small_blob)
    × (header_size + entry_size * small_reader.count ≤ length small_blob)
    × (small_reader.entry_index < small_reader.count)
    × ((name : Name) → Inside small_reader (blob_reader_find small_reader name))
    × Inside small_reader (blob_reader_get_entry small_reader)
unfolding blob_reader_open
blob_reader_bounds_example = blob_reader_bounds small_blob small_reader refl
