-- ===== src/Blob.antt =====
-- The blob of bundled modules: clua/src/compiler/blob.c writes it, clua/src/runtime/blob_reader.c
-- reads it, in the layout of clua/src/common/blob_format.h. A NULL name or payload is refused like
-- an empty one, so a module has a name and bytes that may be empty. `alloc n` says whether the
-- `calloc` of `n` bytes succeeds.
use compiled_lua.Common.{ℕ, zero, suc, ◌+◌, ◌*◌}
use compiled_lua.Common.{Bool, true, not, ◌&&◌}
use compiled_lua.Common.{Option, none, some, List, [], ◌∷◌, ◌++◌}
use compiled_lua.Common.{ltb, leb, ◌==◌, if◌then◌else◌}
use compiled_lua.Common.{length, drop, replicate}
pub mod Reading
pub mod RoundTrip
pub mod Bounds
mod Tests
use compiled_lua.Common.Name.{Name, name_eq, c_string}
use compiled_lua.Common.Word.{bytes32}
use compiled_lua.Common.Memory.{read32}

abbrev pub blob_magic : ℕ
blob_magic = 0x424D564C

abbrev pub blob_version : ℕ
blob_version = 4

abbrev pub header_size : ℕ
header_size = 56

abbrev pub entry_size : ℕ
entry_size = 16

pub record Module : Type 0 where
  pub name : Name
  pub bytes : List ℕ

-- The first loop: whether each module has a name and a payload.
unfoldable pub all_named : List Module → Bool
all_named [] = true
all_named (m ∷ ms) = not (length m.name == 0) && not (length m.bytes == 0) && all_named ms

unfoldable pub name_pool : List Module → ℕ
name_pool [] = 0
name_pool (m ∷ ms) = length m.name + 1 + name_pool ms

unfoldable pub payload_sum : List Module → ℕ
payload_sum [] = 0
payload_sum (m ∷ ms) = length m.bytes + payload_sum ms

unfoldable pub total_size : List Module → ℕ
unfolding name_pool payload_sum
total_size ms = header_size + entry_size * length ms + name_pool ms + payload_sum ms

-- The header's fields, then the 32 bytes of the key, which `calloc` left zero.
unfoldable pub header : List Module → ℕ → List ℕ
unfolding total_size
header ms entry =
    bytes32 blob_magic
    ++ (bytes32 blob_version
        ++ (bytes32 (length ms)
            ++ (bytes32 entry ++ (bytes32 (total_size ms) ++ (bytes32 0 ++ replicate 32 0)))))

-- Both loops fill the table: `n` is the cursor in the name pool and `d` that in the payloads.
unfoldable pub table : List Module → ℕ → ℕ → List ℕ
table [] n d = []
table (m ∷ ms) n d =
    bytes32 n
    ++ (bytes32 (length m.name)
        ++ (bytes32 d
            ++ (bytes32 (length m.bytes)
                ++ table ms (n + (length m.name + 1)) (d + length m.bytes))))

unfoldable pub names : List Module → List ℕ
names [] = []
names (m ∷ ms) = (m.name ++ 0 ∷ []) ++ names ms

unfoldable pub payloads : List Module → List ℕ
payloads [] = []
payloads (m ∷ ms) = m.bytes ++ payloads ms

unfoldable pub image : List Module → ℕ → List ℕ
unfolding header table names payloads
image ms entry =
    let pool = header_size + entry_size * length ms in
    header ms entry ++ (table ms pool (pool + name_pool ms) ++ (names ms ++ payloads ms))

unfoldable pub blob_build : (ℕ → Bool) → List Module → ℕ → Option (List ℕ)
unfolding image all_named
blob_build alloc ms entry =
    if length ms == 0
    then none
    else if leb (length ms) entry
    then none
    else if not (all_named ms)
    then none
    else if alloc (total_size ms)
    then some (image ms entry)
    else none

-- The table starts behind the header, so it is no field of its own.
pub record Reader : Type 0 where
  pub base : List ℕ
  pub count : ℕ
  pub entry_index : ℕ

abbrev pub size : Reader → ℕ
size r = length r.base

unfoldable pub blob_reader_open : List ℕ → Option Reader
blob_reader_open base =
    if ltb (length base) header_size
    then none
    else if not (read32 base 0 == blob_magic)
    then none
    else if not (read32 base 4 == blob_version)
    then none
    else if read32 base 8 == 0
    then none
    else if not (read32 base 16 == length base)
    then none
    else if leb (read32 base 8) (read32 base 12)
    then none
    else if ltb (length base) (header_size + read32 base 8 * entry_size)
    then none
    else some (record { base = base; count = read32 base 8; entry_index = read32 base 12 })

-- `found` has the offset and the length of the payload; `overrun` is a `strlen` that leaves the
-- blob.
pub data Found : Type 0 where
  found : ℕ → ℕ → Found
  missing overrun : Found

-- One field of entry `i`, `k` bytes into it.
abbrev pub field : Reader → ℕ → ℕ → ℕ
field r i k = read32 r.base (header_size + entry_size * i + k)

unfoldable pub entry_to_lookup : Reader → ℕ → Found
entry_to_lookup r i =
    if ltb (size r) (field r i 8 + field r i 12)
    then missing
    else found (field r i 8) (field r i 12)

-- The loop over the table, `rounds` before its end.
unfoldable pub find_from : Reader → Name → ℕ → ℕ → Found
find_from r name zero i = missing
find_from r name (suc rounds) i =
    let rest = find_from r name rounds (i + 1) in
    if leb (size r) (field r i 0) then missing else elim (c_string (drop (field r i 0) r.base)) [
      | none ↦ overrun
      | some s ↦ if length s == field r i 4 && name_eq s name then entry_to_lookup r i else rest
    ]

unfoldable pub blob_reader_find : Reader → Name → Found
blob_reader_find r name = find_from r name r.count 0

unfoldable pub blob_reader_get_entry : Reader → Found
blob_reader_get_entry r = entry_to_lookup r r.entry_index
