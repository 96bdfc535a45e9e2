-- ===== src/Blob/Bounds.antt =====
-- clua/src/runtime/blob_reader.c on any bytes: what the reader reads and hands out.
use compiled_lua.Common.{ℕ, zero, suc, ◌+◌, ◌*◌, ◌≤◌, ◌<◌}
use compiled_lua.Common.{◌≡◌}
use compiled_lua.Common.{some, List, arith}
use compiled_lua.Common.{length}
use compiled_lua.Common.Name.{Name}
use compiled_lua.Blob.{
  Reader, Found, found, size, header_size, entry_size, blob_reader_open, entry_to_lookup, find_from,
  blob_reader_find, blob_reader_get_entry,
}

-- The offset and the length that were handed out lie within the blob.
abbrev pub Inside : Reader → Found → Type 0
Inside r f = (off len : ℕ) → f ≡ found off len → off + len ≤ size r

entry_to_lookup-Inside : (r : Reader) (i : ℕ) → Inside r (entry_to_lookup r i)
unfolding entry_to_lookup
entry_to_lookup-Inside r i off len h = ground arith

find_from-Inside : (r : Reader) (name : Name) (rounds i : ℕ) → Inside r (find_from r name rounds i)
unfolding find_from
find_from-Inside r name zero i off len h = cc
find_from-Inside r name (suc rounds) i off len h =
    ground
      (arith, find_from-Inside r name rounds (i + 1) off len, entry_to_lookup-Inside r i off len)

-- Whatever the bytes are, a blob that opens has its whole table and an entry within it, and every
-- payload that the reader hands out lies within the blob.
pub blob_reader_bounds :
    (base : List ℕ) (r : Reader)
    → blob_reader_open base ≡ some r
    → (r.base ≡ base)
      × (header_size + entry_size * r.count ≤ length base)
      × (r.entry_index < r.count)
      × ((name : Name) → Inside r (blob_reader_find r name))
      × Inside r (blob_reader_get_entry r)
unfolding blob_reader_open
blob_reader_bounds base r h = (
  ground arith,
  ground arith,
  ground arith,
  λ name. unfold blob_reader_find in find_from-Inside r name r.count 0,
  unfold blob_reader_get_entry in entry_to_lookup-Inside r r.entry_index,
)
