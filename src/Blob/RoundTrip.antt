-- ===== src/Blob/RoundTrip.antt =====
-- clua/src/compiler/blob.c and clua/src/runtime/blob_reader.c together: the reader on what the
-- writer wrote.
use compiled_lua.Common.{ℕ, ◌+◌, ◌*◌, ◌^◌, ◌≤◌, ◌<◌}
use compiled_lua.Common.{◌≡◌, refl, ap, ◌∙◌, Bool, true}
use compiled_lua.Common.{none, some, List, [], ◌∷◌, ◌++◌, append_assoc, arith}
use compiled_lua.Common.{length, get_elem?, take, drop}
use compiled_lua.Common.{drop-append, take-append}
use mathlib.Core.Option
use compiled_lua.Common.Name.{Name, IsText, c_string, c_string-append}
use compiled_lua.Common.Word.{bytes32, word32-bytes32}
use compiled_lua.Common.Memory.{read32, read32-append_right, lengths, length-append_bytes}
use compiled_lua.Blob.{
  Module, Reader, field, header_size, entry_size, blob_magic, blob_version, all_named, name_pool,
  payload_sum, total_size, header, table, names, payloads, image, blob_build, blob_reader_open,
  blob_reader_find, blob_reader_get_entry,
}
use compiled_lua.Blob.Reading.{
  AllText, Entry, Entries, contents, first_named, find_from-first, get_entry-lookup,
}

length-table : (ms : List Module) (n d : ℕ) → length (table ms n d) ≡ entry_size * length ms
unfolding table
length-table [] n d = refl
length-table (m ∷ ms) n d =
    omega (arith, length-table ms (n + (length m.name + 1)) (d + length m.bytes))

length-names : (ms : List Module) → length (names ms) ≡ name_pool ms
unfolding names name_pool
length-names [] = refl
length-names (m ∷ ms) = omega (lengths, length-names ms)

length-payloads : (ms : List Module) → length (payloads ms) ≡ payload_sum ms
unfolding payloads payload_sum
length-payloads [] = refl
length-payloads (m ∷ ms) = omega (lengths, length-payloads ms)

length-image : (ms : List Module) (entry : ℕ) → length (image ms entry) ≡ total_size ms
unfolding image header total_size
length-image ms entry = omega (
  lengths,
  length-names ms,
  length-payloads ms,
  length-table ms (header_size + entry_size * length ms)
      (header_size + entry_size * length ms + name_pool ms),
)

-- A field of entry `i`, where the table's rest from there on is `t`.
field_in :
    (r : Reader) (i k : ℕ) (hd t : List ℕ)
    → r.base ≡ hd ++ t
    → length hd ≡ header_size + entry_size * i
    → field r i k ≡ read32 t k
field_in r i k hd t split there =
    let e : header_size + entry_size * i + k ≡ length hd + k = omega arith in
    rw (split, e) (read32-append_right hd t k)

drop_front : (base xs ys : List ℕ) (n : ℕ) → base ≡ xs ++ ys → length xs ≡ n → drop n base ≡ ys
drop_front base xs ys n split there =
    let e : n ≡ length xs + 0 = omega arith in rw (split, e) (drop-append xs ys 0)

-- One entry of the table: `t` is the table behind it, `ns` the names behind its own, and so on.
Entry-image :
    (r : Reader) (i : ℕ) (m : Module) (n d : ℕ) (hd t mid ns gap ps : List ℕ)
    → r.base
      ≡ hd
        ++ ((bytes32 n
              ++ (bytes32 (length m.name) ++ (bytes32 d ++ (bytes32 (length m.bytes) ++ t))))
            ++ (mid ++ (((m.name ++ 0 ∷ []) ++ ns) ++ (gap ++ (m.bytes ++ ps)))))
    → length hd ≡ header_size + entry_size * i
    → length hd + 16 + length t + length mid ≡ n
    → n + (length m.name + 1) + length ns + length gap ≡ d
    → d + length m.bytes < 2 ^ 32
    → IsText m.name
    → Entry r i m n d
Entry-image r i m n d hd t mid ns gap ps split there name_at bytes_at small text =
    let cells =
      bytes32 n ++ (bytes32 (length m.name) ++ (bytes32 d ++ (bytes32 (length m.bytes) ++ t))) in
    let pool = mid ++ (((m.name ++ 0 ∷ []) ++ ns) ++ (gap ++ (m.bytes ++ ps))) in
    let name_split : r.base
        ≡ (hd ++ (cells ++ mid)) ++ (m.name ++ 0 ∷ (ns ++ (gap ++ (m.bytes ++ ps)))) =
      split ∙ simp append_assoc in
    let bytes_split : r.base
        ≡ (hd ++ (cells ++ (mid ++ ((m.name ++ 0 ∷ ns) ++ gap)))) ++ (m.bytes ++ ps) =
      split ∙ simp append_assoc in
    let name_front : length (hd ++ (cells ++ mid)) ≡ n =
      omega (arith, length-append_bytes hd (cells ++ mid), length-append_bytes t mid) in
    let bytes_front : length (hd ++ (cells ++ (mid ++ ((m.name ++ 0 ∷ ns) ++ gap)))) ≡ d = omega (
      arith,
      length-append_bytes hd (cells ++ (mid ++ ((m.name ++ 0 ∷ ns) ++ gap))),
      length-append_bytes t (mid ++ ((m.name ++ 0 ∷ ns) ++ gap)),
      length-append_bytes mid ((m.name ++ 0 ∷ ns) ++ gap),
      length-append_bytes (m.name ++ 0 ∷ ns) gap,
      length-append_bytes m.name (0 ∷ ns),
    ) in
    record {
      name_at = field_in r i 0 hd (cells ++ pool) split there ∙ word32-bytes32 n (omega arith);
      name_length =
          field_in r i 4 hd (cells ++ pool) split there
          ∙ word32-bytes32 (length m.name) (omega arith);
      bytes_at = field_in r i 8 hd (cells ++ pool) split there ∙ word32-bytes32 d (omega arith);
      bytes_length =
          field_in r i 12 hd (cells ++ pool) split there
          ∙ word32-bytes32 (length m.bytes) (omega arith);
      name_inside = omega (
        arith,
        ap length name_split,
        name_front,
        length-append_bytes (hd ++ (cells ++ mid)) (m.name ++ 0 ∷ (ns ++ (gap ++ (m.bytes ++ ps)))),
        length-append_bytes m.name (0 ∷ (ns ++ (gap ++ (m.bytes ++ ps)))),
      );
      bytes_inside = omega (
        arith,
        ap length bytes_split,
        bytes_front,
        length-append_bytes (hd ++ (cells ++ (mid ++ ((m.name ++ 0 ∷ ns) ++ gap)))) (m.bytes ++ ps),
        length-append_bytes m.bytes ps,
      );
      name_there =
          ap c_string (drop_front r.base _ _ n name_split name_front)
          ∙ c_string-append m.name _ text;
      bytes_there =
          ap (take (length m.bytes)) (drop_front r.base _ _ d bytes_split bytes_front)
          ∙ take-append m.bytes ps;
    }

Entries-image :
    (r : Reader) (i : ℕ) (ms : List Module) (n d : ℕ) (hd mid gap : List ℕ)
    → r.base ≡ hd ++ (table ms n d ++ (mid ++ (names ms ++ (gap ++ payloads ms))))
    → length hd ≡ header_size + entry_size * i
    → length hd + entry_size * length ms + length mid ≡ n
    → n + name_pool ms + length gap ≡ d
    → d + payload_sum ms < 2 ^ 32
    → AllText ms
    → Entries r i ms n d
unfolding table names payloads name_pool payload_sum
Entries-image r i [] n d hd mid gap split there name_at bytes_at small text = tt
Entries-image r i (m ∷ ms) n d hd mid gap split there name_at bytes_at small (text, texts) =
    let t = table ms (n + (length m.name + 1)) (d + length m.bytes) in
    let cells = bytes32 n ++ (bytes32 (length m.name) ++ (bytes32 d ++ bytes32 (length m.bytes))) in
    let moved : r.base
        ≡ (hd ++ cells)
          ++ (t
              ++ ((mid ++ (m.name ++ 0 ∷ [])) ++ (names ms ++ ((gap ++ m.bytes) ++ payloads ms)))) =
      split ∙ simp append_assoc in
    (
      Entry-image r i m n d hd t mid (names ms) gap (payloads ms) split there
          (omega (arith, length-table ms (n + (length m.name + 1)) (d + length m.bytes)))
          (omega (arith, length-names ms)) (omega arith) text,
      Entries-image r (i + 1) ms (n + (length m.name + 1)) (d + length m.bytes) (hd ++ cells)
          (mid ++ (m.name ++ 0 ∷ [])) (gap ++ m.bytes) moved (omega lengths) (omega lengths)
          (omega lengths) (omega arith) texts,
    )

abbrev reader_of : List Module → ℕ → Reader
reader_of ms entry = record { base = image ms entry; count = length ms; entry_index = entry }

open-image :
    (ms : List Module) (entry : ℕ)
    → entry < length ms
    → total_size ms < 2 ^ 32
    → blob_reader_open (image ms entry) ≡ some (reader_of ms entry)
open-image ms entry inside small =
    let size_ = length-image ms entry in
    let big : header_size + length ms * entry_size ≤ total_size ms =
      unfold total_size in omega arith in
    let magic : read32 (image ms entry) 0 ≡ blob_magic = unfold image header in refl in
    let version : read32 (image ms entry) 4 ≡ blob_version = unfold image header in refl in
    let count : read32 (image ms entry) 8 ≡ length ms =
      unfold image header in word32-bytes32 (length ms) (omega arith) in
    let first : read32 (image ms entry) 12 ≡ entry =
      unfold image header in word32-bytes32 entry (omega arith) in
    let total : read32 (image ms entry) 16 ≡ total_size ms =
      unfold image header in word32-bytes32 (total_size ms) small in
    unfold blob_reader_open in ground (arith)

image-Entries :
    (ms : List Module) (entry : ℕ)
    → total_size ms < 2 ^ 32
    → AllText ms
    → Entries
        (reader_of ms entry)
        0
        ms
        (header_size + entry_size * length ms)
        (header_size + entry_size * length ms + name_pool ms)
image-Entries ms entry small text =
    let pool = header_size + entry_size * length ms in
    let hd : length (header ms entry) ≡ header_size + entry_size * 0 = unfold header in refl in
    Entries-image (reader_of ms entry) 0 ms pool (pool + name_pool ms) (header ms entry) [] []
      (unfold image in refl) hd (omega arith) (omega arith) (unfold total_size in omega arith) text

-- Where the memory of the blob is granted, modules that all have a name, a payload and no zero in
-- their names, with an entry among them and a total below 4 GiB, are written to a blob that opens.
-- In it the search for a name never leaves the blob: it finds the payload of the first module of
-- that name, or nothing where there is none; and the entry is the entry's payload.
pub blob_round_trip :
    (alloc : ℕ → Bool) (ms : List Module) (entry : ℕ)
    → alloc (total_size ms) ≡ true
    → all_named ms ≡ true
    → AllText ms
    → entry < length ms
    → total_size ms < 2 ^ 32
    → (blob : List ℕ) × (r : Reader) × (blob_build alloc ms entry ≡ some blob)
      × (blob_reader_open blob ≡ some r)
      × ((name : Name) → contents r (blob_reader_find r name) ≡ some (first_named ms name))
      × (contents r (blob_reader_get_entry r)
          ≡ some (Option.map (λ m. m.bytes) (get_elem? ms entry)))
blob_round_trip alloc ms entry granted named text inside small =
    let r = reader_of ms entry in
    let entries = image-Entries ms entry small text in
    let pool = header_size + entry_size * length ms in
    let built : blob_build alloc ms entry ≡ some (image ms entry) =
      unfold blob_build in ground arith in
    let at_entry : 0 + entry ≡ entry = omega arith in
    (
      image ms entry,
      r,
      built,
      open-image ms entry inside small,
      λ name.
          unfold blob_reader_find in find_from-first r name ms 0 pool (pool + name_pool ms) entries,
      unfold blob_reader_get_entry in
          rw at_entry at (get_entry-lookup r ms 0 entry pool (pool + name_pool ms) inside entries),
    )

-- From 4 GiB on, what the writer builds is refused by the reader: the total is cut to 32 bits.
pub blob_build-too_large :
    (alloc : ℕ → Bool) (ms : List Module) (entry : ℕ)
    → alloc (total_size ms) ≡ true
    → all_named ms ≡ true
    → entry < length ms
    → 2 ^ 32 ≤ total_size ms
    → (blob : List ℕ) × (blob_build alloc ms entry ≡ some blob) × (blob_reader_open blob ≡ none)
blob_build-too_large alloc ms entry granted named inside large =
    let size_ = length-image ms entry in
    let built : blob_build alloc ms entry ≡ some (image ms entry) =
      unfold blob_build in ground arith in
    let total : read32 (image ms entry) 16 < 2 ^ 32 = unfold image header in omega arith in
    (image ms entry, built, unfold blob_reader_open in ground arith)
