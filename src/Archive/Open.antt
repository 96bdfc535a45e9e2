-- ===== src/Archive/Open.antt =====
-- Opening an archive: `LcAr_Open` of clua/src/link/ar_read.c. The calls of malloc, calloc and
-- realloc are one argument, on the bytes asked for.
use compiled_lua.Common.{ℕ, zero, suc, ◌+◌, ◌*◌, ◌%◌, ◌^◌, max}
use compiled_lua.Common.{Bool, true, not, ◌&&◌, ◌||◌}
use compiled_lua.Common.{Option, none, some, List, [], ◌∷◌, ◌++◌}
use compiled_lua.Common.{ltb, leb, ◌==◌, if◌then◌else◌}
use compiled_lua.Common.{length, get_or, take, drop}
use compiled_lua.Archive.Data.{Member, not_built, Archive}
use compiled_lua.Archive.Header.{
  Opened, opened, failed, overrun, unfinished, and_then, ar_magic, ar_hdr_len, be32, msize_at,
  next_off, LongNames, find_longnames, member_name, read_symbols,
}
use compiled_lua.Common.Int.{ℤ, pos, negsuc}
use compiled_lua.Common.Name.{name_eq}

-- `memset( out, 0, sizeof( *out ) )`, and the buffer.
abbrev pub fresh : List ℕ → Archive
fresh m = record {
  buf = m;
  members = [];
  index = [];
  stats = record {
    queries = 0;
    compares = 0;
    matched = 0;
    hits = 0;
    mem_lookups = 0;
    mem_compares = 0;
  };
  sym_slots = [];
  sym_slot_cap = 0;
  sym_index_state = not_built;
  mem_slots = [];
  mem_slot_cap = 0;
  mem_index_state = not_built;
}

module _ (alloc : ℕ → Bool) (m : List ℕ) (ln : LongNames) where
  -- The branch of the symbol index.
  unfoldable pub open_index : ℕ → ℕ → Archive → Opened Archive
  open_index data_off msize a =
      let pool = take msize (drop data_off m) in
      let n = be32 pool 0 in
      if ltb msize 4
      then opened a
      else if not (alloc (16 * max n 1) && alloc msize)
      then failed
      else and_then (read_symbols n pool 0 (4 + n * 4))
          (λ symbols. opened (record a { index = symbols }))

  -- The branch of the other members; `capm` is the room of the array of members.
  unfoldable pub open_member : ℕ → ℕ → Archive → ℕ → Opened (Archive × ℕ)
  open_member off msize a capm = elim (member_name m ln off) [
    | none ↦ overrun
    | some name ↦
        let new : Member = record {
          name = name;
          data_off = off + ar_hdr_len;
          size = msize;
          hdr_off = off % 2 ^ 32;
        } in
        let more = if capm == 0 then 32 else capm * 2 % 2 ^ 32 in
        let after : Archive = record a { members = a.members ++ new ∷ [] } in
        if ltb (length a.members) capm
        then opened (after, capm)
        else if alloc (more * 272)
        then opened (after, more)
        else failed
  ]

  -- One header of the second pass.
  unfoldable pub open_header : ℕ → ℕ → Archive → ℕ → Opened (Archive × ℕ)
  open_header off msize a capm =
      let c0 = get_or m off 0 in
      let c1 = get_or m (off + 1) 0 in
      if c0 == 47 && (c1 == 32 || c1 == 0)
      then and_then (open_index (off + ar_hdr_len) msize a) (λ b. opened (b, capm))
      else if c0 == 47 && c1 == 47
      then opened (a, capm)
      else open_member off msize a capm

  -- The second pass.
  unfoldable pub collect : ℕ → ℕ → Archive → ℕ → Opened Archive
  collect zero off a capm = unfinished
  collect (suc n) off a capm =
      let msize = msize_at m off in
      let rest =
        and_then (open_header off msize a capm)
          (λ (b, capm'). collect n (next_off off msize) b capm') in
      if not (leb (off + ar_hdr_len) (length m))
      then opened a
      else if ltb (length m) (off + ar_hdr_len + msize)
      then opened a
      else rest

-- The size of the file as `ftell` gives it in a `long`, of 32 bits on Windows: -1 where it does not
-- fit.
unfoldable pub ftell : ℕ → ℤ
ftell n = if ltb n (2 ^ 31) then pos n else negsuc 0

-- `sz <= AR_MAGIC_LEN`
unfoldable pub too_small : ℤ → Bool
too_small (pos n) = leb n 8
too_small (negsuc n) = true

-- `LcAr_Open`, for the bytes that the file holds; `none` where it cannot be read. Each pass has a
-- round for every byte.
unfoldable pub open_archive : (ℕ → Bool) → Option (List ℕ) → Opened Archive
open_archive alloc none = failed
open_archive alloc (some m) =
    if too_small (ftell (length m))
    then failed
    else if not (alloc (length m))
    then failed
    else if not (name_eq (take 8 m) ar_magic)
    then failed
    else elim (find_longnames (length m) m 8 none) [
      | none ↦ unfinished
      | some ln ↦ collect alloc m ln (length m) 8 (fresh m) 0
    ]
