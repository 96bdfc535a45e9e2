-- ===== src/Archive/Data.antt =====
-- The archive in memory: clua/src/link/ar_read.h, and the hashes and capacities of
-- clua/src/link/ar_read.c.
use compiled_lua.Common.{ℕ, zero, suc, ◌+◌, ◌*◌, ◌/◌, ◌%◌, ◌^◌, bit_and, bit_xor}
use compiled_lua.Common.{Bool, not, ◌&&◌}
use compiled_lua.Common.{Option, none, some, List, [], ◌∷◌}
use compiled_lua.Common.{ltb, leb, ◌==◌, if◌then◌else◌}
use compiled_lua.Common.{get_or}
use compiled_lua.Common.Name.{Name}

-- LcArMember; `data_off` is `data` as the offset in the buffer.
pub record Member : Type 0 where
  pub name : Name
  pub data_off : ℕ
  pub size : ℕ
  pub hdr_off : ℕ

-- LcArSym
pub record Symbol : Type 0 where
  pub symname : Name
  pub member_off : ℕ

-- LcArStats
pub record Stats : Type 0 where
  pub queries : ℕ
  pub compares : ℕ
  pub matched : ℕ
  pub hits : ℕ
  pub mem_lookups : ℕ
  pub mem_compares : ℕ

-- `sym_index_state` and `mem_index_state`: 0, 1 and -1
pub data IndexState : Type 0 where
  not_built built no_index : IndexState

-- LcArchive
pub record Archive : Type 0 where
  pub buf : List ℕ
  pub members : List Member
  pub index : List Symbol
  pub stats : Stats
  pub sym_slots : List ℕ
  pub sym_slot_cap : ℕ
  pub sym_index_state : IndexState
  pub mem_slots : List ℕ
  pub mem_slot_cap : ℕ
  pub mem_index_state : IndexState

-- `ar_hash_name`
unfoldable pub hash_bytes : ℕ → Name → ℕ
hash_bytes h [] = h
hash_bytes h (c ∷ cs) = hash_bytes (bit_xor h c * 16777619 % 2 ^ 32) cs

unfoldable pub ar_hash_name : Name → ℕ
ar_hash_name s = hash_bytes 2166136261 s

-- `ar_hash_u32`: the four bytes, the low one first
unfoldable pub ar_hash_u32 : ℕ → ℕ
ar_hash_u32 v = hash_bytes 2166136261 (
    bit_and v 255
    ∷ bit_and (v / 2 ^ 8) 255
    ∷ bit_and (v / 2 ^ 16) 255
    ∷ bit_and (v / 2 ^ 24) 255
    ∷ [])

-- The loop of `ar_slot_cap`; `none` where the doublings given do not reach the target.
unfoldable pub slot_cap_from : ℕ → ℕ → ℕ → Option ℕ
slot_cap_from zero target cap = if ltb cap target then none else some cap
slot_cap_from (suc n) target cap =
    let more = slot_cap_from n target (cap * 2 % 2 ^ 32) in
    if ltb cap target then more else some cap

-- `ar_slot_cap`; a 32-bit word has room for 28 doublings of 16.
unfoldable pub ar_slot_cap : ℕ → Option ℕ
ar_slot_cap n = slot_cap_from 28 ((n * 2 + 16) % 2 ^ 32) 16

-- AR_INDEX_MAX
abbrev pub ar_index_max : ℕ
ar_index_max = 2 ^ 28

abbrev pub no_member : Member
no_member = record { name = []; data_off = 0; size = 0; hdr_off = 0 }

abbrev pub no_symbol : Symbol
no_symbol = record { symname = []; member_off = 0 }

-- a->index[i].symname
abbrev pub symname_at : Archive → ℕ → Name
symname_at a i = (get_or a.index i no_symbol).symname

-- a->members[i].hdr_off
abbrev pub hdr_off_at : Archive → ℕ → ℕ
hdr_off_at a i = (get_or a.members i no_member).hdr_off

-- A counter of 64 bits.
abbrev pub add64 : ℕ → ℕ → ℕ
add64 x n = (x + n) % 2 ^ 64

-- Whether an index is built for n entries.
unfoldable pub indexable : ℕ → Bool
indexable n = not (n == 0) && leb n ar_index_max
