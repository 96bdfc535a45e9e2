-- ===== src/Archive/Tests.antt =====
-- Concrete runs for clua/src/link/ar_read.c.
use compiled_lua.Common.{ℕ, ◌+◌, ◌*◌, ◌^◌, ◌≤◌, ◌<◌}
use compiled_lua.Common.{◌≡◌, refl, ◌⊎◌, Bool, true}
use compiled_lua.Common.{none, some, List, [], ◌∷◌, map, arith}
use compiled_lua.Archive.Data.{
  Stats, not_built, Archive, ar_hash_name, ar_hash_u32, hash_bytes, slot_cap_from, ar_slot_cap,
  indexable, add64,
}
use compiled_lua.Archive.Lookup.{
  scan, count_member, count_symbol, ar_build_sym_index, ar_build_mem_index, member_by_hdr_off,
  member_defining,
}
use compiled_lua.Archive.Probe.{walk, probe, fill}
use compiled_lua.Archive.Capacity.{ar_slot_cap_bounds}
use compiled_lua.Archive.Index.{IsReady, Keeps}
use compiled_lua.Archive.Answers.{symbol_counts, member_by_hdr_off_lem}
use compiled_lua.Archive.Queries.{Queried, member_defining_lem}
use compiled_lua.Archive.Sessions.{query_all, query_all_lem}
use compiled_lua.Archive.Scan.{first, member_of, symbol_of, defining_of}
use compiled_lua.Common.Name.{Name, codes}

program : Unit {0}
unfolding hash_bytes ar_hash_name ar_hash_u32 slot_cap_from ar_slot_cap indexable scan count_member
    count_symbol ar_build_sym_index ar_build_mem_index member_by_hdr_off member_defining walk probe
    fill first member_of symbol_of defining_of query_all
program = tt

always : ℕ → Bool
always n = true

no_stats : Stats
no_stats = record {
  queries = 0;
  compares = 0;
  matched = 0;
  hits = 0;
  mem_lookups = 0;
  mem_compares = 0;
}

-- Two members; the second entry for `f` and the entry for `lost` must not be answered with.
abbrev small : Archive
small = record {
  buf = [];
  members =
      record { name = codes "a.o"; data_off = 68; size = 4; hdr_off = 8 }
      ∷ record { name = codes "b.o"; data_off = 132; size = 4; hdr_off = 72 }
      ∷ [];
  index =
      record { symname = codes "f"; member_off = 72 }
      ∷ record { symname = codes "f"; member_off = 8 }
      ∷ record { symname = codes "lost"; member_off = 9 }
      ∷ [];
  stats = no_stats;
  sym_slots = [];
  sym_slot_cap = 0;
  sym_index_state = not_built;
  mem_slots = [];
  mem_slot_cap = 0;
  mem_index_state = not_built;
}

abbrev asked : List Name
asked = codes "g" ∷ codes "f" ∷ codes "lost" ∷ codes "f" ∷ []

answers : map (defining_of small) asked ≡ none ∷ some 1 ∷ none ∷ some 1 ∷ []
unfolding program
answers = refl

hash_test : ar_hash_name (codes "a") ≡ 0xE40C_292C
unfolding program
hash_test = refl

small-IsReady : IsReady small
small-IsReady = record { sym_ready = tt; mem_ready = tt }

ar_slot_cap_bounds_example :
    (m : ℕ) × (ar_slot_cap 100 ≡ some (2 ^ m))
    × (100 * 2 + 16 ≤ 2 ^ m)
    × (2 ^ m ≤ 2 ^ 30)
    × ((2 ^ m < 2 * (100 * 2 + 16)) ⊎ (m ≡ 4))
ar_slot_cap_bounds_example = ar_slot_cap_bounds 100 (omega arith)

member_by_hdr_off_lem_example :
    (b : Archive) × ((member_by_hdr_off always small 72 ≡ some (member_of small 72, b))
      × IsReady b
      × Keeps small b
      × (symbol_counts b ≡ symbol_counts small)
      × (b.stats.mem_lookups ≡ add64 small.stats.mem_lookups 1))
member_by_hdr_off_lem_example = member_by_hdr_off_lem always small 72 small-IsReady

member_defining_lem_example : Queried small (codes "f") (member_defining always small (codes "f"))
member_defining_lem_example = member_defining_lem always small (codes "f") small-IsReady

query_all_lem_example :
    (b : Archive) × ((query_all always small asked ≡ some (map (defining_of small) asked, b))
      × IsReady b
      × Keeps small b)
query_all_lem_example = query_all_lem always small asked (refl, refl)
