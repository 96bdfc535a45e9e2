-- ===== src/Archive/Lookup.antt =====
-- The lookup indexes and the lookups: clua/src/link/ar_read.c.
use compiled_lua.Common.{ℕ, suc, ◌+◌}
use compiled_lua.Common.{Bool, true, false}
use compiled_lua.Common.{Option, none, some, List, [], ◌∷◌}
use compiled_lua.Common.{◌>>=◌, ltb, ◌==◌, if◌then◌else◌}
use compiled_lua.Common.{length, get_or, replicate}
use compiled_lua.Archive.Data.{
  not_built, built, no_index, Archive, ar_hash_name, ar_hash_u32, ar_slot_cap, symname_at,
  hdr_off_at, add64, indexable, no_symbol,
}
use compiled_lua.Archive.Probe.{running, empty_at, same_at, probe, fill}
use compiled_lua.Common.Name.{Name, name_eq}

module _ (calloc : ℕ → Bool) where
  -- `ar_build_sym_index`; `none` where a loop does not end
  unfoldable pub ar_build_sym_index : Archive → Option Archive
  ar_build_sym_index a =
      let gone = record a { sym_index_state = no_index } in
      let n = length a.index in
      elim (indexable n) [
        | false ↦ some gone
        | true ↦ do
          cap ← ar_slot_cap n
          elim (calloc cap) [
            | false ↦ some gone
            | true ↦ do
              slots ← fill (symname_at a) name_eq ar_hash_name n 0 (replicate cap 0) cap
              some (record a { sym_slots = slots; sym_slot_cap = cap; sym_index_state = built })
          ]
      ]

  -- `ar_build_mem_index`
  unfoldable pub ar_build_mem_index : Archive → Option Archive
  ar_build_mem_index a =
      let gone = record a { mem_index_state = no_index } in
      let n = length a.members in
      elim (indexable n) [
        | false ↦ some gone
        | true ↦ do
          cap ← ar_slot_cap n
          elim (calloc cap) [
            | false ↦ some gone
            | true ↦ do
              slots ← fill (hdr_off_at a) ◌==◌ ar_hash_u32 n 0 (replicate cap 0) cap
              some (record a { mem_slots = slots; mem_slot_cap = cap; mem_index_state = built })
          ]
      ]

-- A linear scan: the index at which the loop ends.
unfoldable pub scan {ℓ} : {A : Type ℓ} → (A → Bool) → List A → ℕ
scan f [] = 0
scan f (x ∷ xs) = if f x then 0 else suc (scan f xs)

-- `scanned`
abbrev pub scanned : ℕ → ℕ → ℕ
scanned i n = if ltb i n then i + 1 else n

-- a->stats.mem_lookups++; a->stats.mem_compares += compares;
unfoldable pub count_member : Archive → ℕ → Archive
count_member a compares =
    let s = a.stats in
    record a {
      stats = record s {
        mem_lookups = add64 s.mem_lookups 1;
        mem_compares = add64 s.mem_compares compares;
      };
    }

abbrev pub flag : Bool → ℕ
flag true = 1
flag false = 0

-- The four counters of `LcAr_MemberDefining`.
unfoldable pub count_symbol : Archive → ℕ → Bool → Bool → Archive
count_symbol a compares matched found =
    let s = a.stats in
    record a {
      stats = record s {
        queries = add64 s.queries 1;
        compares = add64 s.compares compares;
        matched = add64 s.matched (flag matched);
        hits = add64 s.hits (flag found);
      };
    }

abbrev pub is_found : Option ℕ → Bool
is_found none = false
is_found (some j) = true

-- `LcAr_MemberByHdrOff`: the index of the member, or `none` for NULL; outside, `none` where a
-- loop does not end.
abbrev pub linear_member : Archive → ℕ → Option (Option ℕ × Archive)
linear_member a hdr_off =
    let n = length a.members in
    let i = scan (λ m. m.hdr_off == hdr_off) a.members in
    some (if ltb i n then some i else none, count_member a (scanned i n))

abbrev pub indexed_member : Archive → ℕ → Option (Option ℕ × Archive)
indexed_member a hdr_off =
    elim (probe (hdr_off_at a) ◌==◌ ar_hash_u32 a.mem_slots a.mem_slot_cap hdr_off) [
      | running ↦ none
      | empty_at _ probes ↦ some (none, count_member a probes)
      | same_at j probes ↦ some (some j, count_member a probes)
    ]

module _ (calloc : ℕ → Bool) where
  abbrev pub with_mem_index : Archive → Option Archive
  with_mem_index a = elim a.mem_index_state [
    | not_built ↦ ar_build_mem_index calloc a
    | built ↦ some a
    | no_index ↦ some a
  ]

  abbrev pub with_sym_index : Archive → Option Archive
  with_sym_index a = elim a.sym_index_state [
    | not_built ↦ ar_build_sym_index calloc a
    | built ↦ some a
    | no_index ↦ some a
  ]

  -- `LcAr_MemberByHdrOff`
  unfoldable pub member_by_hdr_off : Archive → ℕ → Option (Option ℕ × Archive)
  member_by_hdr_off a hdr_off = do
    b ← with_mem_index a
    elim b.mem_index_state [
      | built ↦ indexed_member b hdr_off
      | not_built ↦ linear_member b hdr_off
      | no_index ↦ linear_member b hdr_off
    ]

  -- `LcAr_MemberDefining`
  abbrev pub linear_defining : Archive → Name → Option (Option ℕ × Archive)
  linear_defining a symbol =
      let n = length a.index in
      let i = scan (λ s. name_eq s.symname symbol) a.index in
      elim (ltb i n) [
        | false ↦ some (none, count_symbol a (scanned i n) false false)
        | true ↦ do
          (found, b) ← member_by_hdr_off a (get_or a.index i no_symbol).member_off
          some (found, count_symbol b (scanned i n) true (is_found found))
      ]

  abbrev pub indexed_defining : Archive → Name → Option (Option ℕ × Archive)
  indexed_defining a symbol =
      elim (probe (symname_at a) name_eq ar_hash_name a.sym_slots a.sym_slot_cap symbol) [
        | running ↦ none
        | empty_at _ probes ↦ some (none, count_symbol a probes false false)
        | same_at i probes ↦ do
          (found, b) ← member_by_hdr_off a (get_or a.index i no_symbol).member_off
          some (found, count_symbol b probes true (is_found found))
      ]

  unfoldable pub member_defining : Archive → Name → Option (Option ℕ × Archive)
  member_defining a symbol = do
    b ← with_sym_index a
    elim b.sym_index_state [
      | built ↦ indexed_defining b symbol
      | not_built ↦ linear_defining b symbol
      | no_index ↦ linear_defining b symbol
    ]
