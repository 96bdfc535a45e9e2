-- ===== src/Archive/Answers.antt =====
-- Looking a member up by its header's offset: `LcAr_MemberByHdrOff` of
-- clua/src/link/ar_read.c.
use compiled_lua.Common.{ℕ}
use compiled_lua.Common.{◌≡◌, refl, ap, ◌∙◌, ◌↔◌, Bool, true}
use compiled_lua.Common.{Option, none, some, List}
use compiled_lua.Common.{◌==◌, ==_iff}
use compiled_lua.Common.{length}
use compiled_lua.Archive.Data.{
  Stats, IndexState, not_built, built, no_index, Archive, ar_hash_u32, hdr_off_at, add64, no_member,
}
use compiled_lua.Archive.Index.{IsReady, Keeps, Slotted, with_mem_index-Built}
use compiled_lua.Archive.Lookup.{
  with_mem_index, indexed_member, linear_member, member_by_hdr_off, count_member, scanned, scan,
}
use compiled_lua.Archive.Probe.{Stop, running, empty_at, same_at, probe}
use compiled_lua.Archive.Scan.{first, first-Answer, member_of, symbol_of}
use compiled_lua.Archive.Slots.{Answer, probe-Answer}
use compiled_lua.Common.Name.{Name, name_eq}

-- A probe of the slots of a built index.
pub Slotted-Answer :
    {K : Type 0} (key_at : ℕ → K) (eq : K → K → Bool) (hash : K → ℕ)
    → ((a b : K) → (eq a b ≡ true) ↔ (a ≡ b))
    → (n size : ℕ) (slots : List ℕ) (k : K) → Slotted key_at eq hash n built slots size
    → (m : ℕ) × Answer key_at eq hash m slots n k (probe key_at eq hash slots size k)
Slotted-Answer key_at eq hash eq_iff n size slots k (m, pow, few, table) =
    (m, rw pow (probe-Answer key_at eq hash m eq_iff table k few))

module _ (a : Archive) (off : ℕ) where
  -- A lookup ends with the scan's answer, and counts some comparisons.
  abbrev MemberAnswered : Option (Option ℕ × Archive) → Type 0
  MemberAnswered o = (c : ℕ) × (o ≡ some (member_of a off, count_member a c))

  at_stop :
      (m : ℕ) (s : Stop)
      → Answer (hdr_off_at a) ◌==◌ ar_hash_u32 m a.mem_slots (length a.members) off s
      → MemberAnswered elim s [
        | running ↦ none
        | empty_at _ probes ↦ some (none, count_member a probes)
        | same_at j probes ↦ some (some j, count_member a probes)
      ]
  unfolding member_of
  at_stop m running answer = elim answer [ ]
  at_stop m (empty_at p c) answer =
      let e =
        first-Answer a.members no_member (λ x. x.hdr_off) ◌==◌ ar_hash_u32 m a.mem_slots off
          (empty_at p c) answer in
      (c, rw e refl)
  at_stop m (same_at j c) answer =
      let e =
        first-Answer a.members no_member (λ x. x.hdr_off) ◌==◌ ar_hash_u32 m a.mem_slots off
          (same_at j c) answer in
      (c, rw e refl)

  scan_member : MemberAnswered (linear_member a off)
  unfolding member_of first
  scan_member = (scanned (scan (λ m. m.hdr_off == off) a.members) (length a.members), refl)

  on_state :
      (s : IndexState)
      → Slotted (hdr_off_at a) ◌==◌ ar_hash_u32 (length a.members) s a.mem_slots a.mem_slot_cap
      → MemberAnswered elim s [
        | built ↦ indexed_member a off
        | not_built ↦ linear_member a off
        | no_index ↦ linear_member a off
      ]
  on_state not_built ready = scan_member
  on_state no_index ready = scan_member
  on_state built ready =
      let (m, answer) =
        Slotted-Answer (hdr_off_at a) ◌==◌ ar_hash_u32 ==_iff (length a.members) a.mem_slot_cap
          a.mem_slots off ready in
      at_stop m (probe (hdr_off_at a) ◌==◌ ar_hash_u32 a.mem_slots a.mem_slot_cap off) answer

-- The counters of `LcAr_MemberDefining` but one.
abbrev pub symbol_counts : Archive → ℕ × ℕ × ℕ
symbol_counts a = (a.stats.queries, a.stats.matched, a.stats.hits)

-- The contents alone decide the answers of the scans.
pub member_of-Keeps : (a b : Archive) (off : ℕ) → Keeps a b → member_of b off ≡ member_of a off
unfolding member_of
member_of-Keeps a b off keeps = ap (first (λ m. m.hdr_off == off)) keeps.same_members

pub symbol_of-Keeps :
    (a b : Archive) (symbol : Name) → Keeps a b → symbol_of b symbol ≡ symbol_of a symbol
unfolding symbol_of
symbol_of-Keeps a b symbol keeps = ap (first (λ s. name_eq s.symname symbol)) keeps.same_index

module _ (calloc : ℕ → Bool) (a : Archive) where
  indexed_lookup :
      (off : ℕ) (b : Archive)
      → with_mem_index calloc a ≡ some b
      → IsReady b
      → (c : ℕ) × (member_by_hdr_off calloc a off ≡ some (member_of b off, count_member b c))
  unfolding member_by_hdr_off
  indexed_lookup off b run ready =
      let (c, answered) = on_state b off b.mem_index_state ready.mem_ready in
      (c, rw (run, member_by_hdr_off) answered)

  -- From every archive whose indexes are right or not built, and whatever memory the index
  -- gets, `LcAr_MemberByHdrOff` ends with the first member that has the header offset; it counts
  -- one member lookup and changes no member, no symbol and no counter of symbol queries, and the
  -- indexes stay right.
  pub member_by_hdr_off_lem :
      (off : ℕ)
      → IsReady a
      → (b : Archive) × ((member_by_hdr_off calloc a off ≡ some (member_of a off, b))
          × IsReady b
          × Keeps a b
          × (symbol_counts b ≡ symbol_counts a)
          × (b.stats.mem_lookups ≡ add64 a.stats.mem_lookups 1))
  unfolding count_member
  member_by_hdr_off_lem off ready =
      let (b, (run, ready', keeps, counts)) = with_mem_index-Built calloc a ready in
      let (c, found) = indexed_lookup off b run ready' in
      (
        count_member b c,
        (
          found ∙ ap (λ r. some (r, count_member b c)) (member_of-Keeps a b off keeps),
          record { sym_ready = ready'.sym_ready; mem_ready = ready'.mem_ready },
          record {
            same_buf = keeps.same_buf;
            same_members = keeps.same_members;
            same_index = keeps.same_index;
          },
          ap (λ (s : Stats). (s.queries, s.matched, s.hits)) counts,
          ap (λ (s : Stats). add64 s.mem_lookups 1) counts,
        ),
      )
