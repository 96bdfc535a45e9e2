-- ===== src/Archive/Queries.antt =====
-- Queries for symbols: `LcAr_MemberDefining` of clua/src/link/ar_read.c.
use compiled_lua.Common.{ℕ}
use compiled_lua.Common.{◌≡◌, refl, ap, ◌∙◌, Bool, true, false}
use compiled_lua.Common.{Option, none, some, List}
use compiled_lua.Common.{◌>>=◌, ltb, ◌==◌, if◌then◌else◌}
use compiled_lua.Common.{length, get_or}
use compiled_lua.Archive.Data.{
  Member, Symbol, Stats, IndexState, not_built, built, no_index, Archive, ar_hash_name, symname_at,
  add64, no_symbol,
}
use compiled_lua.Archive.Index.{
  IsReady, Keeps, Keeps-trans, Slotted, names_iff, with_sym_index-Built,
}
use compiled_lua.Archive.Lookup.{
  with_sym_index, indexed_defining, linear_defining, member_by_hdr_off, member_defining,
  count_symbol, scanned, scan, is_found, flag,
}
use compiled_lua.Archive.Probe.{Stop, running, empty_at, same_at, probe}
use compiled_lua.Archive.Scan.{first, first-Answer, member_of, symbol_of, defining_of}
use compiled_lua.Archive.Slots.{Answer}
use compiled_lua.Common.Name.{Name, name_eq}
use compiled_lua.Archive.Answers.{
  Slotted-Answer, symbol_of-Keeps, symbol_counts, member_by_hdr_off_lem,
}

-- One query more, a match where there is an entry and a hit where there is a member.
abbrev pub counts_after : Stats → Option ℕ → Option ℕ → ℕ × ℕ × ℕ
counts_after s entry member = (
  add64 s.queries 1,
  add64 s.matched (flag (is_found entry)),
  add64 s.hits (flag (is_found member)),
)

-- What a query of the archive a answers, and its counters after it.
abbrev pub Queried : Archive → Name → Option (Option ℕ × Archive) → Type 0
Queried a symbol o =
    (b : Archive) × ((o ≡ some (defining_of a symbol, b))
      × IsReady b
      × Keeps a b
      × (symbol_counts b ≡ counts_after a.stats (symbol_of a symbol) (defining_of a symbol)))

-- The counters of one query.
abbrev counted : ℕ × ℕ × ℕ → Bool → Bool → ℕ × ℕ × ℕ
counted (q, m, h) matched found = (add64 q 1, add64 m (flag matched), add64 h (flag found))

module _ (calloc : ℕ → Bool) (a : Archive) (ready : IsReady a) (symbol : Name) where
  matched_at :
      (i c : ℕ)
      → symbol_of a symbol ≡ some i
      → Queried a symbol (
          member_by_hdr_off calloc a (get_or a.index i no_symbol).member_off >>= λ r.
          some (r.0, count_symbol r.1 c true (is_found r.0)))
  unfolding count_symbol defining_of
  matched_at i c at_i =
      let off = (get_or a.index i no_symbol).member_off in
      let (b, (run, ready', keeps, counts, _)) = member_by_hdr_off_lem calloc a off ready in
      let found : defining_of a symbol ≡ member_of a off = rw (at_i, defining_of) refl in
      (
        count_symbol b c true (is_found (member_of a off)),
        (
          rw (run, found) refl,
          record { sym_ready = ready'.sym_ready; mem_ready = ready'.mem_ready },
          record {
            same_buf = keeps.same_buf;
            same_members = keeps.same_members;
            same_index = keeps.same_index;
          },
          rw (found, at_i) (ap (λ s. counted s true (is_found (member_of a off))) counts),
        ),
      )

  missed :
      (c : ℕ)
      → symbol_of a symbol ≡ none
      → Queried a symbol (some (none, count_symbol a c false false))
  unfolding count_symbol defining_of
  missed c at_none =
      let found : defining_of a symbol ≡ none = rw (at_none, defining_of) refl in
      (
        count_symbol a c false false,
        (
          rw found refl,
          record { sym_ready = ready.sym_ready; mem_ready = ready.mem_ready },
          record { same_buf = refl; same_members = refl; same_index = refl },
          rw (found, at_none) refl,
        ),
      )

  at_exit :
      (i : ℕ) (inside : Bool)
      → symbol_of a symbol ≡ (if inside then some i else none)
      → Queried a symbol elim inside [
        | false ↦ some (none, count_symbol a (scanned i (length a.index)) false false)
        | true ↦ member_by_hdr_off calloc a (get_or a.index i no_symbol).member_off >>= λ r.
            some (r.0, count_symbol r.1 (scanned i (length a.index)) true (is_found r.0))
      ]
  at_exit i true e = matched_at i (scanned i (length a.index)) e
  at_exit i false e = missed (scanned i (length a.index)) e

  query_linear : Queried a symbol (linear_defining calloc a symbol)
  unfolding symbol_of first
  query_linear =
      let i = scan (λ s. name_eq s.symname symbol) a.index in
      at_exit i (ltb i (length a.index)) refl

  query_stop :
      (m : ℕ) (s : Stop)
      → Answer (symname_at a) name_eq ar_hash_name m a.sym_slots (length a.index) symbol s
      → Queried a symbol elim s [
        | running ↦ none
        | empty_at _ probes ↦ some (none, count_symbol a probes false false)
        | same_at i probes ↦
            member_by_hdr_off calloc a (get_or a.index i no_symbol).member_off >>= λ r.
            some (r.0, count_symbol r.1 probes true (is_found r.0))
      ]
  unfolding symbol_of
  query_stop m running answer = elim answer [ ]
  query_stop m (empty_at p c) answer = missed c (
      first-Answer a.index no_symbol (λ x. x.symname) name_eq ar_hash_name m a.sym_slots symbol
        (empty_at p c) answer)
  query_stop m (same_at i c) answer = matched_at i c (
      first-Answer a.index no_symbol (λ x. x.symname) name_eq ar_hash_name m a.sym_slots symbol
        (same_at i c) answer)

  query_state :
      (s : IndexState)
      → Slotted (symname_at a) name_eq ar_hash_name (length a.index) s a.sym_slots a.sym_slot_cap
      → Queried a symbol elim s [
        | built ↦ indexed_defining calloc a symbol
        | not_built ↦ linear_defining calloc a symbol
        | no_index ↦ linear_defining calloc a symbol
      ]
  query_state not_built slotted = query_linear
  query_state no_index slotted = query_linear
  query_state built slotted =
      let (m, answer) =
        Slotted-Answer (symname_at a) name_eq ar_hash_name names_iff (length a.index) a.sym_slot_cap
          a.sym_slots symbol slotted in
      query_stop m (probe (symname_at a) name_eq ar_hash_name a.sym_slots a.sym_slot_cap symbol)
        answer

  indexed_query :
      (b : Archive)
      → with_sym_index calloc b ≡ some a
      → Queried a symbol (member_defining calloc b symbol)
  unfolding member_defining
  indexed_query b run = rw (run, member_defining) (query_state a.sym_index_state ready.sym_ready)

defining_in : List Member → List Symbol → Name → Option ℕ
defining_in members index symbol = do
  i ← first (λ s. name_eq s.symname symbol) index
  first (λ m. m.hdr_off == (get_or index i no_symbol).member_off) members

pub defining_of-Keeps :
    (a b : Archive) (symbol : Name) → Keeps a b → defining_of b symbol ≡ defining_of a symbol
unfolding defining_of symbol_of member_of defining_in
defining_of-Keeps a b symbol keeps =
    ap (λ ms. defining_in ms b.index symbol) keeps.same_members
    ∙ ap (λ ix. defining_in a.members ix symbol) keeps.same_index

query_before :
    (a b : Archive) (symbol : Name) (o : Option (Option ℕ × Archive))
    → Keeps a b
    → b.stats ≡ a.stats
    → Queried b symbol o
    → Queried a symbol o
query_before a b symbol o keeps counts (c, (done, ready, keeps', counts')) =
    let same = defining_of-Keeps a b symbol keeps in
    (
      c,
      (
        done ∙ ap (λ r. some (r, c)) same,
        ready,
        Keeps-trans keeps keeps',
        counts'
            ∙ ap (λ s. counts_after s (symbol_of b symbol) (defining_of b symbol)) counts
            ∙ ap (λ e. counts_after a.stats e (defining_of b symbol))
                (symbol_of-Keeps a b symbol keeps)
            ∙ ap (counts_after a.stats (symbol_of a symbol)) same,
      ),
    )

-- From every archive whose indexes are right or not built, and whatever memory the indexes get,
-- `LcAr_MemberDefining` ends with the member that the first entry of that name points at, or none
-- where that entry points at no member, as the linear scan does; it counts one query, a match
-- where the name is in the index and a hit where it answers with a member, and it changes no
-- member and no symbol; the indexes stay right.
pub member_defining_lem :
    (calloc : ℕ → Bool) (a : Archive) (symbol : Name)
    → IsReady a
    → Queried a symbol (member_defining calloc a symbol)
member_defining_lem calloc a symbol ready =
    let (b, (run, ready', keeps, counts)) = with_sym_index-Built calloc a ready in
    query_before a b symbol (member_defining calloc a symbol) keeps counts
      (indexed_query calloc b ready' symbol a run)
