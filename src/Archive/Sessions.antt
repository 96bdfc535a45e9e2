-- ===== src/Archive/Sessions.antt =====
-- Sequences of queries of one archive: clua/src/link/ar_read.c.
use compiled_lua.Common.{ℕ}
use compiled_lua.Common.{◌≡◌, refl, Bool}
use compiled_lua.Common.{Option, some, List, [], ◌∷◌, map}
use compiled_lua.Common.{◌>>=◌}
use compiled_lua.Archive.Data.{IndexState, not_built, built, no_index, Archive}
use compiled_lua.Archive.Index.{IsReady, Keeps, Keeps-trans, Slotted}
use compiled_lua.Archive.Lookup.{member_defining}
use compiled_lua.Archive.Scan.{defining_of}
use compiled_lua.Common.Name.{Name}
use compiled_lua.Archive.Queries.{member_defining_lem, defining_of-Keeps}

-- Queries one after another, as the linker makes them.
unfoldable pub query_all : (ℕ → Bool) → Archive → List Name → Option (List (Option ℕ) × Archive)
query_all calloc a [] = some ([], a)
query_all calloc a (s ∷ ss) = do
  (found, b) ← member_defining calloc a s
  (rest, c) ← query_all calloc b ss
  some (found ∷ rest, c)

-- An archive as `LcAr_Open` leaves it: no index is built.
abbrev pub IsUnqueried : Archive → Type 0
IsUnqueried a = (a.sym_index_state ≡ not_built) × (a.mem_index_state ≡ not_built)

no_slots :
    {K : Type 0} (key_at : ℕ → K) (eq : K → K → Bool) (hash : K → ℕ) (n : ℕ) (s : IndexState)
    (slots : List ℕ) (size : ℕ)
    → s ≡ not_built
    → Slotted key_at eq hash n s slots size
no_slots key_at eq hash n not_built slots size e = tt
no_slots key_at eq hash n no_index slots size e = tt
no_slots key_at eq hash n built slots size e = cc

unqueried-IsReady : (a : Archive) → IsUnqueried a → IsReady a
unqueried-IsReady a (no_sym, no_mem) = record {
  sym_ready = no_slots _ _ _ _ a.sym_index_state a.sym_slots a.sym_slot_cap no_sym;
  mem_ready = no_slots _ _ _ _ a.mem_index_state a.mem_slots a.mem_slot_cap no_mem;
}

-- What a run of queries leaves.
abbrev AllQueried : Archive → List Name → Option (List (Option ℕ) × Archive) → Type 0
AllQueried a symbols o =
    (b : Archive) × ((o ≡ some (map (defining_of a) symbols, b)) × IsReady b × Keeps a b)

defining_all-Keeps :
    (a b : Archive) (ss : List Name) → Keeps a b → map (defining_of b) ss ≡ map (defining_of a) ss
defining_all-Keeps a b [] keeps = refl
defining_all-Keeps a b (s ∷ ss) keeps =
    rw (defining_of-Keeps a b s keeps, defining_all-Keeps a b ss keeps)

query_next :
    (calloc : ℕ → Bool) (a b : Archive) (s : Name) (ss : List Name)
    → member_defining calloc a s ≡ some (defining_of a s, b)
    → Keeps a b
    → AllQueried b ss (query_all calloc b ss)
    → AllQueried a (s ∷ ss) (query_all calloc a (s ∷ ss))
unfolding query_all
query_next calloc a b s ss run keeps (c, (rest, ready, keeps')) =
    let same = defining_all-Keeps a b ss keeps in
    (c, (rw (run, rest, same), ready, Keeps-trans keeps keeps'))

query_all-ready :
    (calloc : ℕ → Bool) (a : Archive) (symbols : List Name)
    → IsReady a
    → AllQueried a symbols (query_all calloc a symbols)
unfolding query_all
query_all-ready calloc a [] ready =
    (a, (refl, ready, record { same_buf = refl; same_members = refl; same_index = refl }))
query_all-ready calloc a (s ∷ ss) ready =
    let (b, (run, ready', keeps, _)) = member_defining_lem calloc a s ready in
    query_next calloc a b s ss run keeps (query_all-ready calloc b ss ready')

-- Every sequence of `LcAr_MemberDefining` calls on an archive with no index built yet ends, and
-- each call answers with what the linear scans of that archive answer; the members and the
-- symbols stay as they are.
pub query_all_lem :
    (calloc : ℕ → Bool) (a : Archive) (symbols : List Name)
    → IsUnqueried a
    → (b : Archive) × ((query_all calloc a symbols ≡ some (map (defining_of a) symbols, b))
        × IsReady b
        × Keeps a b)
query_all_lem calloc a symbols fresh = query_all-ready calloc a symbols (unqueried-IsReady a fresh)
