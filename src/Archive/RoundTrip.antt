-- ===== src/Archive/RoundTrip.antt =====
-- From an object to an archive, and back through the reader: clua/src/link/ar_write.c and
-- clua/src/link/ar_read.c.
use compiled_lua.Common.{ℕ, zero, suc, ◌+◌, ◌^◌, ◌<◌}
use compiled_lua.Common.{◌≡◌, refl, ap, ◌∙◌, inl, inr, Bool, true, false, ◌||◌}
use compiled_lua.Common.{Option, none, some, List, [], ◌∷◌, map, arith}
use compiled_lua.Common.{◌>>=◌, ltb, leb, ◌==◌, if◌then◌else◌, ltb→lt, Bool-cases}
use compiled_lua.Common.{length, get_or}
use compiled_lua.Archive.Data.{Member, Archive, no_symbol}
use compiled_lua.Archive.Header.{opened, bytes_at}
use compiled_lua.Archive.Lookup.{scan}
use compiled_lua.Archive.Open.{open_archive}
use compiled_lua.Archive.Reopen.{library, payload_bytes, open-archive_bytes}
use compiled_lua.Archive.Layout.{length-archive_bytes}
use compiled_lua.Archive.ReadBack.{symbols_at}
use compiled_lua.Archive.Scan.{first, member_of, symbol_of, defining_of}
use compiled_lua.Archive.Sessions.{query_all, query_all_lem}
use compiled_lua.Archive.Write.{
  coff_hdr_off, archive_bytes, CoffSymbol, public_names, write_archive,
}
use compiled_lua.Common.Name.{AllText, Name, name_eq, codes}

-- Whether the symbol is one of the names.
abbrev pub is_among : Name → List Name → Bool
is_among symbol [] = false
is_among symbol (n ∷ ns) = name_eq n symbol || is_among symbol ns

scan-among :
    (off : ℕ) (names : List Name) (symbol : Name)
    → ltb
        (scan (λ s. name_eq s.symname symbol) (symbols_at off names))
        (length (symbols_at off names))
      ≡ is_among symbol names
unfolding scan
scan-among off [] symbol = refl
scan-among off (n ∷ ns) symbol = elim (Bool-cases (name_eq n symbol)) [
  | inl here ↦ rw here (ground arith)
  | inr differs ↦ rw differs (ground (arith, scan-among off ns symbol))
]

offset-symbols_at :
    (off : ℕ) (names : List Name) (i : ℕ)
    → i < length (symbols_at off names)
    → (get_or (symbols_at off names) i no_symbol).member_off ≡ off
offset-symbols_at off [] i h = elim h [ ]
offset-symbols_at off (n ∷ ns) zero h = refl
offset-symbols_at off (n ∷ ns) (suc i) h = offset-symbols_at off ns i (omega arith)

module _ (names : List Name) (obj : List ℕ) where
  only_member : member_of (library names obj) (coff_hdr_off names) ≡ some 0
  unfolding member_of first scan
  only_member =
      let same : (coff_hdr_off names == coff_hdr_off names) ≡ true = ground arith in rw same

  at_entry :
      (i : ℕ) (inside : Bool)
      → ltb i (length (symbols_at (coff_hdr_off names) names)) ≡ inside
      → ((if inside then some i else none) >>= λ j.
          member_of
            (library names obj)
            (get_or (symbols_at (coff_hdr_off names) names) j no_symbol).member_off)
        ≡ (if inside then some 0 else none)
  at_entry i false e = refl
  at_entry i true e =
      ap (member_of (library names obj)) (
        offset-symbols_at (coff_hdr_off names) names i
          (ltb→lt i (length (symbols_at (coff_hdr_off names) names)) e))
      ∙ only_member

  pub defining_of-library :
      (symbol : Name)
      → defining_of (library names obj) symbol ≡ (if is_among symbol names then some 0 else none)
  unfolding defining_of symbol_of first
  defining_of-library symbol =
      let entries = symbols_at (coff_hdr_off names) names in
      let i = scan (λ s. name_eq s.symname symbol) entries in
      at_entry i (ltb i (length entries)) refl
      ∙ ap (λ (b : Bool). if b then some 0 else none) (scan-among (coff_hdr_off names) names symbol)

map_answers :
    {f g : Name → Option ℕ}
    → ((s : Name) → f s ≡ g s)
    → (asked : List Name) → map f asked ≡ map g asked
map_answers same [] = refl
map_answers same (s ∷ ss) = rw (same s, map_answers same ss)

written :
    (alloc : ℕ → Bool) (symbols : List CoffSymbol) (obj : List ℕ)
    → ((k : ℕ) → alloc k ≡ true)
    → length (archive_bytes (public_names symbols) obj) < 2 ^ 32
    → write_archive alloc symbols obj ≡ opened (archive_bytes (public_names symbols) obj)
unfolding write_archive
written alloc symbols obj memory small =
    let names = public_names symbols in
    let total = length-archive_bytes names obj in
    let fits : leb (2 ^ 32) (coff_hdr_off names) ≡ false = ground (arith, total, small) in
    rw (fits, memory (length (archive_bytes names obj)))

-- For every object of which the archive stays below 2 GiB and whose public names are C strings,
-- with memory for every allocation: `LcArWrite_SingleMemberObject` makes the bytes of a file,
-- `LcAr_Open` opens that file, the one member holds the bytes of the object, and every sequence
-- of queries ends, each with that member where the symbol is one of the object's public names and
-- with none where it is not.
pub write-open_round_trip :
    (alloc : ℕ → Bool) (symbols : List CoffSymbol) (obj : List ℕ)
    → ((k : ℕ) → alloc k ≡ true)
    → length (archive_bytes (public_names symbols) obj) < 2 ^ 31
    → AllText (public_names symbols)
    → (bytes : List ℕ) × (a : Archive) × (x : Member) × ((write_archive alloc symbols obj
          ≡ opened bytes)
        × (open_archive alloc (some bytes) ≡ opened a)
        × (a.members ≡ x ∷ [])
        × (bytes_at bytes x.data_off x.size ≡ obj)
        × ((asked : List Name)
            → (b : Archive) × (query_all alloc a asked
                ≡ some (
                  map (λ s. if is_among s (public_names symbols) then some 0 else none) asked,
                  b,
                ))))
write-open_round_trip alloc symbols obj memory small text =
    let names = public_names symbols in
    let a = library names obj in
    (
      archive_bytes names obj,
      a,
      record {
        name = codes "obj.o";
        data_off = coff_hdr_off names + 60;
        size = length obj;
        hdr_off = coff_hdr_off names;
      },
      (
        written alloc symbols obj memory (omega arith),
        open-archive_bytes names obj small alloc memory text,
        refl,
        payload_bytes names obj small,
        λ asked.
            let (b, (run, _, _)) = query_all_lem alloc a asked (refl, refl) in
            (b, run ∙ ap (λ r. some (r, b)) (map_answers (defining_of-library names obj) asked)),
      ),
    )
