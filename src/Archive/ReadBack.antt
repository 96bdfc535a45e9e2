-- ===== src/Archive/ReadBack.antt =====
-- Reading the parts of a written archive: clua/src/link/ar_write.c, then
-- clua/src/link/ar_read.c.
use compiled_lua.Common.{ℕ, zero, suc, ◌+◌, ◌*◌, ◌^◌, ◌<◌}
use compiled_lua.Common.{◌≡◌, refl, ap, ◌∙◌, true}
use compiled_lua.Common.{some, List, [], ◌∷◌, ◌++◌, append_assoc, arith}
use compiled_lua.Common.{ltb, lt→ltb}
use compiled_lua.Common.{length, length-append, drop}
use compiled_lua.Archive.Data.{Symbol}
use compiled_lua.Archive.Decimal.{be32-put_be32, be32-append_right}
use compiled_lua.Archive.Header.{opened, be32, read_symbols}
use compiled_lua.Archive.Layout.{drop_at, length-offset_bytes}
use compiled_lua.Archive.Write.{put_be32, name_bytes, offset_bytes, coff_hdr_off, armap}
use compiled_lua.Common.Name.{AllText, Name, c_string, c_string-append, IsText}

-- The symbol index that the names make, each at the header at `off`.
abbrev pub symbols_at : ℕ → List Name → List Symbol
symbols_at off [] = []
symbols_at off (n ∷ ns) = record { symname = n; member_off = off } ∷ symbols_at off ns

-- The i-th offset of the index.
be32-offset_bytes :
    (off : ℕ) (names : List Name) (rest : List ℕ) (i : ℕ)
    → off < 2 ^ 32
    → i < length names
    → be32 (offset_bytes off names ++ rest) (i * 4) ≡ off
unfolding offset_bytes
be32-offset_bytes off [] rest i fits inside = elim inside [ ]
be32-offset_bytes off (n ∷ ns) rest zero fits inside =
    be32-put_be32 off (offset_bytes off ns ++ rest) fits
be32-offset_bytes off (n ∷ ns) rest (suc i) fits inside =
    let place : suc i * 4 ≡ 4 + i * 4 = omega arith in
    let more = offset_bytes off ns ++ rest in
    ap (be32 (put_be32 off ++ more)) place
    ∙ be32-append_right (put_be32 off) more (i * 4)
    ∙ be32-offset_bytes off ns rest i fits (omega arith)

name_at :
    (pool pre : List ℕ) (n : Name) (rest : List ℕ) (pn : ℕ)
    → pool ≡ pre ++ (n ++ 0 ∷ rest)
    → pn ≡ length pre
    → IsText n
    → (ltb pn (length pool) ≡ true) × (c_string (drop pn pool) ≡ some n)
name_at pool pre n rest pn shape place text =
    let sizes = length-append pre (n ++ 0 ∷ rest) in
    let size = length-append n (0 ∷ rest) in
    let whole : length pool ≡ length (pre ++ (n ++ 0 ∷ rest)) = ap length shape in
    (
      lt→ltb pn (length pool) (omega (arith, sizes, size, whole, place)),
      ap (λ k. c_string (drop k pool)) place
          ∙ ap (λ m. c_string (drop (length pre) m)) shape
          ∙ ap c_string (drop_at pre (n ++ 0 ∷ rest))
          ∙ c_string-append n rest text,
    )

regroup : (pre n rest : List ℕ) → pre ++ (n ++ 0 ∷ rest) ≡ pre ++ (n ++ 0 ∷ []) ++ rest
regroup pre n rest = simp append_assoc

-- Reading the names from one place of the pool on.
pub read_symbols-names :
    (ns : List Name) (pool pre : List ℕ) (off i pn : ℕ)
    → AllText ns
    → pool ≡ pre ++ name_bytes ns
    → pn ≡ length pre
    → ((j : ℕ) → j < length ns → be32 pool (4 + (i + j) * 4) ≡ off)
    → read_symbols (length ns) pool i pn ≡ opened (symbols_at off ns)
unfolding read_symbols name_bytes
read_symbols-names [] pool pre off i pn text shape place offsets = refl
read_symbols-names (n ∷ ns) pool pre off i pn (t, ts) shape place offsets =
    let (inside, name) = name_at pool pre n (name_bytes ns) pn shape place t in
    let here : be32 pool (4 + i * 4) ≡ off =
      ap (λ k. be32 pool (4 + k * 4)) (omega arith) ∙ offsets 0 (omega arith) in
    let next : pn + length n + 1 ≡ length (pre ++ (n ++ 0 ∷ [])) =
      omega (arith, length-append pre (n ++ 0 ∷ []), length-append n (0 ∷ []), place) in
    let rest =
      read_symbols-names ns pool (pre ++ (n ++ 0 ∷ [])) off (i + 1) (pn + length n + 1) ts
        (shape ∙ regroup pre n (name_bytes ns)) next
        (λ j h.
          ap (λ k. be32 pool (4 + k * 4)) (omega arith) ∙ offsets (suc j) (omega (arith, h))) in
    rw (inside, name, rest, here)

-- The symbol index of a written archive.
module _ (names : List Name) (text : AllText names) (fits : coff_hdr_off names < 2 ^ 32) where
  pub armap-count : be32 (armap names) 0 ≡ length names
  armap-count =
      let small : length names < 2 ^ 32 = omega (arith, fits) in
      be32-put_be32 (length names) (offset_bytes (coff_hdr_off names) names ++ name_bytes names)
        small

  pub armap-symbols :
      read_symbols (length names) (armap names) 0 (4 + length names * 4)
      ≡ opened (symbols_at (coff_hdr_off names) names)
  armap-symbols =
      let off = coff_hdr_off names in
      let pre = put_be32 (length names) ++ offset_bytes off names in
      let len : 4 + length names * 4 ≡ length pre = omega (arith, length-offset_bytes off names) in
      read_symbols-names names (armap names) pre off 0 (4 + length names * 4) text refl len (λ j h.
        ap (λ k. be32 (armap names) (4 + k * 4)) (omega arith)
        ∙ be32-append_right (put_be32 (length names)) (offset_bytes off names ++ name_bytes names)
            (j * 4)
        ∙ be32-offset_bytes off names (name_bytes names) j fits h)
