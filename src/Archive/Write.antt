-- ===== src/Archive/Write.antt =====
-- Writing an archive of one object: clua/src/link/ar_write.c, from the object's bytes and
-- the symbols that were parsed from them.
use compiled_lua.Common.{ℕ, zero, suc, ◌+◌, ◌-◌, ◌*◌, ◌/◌, ◌%◌, ◌^◌, bit_and}
use compiled_lua.Common.{Bool, true, false, not, ◌&&◌}
use compiled_lua.Common.{List, [], ◌∷◌, ◌++◌}
use compiled_lua.Common.{ltb, leb, ◌==◌, if◌then◌else◌}
use compiled_lua.Common.{length, take, replicate}
use compiled_lua.Archive.Header.{Opened, opened, failed, overrun, ar_magic, ar_hdr_len}
use compiled_lua.Common.Int.{ℤ, pos, negsuc}
use compiled_lua.Common.Name.{Name, codes}

-- The fields of LcCoffSymbol that the writer reads.
pub record CoffSymbol : Type 0 where
  pub name : Name
  pub section : ℤ
  pub storage : ℕ

-- section >= 1
abbrev is_defined : ℤ → Bool
is_defined (pos n) = ltb 0 n
is_defined (negsuc n) = false

abbrev is_empty : Name → Bool
is_empty [] = true
is_empty (c ∷ cs) = false

-- LC_IMAGE_SYM_CLASS_EXTERNAL, a section, and a name; a slot of an aux record has a negative
-- section.
unfoldable pub is_public : CoffSymbol → Bool
is_public s = s.storage == 2 && is_defined s.section && not (is_empty s.name)

-- The first pass: the names of the symbols that are kept.
unfoldable pub public_names : List CoffSymbol → List Name
public_names [] = []
public_names (s ∷ ss) = let rest = public_names ss in if is_public s then s.name ∷ rest else rest

-- `put_be32`
abbrev pub put_be32 : ℕ → List ℕ
put_be32 v = v / 2 ^ 24 % 256 ∷ v / 2 ^ 16 % 256 ∷ v / 2 ^ 8 % 256 ∷ v % 256 ∷ []

-- `fill_field`
abbrev pub fill_field : ℕ → List ℕ → List ℕ
fill_field width text = take width text ++ replicate (width - length text) 32

-- `%u`, with n digits at most
unfoldable pub decimal : ℕ → ℕ → List ℕ
decimal zero v = []
decimal (suc n) v =
    let more = decimal n (v / 10) in if ltb v 10 then (48 + v) ∷ [] else more ++ (48 + v % 10) ∷ []

-- `fill_dec`; a word of 32 bits has ten digits at most
unfoldable pub fill_dec : ℕ → ℕ → List ℕ
fill_dec width v = fill_field width (decimal 10 v)

-- The 60 bytes of a member's header.
abbrev pub member_header : List ℕ → List ℕ → ℕ → List ℕ
member_header name mode size =
    fill_field 16 name
    ++ fill_field 12 (codes "0")
    ++ fill_field 6 (codes "0")
    ++ fill_field 6 (codes "0")
    ++ fill_field 8 mode
    ++ fill_dec 10 size
    ++ 96 ∷ 10 ∷ []

-- The byte that makes a size even.
abbrev pub pad : ℕ → List ℕ
pad n = if bit_and n 1 == 0 then [] else 10 ∷ []

unfoldable pub name_bytes : List Name → List ℕ
name_bytes [] = []
name_bytes (n ∷ ns) = n ++ 0 ∷ name_bytes ns

unfoldable pub offset_bytes : ℕ → List Name → List ℕ
offset_bytes off [] = []
offset_bytes off (n ∷ ns) = put_be32 off ++ offset_bytes off ns

-- armap_payload_len, before the cast to 32 bits
abbrev pub armap_len : List Name → ℕ
armap_len names = 4 + 4 * length names + length (name_bytes names)

-- coff_hdr_off, before the cast
abbrev pub coff_hdr_off : List Name → ℕ
coff_hdr_off names = 8 + ar_hdr_len + armap_len names + length (pad (armap_len names))

-- The payload of the symbol index.
abbrev pub armap : List Name → List ℕ
armap names = put_be32 (length names) ++ offset_bytes (coff_hdr_off names) names ++ name_bytes names

-- The buffer that is written.
unfoldable pub archive_bytes : List Name → List ℕ → List ℕ
archive_bytes names obj =
    ar_magic
    ++ member_header (codes "/") (codes "0") (armap_len names)
    ++ armap names
    ++ pad (armap_len names)
    ++ member_header (codes "obj.o/") (codes "644") (length obj % 2 ^ 32)
    ++ obj
    ++ pad (length obj)

-- `LcArWrite_SingleMemberObject`, from the parsed object to the bytes of the file; `alloc` answers
-- for the output buffer. Where the offset of the object
-- does not fit 32 bits, the index is written past the end of the buffer.
unfoldable pub write_archive : (ℕ → Bool) → List CoffSymbol → List ℕ → Opened (List ℕ)
write_archive alloc symbols obj =
    let names = public_names symbols in
    let bytes = archive_bytes names obj in
    if leb (2 ^ 32) (coff_hdr_off names)
    then overrun
    else if not (alloc (length bytes))
    then failed
    else opened bytes
