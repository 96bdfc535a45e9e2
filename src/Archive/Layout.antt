-- ===== src/Archive/Layout.antt =====
-- The layout of a written archive: clua/src/link/ar_write.c.
use compiled_lua.Common.{ℕ, ◌+◌, ◌*◌, ◌%◌, ◌^◌, ◌<◌}
use compiled_lua.Common.{◌≡◌, refl, sym, ap, ◌∙◌}
use compiled_lua.Common.{List, [], ◌∷◌, ◌++◌, append-nil, append_assoc, arith}
use compiled_lua.Common.{length, length-append, get_or, take, drop}
use compiled_lua.Common.{get_or-append_right, get_or-append_left, drop-append, take-append}
use compiled_lua.Archive.Decimal.{length-fill_dec, dec_field-fill_dec}
use compiled_lua.Archive.Header.{ar_magic, dec_field, bytes_at, msize_at}
use compiled_lua.Archive.Write.{
  fill_field, fill_dec, member_header, pad, name_bytes, offset_bytes, armap_len, coff_hdr_off,
  armap, archive_bytes,
}
use compiled_lua.Common.Name.{Name, codes}

-- A header up to its size field.
abbrev pub head : List ℕ → List ℕ → List ℕ
head name mode =
    fill_field 16 name
    ++ fill_field 12 (codes "0")
    ++ fill_field 6 (codes "0")
    ++ fill_field 6 (codes "0")
    ++ fill_field 8 mode

-- A header as its parts, before what follows it.
abbrev pub headed : List ℕ → ℕ → List ℕ → List ℕ
headed start size rest = start ++ (fill_dec 10 size ++ 96 ∷ 10 ∷ rest)

pub drop_at : (xs ys : List ℕ) → drop (length xs) (xs ++ ys) ≡ ys
drop_at xs ys =
    let e : length xs ≡ length xs + 0 = omega arith in
    ap (λ k. drop k (xs ++ ys)) e ∙ drop-append xs ys 0

pub bytes_at-append :
    (xs ys zs : List ℕ) (n : ℕ) → length ys ≡ n → bytes_at (xs ++ (ys ++ zs)) (length xs) n ≡ ys
bytes_at-append xs ys zs n size =
    ap (take n) (drop_at xs (ys ++ zs)) ∙ ap (λ k. take k (ys ++ zs)) (sym size) ∙ take-append ys zs

-- The size field of a header after `pre`.
pub msize_at-headed :
    (pre start rest : List ℕ) (size : ℕ)
    → length start ≡ 48
    → size < 2 ^ 32
    → msize_at (pre ++ headed start size rest) (length pre) ≡ size
msize_at-headed pre start rest size len fits =
    let place : length pre + 48 ≡ length (pre ++ start) =
      omega (arith, len, length-append pre start) in
    let split = sym (append_assoc pre start (fill_dec 10 size ++ 96 ∷ 10 ∷ rest)) in
    ap (λ m. msize_at m (length pre)) split
    ∙ ap (λ k. dec_field (bytes_at ((pre ++ start) ++ (fill_dec 10 size ++ 96 ∷ 10 ∷ rest)) k 10))
        place
    ∙ ap dec_field (
        bytes_at-append (pre ++ start) (fill_dec 10 size) (96 ∷ 10 ∷ rest) 10
          (length-fill_dec size))
    ∙ dec_field-fill_dec size fits

pub get_or-headed :
    (pre start rest : List ℕ) (size i : ℕ)
    → i < length start
    → get_or (pre ++ headed start size rest) (length pre + i) 0 ≡ get_or start i 0
get_or-headed pre start rest size i inside =
    get_or-append_right pre (headed start size rest) i 0
    ∙ get_or-append_left start (fill_dec 10 size ++ 96 ∷ 10 ∷ rest) i 0 inside

pub header_split :
    (name mode rest : List ℕ) (size : ℕ)
    → member_header name mode size ++ rest ≡ headed (head name mode) size rest
header_split name mode rest size = simp append_assoc

pub length-member_header :
    (name mode : List ℕ) (size : ℕ)
    → length (head name mode) ≡ 48
    → length (member_header name mode size) ≡ 60
length-member_header name mode size h =
    let whole = header_split name mode [] size in
    let all = append-nil (member_header name mode size) in
    let parts = length-append (head name mode) (fill_dec 10 size ++ 96 ∷ 10 ∷ []) in
    let last = length-append (fill_dec 10 size) (96 ∷ 10 ∷ []) in
    ap length (sym all ∙ whole) ∙ omega (arith, parts, last, h, length-fill_dec size)

pub length-offset_bytes : (off : ℕ) (ns : List Name) → length (offset_bytes off ns) ≡ 4 * length ns
unfolding offset_bytes
length-offset_bytes off [] = refl
length-offset_bytes off (n ∷ ns) = omega (arith, length-offset_bytes off ns)

pub length-armap : (names : List Name) → length (armap names) ≡ armap_len names
length-armap names =
    let off = coff_hdr_off names in
    omega (
      arith,
      length-append (offset_bytes off names) (name_bytes names),
      length-offset_bytes off names,
    )

seven_right :
    (a b c d e f g : List ℕ)
    → a ++ b ++ c ++ d ++ e ++ f ++ g ≡ a ++ (b ++ (c ++ (d ++ (e ++ (f ++ g)))))
seven_right a b c d e f g = simp append_assoc

six_right : (a b c d e f : List ℕ) → a ++ b ++ c ++ d ++ e ++ f ≡ a ++ (b ++ (c ++ (d ++ (e ++ f))))
six_right a b c d e f = simp append_assoc

four_right : (a b c d : List ℕ) → a ++ b ++ c ++ d ≡ a ++ (b ++ (c ++ d))
four_right a b c d = simp append_assoc

-- The parts of the file, each with what comes before it.
module _ (names : List Name) (obj : List ℕ) where
  abbrev pub index_header : List ℕ
  index_header = member_header (codes "/") (codes "0") (armap_len names)

  abbrev pub obj_size : ℕ
  obj_size = length obj % 2 ^ 32

  abbrev pub before_obj : List ℕ
  before_obj = ar_magic ++ index_header ++ armap names ++ pad (armap_len names)

  abbrev pub after_index : List ℕ
  after_index =
      pad (armap_len names)
      ++ (member_header (codes "obj.o/") (codes "644") obj_size ++ (obj ++ pad (length obj)))

  pub index_shape :
      archive_bytes names obj
      ≡ ar_magic
        ++ headed (head (codes "/") (codes "0")) (armap_len names) (armap names ++ after_index)
  unfolding archive_bytes
  index_shape =
      let tail = member_header (codes "obj.o/") (codes "644") obj_size in
      seven_right ar_magic index_header (armap names) (pad (armap_len names)) tail obj
        (pad (length obj))
      ∙ ap (λ t. ar_magic ++ t)
          (header_split (codes "/") (codes "0") (armap names ++ after_index) (armap_len names))

  pub obj_shape :
      archive_bytes names obj
      ≡ before_obj
        ++ headed (head (codes "obj.o/") (codes "644")) obj_size (obj ++ pad (length obj))
  unfolding archive_bytes
  obj_shape =
      let tail = member_header (codes "obj.o/") (codes "644") obj_size in
      four_right before_obj tail obj (pad (length obj))
      ∙ ap (λ t. before_obj ++ t)
          (header_split (codes "obj.o/") (codes "644") (obj ++ pad (length obj)) obj_size)

  pub armap_shape :
      archive_bytes names obj ≡ (ar_magic ++ index_header) ++ (armap names ++ after_index)
  unfolding archive_bytes
  armap_shape =
      let tail = member_header (codes "obj.o/") (codes "644") obj_size in
      six_right (ar_magic ++ index_header) (armap names) (pad (armap_len names)) tail obj
        (pad (length obj))

  pub payload_shape :
      archive_bytes names obj
      ≡ (before_obj ++ member_header (codes "obj.o/") (codes "644") obj_size)
        ++ (obj ++ pad (length obj))
  unfolding archive_bytes
  payload_shape =
      append_assoc (before_obj ++ member_header (codes "obj.o/") (codes "644") obj_size) obj
        (pad (length obj))

  pub length-index_header : length (ar_magic ++ index_header) ≡ 68
  length-index_header =
      length-append ar_magic index_header
      ∙ ap (λ n. 8 + n) (length-member_header (codes "/") (codes "0") (armap_len names) refl)

  pub length-before_obj : length before_obj ≡ coff_hdr_off names
  length-before_obj = omega (
    arith,
    length-append (ar_magic ++ index_header ++ armap names) (pad (armap_len names)),
    length-append (ar_magic ++ index_header) (armap names),
    length-index_header,
    length-armap names,
  )

  pub length-before_payload :
      length (before_obj ++ member_header (codes "obj.o/") (codes "644") obj_size)
      ≡ coff_hdr_off names + 60
  length-before_payload =
      let tail = member_header (codes "obj.o/") (codes "644") obj_size in
      let size : length tail ≡ 60 =
        length-member_header (codes "obj.o/") (codes "644") obj_size refl in
      omega (arith, length-append before_obj tail, length-before_obj, size)

  pub length-archive_bytes :
      length (archive_bytes names obj)
      ≡ coff_hdr_off names + 60 + length obj + length (pad (length obj))
  length-archive_bytes =
      let before = before_obj ++ member_header (codes "obj.o/") (codes "644") obj_size in
      ap length payload_shape
      ∙ omega (
        arith,
        length-append before (obj ++ pad (length obj)),
        length-append obj (pad (length obj)),
        length-before_payload,
      )
