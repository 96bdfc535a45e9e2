-- ===== src/Archive/Reopen.antt =====
-- What `LcAr_Open` of clua/src/link/ar_read.c makes of the file that
-- clua/src/link/ar_write.c writes.
use compiled_lua.Common.{ℕ, suc, ◌+◌, ◌-◌, ◌^◌, ◌≤◌, ◌<◌, bit_and}
use compiled_lua.Common.{◌≡◌, refl, sym, ap, ◌∙◌, inl, inr, Bool, true, false}
use compiled_lua.Common.{none, some, List, [], ◌∷◌, ◌++◌, arith}
use compiled_lua.Common.{◌==◌, if◌then◌else◌, Bool-cases}
use compiled_lua.Common.{length, get_or, take, drop}
use compiled_lua.Archive.Data.{Archive}
use compiled_lua.Archive.Header.{
  opened, ar_magic, bytes_at, msize_at, next_off, find_longnames, member_name, short_name,
}
use compiled_lua.Archive.Layout.{
  head, headed, before_obj, after_index, index_header, obj_size, index_shape, obj_shape,
  armap_shape, payload_shape, length-index_header, length-before_obj, length-before_payload,
  length-archive_bytes, drop_at, bytes_at-append, msize_at-headed, get_or-headed, length-armap,
}
use compiled_lua.Archive.Open.{fresh, open_header, collect, ftell, too_small, open_archive}
use compiled_lua.Archive.Opening.{too_small-ftell}
use compiled_lua.Archive.Passes.{
  long_mark, find_plain, find_end, collect_plain, collect_end, header_index, header_member,
}
use compiled_lua.Archive.ReadBack.{symbols_at, armap-count, armap-symbols}
use compiled_lua.Archive.Write.{member_header, pad, armap_len, coff_hdr_off, armap, archive_bytes}
use compiled_lua.Common.Name.{AllText, up_to_zero, Name, codes, name_eq}

length-pad : (n : ℕ) → length (pad n) ≡ (if bit_and n 1 == 0 then 0 else 1)
length-pad n = elim (Bool-cases (bit_and n 1 == 0)) [ inl e ↦ rw e | inr e ↦ rw e ]

module _ (names : List Name) (obj : List ℕ) where
  -- The archive that holds the object under the names.
  abbrev pub library : Archive
  library =
      let off = coff_hdr_off names in
      record (fresh (archive_bytes names obj)) {
        members =
            record { name = codes "obj.o"; data_off = off + 60; size = length obj; hdr_off = off }
            ∷ [];
        index = symbols_at off names;
      }

  module _ (small : length (archive_bytes names obj) < 2 ^ 31) where
    m : List ℕ
    m = archive_bytes names obj

    off : ℕ
    off = coff_hdr_off names

    sizes : (off + 60 + length obj ≤ length m) × (armap_len names < 2 ^ 32) × (length obj < 2 ^ 32)
    unfolding m off
    sizes =
        let total = length-archive_bytes names obj in
        (omega (arith, total), omega (arith, total, small), omega (arith, total, small))

    same_size : obj_size names obj ≡ length obj
    same_size = omega (arith, sizes.2)

    obj_head : List ℕ
    obj_head = head (codes "obj.o/") (codes "644")

    payload : List ℕ
    payload = obj ++ pad (length obj)

    at_off : m ≡ before_obj names obj ++ headed obj_head (obj_size names obj) payload
    unfolding m obj_head payload
    at_off = obj_shape names obj

    place : off ≡ length (before_obj names obj)
    unfolding off
    place = sym (length-before_obj names obj)

    index_size : msize_at m 8 ≡ armap_len names
    unfolding m
    index_size =
        ap (λ t. msize_at t 8) (index_shape names obj)
        ∙ msize_at-headed ar_magic (head (codes "/") (codes "0"))
            (armap names ++ after_index names obj) (armap_len names) refl sizes.1

    member_size : msize_at m off ≡ length obj
    unfolding obj_head
    member_size =
        ap (λ t. msize_at t off) at_off
        ∙ ap (msize_at (before_obj names obj ++ headed obj_head (obj_size names obj) payload)) place
        ∙ msize_at-headed (before_obj names obj) obj_head payload (obj_size names obj) refl
            (omega (arith, same_size, sizes.2))
        ∙ same_size

    member_byte : (i : ℕ) → i < 48 → get_or m (off + i) 0 ≡ get_or obj_head i 0
    unfolding obj_head
    member_byte i h =
        ap (λ t. get_or t (off + i) 0) at_off
        ∙ ap
            (λ k.
              get_or (before_obj names obj ++ headed obj_head (obj_size names obj) payload) (k + i)
                0)
            place
        ∙ get_or-headed (before_obj names obj) obj_head payload (obj_size names obj) i h

    index_next : next_off 8 (armap_len names) ≡ off
    unfolding off
    index_next = omega (arith, length-pad (armap_len names))

    member_next : next_off off (length obj) ≡ length m
    unfolding off m
    member_next = omega (arith, length-pad (length obj), length-archive_bytes names obj)

    index_byte :
        (i b : ℕ)
        → get_or
            (ar_magic
              ++ headed
                  (head (codes "/") (codes "0"))
                  (armap_len names)
                  (armap names ++ after_index names obj))
            (8 + i)
            0
          ≡ b
        → get_or m (8 + i) 0 ≡ b
    unfolding m
    index_byte i b h = ap (λ t. get_or t (8 + i) 0) (index_shape names obj) ∙ h

    index_pool : take (armap_len names) (drop 68 m) ≡ armap names
    unfolding m
    index_pool =
        let before = ar_magic ++ index_header names obj in
        ap (λ t. bytes_at t 68 (armap_len names)) (armap_shape names obj)
        ∙ ap (λ k. bytes_at (before ++ (armap names ++ after_index names obj)) k (armap_len names))
            (sym (length-index_header names obj))
        ∙ bytes_at-append before (armap names) (after_index names obj) (armap_len names)
            (length-armap names)

    pub payload_bytes :
        bytes_at (archive_bytes names obj) (coff_hdr_off names + 60) (length obj) ≡ obj
    payload_bytes =
        let before =
          before_obj names obj
          ++ member_header (codes "obj.o/") (codes "644") (obj_size names obj) in
        ap (λ t. bytes_at t (coff_hdr_off names + 60) (length obj)) (payload_shape names obj)
        ∙ ap (λ k. bytes_at (before ++ (obj ++ pad (length obj))) k (length obj))
            (sym (length-before_payload names obj))
        ∙ bytes_at-append before obj (pad (length obj)) (length obj) refl

    object_name : member_name m none off ≡ some (codes "obj.o")
    unfolding member_name short_name up_to_zero obj_head
    object_name =
        ap (λ t. some (up_to_zero (short_name (bytes_at t off 16)))) at_off
        ∙ ap
            (λ k. some (
              up_to_zero (
                short_name (
                  bytes_at (before_obj names obj ++ headed obj_head (obj_size names obj) payload) k
                    16))))
            place
        ∙ ap (λ t. some (up_to_zero (short_name (take 16 t))))
            (drop_at (before_obj names obj) (headed obj_head (obj_size names obj) payload))

    index_c0 : get_or m 8 0 ≡ 47
    index_c0 = index_byte 0 47 refl

    index_c1 : get_or m 9 0 ≡ 32
    index_c1 = index_byte 1 32 refl

    member_c0 : get_or m off 0 ≡ 111
    unfolding obj_head
    member_c0 =
        let here : off ≡ off + 0 = omega arith in
        ap (λ k. get_or m k 0) here ∙ member_byte 0 (omega arith)

    mark_index : long_mark m 8 ≡ false
    mark_index = rw (index_c0, index_c1)

    mark_member : long_mark m off ≡ false
    mark_member = rw member_c0

    total : length m ≡ suc (suc (suc (length m - 3)))
    unfolding off
    total = omega (arith, sizes.0)

    before_off : 68 + armap_len names ≤ off
    unfolding off
    before_off = omega arith

    off_small : off < 2 ^ 32
    unfolding m
    off_small = omega (arith, sizes.0, small)

    longnames_none : find_longnames (length m) m 8 none ≡ some none
    longnames_none =
        let k = length m - 3 in
        let inside = sizes.0 in
        let first : 8 + 60 ≤ length m = omega (arith, inside, before_off) in
        ap (λ n. find_longnames n m 8 none) total
        ∙ find_plain m (suc (suc k)) 8 (armap_len names) off first mark_index index_size index_next
        ∙ find_plain m (suc k) off (length obj) (length m) (omega (arith, inside)) mark_member
            member_size member_next
        ∙ find_end m k (length m) none (omega arith)

    module _ (alloc : ℕ → Bool) (memory : (k : ℕ) → alloc k ≡ true) (text : AllText names) where
      with_index : Archive
      with_index = record (fresh m) { index = symbols_at off names }

      index_entered :
          open_header alloc m none 8 (armap_len names) (fresh m) 0 ≡ opened (with_index, 0)
      unfolding with_index off
      index_entered =
          header_index m alloc none 8 (armap_len names) (length names) 0 (fresh m) (armap names)
            (symbols_at off names) memory index_c0 index_c1 (omega arith) index_pool
            (armap-count names text off_small) (armap-symbols names text off_small)

      done : Archive
      done = record with_index {
        members =
            record { name = codes "obj.o"; data_off = off + 60; size = length obj; hdr_off = off }
            ∷ [];
      }

      member_entered : open_header alloc m none off (length obj) with_index 0 ≡ opened (done, 32)
      unfolding with_index done
      member_entered =
          header_member m alloc none off (length obj) with_index (codes "obj.o") memory
            (λ e. omega (arith, e, member_c0)) off_small object_name

      collected : collect alloc m none (length m) 8 (fresh m) 0 ≡ opened done
      collected =
          let k = length m - 3 in
          ap (λ n. collect alloc m none n 8 (fresh m) 0) total
          ∙ collect_plain m alloc none (suc (suc k)) 8 (armap_len names) off (fresh m) with_index 0
              0 (omega (arith, sizes.0, before_off)) index_size index_next index_entered
          ∙ collect_plain m alloc none (suc k) off (length obj) (length m) with_index done 0 32
              sizes.0 member_size member_next member_entered
          ∙ collect_end m alloc none k (length m) done 32 (omega arith)

      -- A written archive is opened again, with the object's bytes and its names.
      pub open-archive_bytes :
          open_archive alloc (some (archive_bytes names obj)) ≡ opened (library)
      unfolding open_archive m off with_index done
      open-archive_bytes =
          let long : too_small (ftell (length m)) ≡ false =
            too_small-ftell (length m) (omega (arith, sizes.0, before_off)) small in
          let magic : name_eq (take 8 m) ar_magic ≡ true =
            ap (λ t. name_eq (take 8 t) ar_magic) (index_shape names obj) in
          rw (long, memory (length m), magic, longnames_none) collected
