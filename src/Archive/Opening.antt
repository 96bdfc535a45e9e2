-- ===== src/Archive/Opening.antt =====
-- `LcAr_Open` of clua/src/link/ar_read.c as a whole.
use compiled_lua.Common.{ℕ, zero, suc, ◌+◌, ◌*◌, ◌^◌, ◌≤◌, ◌<◌}
use compiled_lua.Common.{◌≡◌, refl, ◌⊎◌, inl, inr, Bool, true, false, not, ◌&&◌, ◌||◌}
use compiled_lua.Common.{none, some, List, arith}
use compiled_lua.Common.{ltb, leb, ◌==◌, if◌then◌else◌, leb→le, Bool-cases}
use compiled_lua.Common.{length, get_or, take}
use compiled_lua.Archive.Data.{Archive}
use compiled_lua.Archive.Header.{
  Opened, opened, failed, overrun, unfinished, and_then, ar_magic, ar_hdr_len, msize_at, next_off,
  LongNames, find_longnames,
}
use compiled_lua.Archive.Open.{fresh, open_header, collect, ftell, too_small, open_archive}
use compiled_lua.Archive.Places.{
  Sound, SoundHeader, SoundOpened, Sound-later, open_header-Sound, if_both,
}
use compiled_lua.Common.Name.{name_eq}

next_off-le : (off msize : ℕ) → off + ar_hdr_len + msize ≤ next_off off msize
next_off-le off msize = omega arith

-- A round for every header is enough for the first pass.
pub find_longnames-enough :
    (n : ℕ) (m : List ℕ) (off : ℕ) (ln : LongNames)
    → length m < off + 60 * n
    → 0 < n
    → (r : LongNames) × (find_longnames n m off ln ≡ some r)
unfolding find_longnames
find_longnames-enough zero m off ln h pos = absurd (omega (arith, pos))
find_longnames-enough (suc n) m off ln h pos =
    let msize = msize_at m off in
    let c2 = get_or m (off + 2) 0 in
    let special = get_or m off 0 == 47 && get_or m (off + 1) 0 == 47 && (c2 == 32 || c2 == 47) in
    let ln' = if special then some (off + ar_hdr_len, msize) else ln in
    let le = next_off-le off msize in
    elim (Bool-cases (leb (off + ar_hdr_len) (length m))) [
      | inl inside ↦
          let fits = leb→le (off + ar_hdr_len) (length m) inside in
          let (r, run) =
            find_longnames-enough n m (next_off off msize) ln' (omega (arith, h, le))
              (omega (arith, h, fits)) in
          (r, rw inside run)
      | inr out ↦ (ln, rw out refl)
    ]

module _ (alloc : ℕ → Bool) (m : List ℕ) (ln : LongNames) (small : length m < 2 ^ 32) where
  abbrev collect_rest : ℕ → ℕ → Opened (Archive × ℕ) → Opened Archive
  collect_rest n off o = and_then o (λ (b, capm). collect alloc m ln n off b capm)

  collect_rest-Sound :
      (n before off : ℕ) (o : Opened (Archive × ℕ))
      → before ≤ off
      → SoundHeader m before o
      → ((b : Archive) (capm : ℕ) → Sound m off b → SoundOpened m (collect alloc m ln n off b capm))
      → SoundOpened m (collect_rest n off o)
  collect_rest-Sound n before off (opened (b, capm)) le s rest =
      rest b capm (Sound-later m before off b le s)
  collect_rest-Sound n before off failed le s rest = tt
  collect_rest-Sound n before off overrun le s rest = tt
  collect_rest-Sound n before off unfinished le s rest = s

  collect-Sound :
      (n off capm : ℕ) (a : Archive)
      → length m < off + 60 * n
      → 0 < n
      → Sound m off a
      → SoundOpened m (collect alloc m ln n off a capm)
  unfolding collect
  collect-Sound zero off capm a h pos s = absurd (omega (arith, pos))
  collect-Sound (suc n) off capm a h pos (b, q, (end, before, inside, placed)) =
      let msize = msize_at m off in
      let header = open_header alloc m ln off msize a capm in
      let done : SoundOpened m (opened a) = (b, q, (end, inside, placed)) in
      let le = next_off-le off msize in
      elim (Bool-cases (leb (off + ar_hdr_len) (length m))) [
        | inr out ↦ rw out done
        | inl fits ↦ elim (Bool-cases (ltb (length m) (off + ar_hdr_len + msize))) [
          | inl cut ↦ rw (fits, cut) done
          | inr whole ↦
              let bound : off + ar_hdr_len + msize ≤ length m = ground arith in
              let fits' = leb→le (off + ar_hdr_len) (length m) fits in
              rw (fits, whole)
                (collect_rest-Sound n (off + ar_hdr_len + msize) (next_off off msize) header le
                  (open_header-Sound m alloc ln small off msize capm a bound
                    (b, q, (end, before, inside, placed)))
                  (λ b' capm' s'.
                    collect-Sound n (next_off off msize) capm' b' (omega (arith, h, le))
                      (omega (arith, h, fits')) s'))
        ]
      ]

-- A file is too small for `LcAr_Open`, or its size fits in a `long`.
size_cases :
    (n : ℕ)
    → (too_small (ftell n) ≡ true) ⊎ ((too_small (ftell n) ≡ false) × (8 < n) × (n < 2 ^ 31))
unfolding too_small ftell
size_cases n = elim (Bool-cases (ltb n (2 ^ 31))) [
  | inr large ↦ inl (rw large)
  | inl fits ↦ elim (Bool-cases (leb n 8)) [
    | inl short ↦ inl (rw (fits, short))
    | inr long ↦ inr (rw (fits, long), ground arith, ground arith)
  ]
]

-- The size of a file of more than 8 bytes and less than 2 GiB is one that `LcAr_Open` takes.
pub too_small-ftell : (n : ℕ) → 8 < n → n < 2 ^ 31 → too_small (ftell n) ≡ false
unfolding too_small ftell
too_small-ftell n long fits =
    let small : ltb n (2 ^ 31) ≡ true = ground arith in
    let more : leb n 8 ≡ false = ground arith in rw (small, more)

-- For every file below 4 GiB and every outcome of the allocations, both passes of `LcAr_Open`
-- end. An archive that it opens has no index built yet and keeps the file's bytes; its members
-- come in the file's order and do not overlap, the data of each follows its header of 60 bytes,
-- and all data lies inside the buffer, whatever the headers say.
pub open_archive-Sound :
    (alloc : ℕ → Bool) (m : List ℕ)
    → length m < 2 ^ 32
    → SoundOpened m (open_archive alloc (some m))
unfolding open_archive
open_archive-Sound alloc m small = elim (size_cases (length m)) [
  | inl short ↦ rw short tt
  | inr (long, size, _) ↦
      let (ln, found) =
        find_longnames-enough (length m) m 8 none (omega arith) (omega (arith, size)) in
      let start : Sound m 8 (fresh m) =
        (refl, (refl, refl), (8, omega arith, omega (arith, size), omega arith)) in
      rw (long, found)
        (if_both (SoundOpened m) (not (alloc (length m))) tt (
          if_both (SoundOpened m) (not (name_eq (take 8 m) ar_magic)) tt (
            collect-Sound alloc m ln small (length m) 8 0 (fresh m) (omega arith)
              (omega (arith, size)) start)))
]
