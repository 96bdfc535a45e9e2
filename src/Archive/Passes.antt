-- ===== src/Archive/Passes.antt =====
-- One header of each pass of `LcAr_Open`: clua/src/link/ar_read.c.
use compiled_lua.Common.{ℕ, suc, ◌+◌, ◌*◌, ◌%◌, ◌^◌, ◌≤◌, ◌<◌, max}
use compiled_lua.Common.{◌≡◌, refl, ◌≢◌, Bool, true, false, ◌&&◌, ◌||◌}
use compiled_lua.Common.{none, some, List, [], ◌∷◌, arith}
use compiled_lua.Common.{ltb, leb, ◌==◌}
use compiled_lua.Common.{length, get_or, take, drop}
use compiled_lua.Archive.Data.{Symbol, Archive}
use compiled_lua.Archive.Header.{
  opened, be32, msize_at, next_off, LongNames, find_longnames, member_name, read_symbols,
}
use compiled_lua.Archive.Open.{open_index, open_member, open_header, collect}
use compiled_lua.Common.Name.{Name}

module _ (m : List ℕ) where
  -- The bytes that mark the table of long names.
  abbrev pub long_mark : ℕ → Bool
  long_mark off =
      get_or m off 0 == 47
      && get_or m (off + 1) 0 == 47
      && (get_or m (off + 2) 0 == 32 || get_or m (off + 2) 0 == 47)

  pub find_plain :
      (n off msize next : ℕ)
      → off + 60 ≤ length m
      → long_mark off ≡ false
      → msize_at m off ≡ msize
      → next_off off msize ≡ next
      → find_longnames (suc n) m off none ≡ find_longnames n m next none
  unfolding find_longnames
  find_plain n off msize next inside plain size step =
      let fits : leb (off + 60) (length m) ≡ true = ground arith in rw (fits, plain, size, step)

  pub find_end :
      (n off : ℕ) (ln : LongNames) → length m < off + 60 → find_longnames (suc n) m off ln ≡ some ln
  unfolding find_longnames
  find_end n off ln outside = let stop : leb (off + 60) (length m) ≡ false = ground arith in rw stop

  module _ (alloc : ℕ → Bool) (ln : LongNames) where
    pub collect_plain :
        (n off msize next : ℕ) (a b : Archive) (capm capm' : ℕ)
        → off + 60 + msize ≤ length m
        → msize_at m off ≡ msize
        → next_off off msize ≡ next
        → open_header alloc m ln off msize a capm ≡ opened (b, capm')
        → collect alloc m ln (suc n) off a capm ≡ collect alloc m ln n next b capm'
    unfolding collect
    collect_plain n off msize next a b capm capm' inside size step header =
        let fits : leb (off + 60) (length m) ≡ true = ground arith in
        let whole : ltb (length m) (off + 60 + msize) ≡ false = ground arith in
        rw (size, fits, whole, header, step)

    pub collect_end :
        (n off : ℕ) (a : Archive) (capm : ℕ)
        → length m < off + 60
        → collect alloc m ln (suc n) off a capm ≡ opened a
    unfolding collect
    collect_end n off a capm outside =
        let stop : leb (off + 60) (length m) ≡ false = ground arith in rw stop

    -- The header of the symbol index.
    pub header_index :
        (off msize n capm : ℕ) (a : Archive) (pool : List ℕ) (symbols : List Symbol)
        → ((k : ℕ) → alloc k ≡ true)
        → get_or m off 0 ≡ 47
        → get_or m (off + 1) 0 ≡ 32
        → 4 ≤ msize
        → take msize (drop (off + 60) m) ≡ pool
        → be32 pool 0 ≡ n
        → read_symbols n pool 0 (4 + n * 4) ≡ opened symbols
        → open_header alloc m ln off msize a capm ≡ opened (record a { index = symbols }, capm)
    unfolding open_header open_index
    header_index off msize n capm a pool symbols memory c0 c1 some_size slice count read =
        let large : ltb msize 4 ≡ false = ground arith in
        rw (c0, c1, slice, count, large, memory (16 * max n 1), memory msize, read)

    -- The header of a member with a short name, the first one.
    pub header_member :
        (off msize : ℕ) (a : Archive) (name : Name)
        → ((k : ℕ) → alloc k ≡ true)
        → get_or m off 0 ≢ 47
        → off < 2 ^ 32
        → member_name m ln off ≡ some name
        → open_header alloc m ln off msize (record a { members = [] }) 0
          ≡ opened (
            record a {
              members =
                  record { name = name; data_off = off + 60; size = msize; hdr_off = off } ∷ [];
            },
            32,
          )
    unfolding open_header open_member
    header_member off msize a name memory plain small named =
        let other : (get_or m off 0 == 47) ≡ false = ground arith in
        let same : off % 2 ^ 32 ≡ off = omega arith in
        rw (other, named, open_member, same, memory (32 * 272)) refl
