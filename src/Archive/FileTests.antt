-- ===== src/Archive/FileTests.antt =====
-- Concrete files for clua/src/link/ar_read.c and clua/src/link/ar_write.c.
use compiled_lua.Common.{ℕ}
use compiled_lua.Common.{◌≡◌, refl, Bool, true}
use compiled_lua.Common.{none, some, List, [], ◌∷◌, ◌++◌, map, arith}
use compiled_lua.Common.{if◌then◌else◌}
use compiled_lua.Archive.Data.{Member, Archive}
use compiled_lua.Archive.Header.{
  opened, overrun, ar_magic, bytes_at, dec_digits, digits_value, find_longnames, long_name,
  short_name, member_name, read_symbols,
}
use compiled_lua.Archive.Open.{
  open_index, open_member, open_header, collect, ftell, too_small, open_archive,
}
use compiled_lua.Archive.Opening.{open_archive-Sound}
use compiled_lua.Archive.Places.{SoundOpened}
use compiled_lua.Archive.RoundTrip.{is_among, write-open_round_trip}
use compiled_lua.Archive.Sessions.{query_all}
use compiled_lua.Archive.Write.{
  CoffSymbol, is_public, public_names, decimal, fill_dec, member_header, name_bytes, offset_bytes,
  archive_bytes, write_archive,
}
use compiled_lua.Common.Int.{pos, negsuc}
use compiled_lua.Common.Name.{up_to_zero, Name, codes, c_string}

program : Unit {0}
unfolding dec_digits digits_value find_longnames long_name short_name up_to_zero member_name
    read_symbols open_index open_member open_header collect ftell too_small open_archive is_public
    public_names decimal fill_dec name_bytes offset_bytes archive_bytes write_archive c_string
program = tt

always : ℕ → Bool
unfolding program
always n = true

-- A defined function, an undefined one, a static one and an aux record.
abbrev symbols : List CoffSymbol
symbols =
    record { name = codes "f"; section = pos 1; storage = 2 }
    ∷ record { name = codes "puts"; section = pos 0; storage = 2 }
    ∷ record { name = codes "local"; section = pos 1; storage = 3 }
    ∷ record { name = []; section = negsuc 2; storage = 0 }
    ∷ record { name = codes "main"; section = pos 1; storage = 2 }
    ∷ []

abbrev object : List ℕ
object = 100 ∷ 134 ∷ 0 ∷ []

names_test : public_names symbols ≡ codes "f" ∷ codes "main" ∷ []
unfolding program
names_test = refl

write-open_round_trip_example :
    (bytes : List ℕ) × (a : Archive) × (x : Member) × ((write_archive always symbols object
        ≡ opened bytes)
      × (open_archive always (some bytes) ≡ opened a)
      × (a.members ≡ x ∷ [])
      × (bytes_at bytes x.data_off x.size ≡ object)
      × ((asked : List Name)
          → (b : Archive) × (query_all always a asked
              ≡ some (
                map (λ s. if is_among s (public_names symbols) then some 0 else none) asked,
                b,
              ))))
unfolding program always
write-open_round_trip_example =
    write-open_round_trip always symbols object (λ k. refl) (omega arith)
      ((omega arith, tt), ((omega arith, (omega arith, (omega arith, (omega arith, tt)))), tt))

abbrev file : List ℕ
file = ar_magic ++ member_header (codes "x.o/") (codes "644") 3 ++ object ++ 10 ∷ []

open_archive-Sound_example : SoundOpened file (open_archive always (some file))
unfolding program
open_archive-Sound_example = open_archive-Sound always file (omega arith)

-- A member with a long name, and a table of long names that the file is too short for: the
-- reader takes the name from past the end of its buffer.
abbrev cut_file : List ℕ
cut_file =
    ar_magic
    ++ member_header (codes "/7") (codes "644") 0
    ++ member_header (codes "//") (codes "0") 1000
    ++ codes "a.o/"

open_archive-overrun : open_archive always (some cut_file) ≡ overrun
unfolding program always
open_archive-overrun = refl
