-- ===== src/Archive/Header.antt =====
-- The fields and names that `LcAr_Open` reads: clua/src/link/ar_read.c.
use compiled_lua.Common.{ℕ, zero, suc, ◌+◌, ◌-◌, ◌*◌, ◌%◌, ◌^◌, min, bit_and}
use compiled_lua.Common.{Bool, ◌&&◌, ◌||◌}
use compiled_lua.Common.{Option, none, some, List, [], ◌∷◌, ◌++◌}
use compiled_lua.Common.{ltb, leb, ◌==◌, if◌then◌else◌}
use compiled_lua.Common.{length, get_elem?, get_or, take, drop}
use compiled_lua.Archive.Data.{Symbol}
use compiled_lua.Common.Name.{up_to_zero, Name, codes, c_string}

-- How `LcAr_Open` ends; `overrun` where it reads past the memory it has, `unfinished` where a
-- loop has used the rounds it was given.
pub data Opened {ℓ} (A : Type ℓ) : Type ℓ where
  opened : A → Opened A
  failed : Opened A
  overrun : Opened A
  unfinished : Opened A

abbrev pub and_then {ℓ κ} : {A : Type ℓ} {B : Type κ} → Opened A → (A → Opened B) → Opened B
and_then (opened a) f = f a
and_then failed f = failed
and_then overrun f = overrun
and_then unfinished f = unfinished

-- AR_MAGIC
abbrev pub ar_magic : List ℕ
ar_magic = codes "!<arch>" ++ 10 ∷ []

-- AR_HDR_LEN
abbrev pub ar_hdr_len : ℕ
ar_hdr_len = 60

-- `be32`
abbrev pub be32 : List ℕ → ℕ → ℕ
be32 m i =
    get_or m i 0 * 2 ^ 24
    + get_or m (i + 1) 0 * 2 ^ 16
    + get_or m (i + 2) 0 * 2 ^ 8
    + get_or m (i + 3) 0

abbrev pub is_digit : ℕ → Bool
is_digit c = leb 48 c && leb c 57

-- The loop of `dec_field`.
unfoldable pub dec_digits : ℕ → List ℕ → ℕ
dec_digits v [] = v
dec_digits v (c ∷ cs) =
    let more = dec_digits ((v * 10 + (c - 48)) % 2 ^ 32) cs in if is_digit c then more else v

abbrev pub dec_field : List ℕ → ℕ
dec_field cs = dec_digits 0 cs

-- `strtol` in base 10 of a text that starts with a digit; `long` has 32 bits on Windows.
unfoldable pub digits_value : ℕ → List ℕ → ℕ
digits_value v [] = v
digits_value v (c ∷ cs) =
    let more = digits_value (v * 10 + (c - 48)) cs in if is_digit c then more else v

abbrev pub strtol : List ℕ → ℕ
strtol cs = min (digits_value 0 cs) (2 ^ 31 - 1)

-- A slice of the buffer.
abbrev pub bytes_at : List ℕ → ℕ → ℕ → List ℕ
bytes_at m off n = take n (drop off m)

-- The size field of the header at `off`.
abbrev pub msize_at : List ℕ → ℕ → ℕ
msize_at m off = dec_field (bytes_at m (off + 48) 10)

-- The offset of the next header.
abbrev pub next_off : ℕ → ℕ → ℕ
next_off off msize = off + ar_hdr_len + msize + (if bit_and msize 1 == 0 then 0 else 1)

-- Where the long names start, and `longnames_len`.
abbrev pub LongNames : Type 0
LongNames = Option (ℕ × ℕ)

-- The first pass; `none` where the rounds are used up.
unfoldable pub find_longnames : ℕ → List ℕ → ℕ → LongNames → Option LongNames
find_longnames zero m off ln = none
find_longnames (suc n) m off ln =
    let msize = msize_at m off in
    let c2 = get_or m (off + 2) 0 in
    let special = get_or m off 0 == 47 && get_or m (off + 1) 0 == 47 && (c2 == 32 || c2 == 47) in
    let ln' = if special then some (off + ar_hdr_len, msize) else ln in
    let rest = find_longnames n m (next_off off msize) ln' in
    if leb (off + ar_hdr_len) (length m) then rest else some ln

-- The loop over a long name, of n characters at most; `left` is `longnames_len - lnoff`.
unfoldable pub long_name : ℕ → List ℕ → ℕ → ℕ → Option Name
long_name zero m p left = some []
long_name (suc n) m p zero = some []
long_name (suc n) m p (suc left) =
    let rest = long_name n m (p + 1) left in
    elim (get_elem? m p) [
      | none ↦ none
      | some c ↦
          if c == 10 || c == 0 || c == 47
          then some []
          else elim rest [ none ↦ none | some s ↦ some (c ∷ s) ]
    ]

-- The loop over a short name.
unfoldable pub short_name : List ℕ → Name
short_name [] = []
short_name (c ∷ cs) = let rest = short_name cs in if c == 47 || c == 32 then [] else c ∷ rest

-- The name of the member with the header at `off`; `none` where its long name is not in memory.
unfoldable pub member_name : List ℕ → LongNames → ℕ → Option Name
member_name m ln off =
    let raw = bytes_at m off 16 in
    let short = some (up_to_zero (short_name raw)) in
    elim ln [
      | none ↦ short
      | some (start, len) ↦
          if get_or raw 0 0 == 47 && is_digit (get_or raw 1 0)
          then (let lnoff = strtol (drop 1 raw) in long_name 255 m (start + lnoff) (len - lnoff))
          else short
    ]

-- The loop over the symbol index, from the entry i, whose name is at `pn` in the pool.
unfoldable pub read_symbols : ℕ → List ℕ → ℕ → ℕ → Opened (List Symbol)
read_symbols zero pool i pn = opened []
read_symbols (suc n) pool i pn =
    if ltb pn (length pool)
    then elim (c_string (drop pn pool)) [
      | none ↦ overrun
      | some s ↦
          and_then (read_symbols n pool (i + 1) (pn + length s + 1))
            (λ rest. opened (record { symname = s; member_off = be32 pool (4 + i * 4) } ∷ rest))
    ]
    else opened []
