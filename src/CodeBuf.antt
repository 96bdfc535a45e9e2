-- ===== src/CodeBuf.antt =====
-- clua/src/codegen/lc_codebuf.c and .h: the growable code buffer with its relocations.
-- `bytes` holds what was written, so the source's `used` is its length, and `relocs` likewise;
-- the capacities are kept as numbers. `realloc` is not part of the repository: `grants` says
-- whether a request of that many bytes succeeds when the buffer is in that state.
pub mod Append
pub mod Growth
pub mod Laws
use compiled_lua.Common.{ℕ, zero, suc, ◌+◌, ◌*◌, ◌%◌, ◌^◌, Bool, true, false}
use compiled_lua.Common.{List, [], ◌∷◌, ◌++◌, Option, none, some}
use compiled_lua.Common.{ltb, ◌==◌, if◌then◌else◌, length, take}

pub data RelocKind : Type 0 where
  rel32 addr64 rel32_rdata : RelocKind

-- A symbol is its bytes; `addend` is the pattern of an `int32_t`.
pub record Reloc : Type 0 where
  pub kind : RelocKind
  pub offset : ℕ
  pub symbol : List ℕ
  pub addend : ℕ

pub record LcCodeBuf : Type 0 where
  pub bytes : List ℕ
  pub capacity : ℕ
  pub relocs : List Reloc
  pub relocap : ℕ

abbrev pub used : LcCodeBuf → ℕ
used b = length b.bytes

-- How a function that returns `int` ends: with 1, with 0, or not at all.
pub data Outcome : Type 0 where
  done refused : LcCodeBuf → Outcome
  diverges : Outcome

abbrev pub Emit : Type 0
Emit = LcCodeBuf → Outcome

-- `if ( !m ) return 0; k`
infixl 5 ◌>>◌
abbrev pub ◌>>◌ : Emit → Emit → Emit
◌>>◌ m k b = elim (m b) [ done c ↦ k c | refused c ↦ refused c | diverges ↦ diverges ]

abbrev pub return_one : Emit
return_one b = done b

abbrev pub return_zero : Emit
return_zero b = refused b

abbrev pub when : Bool → Emit → Emit
when true m = m
when false m = return_one

-- `while ( nc < need ) nc *= 2;` on a `size_t`, with fuel.
unfoldable pub grow : ℕ → ℕ → ℕ → Option ℕ
grow zero nc need = none
grow (suc fuel) nc need =
    let rest = grow fuel (nc * 2 % 2 ^ 64) need in if ltb nc need then rest else some nc

-- `b->cap ? b->cap : 16`
abbrev pub first_capacity : ℕ → ℕ
first_capacity c = if c == 0 then 16 else c

-- `memcpy( b->bytes + b->used, p, n ); b->used += n;`
abbrev pub store : List ℕ → LcCodeBuf → LcCodeBuf
store p b = record b { bytes = b.bytes ++ p }

module _ (grants : LcCodeBuf → ℕ → Bool) where
  unfoldable pub init : ℕ → Outcome
  init cap =
      let cap' = if ltb cap 16 then 16 else cap in
      let empty : LcCodeBuf = record { bytes = []; capacity = 0; relocs = []; relocap = 0 } in
      if grants empty cap' then done (record empty { capacity = cap' }) else refused empty

  unfoldable pub append : List ℕ → Emit
  append p b =
      let need = (used b + length p) % 2 ^ 64 in
      if ltb b.capacity need
      then elim (grow 65 (first_capacity b.capacity) need) [
        | none ↦ diverges
        | some nc ↦ if grants b nc then done (store p (record b { capacity = nc })) else refused b
      ]
      else done (store p b)

  -- `strncpy` into 64 zeroed bytes keeps the first 63 of a longer name. A relocation takes 76
  -- bytes: kind, offset, symbol and addend.
  unfoldable pub add_reloc : RelocKind → ℕ → List ℕ → ℕ → Emit
  add_reloc k off sym addend b =
      let r : Reloc = record { kind = k; offset = off; symbol = take 63 sym; addend = addend } in
      let nc = if b.relocap == 0 then 8 else b.relocap * 2 % 2 ^ 64 in
      if length b.relocs == b.relocap
      then (if grants b (nc * 76 % 2 ^ 64)
          then done (record b { relocs = b.relocs ++ r ∷ []; relocap = nc })
          else refused b)
      else done (record b { relocs = b.relocs ++ r ∷ [] })

unfoldable pub free : LcCodeBuf → LcCodeBuf
free b = record { bytes = []; capacity = 0; relocs = []; relocap = 0 }
