-- ===== src/CodeBuf/Append.antt =====
-- `LcCodeBuf_Append` of clua/src/codegen/lc_codebuf.c as a whole.
use compiled_lua.Common.{ℕ, ◌+◌, ◌*◌, ◌%◌, ◌^◌, ◌≤◌, ◌<◌}
use compiled_lua.Common.{◌≡◌, refl, ◌⊎◌, inl, inr, Bool, true, false}
use compiled_lua.Common.{List, ◌++◌, arith}
use compiled_lua.Common.{ltb, ltb→lt, if◌then◌else◌, Bool-cases}
use compiled_lua.Common.{length}
use compiled_lua.CodeBuf.{
  LcCodeBuf, Outcome, done, refused, diverges, used, first_capacity, store, append,
}
use compiled_lua.CodeBuf.Growth.{grow_lem}

-- Room that is enough, and less than twice the need beyond the first 16 bytes.
abbrev pub GrownTo : ℕ → ℕ → Type 0
GrownTo need nc = (need ≤ nc) × ((nc < 2 * need) ⊎ (nc ≡ 16))

module _ (grants : LcCodeBuf → ℕ → Bool) where
  -- How one call on `p` ends: with every byte of `p` behind the others, in the capacity that
  -- there was if there was room, or with the buffer as it was, where there was no room and the
  -- request for more was refused. It never goes on for ever.
  abbrev pub Appended : List ℕ → LcCodeBuf → Outcome → Type 0
  Appended p b (done c) =
      let need = used b + length p in
      (c.bytes ≡ b.bytes ++ p)
      × (c.relocs ≡ b.relocs)
      × (c.relocap ≡ b.relocap)
      × (((need ≤ b.capacity) × (c.capacity ≡ b.capacity))
          ⊎ ((b.capacity < need) × (grants b c.capacity ≡ true) × GrownTo need c.capacity))
  Appended p b (refused c) =
      let need = used b + length p in
      (c ≡ b) × (b.capacity < need) × (nc : ℕ) × (grants b nc ≡ false) × GrownTo need nc
  Appended p b diverges = ⊥

  grown-Appended :
      (p : List ℕ) (b : LcCodeBuf) (nc : ℕ)
      → b.capacity < used b + length p
      → GrownTo (used b + length p) nc
      → Appended p b
          (if grants b nc then done (store p (record b { capacity = nc })) else refused b)
  grown-Appended p b nc full room = elim (Bool-cases (grants b nc)) [
    | inl granted ↦ rw granted (refl, refl, refl, inr (full, granted, room))
    | inr denied ↦ rw denied (refl, full, nc, denied, room)
  ]

  -- On a buffer of up to 2 ^ 63 bytes with what is appended, the call ends. Either all the bytes
  -- are behind those that were there, with the relocations as they were, in the capacity that
  -- there was if there was room; or nothing has changed, there was no room, and `realloc` refused
  -- the request. A request is enough for the bytes, and less than twice that or 16.
  pub append_lem :
      (p : List ℕ) (b : LcCodeBuf) → used b + length p ≤ 2 ^ 63 → Appended p b (append grants p b)
  unfolding append
  append_lem p b small =
      let need : (used b + length p) % 2 ^ 64 ≡ used b + length p = omega arith in
      let (nc, grown, room, _, tight) =
        grow_lem 64 (first_capacity b.capacity) (used b + length p) (ground arith) (ground arith)
          small in
      rw need elim (Bool-cases (ltb b.capacity (used b + length p))) [
        | inl full ↦
            let over : b.capacity < used b + length p =
              ltb→lt b.capacity (used b + length p) full in
            rw (full, grown) (grown-Appended p b nc over (room, ground (arith, tight, over)))
        | inr spare ↦ rw spare (refl, refl, refl, inl (ground arith, refl))
      ]
