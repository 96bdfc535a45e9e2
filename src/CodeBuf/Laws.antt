-- ===== src/CodeBuf/Laws.antt =====
-- What appending does to the buffer, and how emitters compose.
use compiled_lua.Common.{ℕ, ◌+◌, ◌%◌, ◌^◌, ◌≤◌}
use compiled_lua.Common.{◌≡◌, refl, sym, ap, ◌∙◌, inl, inr, Bool, true, false}
use compiled_lua.Common.{List, [], ◌++◌, append-nil, append_assoc, arith}
use compiled_lua.Common.{ltb, if◌then◌else◌, Bool-cases}
use compiled_lua.Common.{length, length-append}
use compiled_lua.CodeBuf.{
  LcCodeBuf, Outcome, done, refused, diverges, Emit, ◌>>◌, return_one, when, used, first_capacity,
  store, append,
}
use compiled_lua.CodeBuf.Growth.{grow_lem}

module _ (grants : LcCodeBuf → ℕ → Bool) where
  -- `o` is how an emitter of the bytes `bs` may end on `b`: with all of them behind what was
  -- there, or, where `realloc` was refused a request, with the first of them. The relocations
  -- stay, and the bytes never exceed the capacity.
  abbrev pub Wrote : LcCodeBuf → List ℕ → Outcome → Type 0
  Wrote b bs (done c) = (c.bytes ≡ b.bytes ++ bs) × (c.relocs ≡ b.relocs) × (used c ≤ c.capacity)
  Wrote b bs (refused c) =
      (front back : List ℕ) × (bs ≡ front ++ back)
      × (c.bytes ≡ b.bytes ++ front)
      × (c.relocs ≡ b.relocs)
      × (used c ≤ c.capacity)
      × (request : ℕ) × (grants c request ≡ false)
  Wrote b bs diverges = ⊥

  -- On every buffer within its capacity that stays within 2 ^ 63 bytes.
  pub record Emits (m : Emit) (bs : List ℕ) : Type 0 where
    pub wrote :
        (b : LcCodeBuf) → used b ≤ b.capacity → used b + length bs ≤ 2 ^ 63 → Wrote b bs (m b)

  grow-Wrote :
      (p : List ℕ) (b : LcCodeBuf) (nc : ℕ)
      → used b ≤ b.capacity
      → used b + length p ≤ nc
      → Wrote b p (if grants b nc then done (store p (record b { capacity = nc })) else refused b)
  grow-Wrote p b nc fits room = elim (Bool-cases (grants b nc)) [
    | inl granted ↦ rw granted (refl, refl, omega (arith, length-append b.bytes p))
    | inr denied ↦ rw denied ([], p, refl, sym (append-nil b.bytes), refl, fits, nc, denied)
  ]

  -- One call of `LcCodeBuf_Append`.
  pub append-Emits : (p : List ℕ) → Emits (append grants p) p
  unfolding append
  append-Emits p = record {
    wrote = λ b fits small.
        let need : (used b + length p) % 2 ^ 64 ≡ used b + length p = omega arith in
        let (nc, grown, room, _, _) =
          grow_lem 64 (first_capacity b.capacity) (used b + length p) (ground arith) (ground arith)
            small in
        rw need elim (Bool-cases (ltb b.capacity (used b + length p))) [
          | inl full ↦ rw (full, grown) (grow-Wrote p b nc fits room)
          | inr spare ↦ rw spare (refl, refl, ground (arith, length-append b.bytes p))
        ];
  }

  extend-Wrote :
      (p q : List ℕ) (b c : LcCodeBuf) (o : Outcome)
      → c.bytes ≡ b.bytes ++ p
      → c.relocs ≡ b.relocs
      → Wrote c q o
      → Wrote b (p ++ q) o
  extend-Wrote p q b c (done d) e r (bytes, relocs, fits) =
      (bytes ∙ rw (e, append_assoc), relocs ∙ r, fits)
  extend-Wrote p q b c (refused d) e r (front, back, cut, bytes, relocs, fits, n, denied) = (
    p ++ front,
    back,
    rw (cut, append_assoc),
    bytes ∙ rw (e, append_assoc),
    relocs ∙ r,
    fits,
    n,
    denied,
  )
  extend-Wrote p q b c diverges e r w = w

  seq-Wrote :
      (p q : List ℕ) (k : Emit) (b : LcCodeBuf) (o : Outcome)
      → used b + length p + length q ≤ 2 ^ 63
      → Wrote b p o
      → Emits k q
      → Wrote b (p ++ q) (elim o [ done c ↦ k c | refused c ↦ refused c | diverges ↦ diverges ])
  seq-Wrote p q k b (done c) small (bytes, relocs, fits) e =
      let size : used c ≡ used b + length p = ap length bytes ∙ length-append b.bytes p in
      extend-Wrote p q b c (k c) bytes relocs (e.wrote c fits (omega arith))
  seq-Wrote p q k b (refused c) small (front, back, cut, bytes, relocs, fits, n, denied) e =
      (front, back ++ q, rw (cut, append_assoc), bytes, relocs, fits, n, denied)
  seq-Wrote p q k b diverges small w e = w

  pub seq-Emits : {m k : Emit} {p q : List ℕ} → Emits m p → Emits k q → Emits (m >> k) (p ++ q)
  seq-Emits {m} {k} {p} {q} em ek = record {
    wrote = λ b fits small.
        let whole : used b + length p + length q ≤ 2 ^ 63 = omega (arith, length-append p q) in
        seq-Wrote p q k b (m b) whole (em.wrote b fits (omega arith)) ek;
  }

  pub one-Emits : Emits return_one []
  one-Emits = record { wrote = λ b fits small. (sym (append-nil b.bytes), refl, fits) }

  pub when-Emits :
      (t : Bool) {m : Emit} {p : List ℕ} → Emits m p → Emits (when t m) (if t then p else [])
  when-Emits true e = e
  when-Emits false e = one-Emits

  pub Emits-subst : {m : Emit} {p q : List ℕ} → p ≡ q → Emits m p → Emits m q
  Emits-subst e h = rw (← e) h
