-- ===== src/Archive/Places.antt =====
-- Where the members of an opened archive are: `LcAr_Open` of clua/src/link/ar_read.c.
use compiled_lua.Common.{ℕ, zero, suc, ◌+◌, ◌*◌, ◌%◌, ◌^◌, ◌≤◌, ◌<◌, max}
use compiled_lua.Common.{◌≡◌, inl, inr, Bool, true, false, not, ◌&&◌, ◌||◌}
use compiled_lua.Common.{List, [], ◌∷◌, ◌++◌, arith}
use compiled_lua.Common.{ltb, ◌==◌, if◌then◌else◌, Option-cases}
use compiled_lua.Common.{length, get_or, take, drop}
use compiled_lua.Archive.Data.{Member, Symbol, Archive}
use compiled_lua.Archive.Header.{
  Opened, opened, failed, overrun, unfinished, and_then, ar_hdr_len, be32, LongNames, member_name,
  read_symbols,
}
use compiled_lua.Archive.Open.{open_index, open_member, open_header}
use compiled_lua.Archive.Sessions.{IsUnqueried}
use compiled_lua.Common.Name.{c_string}

-- Members one after another from `start` to `end`: each header is followed by its data, and the
-- data is inside a buffer of the given length.
abbrev pub Placed : ℕ → ℕ → List Member → ℕ → Type 0
Placed len start [] end = start ≤ end
Placed len start (x ∷ xs) end =
    (start ≤ x.hdr_off)
    × (x.data_off ≡ x.hdr_off + ar_hdr_len)
    × (x.data_off + x.size ≤ len)
    × Placed len (x.data_off + x.size) xs end

Placed-later :
    (len start : ℕ) (xs : List Member) (end end' : ℕ)
    → end ≤ end'
    → Placed len start xs end
    → Placed len start xs end'
Placed-later len start [] end end' le p = omega (arith, le, p)
Placed-later len start (x ∷ xs) end end' le (h, d, s, rest) =
    (h, d, s, Placed-later len (x.data_off + x.size) xs end end' le rest)

Placed-append :
    (len start : ℕ) (xs : List Member) (end : ℕ) (x : Member)
    → Placed len start xs end
    → end ≤ x.hdr_off
    → x.data_off ≡ x.hdr_off + ar_hdr_len
    → x.data_off + x.size ≤ len
    → Placed len start (xs ++ x ∷ []) (x.data_off + x.size)
Placed-append len start [] end x p h d s = (omega (arith, p, h), d, s, omega arith)
Placed-append len start (y ∷ ys) end x (h', d', s', rest) h d s =
    (h', d', s', Placed-append len (y.data_off + y.size) ys end x rest h d s)

-- A property of both branches.
pub if_both {ℓ} :
    {A : Type ℓ} (P : A → Type 0) {x y : A} (b : Bool) → P x → P y → P (if b then x else y)
if_both P true p q = p
if_both P false p q = q

module _ (m : List ℕ) where
  -- What the second pass keeps, up to the offset `off`.
  abbrev pub Sound : ℕ → Archive → Type 0
  Sound off a =
      (a.buf ≡ m)
      × IsUnqueried a
      × ((end : ℕ) × (end ≤ off) × (end ≤ length m) × Placed (length m) 8 a.members end)

  abbrev pub SoundHeader : ℕ → Opened (Archive × ℕ) → Type 0
  SoundHeader off (opened (a, _)) = Sound off a
  SoundHeader off failed = Unit
  SoundHeader off overrun = Unit
  SoundHeader off unfinished = ⊥

  -- How `LcAr_Open` may end.
  abbrev pub SoundOpened : Opened Archive → Type 0
  SoundOpened (opened a) =
      (a.buf ≡ m)
      × IsUnqueried a
      × ((end : ℕ) × (end ≤ length m) × Placed (length m) 8 a.members end)
  SoundOpened failed = Unit
  SoundOpened overrun = Unit
  SoundOpened unfinished = ⊥

  pub Sound-later : (off off' : ℕ) (a : Archive) → off ≤ off' → Sound off a → Sound off' a
  Sound-later off off' a le (b, q, (end, before, inside, placed)) =
      (b, q, (end, omega (arith, before, le), inside, placed))

  abbrev Finished : Opened (List Symbol) → Type 0
  Finished (opened s) = Unit
  Finished failed = Unit
  Finished overrun = Unit
  Finished unfinished = ⊥

  and_then-Finished :
      (o : Opened (List Symbol)) (x : Symbol)
      → Finished o
      → Finished (and_then o (λ rest. opened (x ∷ rest)))
  and_then-Finished (opened s) x f = tt
  and_then-Finished failed x f = tt
  and_then-Finished overrun x f = tt
  and_then-Finished unfinished x f = f

  read_symbols-Finished : (n : ℕ) (pool : List ℕ) (i pn : ℕ) → Finished (read_symbols n pool i pn)
  unfolding read_symbols
  read_symbols-Finished zero pool i pn = tt
  read_symbols-Finished (suc n) pool i pn =
      if_both Finished (ltb pn (length pool))
        (elim (Option-cases (c_string (drop pn pool))) [
          | inl e ↦ rw e tt
          | inr (s, e) ↦ rw e (
              and_then-Finished (read_symbols n pool (i + 1) (pn + length s + 1))
                (record { symname = s; member_off = be32 pool (4 + i * 4) })
                (read_symbols-Finished n pool (i + 1) (pn + length s + 1)))
        ])
        tt

  abbrev SoundIndex : ℕ → Opened Archive → Type 0
  SoundIndex off (opened a) = Sound off a
  SoundIndex off failed = Unit
  SoundIndex off overrun = Unit
  SoundIndex off unfinished = ⊥

  SoundIndex-symbols :
      (off : ℕ) (a : Archive) (o : Opened (List Symbol))
      → Finished o
      → Sound off a
      → SoundIndex off (and_then o (λ symbols. opened (record a { index = symbols })))
  SoundIndex-symbols off a (opened s) f sound = sound
  SoundIndex-symbols off a failed f sound = tt
  SoundIndex-symbols off a overrun f sound = tt
  SoundIndex-symbols off a unfinished f sound = f

  SoundIndex-header :
      (off capm : ℕ) (o : Opened Archive)
      → SoundIndex off o
      → SoundHeader off (and_then o (λ b. opened (b, capm)))
  SoundIndex-header off capm (opened a) s = s
  SoundIndex-header off capm failed s = tt
  SoundIndex-header off capm overrun s = tt
  SoundIndex-header off capm unfinished s = s

  module _ (alloc : ℕ → Bool) (ln : LongNames) (small : length m < 2 ^ 32) where
    open_index-Sound :
        (off data_off msize : ℕ) (a : Archive)
        → Sound off a
        → SoundIndex off (open_index alloc m ln data_off msize a)
    unfolding open_index
    open_index-Sound off data_off msize a s =
        let pool = take msize (drop data_off m) in
        let n = be32 pool 0 in
        if_both (SoundIndex off) (ltb msize 4) s (
          if_both (SoundIndex off) (not (alloc (16 * max n 1) && alloc msize)) tt (
            SoundIndex-symbols off a (read_symbols n pool 0 (4 + n * 4))
              (read_symbols-Finished n pool 0 (4 + n * 4)) s))

    open_member-Sound :
        (off msize capm : ℕ) (a : Archive)
        → off + ar_hdr_len + msize ≤ length m
        → Sound off a
        → SoundHeader (off + ar_hdr_len + msize) (open_member alloc m ln off msize a capm)
    unfolding open_member
    open_member-Sound off msize capm a inside (b, q, (end, before, _, placed)) =
        elim (Option-cases (member_name m ln off)) [
          | inl e ↦ rw (e, open_member) tt
          | inr (name, e) ↦
              let same : off % 2 ^ 32 ≡ off = omega arith in
              let new : Member = record {
                name = name;
                data_off = off + ar_hdr_len;
                size = msize;
                hdr_off = off % 2 ^ 32;
              } in
              let more = if capm == 0 then 32 else capm * 2 % 2 ^ 32 in
              let sound : Sound (off + ar_hdr_len + msize)
                  (record a { members = a.members ++ new ∷ [] }) =
                (
                  b,
                  q,
                  (
                    off + ar_hdr_len + msize,
                    omega arith,
                    inside,
                    Placed-append (length m) 8 a.members end new placed
                        (omega (arith, same, before)) (omega (arith, same)) inside,
                  ),
                ) in
              rw (e, open_member)
                (if_both (SoundHeader (off + ar_hdr_len + msize)) (ltb (length a.members) capm)
                  sound
                  (if_both (SoundHeader (off + ar_hdr_len + msize)) (alloc (more * 272)) sound tt))
        ]

    pub open_header-Sound :
        (off msize capm : ℕ) (a : Archive)
        → off + ar_hdr_len + msize ≤ length m
        → Sound off a
        → SoundHeader (off + ar_hdr_len + msize) (open_header alloc m ln off msize a capm)
    unfolding open_header
    open_header-Sound off msize capm a inside s =
        let after = off + ar_hdr_len + msize in
        let c0 = get_or m off 0 in
        let c1 = get_or m (off + 1) 0 in
        let s' = Sound-later off after a (omega arith) s in
        if_both (SoundHeader after) (c0 == 47 && (c1 == 32 || c1 == 0))
          (SoundIndex-header after capm (open_index alloc m ln (off + ar_hdr_len) msize a)
            (open_index-Sound after (off + ar_hdr_len) msize a s'))
          (if_both (SoundHeader after) (c0 == 47 && c1 == 47) s'
            (open_member-Sound off msize capm a inside s))
