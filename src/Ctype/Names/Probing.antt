-- ===== src/Ctype/Names/Probing.antt =====
-- What the probe loop finds.
use compiled_lua.Common.{ℕ, zero, suc, ◌+◌, ◌%◌, ◌<◌}
use compiled_lua.Common.{◌≡◌, refl, ◌∙◌, inl, inr, true, false}
use compiled_lua.Common.{none, some, arith}
use compiled_lua.Common.{Bool-cases, Option-cases}
use compiled_lua.Common.Name.{Name, name_eq, name_eq→eq, name_eq_refl}
use compiled_lua.Ctype.Names.{Slot, Table, slot_at, vacant, taken, full, probe}

module _ {ℓ} {V : Type ℓ} (capacity : ℕ) where
  -- The slots on the way, `d` of them from `i` on, are in use for other names.
  abbrev pub Blocked : Table V → Name → ℕ → ℕ → Type ℓ
  Blocked t name i d =
      (e : ℕ)
      → e < d
      → (s : Slot V) × (slot_at t ((i + e) % capacity) ≡ some s) × (name_eq s.name name ≡ false)

  pub data View (t : Table V) (name : Name) (i rounds : ℕ) : Type ℓ where
    at_vacant :
        (d : ℕ)
        → d < rounds
        → Blocked t name i d
        → slot_at t ((i + d) % capacity) ≡ none
        → probe capacity t name rounds i ≡ vacant ((i + d) % capacity)
        → View t name i rounds
    at_taken :
        (d : ℕ) (s : Slot V)
        → d < rounds
        → Blocked t name i d
        → slot_at t ((i + d) % capacity) ≡ some s
        → s.name ≡ name
        → probe capacity t name rounds i ≡ taken ((i + d) % capacity) s
        → View t name i rounds
    at_full : Blocked t name i rounds → probe capacity t name rounds i ≡ full → View t name i rounds

  probe_free :
      (t : Table V) (name : Name) (i rounds : ℕ)
      → slot_at t (i % capacity) ≡ none
      → probe capacity t name (suc rounds) i ≡ vacant (i % capacity)
  unfolding probe
  probe_free t name i rounds h = rw (h, probe) refl

  probe_hit :
      (t : Table V) (name : Name) (i rounds : ℕ) (s : Slot V)
      → slot_at t (i % capacity) ≡ some s
      → name_eq s.name name ≡ true
      → probe capacity t name (suc rounds) i ≡ taken (i % capacity) s
  unfolding probe
  probe_hit t name i rounds s h same = rw (h, same, probe) refl

  probe_pass :
      (t : Table V) (name : Name) (i rounds : ℕ) (s : Slot V)
      → slot_at t (i % capacity) ≡ some s
      → name_eq s.name name ≡ false
      → probe capacity t name (suc rounds) i ≡ probe capacity t name rounds (i + 1)
  unfolding probe
  probe_pass t name i rounds s h differ = rw (h, differ, probe) refl

  Blocked-suc :
      (t : Table V) (name : Name) (i d : ℕ) (s : Slot V)
      → slot_at t (i % capacity) ≡ some s
      → name_eq s.name name ≡ false
      → Blocked t name (i + 1) d
      → Blocked t name i (suc d)
  Blocked-suc t name i d s h ne rest zero lt = let e : i + 0 ≡ i = omega arith in rw e (s, h, ne)
  Blocked-suc t name i d s h ne rest (suc k) lt =
      let e : i + suc k ≡ (i + 1) + k = omega arith in rw e (rest k (omega arith))

  View-later :
      (t : Table V) (name : Name) (i rounds : ℕ) (s : Slot V)
      → slot_at t (i % capacity) ≡ some s
      → name_eq s.name name ≡ false
      → View t name (i + 1) rounds
      → View t name i (suc rounds)
  View-later t name i rounds s h ne (at_vacant d lt way slot runs) =
      let e : i + suc d ≡ (i + 1) + d = omega arith in
      at_vacant (suc d) (omega arith) (Blocked-suc t name i d s h ne way) (rw e slot)
        (rw e (probe_pass t name i rounds s h ne ∙ runs))
  View-later t name i rounds s h ne (at_taken d r lt way slot same runs) =
      let e : i + suc d ≡ (i + 1) + d = omega arith in
      at_taken (suc d) r (omega arith) (Blocked-suc t name i d s h ne way) (rw e slot) same
        (rw e (probe_pass t name i rounds s h ne ∙ runs))
  View-later t name i rounds s h ne (at_full way runs) =
      at_full (Blocked-suc t name i rounds s h ne way) (probe_pass t name i rounds s h ne ∙ runs)

  pub view : (t : Table V) (name : Name) (i rounds : ℕ) → View t name i rounds
  view t name i zero = at_full (λ e lt. elim lt [ ]) (unfold probe in refl)
  view t name i (suc rounds) =
      let here : i + 0 ≡ i = omega arith in
      let nothing : Blocked t name i 0 = (λ e lt. elim lt [ ]) in
      elim (Option-cases (slot_at t (i % capacity))) [
        | inl free ↦
            at_vacant 0 (omega arith) nothing (rw here free)
              (rw here (probe_free t name i rounds free))
        | inr (s, used) ↦ elim (Bool-cases (name_eq s.name name)) [
          | inl same ↦
              at_taken 0 s (omega arith) nothing (rw here used) (name_eq→eq s.name name same)
                (rw here (probe_hit t name i rounds s used same))
          | inr differ ↦ View-later t name i rounds s used differ (view t name (i + 1) rounds)
        ]
      ]

  -- A name whose way is blocked only by others is found.
  pub probe-taken :
      (t : Table V) (name : Name) (rounds i d : ℕ) (s : Slot V)
      → d < rounds
      → Blocked t name i d
      → slot_at t ((i + d) % capacity) ≡ some s
      → s.name ≡ name
      → probe capacity t name rounds i ≡ taken ((i + d) % capacity) s
  probe-taken t name zero i d s lt way slot same = elim lt [ ]
  probe-taken t name (suc rounds) i zero s lt way slot same =
      let here : i + 0 ≡ i = omega arith in
      let used : slot_at t (i % capacity) ≡ some s = rw here at slot in
      let hit : name_eq s.name name ≡ true = rw same (name_eq_refl name) in
      rw here (probe_hit t name i rounds s used hit)
  probe-taken t name (suc rounds) i (suc d) s lt way slot same =
      let here : i + 0 ≡ i = omega arith in
      let next : i + suc d ≡ (i + 1) + d = omega arith in
      let (r, used, differ) = way 0 (omega arith) in
      let first : slot_at t (i % capacity) ≡ some r = rw here at used in
      let rest : Blocked t name (i + 1) d = (λ e less.
        let shift : (i + 1) + e ≡ i + suc e = omega arith in
        rw shift (way (suc e) (omega arith))) in
      rw next (
        probe_pass t name i rounds r first differ
        ∙ probe-taken t name rounds (i + 1) d s (omega arith) rest (rw next at slot) same)
