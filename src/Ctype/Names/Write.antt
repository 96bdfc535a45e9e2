-- ===== src/Ctype/Names/Write.antt =====
-- One write into a table.
use compiled_lua.Common.{take_all}
use compiled_lua.Common.{ℕ, ◌+◌, ◌%◌, ◌≤◌, ◌<◌}
use compiled_lua.Common.{◌≡◌, sym, ap, ◌∙◌, ◌≢◌, ◌↔◌, ◌⊎◌, inl, inr, false}
use compiled_lua.Common.{none, some}
use compiled_lua.Common.{ℕ_discrete}
use compiled_lua.Common.{length, length-set, get_or-set_self, get_or-set_ne}
use compiled_lua.Common.Name.{Name, name_eq}
use compiled_lua.Ctype.Names.{Slot, Table, slot_at, start, lookup, write}
use compiled_lua.Ctype.Names.Probing.{Blocked}
use compiled_lua.Ctype.Names.Map.{Wf, lookup-placed, lookup-slot}

module _ {ℓ} {V : Type ℓ} (capacity : ℕ) where
  -- A slot that a registration of `name` may write: free, or already that name's.
  abbrev pub Open : Table V → ℕ → Name → Type ℓ
  Open t j name = (slot_at t j ≡ none) ⊎ ((s : Slot V) × (slot_at t j ≡ some s) × (s.name ≡ name))

  module _ (t : Table V) (j : ℕ) (name : Name) (v : V) (inside : j < length t)
      (fits : length name ≤ 63) (free : Open t j name) where
    abbrev pub entry : Slot V
    entry = record { name = name; value = v }

    pub write-here : slot_at (write t j name v) j ≡ some entry
    write-here = rw (take_all 63 name fits) (get_or-set_self t j (some entry) none inside)

    write-entry : (k : ℕ) (s : Slot V) → j ≡ k → slot_at (write t j name v) k ≡ some s → entry ≡ s
    write-entry k s same h =
        let moved : slot_at (write t j name v) j ≡ some s =
          ap (λ x. slot_at (write t j name v) x) same ∙ h in
        let both : some entry ≡ some s = sym write-here ∙ moved in cc

    write-there : (k : ℕ) → j ≢ k → slot_at (write t j name v) k ≡ slot_at t k
    write-there k ne = get_or-set_ne t j k _ none ne

    -- The write leaves the way to every name blocked as far as it was.
    Blocked-write :
        (m : Name) (i d : ℕ) → Blocked capacity t m i d → Blocked capacity (write t j name v) m i d
    Blocked-write m i d way e lt =
        let (s, h, differ) = way e lt in
        elim (ℕ_discrete j ((i + e) % capacity)) [
          | yes same ↦
              let at_j : slot_at t j ≡ some s = rw same h in
              let mine : s.name ≡ name = elim free [ inl empty ↦ cc | inr (r, used, named) ↦ cc ] in
              let other : name_eq name m ≡ false = rw mine at differ in
              let now : slot_at (write t j name v) ((i + e) % capacity) ≡ some entry =
                sym (ap (λ x. slot_at (write t j name v) x) same) ∙ write-here in
              (entry, now, other)
          | no differs ↦ (s, write-there ((i + e) % capacity) differs ∙ h, differ)
        ]

    pub write-Wf :
        (d : ℕ)
        → Wf capacity t
        → d < capacity
        → (start capacity name + d) % capacity ≡ j
        → Blocked capacity t name (start capacity name) d
        → Wf capacity (write t j name v)
    write-Wf d wf lt reached way = record {
      size = length-set t j _ ∙ wf.size;
      placed = λ k s h. elim (ℕ_discrete j k) [
        | yes same ↦
            let mine : entry ≡ s = write-entry k s same h in
            rw (sym mine, sym same) (d, lt, reached, Blocked-write name (start capacity name) d way)
        | no differs ↦
            let (c, less, there_, clear) = wf.placed k s (sym (write-there k differs) ∙ h) in
            (c, less, there_, Blocked-write s.name (start capacity s.name) c clear)
      ];
    }

    pub write-lookup_other :
        (m : Name) (w : V)
        → Wf capacity t
        → Wf capacity (write t j name v)
        → m ≢ name
        → (lookup capacity (write t j name v) m ≡ some w) ↔ (lookup capacity t m ≡ some w)
    write-lookup_other m w wf wf_ ne = (
      λ h.
          let (k, s, slot, named, value) = lookup-slot capacity (write t j name v) m w h in
          elim (ℕ_discrete j k) [
            | yes same ↦
                let mine : entry ≡ s = write-entry k s same slot in
                absurd (ne (sym named ∙ ap (λ r. r.name) (sym mine)))
            | no differs ↦
                rw (named, value) at
                  (lookup-placed capacity t k s wf (sym (write-there k differs) ∙ slot))
          ],
      λ h.
          let (k, s, slot, named, value) = lookup-slot capacity t m w h in
          elim (ℕ_discrete j k) [
            | yes same ↦
                let at_j : slot_at t j ≡ some s = rw same slot in
                elim free [
                  | inl empty ↦ cc
                  | inr (r, used, called) ↦
                      let both : r ≡ s = cc in
                      absurd (ne (sym named ∙ ap (λ q. q.name) (sym both) ∙ called))
                ]
            | no differs ↦
                rw (named, value) at
                  (lookup-placed capacity (write t j name v) k s wf_ (write-there k differs ∙ slot))
          ],
    )
