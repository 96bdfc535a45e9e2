-- ===== src/Ctype/Names/Map.antt =====
-- clua/src/ffi/ctype.c: well-formed tables, and what a lookup in one answers.
use compiled_lua.Common.{ℕ, ◌+◌, ◌%◌, ◌<◌}
use compiled_lua.Common.{◌≡◌, refl}
use compiled_lua.Common.{Option, none, some}
use compiled_lua.Common.{length, replicate, length-replicate, get_or-replicate}
use compiled_lua.Common.Name.{Name}
use compiled_lua.Ctype.Names.{Slot, Table, slot_at, taken, start, find, lookup}
use compiled_lua.Ctype.Names.Probing.{Blocked, at_vacant, at_taken, at_full, view, probe-taken}

module _ {ℓ} {V : Type ℓ} (capacity : ℕ) where
  -- Every entry stands where the probe for its name gets to.
  pub record Wf (t : Table V) : Type ℓ where
    pub size : length t ≡ capacity
    pub placed :
        (j : ℕ) (s : Slot V)
        → slot_at t j ≡ some s
        → (d : ℕ) × (d < capacity)
          × ((start capacity s.name + d) % capacity ≡ j)
          × Blocked capacity t s.name (start capacity s.name) d

  pub empty-Wf : Wf (replicate capacity none)
  empty-Wf = record {
    size = length-replicate capacity none;
    placed = λ j s h. (let free = get_or-replicate {A = Option (Slot V)} capacity j none in cc);
  }

  find-placed :
      (t : Table V) (j : ℕ) (s : Slot V)
      → Wf t
      → slot_at t j ≡ some s
      → find capacity t s.name ≡ taken j s
  find-placed t j s wf h =
      let (d, lt, where_, way) = wf.placed j s h in
      rw where_ at (
        probe-taken capacity t s.name capacity (start capacity s.name) d s lt way (rw where_ h)
          refl)

  pub lookup-placed :
      (t : Table V) (j : ℕ) (s : Slot V)
      → Wf t
      → slot_at t j ≡ some s
      → lookup capacity t s.name ≡ some s.value
  unfolding lookup
  lookup-placed t j s wf h = rw (find-placed t j s wf h, lookup) refl

  -- What `lookup` answers stands in some slot.
  pub lookup-slot :
      (t : Table V) (name : Name) (v : V)
      → lookup capacity t name ≡ some v
      → (j : ℕ) × (s : Slot V) × (slot_at t j ≡ some s) × (s.name ≡ name) × (s.value ≡ v)
  unfolding lookup
  lookup-slot t name v h = elim (view capacity t name (start capacity name) capacity) [
    | at_vacant d lt way slot runs ↦ cc (rw (runs, lookup) at h)
    | at_taken d s lt way slot same runs ↦
        let found : some s.value ≡ some v = rw (runs, lookup) at h in (_, s, slot, same, cc)
    | at_full way runs ↦ cc (rw (runs, lookup) at h)
  ]

  pub lookup-taken :
      (t : Table V) (name : Name) (j : ℕ) (s : Slot V)
      → find capacity t name ≡ taken j s
      → lookup capacity t name ≡ some s.value
  unfolding lookup
  lookup-taken t name j s h = rw (h, lookup) refl
