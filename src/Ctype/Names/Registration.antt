-- ===== src/Ctype/Names/Registration.antt =====
-- A registration in a table, as the map that the clients see.
use compiled_lua.Common.{ℕ, ◌+◌, ◌%◌, ◌≤◌, ◌<◌}
use compiled_lua.Common.{◌≡◌, refl, sym, ◌≢◌, ◌↔◌, ◌⊎◌, inl, inr}
use compiled_lua.Common.{Option, none, some, arith}
use compiled_lua.Common.{length}
use compiled_lua.Common.Name.{Name}
use native.Mathlib.Nat.{mod-lt}
use compiled_lua.Ctype.Names.{Table, start, lookup, write, upsert}
use compiled_lua.Ctype.Names.Probing.{Blocked, at_vacant, at_taken, at_full, view}
use compiled_lua.Ctype.Names.Map.{Wf, lookup-placed}
use compiled_lua.Ctype.Names.Write.{Open, write-here, write-Wf, write-lookup_other}

Option-ext {ℓ} : {A : Type ℓ} → (a b : Option A) → ((w : A) → (a ≡ some w) ↔ (b ≡ some w)) → a ≡ b
Option-ext none none h = refl
Option-ext none (some y) h = (h y).1 refl
Option-ext (some x) b h = sym ((h x).0 refl)

module _ {ℓ} {V : Type ℓ} (capacity : ℕ) (positive : 0 < capacity) where
  -- What the clients see of a registration that is written.
  abbrev pub Maps : Table V → Table V → Name → V → Type ℓ
  Maps t u name v =
      (lookup capacity u name ≡ some v)
      × ((m : Name) → m ≢ name → lookup capacity u m ≡ lookup capacity t m)

  pub write_lem :
      (t : Table V) (name : Name) (v : V) (d : ℕ)
      → Wf capacity t
      → length name ≤ 63
      → d < capacity
      → Blocked capacity t name (start capacity name) d
      → Open capacity t ((start capacity name + d) % capacity) name
      → Wf capacity (write t ((start capacity name + d) % capacity) name v)
        × Maps t (write t ((start capacity name + d) % capacity) name v) name v
  write_lem t name v d wf fits lt way free =
      let j = (start capacity name + d) % capacity in
      let inside : j < length t =
        omega (arith, mod-lt (start capacity name + d) positive, wf.size) in
      let after = write-Wf capacity t j name v inside fits free d wf lt refl way in
      (
        after,
        (
          lookup-placed capacity (write t j name v) j _ after
              (write-here capacity t j name v inside fits free),
          λ m ne.
              Option-ext _ _
                (λ w. write-lookup_other capacity t j name v inside fits free m w wf after ne),
        ),
      )

  -- A registration of a name of at most 63 characters keeps every entry where the probe gets to.
  -- Either the name then has the value and every other name answers as before, or the table was
  -- full of other names and stays as it was.
  pub upsert_lem :
      (t : Table V) (name : Name) (v : V)
      → Wf capacity t
      → length name ≤ 63
      → Wf capacity (upsert capacity t name v)
        × (Maps t (upsert capacity t name v) name v
            ⊎ ((upsert capacity t name v ≡ t)
                × (lookup capacity t name ≡ none)
                × Blocked capacity t name (start capacity name) capacity))
  unfolding upsert lookup
  upsert_lem t name v wf fits = elim (view capacity t name (start capacity name) capacity) [
    | at_vacant d lt way slot runs ↦
        let (after, maps) = write_lem t name v d wf fits lt way (inl slot) in
        rw (runs, upsert) (after, inl maps)
    | at_taken d s lt way slot same runs ↦
        let (after, maps) = write_lem t name v d wf fits lt way (inr (s, slot, same)) in
        rw (runs, upsert) (after, inl maps)
    | at_full way runs ↦
        let kept : upsert capacity t name v ≡ t = rw (runs, upsert) refl in
        let missing : lookup capacity t name ≡ none = rw (runs, lookup) refl in
        rw kept (wf, inr (refl, missing, way))
  ]
