-- ===== src/Ctype/Names.antt =====
-- clua/src/ffi/ctype.c: the open-addressed tables, `g_Slots`, `g_Enums` and `g_Externs`. The six
-- functions that go through a table have the same probe loop, here `probe`; a slot that is not
-- `InUse` is `none`. `capacity` is CTYPE_TABLE_MAX or ENUM_TABLE_MAX.
use compiled_lua.Common.{ℕ, zero, suc, ◌+◌, ◌*◌, ◌%◌, ◌^◌}
use compiled_lua.Common.{Option, none, some, List, [], ◌∷◌}
use compiled_lua.Common.{if◌then◌else◌}
use compiled_lua.Common.{set, get_or, take}
pub mod Probing
pub mod Map
mod Write
pub mod Registration
use compiled_lua.Common.Name.{Name, name_eq}

-- H = ( ( H << 5 ) + H ) + ( unsigned char )*Name, in 32 bits
unfoldable pub hash_from : ℕ → Name → ℕ
hash_from h [] = h
hash_from h (c ∷ cs) = hash_from ((h * 33 + c) % 2 ^ 32) cs

unfoldable pub hash_name : Name → ℕ
unfolding hash_from
hash_name name = hash_from 5381 name

pub record Slot {ℓ} (V : Type ℓ) : Type ℓ where
  pub name : Name
  pub value : V

-- strncpy( slot.Name, Name, 63 )
abbrev pub stored_name : Name → Name
stored_name name = take 63 name

pub data Probe {ℓ} (V : Type ℓ) : Type ℓ where
  vacant : ℕ → Probe V
  taken : ℕ → Slot V → Probe V
  full : Probe V

abbrev pub Table {ℓ} : Type ℓ → Type ℓ
Table V = List (Option (Slot V))

abbrev pub slot_at {ℓ} : {V : Type ℓ} → Table V → ℕ → Option (Slot V)
slot_at t i = get_or t i none

abbrev pub start : ℕ → Name → ℕ
start capacity name = hash_name name % capacity

abbrev pub write {ℓ} : {V : Type ℓ} → Table V → ℕ → Name → V → Table V
write t i name v = set t i (some (record { name = stored_name name; value = v }))

module _ {ℓ} {V : Type ℓ} (capacity : ℕ) where
  -- The loop, `rounds` before its end, at `Start + I` = `i`.
  unfoldable pub probe : Table V → Name → ℕ → ℕ → Probe V
  probe t name zero i = full
  probe t name (suc rounds) i =
      let later = probe t name rounds (i + 1) in
      elim (slot_at t (i % capacity)) [
        | none ↦ vacant (i % capacity)
        | some s ↦ if name_eq s.name name then taken (i % capacity) s else later
      ]

  abbrev pub find : Table V → Name → Probe V
  find t name = probe t name capacity (start capacity name)

  -- Ctype_Lookup, Ctype_LookupEnumConst, Ctype_LookupExtern
  unfoldable pub lookup : Table V → Name → Option V
  lookup t name = elim (find t name) [ vacant _ ↦ none | taken _ s ↦ some s.value | full ↦ none ]

  -- Ctype_RegisterEnumConst, Ctype_RegisterExtern: a full table stays as it is.
  unfoldable pub upsert : Table V → Name → V → Table V
  upsert t name v = elim (find t name) [
    | vacant i ↦ write t i name v
    | taken i _ ↦ write t i name v
    | full ↦ t
  ]
