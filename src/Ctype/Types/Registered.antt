-- ===== src/Ctype/Types/Registered.antt =====
-- Registrations in the type table, seen through lookups.
use compiled_lua.Common.{ℕ, ◌+◌, ◌%◌, ◌≤◌, ◌<◌}
use compiled_lua.Common.{◌≡◌, refl, sym, ap, ◌∙◌, ◌≢◌, ◌⊎◌, inl, inr, true, false}
use compiled_lua.Common.{none, some, arith}
use compiled_lua.Common.{ℕ_discrete, Option-cases}
use compiled_lua.Common.{length, length-take, get_or-set_self, get_or-set_ne}
use compiled_lua.Common.Int.{ℤ}
use compiled_lua.Common.Name.{Name}
use native.Mathlib.Nat.{mod-lt}
use compiled_lua.Ctype.{Store, ctype_table_max, enum_table_max, type_at}
use compiled_lua.Ctype.Names.{Slot, Table, slot_at, lookup, write, start, stored_name}
use compiled_lua.Ctype.Names.Probing.{Blocked, at_vacant, at_taken, at_full, view}
use compiled_lua.Ctype.Names.Map.{Wf, lookup-slot, lookup-taken}
use compiled_lua.Ctype.Names.Registration.{write_lem, upsert_lem}
use compiled_lua.Ctype.Types.Again.{Agrees, same_kind_refl, register_again_lem}
use compiled_lua.Ctype.Types.{
  ctype_register, register_at, register_again, ctype_lookup, ctype_register_enum_const,
  ctype_lookup_enum_const, ctype_register_extern, ctype_lookup_extern,
}

-- Registering an enumeration constant of at most 63 characters keeps the table well formed.
-- Either the name then has the value and every other name answers as before, or the table was
-- full of other names and nothing changed.
pub ctype_register_enum_const_lem :
    (s : Store) (name : Name) (v : ℤ)
    → Wf enum_table_max s.enums
    → length name ≤ 63
    → let u = ctype_register_enum_const s (some name) v in
      Wf enum_table_max u.enums
      × (((ctype_lookup_enum_const u (some name) ≡ some v)
            × ((m : Name)
                → m ≢ name
                → ctype_lookup_enum_const u (some m) ≡ ctype_lookup_enum_const s (some m)))
          ⊎ ((u.enums ≡ s.enums)
              × (ctype_lookup_enum_const s (some name) ≡ none)
              × Blocked enum_table_max s.enums name (start enum_table_max name) enum_table_max))
unfolding ctype_register_enum_const ctype_lookup_enum_const
ctype_register_enum_const_lem s name v wf fits =
    upsert_lem enum_table_max (omega arith) s.enums name v wf fits

-- Registering an external symbol of at most 63 characters with its type keeps the table well
-- formed. Either the name then has the type and every other name answers as before, or the table
-- was full of other names and nothing changed.
pub ctype_register_extern_lem :
    (s : Store) (name : Name) (t : ℕ)
    → Wf ctype_table_max s.externs
    → length name ≤ 63
    → let u = ctype_register_extern s (some name) (some t) in
      Wf ctype_table_max u.externs
      × (((ctype_lookup_extern u (some name) ≡ some t)
            × ((m : Name)
                → m ≢ name
                → ctype_lookup_extern u (some m) ≡ ctype_lookup_extern s (some m)))
          ⊎ ((u.externs ≡ s.externs)
              × (ctype_lookup_extern s (some name) ≡ none)
              × Blocked ctype_table_max s.externs name
                  (start ctype_table_max name)
                  ctype_table_max))
unfolding ctype_register_extern ctype_lookup_extern
ctype_register_extern_lem s name t wf fits =
    upsert_lem ctype_table_max (omega arith) s.externs name t wf fits

-- Registering a type under a name of at most 63 characters, where every name of the table stands
-- for a type that exists: the table stays well formed, every other name answers as before, and
-- if the registration succeeds the name answers with a type of the new type's kind, size and
-- alignment; it succeeds unless the name stands for a type already or the table is full of other
-- names.
pub ctype_register_lem :
    (s : Store) (name : Name) (t : ℕ)
    → Wf ctype_table_max s.slots
    → ((j : ℕ) (r : Slot ℕ) → slot_at s.slots j ≡ some r → r.value < length s.types)
    → length name ≤ 63
    → t < length s.types
    → let (u, ok) = ctype_register s (some name) (some t) in
      Wf ctype_table_max u.slots
      × ((m : Name) → m ≢ name → ctype_lookup u (some m) ≡ ctype_lookup s (some m))
      × (ok ≡ true
          → (e : ℕ) × (ctype_lookup u (some name) ≡ some e) × Agrees (type_at u e) (type_at s t))
      × ((ok ≡ true)
          ⊎ (((e : ℕ) × (ctype_lookup s (some name) ≡ some e))
              ⊎ Blocked ctype_table_max s.slots name (start ctype_table_max name) ctype_table_max))
unfolding ctype_lookup
ctype_register_lem s name t wf known fits inside =
    elim (view ctype_table_max s.slots name (start ctype_table_max name) ctype_table_max) [
      | at_vacant d lt way slot runs ↦
          let i = (start ctype_table_max name + d) % ctype_table_max in
          let out : ctype_register s (some name) (some t)
              ≡ (record s { slots = write s.slots i name t }, true) =
            unfold ctype_register register_at in ap (register_at s name t) runs in
          let (after, (mine, others)) =
            write_lem ctype_table_max (omega arith) s.slots name t d wf fits lt way (inl slot) in
          rw out (after, others, λ h. (t, mine, (same_kind_refl _, refl, refl)), inl refl)
      | at_taken d r lt way slot same runs ↦
          let out : ctype_register s (some name) (some t) ≡ register_again s r.value t =
            unfold ctype_register register_at in ap (register_at s name t) runs in
          let (kept, agrees) = register_again_lem s r.value t (known _ r slot) inside in
          let found = lookup-taken ctype_table_max s.slots name _ r runs in
          rw (out, kept)
            (wf, λ m ne. refl, λ h. (r.value, found, agrees h), inr (inl (r.value, found)))
      | at_full way runs ↦
          let out : ctype_register s (some name) (some t) ≡ (s, false) =
            unfold ctype_register register_at in ap (register_at s name t) runs in
          rw out (wf, λ m ne. refl, λ h. cc, inr (inr way))
    ]

-- Every stored name fits its slot.
abbrev pub Short : Table ℕ → Type 0
Short t = (j : ℕ) (r : Slot ℕ) → slot_at t j ≡ some r → length r.name ≤ 63

lookup-long :
    (t : Table ℕ) (name : Name) → Short t → 63 < length name → lookup ctype_table_max t name ≡ none
lookup-long t name short long = elim (Option-cases (lookup ctype_table_max t name)) [
  | inl missing ↦ missing
  | inr (v, found) ↦
      let (j, r, slot, named, value) = lookup-slot ctype_table_max t name v found in
      absurd (omega (arith, short j r slot, ap length named))
]

write-Short :
    (t : Table ℕ) (i : ℕ) (name : Name) (v : ℕ) → i < length t → Short t → Short (write t i name v)
write-Short t i name v inside short j r slot = elim (ℕ_discrete i j) [
  | yes same ↦
      let moved : slot_at (write t i name v) i ≡ some r =
        ap (λ x. slot_at (write t i name v) x) same ∙ slot in
      let both : some (record { name = stored_name name; value = v }) ≡ some r =
        sym (get_or-set_self t i _ none inside) ∙ moved in
      let it : record { name = stored_name name; value = v } ≡ r = cc in
      rw (sym it) (omega (arith, length-take 63 name))
  | no differ ↦ short j r (sym (get_or-set_ne t i j _ none differ) ∙ slot)
]

-- In a table whose stored names have at most 63 characters, a type that is registered under a
-- longer name is not found under it: the name is cut where it is stored and whole where it is
-- compared. The stored names stay within 63 characters.
pub ctype_register-long :
    (s : Store) (name : Name) (t : ℕ)
    → length s.slots ≡ ctype_table_max
    → Short s.slots
    → 63 < length name
    → let u = (ctype_register s (some name) (some t)).0 in
      Short u.slots × (ctype_lookup u (some name) ≡ none)
unfolding ctype_lookup
ctype_register-long s name t size short long =
    elim (view ctype_table_max s.slots name (start ctype_table_max name) ctype_table_max) [
      | at_vacant d lt way slot runs ↦
          let i = (start ctype_table_max name + d) % ctype_table_max in
          let out : ctype_register s (some name) (some t)
              ≡ (record s { slots = write s.slots i name t }, true) =
            unfold ctype_register register_at in ap (register_at s name t) runs in
          let kept : Short (write s.slots i name t) =
            write-Short s.slots i name t
              (omega (arith, mod-lt (start ctype_table_max name + d) {m = 4096} (omega arith)))
              short in
          rw out (kept, lookup-long _ name kept long)
      | at_taken d r lt way slot same runs ↦ absurd (omega (arith, short _ r slot, ap length same))
      | at_full way runs ↦
          let out : ctype_register s (some name) (some t) ≡ (s, false) =
            unfold ctype_register register_at in ap (register_at s name t) runs in
          rw out (short, lookup-long s.slots name short long)
    ]
