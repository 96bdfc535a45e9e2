-- ===== src/Ctype/Tests.antt =====
-- Runs of the type table.
use compiled_lua.Common.{ℕ}
use compiled_lua.Common.{◌≡◌, refl, ◌≢◌, ◌⊎◌, true}
use compiled_lua.Common.{Option, none, some, [], ◌∷◌, arith}
use compiled_lua.Common.{replicate, length-replicate, get_or-replicate}
use compiled_lua.Common.Int.{pos}
use compiled_lua.Common.Name.{Name, codes}
use compiled_lua.Ctype.{CType, ct_int, Store, ctype_table_max, enum_table_max, type_at, zeroed}
use compiled_lua.Ctype.Names.{Slot, slot_at, start, hash_from, hash_name}
use compiled_lua.Ctype.Names.Probing.{Blocked}
use compiled_lua.Ctype.Names.Map.{Wf, empty-Wf}
use compiled_lua.Ctype.Types.{
  ctype_register, ctype_lookup, ctype_register_enum_const, ctype_lookup_enum_const,
  ctype_register_extern, ctype_lookup_extern,
}
use compiled_lua.Ctype.Types.{ctype_pointer_to}
use compiled_lua.Ctype.Types.Interned.{ctype_pointer_to_lem}
use compiled_lua.Ctype.Types.Again.{Agrees}
use compiled_lua.Ctype.Types.Registered.{
  Short, ctype_register_enum_const_lem, ctype_register_extern_lem, ctype_register_lem,
  ctype_register-long,
}

abbrev four_bytes : CType
four_bytes = record zeroed { kind = ct_int; size = 4; align = 4 }

-- A table with one type and no names.
abbrev fresh : Store
fresh = record {
  types = four_bytes ∷ [];
  slots = replicate ctype_table_max none;
  enums = replicate enum_table_max none;
  externs = replicate ctype_table_max none;
  initialised = true;
  allocs = 1;
}

hash_test : hash_name (codes "int") ≡ 193495088
unfolding hash_name hash_from
hash_test = refl

ctype_register_enum_const_lem_example :
    let u = ctype_register_enum_const fresh (some (codes "RED")) (pos 3) in
    Wf enum_table_max u.enums
    × (((ctype_lookup_enum_const u (some (codes "RED")) ≡ some (pos 3))
          × ((m : Name)
              → m ≢ codes "RED"
              → ctype_lookup_enum_const u (some m) ≡ ctype_lookup_enum_const fresh (some m)))
        ⊎ ((u.enums ≡ fresh.enums)
            × (ctype_lookup_enum_const fresh (some (codes "RED")) ≡ none)
            × Blocked enum_table_max fresh.enums
                (codes "RED")
                (start enum_table_max (codes "RED"))
                enum_table_max))
ctype_register_enum_const_lem_example =
    ctype_register_enum_const_lem fresh (codes "RED") (pos 3) (empty-Wf enum_table_max)
      (omega arith)

ctype_register_extern_lem_example :
    let u = ctype_register_extern fresh (some (codes "errno")) (some 0) in
    Wf ctype_table_max u.externs
    × (((ctype_lookup_extern u (some (codes "errno")) ≡ some 0)
          × ((m : Name)
              → m ≢ codes "errno"
              → ctype_lookup_extern u (some m) ≡ ctype_lookup_extern fresh (some m)))
        ⊎ ((u.externs ≡ fresh.externs)
            × (ctype_lookup_extern fresh (some (codes "errno")) ≡ none)
            × Blocked ctype_table_max fresh.externs
                (codes "errno")
                (start ctype_table_max (codes "errno"))
                ctype_table_max))
ctype_register_extern_lem_example =
    ctype_register_extern_lem fresh (codes "errno") 0 (empty-Wf ctype_table_max) (omega arith)

no_entry : (j : ℕ) (r : Slot ℕ) → slot_at (replicate ctype_table_max none) j ≡ some r → ⊥
no_entry j r h = (let free = get_or-replicate {A = Option (Slot ℕ)} ctype_table_max j none in cc)

ctype_register_lem_example :
    let (u, ok) = ctype_register fresh (some (codes "id_t")) (some 0) in
    Wf ctype_table_max u.slots
    × ((m : Name) → m ≢ codes "id_t" → ctype_lookup u (some m) ≡ ctype_lookup fresh (some m))
    × (ok ≡ true
        → (e : ℕ) × (ctype_lookup u (some (codes "id_t")) ≡ some e)
          × Agrees (type_at u e) (type_at fresh 0))
    × ((ok ≡ true)
        ⊎ (((e : ℕ) × (ctype_lookup fresh (some (codes "id_t")) ≡ some e))
            ⊎ Blocked ctype_table_max fresh.slots
                (codes "id_t")
                (start ctype_table_max (codes "id_t"))
                ctype_table_max))
ctype_register_lem_example =
    ctype_register_lem fresh (codes "id_t") 0 (empty-Wf ctype_table_max)
      (λ j r h. absurd (no_entry j r h)) (omega arith) (omega arith)

-- A name of 64 characters.
abbrev long_name : Name
long_name = replicate 64 97

ctype_register-long_example :
    let u = (ctype_register fresh (some long_name) (some 0)).0 in
    Short u.slots × (ctype_lookup u (some long_name) ≡ none)
ctype_register-long_example =
    ctype_register-long fresh long_name 0
      (length-replicate {A = Option (Slot ℕ)} ctype_table_max none)
      (λ j r h. absurd (no_entry j r h)) (omega arith)

ctype_pointer_to_lem_example :
    let r = ctype_pointer_to (λ n. true) fresh (some 0) in
    (r.1 ≡ none) ⊎ (ctype_pointer_to (λ n. true) r.0 (some 0) ≡ r)
ctype_pointer_to_lem_example = ctype_pointer_to_lem (λ n. true) fresh 0 (omega arith)
