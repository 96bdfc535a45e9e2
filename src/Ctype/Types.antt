-- ===== src/Ctype/Types.antt =====
-- clua/src/ffi/ctype.c: creating, interning, registering and looking up types. `alloc k` says
-- whether the `k`th `calloc` succeeds. A name or type that is NULL is `none`.
pub mod Again
pub mod Registered
pub mod Interned
use compiled_lua.Common.{ℕ, ◌+◌, ◌*◌}
use compiled_lua.Common.{Bool, true, false, ◌&&◌}
use compiled_lua.Common.{Option, none, some, [], ◌∷◌, ◌++◌}
use compiled_lua.Common.{ltb, leb, ◌==◌, if◌then◌else◌}
use compiled_lua.Common.{length}
use compiled_lua.Common.Int.{ℤ}
use compiled_lua.Common.Name.{Name}
use compiled_lua.Ctype.{
  CType, Field, Store, Kind, ct_ptr, same_kind, ctype_table_max, enum_table_max, zeroed, type_at,
  put_type,
}
use compiled_lua.Ctype.Names.{Probe, Slot, vacant, taken, full, find, lookup, upsert, write}

-- What `ctype_new` gave: fill the pointer type in and intern it on its target.
unfoldable pub intern : ℕ → Store × Option ℕ → Store × Option ℕ
intern elem (s, none) = (s, none)
intern elem (s, some p) =
    let filled =
      put_type s p
        (record (type_at s p) { kind = ct_ptr; size = 8; align = 8; elem_type = some elem }) in
    (put_type filled elem (record (type_at filled elem) { ptr_to = some p }), some p)

module _ (alloc : ℕ → Bool) where
  unfoldable pub ctype_new : Store → Store × Option ℕ
  ctype_new s =
      if leb (ctype_table_max * 2) (length s.types)
      then (s, none)
      else if alloc s.allocs
      then (
        record s { types = s.types ++ zeroed ∷ []; allocs = s.allocs + 1 },
        some (length s.types),
      )
      else (record s { allocs = s.allocs + 1 }, none)

  unfoldable pub ctype_pointer_to : Store → Option ℕ → Store × Option ℕ
  ctype_pointer_to s none = (s, none)
  ctype_pointer_to s (some elem) =
      let fresh = intern elem (ctype_new s) in
      elim (type_at s elem).ptr_to [ some p ↦ (s, some p) | none ↦ fresh ]

-- An existing type that the new one completes: the same kind, no layout yet.
unfoldable pub is_stub : CType → CType → Bool
is_stub old new =
    same_kind old.kind new.kind
    && old.size == 0
    && elim old.fields [ [] ↦ true | _ ∷ _ ↦ false ]
    && ltb 0 new.size

-- Fill the stub `e` in place; the new type hands its fields over.
unfoldable pub complete_stub : Store → ℕ → ℕ → Store
complete_stub s e t =
    let old = type_at s e in
    let new = type_at s t in
    let filled = put_type s e (record old {
      size = new.size;
      align = new.align;
      fields = new.fields;
      num_fields = new.num_fields;
    }) in
    put_type filled t (record (type_at filled t) { fields = []; num_fields = 0 })

unfoldable pub compatible : CType → CType → Bool
compatible old new = same_kind old.kind new.kind && old.size == new.size && old.align == new.align

-- The name is registered already, for the type `e`.
unfoldable pub register_again : Store → ℕ → ℕ → Store × Bool
unfolding is_stub complete_stub compatible
register_again s e t =
    if e == t
    then (s, true)
    else if is_stub (type_at s e) (type_at s t)
    then (complete_stub s e t, true)
    else (s, compatible (type_at s e) (type_at s t))

-- What the probe for the name found decides.
unfoldable pub register_at : Store → Name → ℕ → Probe ℕ → Store × Bool
register_at s name t (vacant i) = (record s { slots = write s.slots i name t }, true)
register_at s name t (taken i slot) = register_again s slot.value t
register_at s name t full = (s, false)

unfoldable pub ctype_register : Store → Option Name → Option ℕ → Store × Bool
ctype_register s (some name) (some t) = register_at s name t (find ctype_table_max s.slots name)
ctype_register s none t = (s, false)
ctype_register s (some name) none = (s, false)

unfoldable pub ctype_lookup : Store → Option Name → Option ℕ
ctype_lookup s none = none
ctype_lookup s (some name) = lookup ctype_table_max s.slots name

unfoldable pub ctype_register_enum_const : Store → Option Name → ℤ → Store
ctype_register_enum_const s none v = s
ctype_register_enum_const s (some name) v = record s {
  enums = upsert enum_table_max s.enums name v;
}

unfoldable pub ctype_lookup_enum_const : Store → Option Name → Option ℤ
ctype_lookup_enum_const s none = none
ctype_lookup_enum_const s (some name) = lookup enum_table_max s.enums name

unfoldable pub ctype_register_extern : Store → Option Name → Option ℕ → Store
ctype_register_extern s (some name) (some t) = record s {
  externs = upsert ctype_table_max s.externs name t;
}
ctype_register_extern s none t = s
ctype_register_extern s (some name) none = s

unfoldable pub ctype_lookup_extern : Store → Option Name → Option ℕ
ctype_lookup_extern s none = none
ctype_lookup_extern s (some name) = lookup ctype_table_max s.externs name
