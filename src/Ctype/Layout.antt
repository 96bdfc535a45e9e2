-- ===== src/Ctype/Layout.antt =====
-- clua/src/ffi/ctype.c: `Ctype_AppendField`, which lays out structures and unions. The compound
-- and the field's type are two objects: an anonymous member of its own type would never end.
use compiled_lua.Common.{ℕ, ◌+◌, ◌-◌, ◌%◌, ◌^◌, bit_and}
use compiled_lua.Common.{Bool, true, false, ◌&&◌, ◌||◌}
use compiled_lua.Common.{Option, none, some, List, [], ◌∷◌, ◌++◌}
use compiled_lua.Common.{ltb, if◌then◌else◌}
use compiled_lua.Common.{take}
use compiled_lua.Common.Name.{Name}
use compiled_lua.Ctype.{CType, Field, Store, Kind, ct_struct, ct_union, type_at, put_type}

-- ( n + align - 1 ) & ~( align - 1 ) in 64 bits
unfoldable pub align_up : ℕ → ℕ → ℕ
align_up n align =
    bit_and ((n + align + (2 ^ 64 - 1)) % 2 ^ 64) (2 ^ 64 - 1 - (align + (2 ^ 64 - 1)) % 2 ^ 64)

abbrev pub is_struct : Kind → Bool
is_struct ct_struct = true
is_struct _ = false

abbrev pub is_union : Kind → Bool
is_union ct_union = true
is_union _ = false

-- The new size and alignment of a compound `c` that takes a member of type `f` at `off`.
unfoldable pub grown : CType → CType → ℕ → CType
grown c f off =
    let bigger = if ltb c.size f.size then f.size else c.size in
    let stricter = if ltb c.align f.align then f.align else c.align in
    if is_struct c.kind
    then record c { size = (off + f.size) % 2 ^ 64; align = stricter }
    else record c { size = bigger; align = stricter }

abbrev pub offset_of : CType → CType → ℕ
offset_of c f = if is_struct c.kind then align_up c.size f.align else 0

abbrev pub add_field : CType → Field → CType
add_field c f = record c { fields = c.fields ++ f ∷ []; num_fields = c.num_fields + 1 }

-- The members of an anonymous compound, moved by `base`; `none` where a `calloc` fails.
unfoldable pub promote : (ℕ → Bool) → ℕ → ℕ → List Field → CType → CType × ℕ × Bool
promote alloc base k [] c = (c, k, true)
promote alloc base k (f ∷ fs) c =
    let rest =
      promote alloc base (k + 1) fs
        (add_field c (record f { offset = (base + f.offset) % 2 ^ 64 })) in
    if alloc k then rest else (c, k + 1, false)

-- The end of the anonymous case: the size changes only where every member was allocated.
unfoldable pub promoted : Store → ℕ → CType → ℕ → CType × ℕ × Bool → Store
unfolding grown
promoted s compound f base (c, k, ended) =
    put_type (record s { allocs = k }) compound (if ended then grown c f base else c)

abbrev pub is_anonymous : Option Name → Bool
is_anonymous none = true
is_anonymous (some []) = true
is_anonymous (some (_ ∷ _)) = false

abbrev pub field_name : Option Name → Name
field_name none = []
field_name (some n) = take 63 n

unfoldable pub ctype_append_field : (ℕ → Bool) → Store → Option ℕ → Option Name → Option ℕ → Store
unfolding align_up grown promote promoted
ctype_append_field alloc s (some compound) name (some type) =
    let c = type_at s compound in
    let f = type_at s type in
    let off = offset_of c f in
    let added = add_field c (record { name = field_name name; type = type; offset = off }) in
    if is_anonymous name && (is_struct f.kind || is_union f.kind)
    then promoted s compound f off (promote alloc off s.allocs f.fields c)
    else if alloc s.allocs
    then put_type (record s { allocs = s.allocs + 1 }) compound
        (if is_struct c.kind || is_union c.kind then grown added f off else added)
    else record s { allocs = s.allocs + 1 }
ctype_append_field alloc s none name type = s
ctype_append_field alloc s (some compound) name none = s
