-- ===== src/Ctype/Primitives.antt =====
-- clua/src/ffi/ctype.c: the primitive types, and starting and ending the table.
use compiled_lua.Common.{ℕ}
use compiled_lua.Common.{Bool, true, false}
use compiled_lua.Common.{Option, none, some, List, [], ◌∷◌}
use compiled_lua.Common.{if◌then◌else◌}
use compiled_lua.Common.{replicate}
use compiled_lua.Common.Name.{Name, codes}
use compiled_lua.Ctype.{
  CType, Store, Kind, ct_void, ct_bool, ct_int, ct_float, ctype_table_max, enum_table_max, put_type,
}
use compiled_lua.Ctype.Types.{ctype_new, ctype_register}

-- A primitive's row: its name, size and signedness.
abbrev pub int_prims : List (Name × ℕ × Bool)
int_prims =
    (codes "char", 1, true)
    ∷ (codes "signed char", 1, true)
    ∷ (codes "unsigned char", 1, false)
    ∷ (codes "short", 2, true)
    ∷ (codes "signed short", 2, true)
    ∷ (codes "unsigned short", 2, false)
    ∷ (codes "int", 4, true)
    ∷ (codes "signed int", 4, true)
    ∷ (codes "unsigned int", 4, false)
    ∷ (codes "long", 4, true)
    ∷ (codes "signed long", 4, true)
    ∷ (codes "unsigned long", 4, false)
    ∷ (codes "long long", 8, true)
    ∷ (codes "signed long long", 8, true)
    ∷ (codes "unsigned long long", 8, false)
    ∷ (codes "int8_t", 1, true)
    ∷ (codes "uint8_t", 1, false)
    ∷ (codes "int16_t", 2, true)
    ∷ (codes "uint16_t", 2, false)
    ∷ (codes "int32_t", 4, true)
    ∷ (codes "uint32_t", 4, false)
    ∷ (codes "int64_t", 8, true)
    ∷ (codes "uint64_t", 8, false)
    ∷ (codes "size_t", 8, false)
    ∷ (codes "ptrdiff_t", 8, true)
    ∷ (codes "intptr_t", 8, true)
    ∷ (codes "uintptr_t", 8, false)
    ∷ (codes "wchar_t", 2, false)
    ∷ []

module _ (alloc : ℕ → Bool) where
  -- Fill in and register a type that `ctype_new` gave; the flag says whether it gave one.
  unfoldable pub fill_prim : CType → Name → Store × Option ℕ → Store × Bool
  fill_prim c name (s, none) = (s, false)
  fill_prim c name (s, some t) = ((ctype_register (put_type s t c) (some name) (some t)).0, true)

  abbrev pub prim : Kind → ℕ → ℕ → Bool → CType
  prim kind size align signed = record {
    kind = kind;
    size = size;
    align = align;
    is_signed = signed;
    elem_type = none;
    fields = [];
    num_fields = 0;
    ptr_to = none;
  }

  unfoldable pub register_int_prim : Store → Name → ℕ → Bool → Store
  register_int_prim s name size signed =
      (fill_prim (prim ct_int size size signed) name (ctype_new alloc s)).0

  unfoldable pub register_int_prims : Store → List (Name × ℕ × Bool) → Store
  register_int_prims s [] = s
  register_int_prims s ((name, size, signed) ∷ rows) =
      register_int_prims (register_int_prim s name size signed) rows

  abbrev pub then_ : Store × Bool → (Store → Store) → Store
  then_ (s, true) f = f s
  then_ (s, false) f = s

  unfoldable pub register_primitives : Store → Store
  unfolding fill_prim register_int_prim register_int_prims
  register_primitives s =
      then_ (fill_prim (prim ct_void 0 1 false) (codes "void") (ctype_new alloc s)) (λ a.
        then_ (fill_prim (prim ct_bool 1 1 false) (codes "_Bool") (ctype_new alloc a)) (λ b.
          let ints = register_int_prims b int_prims in
          then_ (fill_prim (prim ct_float 4 4 false) (codes "float") (ctype_new alloc ints))
            (λ d. (fill_prim (prim ct_float 8 8 false) (codes "double") (ctype_new alloc d)).0)))

  unfoldable pub ctype_init : Store → Store
  ctype_init s =
      if s.initialised
      then s
      else register_primitives
          (record s { slots = replicate ctype_table_max none; types = []; initialised = true })

unfoldable pub ctype_shutdown : Store → Store
ctype_shutdown s = record s {
  types = [];
  slots = replicate ctype_table_max none;
  enums = replicate enum_table_max none;
  externs = replicate ctype_table_max none;
  initialised = false;
}
