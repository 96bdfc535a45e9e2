-- ===== src/Ctype.antt =====
-- clua/src/ffi/ctype.c: the FFI's type table. A `PCType_T` is the index of its object in `types`,
-- so `g_AllTypes` is that list and `g_NumAllTypes` its length. Of a type, the fields are those
-- that ctype.c reads or writes; the parser sets the others.
use compiled_lua.Common.{ℕ}
use compiled_lua.Common.{Bool, false}
use compiled_lua.Common.{Option, none, List, []}
use compiled_lua.Common.{◌==◌}
use compiled_lua.Common.{set, get_or}
pub mod Names
pub mod Types
pub mod Layout
pub mod Primitives
mod Tests
use compiled_lua.Common.Int.{ℤ}
use compiled_lua.Common.Name.{Name}
use compiled_lua.Ctype.Names.{Table}

pub data Kind : Type 0 where
  ct_void ct_bool ct_int ct_float ct_ptr ct_array ct_struct ct_union ct_enum ct_func ct_funcptr
        ct_lib :
      Kind

-- The kinds as the numbers of the C enumeration.
abbrev pub number : Kind → ℕ
number ct_void = 0
number ct_bool = 1
number ct_int = 2
number ct_float = 3
number ct_ptr = 4
number ct_array = 5
number ct_struct = 6
number ct_union = 7
number ct_enum = 8
number ct_func = 9
number ct_funcptr = 10
number ct_lib = 11

abbrev pub same_kind : Kind → Kind → Bool
same_kind a b = number a == number b

pub record Field : Type 0 where
  pub name : Name
  pub type : ℕ
  pub offset : ℕ

pub record CType : Type 0 where
  pub kind : Kind
  pub size : ℕ
  pub align : ℕ
  pub is_signed : Bool
  pub elem_type : Option ℕ
  pub fields : List Field
  pub num_fields : ℕ
  pub ptr_to : Option ℕ

abbrev pub ctype_table_max : ℕ
ctype_table_max = 4096

abbrev pub enum_table_max : ℕ
enum_table_max = 8192

-- The module's static variables, and the number of `calloc`s so far.
pub record Store : Type 0 where
  pub types : List CType
  pub slots : Table ℕ
  pub enums : Table ℤ
  pub externs : Table ℕ
  pub initialised : Bool
  pub allocs : ℕ

-- What a fresh object holds, all zero.
abbrev pub zeroed : CType
zeroed = record {
  kind = ct_void;
  size = 0;
  align = 0;
  is_signed = false;
  elem_type = none;
  fields = [];
  num_fields = 0;
  ptr_to = none;
}

abbrev pub type_at : Store → ℕ → CType
type_at s t = get_or s.types t zeroed

abbrev pub put_type : Store → ℕ → CType → Store
put_type s t c = record s { types = set s.types t c }
