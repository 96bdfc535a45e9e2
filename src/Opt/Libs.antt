-- ===== src/Opt/Libs.antt =====
-- clua/src/opt/passes.c: the scans over constants and instructions that decide what a program
-- may reach. The mask of common/stdlib_libs.h is a record of its seven bits.
use compiled_lua.Common.{ℕ}
use compiled_lua.Common.{Bool, true, false, not, ◌&&◌, ◌||◌}
use compiled_lua.Common.{Option, none, some, List, [], ◌∷◌}
use compiled_lua.Common.{if◌then◌else◌}
use compiled_lua.Common.{get_elem?}
pub mod Reached
use compiled_lua.Opt.{
  Name, codes, name_eq, Op, gettabup, getupval, getfield, geti, gettable, self, mmbin, mmbini,
  mmbink, loadk, closure, call, other, Constant, string, integer, float, nonstring, Instruction,
  Proto, LcInst, LcFunc, LcModule, sources,
}

-- ttisstring( kv ) && strcmp( getstr( tsvalue( kv ) ), s ) == 0
abbrev pub is_string : Name → Constant → Bool
is_string s (string t) = name_eq t s
is_string s _ = false

unfoldable pub has_constant : Name → List Constant → Bool
has_constant s [] = false
has_constant s (k ∷ ks) = is_string s k || has_constant s ks

unfoldable pub any_constant : Name → List Proto → Bool
any_constant s [] = false
any_constant s (p ∷ ps) = has_constant s p.constants || any_constant s ps

unfoldable pub module_has_string_const : LcModule → Name → Bool
module_has_string_const m s = any_constant s (sources m.funcs)

abbrev pub constant_at : Proto → ℕ → Option Constant
constant_at p i = get_elem? p.constants i

-- The two shapes that make the global table a value.
unfoldable pub reflects_instruction : Proto → Op → Instruction → Bool
reflects_instruction p getupval i = elim (get_elem? p.upvalue_names i.b) [
  | some (some n) ↦ name_eq n (codes "_ENV")
  | some none ↦ false
  | none ↦ false
]
reflects_instruction p gettabup i = elim (constant_at p i.c) [
  | some k ↦ is_string (codes "_G") k || is_string (codes "_ENV") k
  | none ↦ false
]
reflects_instruction p _ i = false

unfoldable pub reflects_code : Proto → List Instruction → Bool
reflects_code p [] = false
reflects_code p (i ∷ is) = reflects_instruction p i.op i || reflects_code p is

unfoldable pub reflects_protos : List Proto → Bool
reflects_protos [] = false
reflects_protos (p ∷ ps) = reflects_code p p.code || reflects_protos ps

unfoldable pub lc_module_reflects_globals : LcModule → Bool
lc_module_reflects_globals m = reflects_protos (sources m.funcs)

unfoldable pub lc_module_uses_debug : LcModule → Bool
lc_module_uses_debug m = module_has_string_const m (codes "debug")

unfoldable pub lc_module_uses_ffi : LcModule → Bool
lc_module_uses_ffi m =
    module_has_string_const m (codes "ffi") || module_has_string_const m (codes "bit")

unfoldable pub lc_module_uses_coroutine : LcModule → Bool
lc_module_uses_coroutine m =
    if module_has_string_const m (codes "coroutine")
    then true
    else if lc_module_reflects_globals m
    then true
    else if module_has_string_const m (codes "package")
    then true
    else module_has_string_const m (codes "debug")

pub record Mask : Type 0 where
  pub string_lib : Bool
  pub table_lib : Bool
  pub math_lib : Bool
  pub io_lib : Bool
  pub os_lib : Bool
  pub utf8_lib : Bool
  pub debug_lib : Bool

abbrev pub lclib_all : Mask
lclib_all = record {
  string_lib = true;
  table_lib = true;
  math_lib = true;
  io_lib = true;
  os_lib = true;
  utf8_lib = true;
  debug_lib = true;
}

abbrev pub no_libs : Mask
no_libs = record {
  string_lib = false;
  table_lib = false;
  math_lib = false;
  io_lib = false;
  os_lib = false;
  utf8_lib = false;
  debug_lib = false;
}

-- The chain of `strcmp`s on one string constant.
pub name_bit : Name → Mask → Mask
name_bit s k =
    if name_eq s (codes "string")
    then record k { string_lib = true }
    else if name_eq s (codes "table")
    then record k { table_lib = true }
    else if name_eq s (codes "math")
    then record k { math_lib = true }
    else if name_eq s (codes "io")
    then record k { io_lib = true }
    else if name_eq s (codes "os")
    then record k { os_lib = true }
    else if name_eq s (codes "utf8")
    then record k { utf8_lib = true }
    else if name_eq s (codes "debug")
    then record k { debug_lib = true }
    else k

pub constant_bits : List Constant → Mask → Mask
constant_bits [] k = k
constant_bits (string s ∷ cs) k = constant_bits cs (name_bit s k)
constant_bits (_ ∷ cs) k = constant_bits cs k

-- An opcode that may index a string or fall to a string's metamethod.
pub indexes : Op → Bool
indexes getfield = true
indexes geti = true
indexes gettable = true
indexes self = true
indexes mmbin = true
indexes mmbini = true
indexes mmbink = true
indexes _ = false

pub any_indexes : List Instruction → Bool
any_indexes [] = false
any_indexes (i ∷ is) = indexes i.op || any_indexes is

-- The scan of the code sets the string bit where it is not set.
pub proto_bits : Proto → Mask → Mask
proto_bits p k =
    let named = constant_bits p.constants k in
    if not named.string_lib && any_indexes p.code then record named { string_lib = true } else named

pub module_bits : List Proto → Mask → Mask
module_bits [] k = k
module_bits (p ∷ ps) k = module_bits ps (proto_bits p k)

pub lc_module_used_libs : LcModule → Mask
lc_module_used_libs m =
    if lc_module_reflects_globals m
      || module_has_string_const m (codes "package")
      || module_has_string_const m (codes "debug")
    then lclib_all
    else module_bits (sources m.funcs) no_libs
