-- ===== src/Opt/Libs/Reached.antt =====
-- The mask of optional libraries, bit by bit.
use compiled_lua.Common.{◌≡◌, refl, ap, ◌∙◌, inl, inr, Bool, true, false, not, ◌&&◌, ◌||◌}
use compiled_lua.Common.{List, [], ◌∷◌, arith}
use compiled_lua.Common.{Bool-cases}
use compiled_lua.Common.{set}
use compiled_lua.Common.Name.{name_eq→eq}
use compiled_lua.Opt.{
  Name, codes, name_eq, Constant, string, integer, float, nonstring, Proto, LcModule, sources,
}
use compiled_lua.Opt.Libs.{
  has_constant, any_constant, module_has_string_const, lc_module_reflects_globals, Mask, name_bit,
  constant_bits, any_indexes, proto_bits, module_bits, lc_module_used_libs, lclib_all, no_libs,
}

-- One name is not two.
name_eq_other : (s a b : Name) → name_eq s a ≡ true → name_eq s b ≡ name_eq a b
name_eq_other s a b h = ap (λ t. name_eq t b) (name_eq→eq s a h)

-- The six libraries that only their name brings in, with the bit of each.
pub data Named : Type 0 where
  table math io os utf8 debug : Named

abbrev pub lib_name : Named → Name
lib_name table = codes "table"
lib_name math = codes "math"
lib_name io = codes "io"
lib_name os = codes "os"
lib_name utf8 = codes "utf8"
lib_name debug = codes "debug"

abbrev pub bit : Named → Mask → Bool
bit table k = k.table_lib
bit math k = k.math_lib
bit io k = k.io_lib
bit os k = k.os_lib
bit utf8 k = k.utf8_lib
bit debug k = k.debug_lib

name_bit_lem :
    (l : Named) (s : Name) (k : Mask) → bit l (name_bit s k) ≡ (name_eq s (lib_name l) || bit l k)
unfolding name_bit
name_bit_lem table s k = ground (arith, name_eq_other s (codes "string") (codes "table"))
name_bit_lem math s k = ground (
  arith,
  name_eq_other s (codes "string") (codes "math"),
  name_eq_other s (codes "table") (codes "math"),
)
name_bit_lem io s k = ground (
  arith,
  name_eq_other s (codes "string") (codes "io"),
  name_eq_other s (codes "table") (codes "io"),
  name_eq_other s (codes "math") (codes "io"),
)
name_bit_lem os s k = ground (
  arith,
  name_eq_other s (codes "string") (codes "os"),
  name_eq_other s (codes "table") (codes "os"),
  name_eq_other s (codes "math") (codes "os"),
  name_eq_other s (codes "io") (codes "os"),
)
name_bit_lem utf8 s k = ground (
  arith,
  name_eq_other s (codes "string") (codes "utf8"),
  name_eq_other s (codes "table") (codes "utf8"),
  name_eq_other s (codes "math") (codes "utf8"),
  name_eq_other s (codes "io") (codes "utf8"),
  name_eq_other s (codes "os") (codes "utf8"),
)
name_bit_lem debug s k = ground (
  arith,
  name_eq_other s (codes "string") (codes "debug"),
  name_eq_other s (codes "table") (codes "debug"),
  name_eq_other s (codes "math") (codes "debug"),
  name_eq_other s (codes "io") (codes "debug"),
  name_eq_other s (codes "os") (codes "debug"),
  name_eq_other s (codes "utf8") (codes "debug"),
)

string_bit_lem :
    (s : Name) (k : Mask) → (name_bit s k).string_lib ≡ (name_eq s (codes "string") || k.string_lib)
unfolding name_bit
string_bit_lem s k = ground arith

constant_bits_lem :
    (l : Named) (cs : List Constant) (k : Mask)
    → bit l (constant_bits cs k) ≡ (has_constant (lib_name l) cs || bit l k)
unfolding constant_bits has_constant
constant_bits_lem l [] k = refl
constant_bits_lem l (string s ∷ cs) k =
    ground (arith, constant_bits_lem l cs (name_bit s k), name_bit_lem l s k)
constant_bits_lem l (integer ∷ cs) k = constant_bits_lem l cs k
constant_bits_lem l (float ∷ cs) k = constant_bits_lem l cs k
constant_bits_lem l (nonstring ∷ cs) k = constant_bits_lem l cs k

constant_string_lem :
    (cs : List Constant) (k : Mask)
    → (constant_bits cs k).string_lib ≡ (has_constant (codes "string") cs || k.string_lib)
unfolding constant_bits has_constant
constant_string_lem [] k = refl
constant_string_lem (string s ∷ cs) k =
    ground (arith, constant_string_lem cs (name_bit s k), string_bit_lem s k)
constant_string_lem (integer ∷ cs) k = constant_string_lem cs k
constant_string_lem (float ∷ cs) k = constant_string_lem cs k
constant_string_lem (nonstring ∷ cs) k = constant_string_lem cs k

set_string-bit : (l : Named) (k : Mask) → bit l (record k { string_lib = true }) ≡ bit l k
set_string-bit table k = refl
set_string-bit _ k = refl

proto_bits_lem :
    (l : Named) (p : Proto) (k : Mask)
    → bit l (proto_bits p k) ≡ (has_constant (lib_name l) p.constants || bit l k)
unfolding proto_bits
proto_bits_lem l p k =
    let named = constant_bits p.constants k in
    elim (Bool-cases (not named.string_lib && any_indexes p.code)) [
      | inl set ↦ rw set (set_string-bit l named ∙ constant_bits_lem l p.constants k)
      | inr unset ↦ rw unset (constant_bits_lem l p.constants k)
    ]

proto_string_lem :
    (p : Proto) (k : Mask)
    → (proto_bits p k).string_lib
      ≡ ((has_constant (codes "string") p.constants || any_indexes p.code) || k.string_lib)
unfolding proto_bits
proto_string_lem p k = ground (arith, constant_string_lem p.constants k)

-- Some prototype has an instruction that may need the string library.
pub any_code_indexes : List Proto → Bool
any_code_indexes [] = false
any_code_indexes (p ∷ ps) = any_indexes p.code || any_code_indexes ps

module_bits_lem :
    (l : Named) (ps : List Proto) (k : Mask)
    → bit l (module_bits ps k) ≡ (any_constant (lib_name l) ps || bit l k)
unfolding module_bits any_constant
module_bits_lem l [] k = refl
module_bits_lem l (p ∷ ps) k =
    ground (arith, module_bits_lem l ps (proto_bits p k), proto_bits_lem l p k)

module_string_lem :
    (ps : List Proto) (k : Mask)
    → (module_bits ps k).string_lib
      ≡ ((any_constant (codes "string") ps || any_code_indexes ps) || k.string_lib)
unfolding module_bits any_constant any_code_indexes
module_string_lem [] k = refl
module_string_lem (p ∷ ps) k =
    ground (arith, module_string_lem ps (proto_bits p k), proto_string_lem p k)

all-bit : (l : Named) → bit l lclib_all ≡ true
all-bit table = refl
all-bit _ = refl

none-bit : (l : Named) → bit l no_libs ≡ false
none-bit table = refl
none-bit _ = refl

or-false : (a : Bool) → (a || false) ≡ a
or-false a = ground arith

-- One of the shapes through which a computed key reaches any library.
abbrev pub escapes : LcModule → Bool
escapes m =
    lc_module_reflects_globals m
    || module_has_string_const m (codes "package")
    || module_has_string_const m (codes "debug")

-- Each bit of the mask is set exactly when it has to be: where a computed key may reach any
-- library, where the library is named by a constant of some prototype, and for the string
-- library also where some instruction may index a string or use its metamethods.
pub lc_module_used_libs_lem :
    (m : LcModule)
    → ((l : Named)
        → bit l (lc_module_used_libs m) ≡ (escapes m || module_has_string_const m (lib_name l)))
      × ((lc_module_used_libs m).string_lib ≡ (
          escapes m
          || (module_has_string_const m (codes "string") || any_code_indexes (sources m.funcs))))
unfolding lc_module_used_libs module_has_string_const
lc_module_used_libs_lem m = elim (Bool-cases (escapes m)) [
  | inl out ↦ (λ l. rw out (all-bit l), rw out)
  | inr closed ↦ (
    λ l. rw closed (
        module_bits_lem l (sources m.funcs) no_libs
        ∙ rw (none-bit l) (or-false (any_constant (lib_name l) (sources m.funcs)))),
    rw closed (module_string_lem (sources m.funcs) no_libs ∙ or-false _),
  )
]
