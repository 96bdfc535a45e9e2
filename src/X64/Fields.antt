-- ===== src/X64/Fields.antt =====
-- The bit fields of the encoder, as arithmetic.
use compiled_lua.Common.{ℕ, ◌+◌, ◌*◌, ◌/◌, ◌%◌, ◌<◌, bit_and, bit_or}
use compiled_lua.Common.{◌≡◌, refl, ◌∙◌, Bool, true}
use compiled_lua.Common.{arith}
use compiled_lua.Common.{◌==◌, if◌then◌else◌, ==_iff}
use compiled_lua.Common.Word.{all_below, all_below_lem}
use compiled_lua.X64.{Gpr, rax, num, is_hi, lo3, mod_rm}
use compiled_lua.X64.Int.{rex_of}

pub num-lt : (r : Gpr) → num r < 16
num-lt rax = omega arith
num-lt _ = omega arith

pub lo3_lem : (r : Gpr) → lo3 r ≡ num r % 8
unfolding lo3
lo3_lem rax = refl
lo3_lem _ = refl

pub lo3-lt : (r : Gpr) → lo3 r < 8
lo3-lt r = omega (arith, lo3_lem r)

pub hi_bit : Gpr → ℕ
hi_bit r = if is_hi r then 1 else 0

pub hi_bit_lem : (r : Gpr) → (if is_hi r then 1 else 0) ≡ num r / 8
unfolding is_hi
hi_bit_lem rax = refl
hi_bit_lem _ = refl

low_table : all_below 16 (λ x. bit_and x 7 == x % 8) ≡ true
unfolding all_below
low_table = refl

pub bit_and-seven : (x : ℕ) → x < 16 → bit_and x 7 ≡ x % 8
bit_and-seven x h = (==_iff _ _).0 (all_below_lem 16 _ x low_table h)

fields_table :
    all_below 256 (λ v. bit_or (bit_or (v / 64 * 64) (v / 8 % 8 * 8)) (v % 8) == v) ≡ true
unfolding all_below
fields_table = refl

join_fields :
    (v mode reg rm : ℕ)
    → v < 256
    → v / 64 ≡ mode
    → v / 8 % 8 ≡ reg
    → v % 8 ≡ rm
    → bit_or (bit_or (mode * 64) (reg * 8)) rm ≡ v
join_fields v mode reg rm h m r b =
    rw (m, r, b) at ((==_iff _ _).0 (all_below_lem 256 _ v fields_table h))

pub bit_or_fields :
    (mode reg rm : ℕ)
    → mode < 4
    → reg < 8
    → rm < 8
    → bit_or (bit_or (mode * 64) (reg * 8)) rm ≡ mode * 64 + reg * 8 + rm
bit_or_fields mode reg rm hm hr hb =
    join_fields (mode * 64 + reg * 8 + rm) mode reg rm (omega arith) (omega arith) (omega arith)
      (omega arith)

pub mod_rm_lem :
    (mode reg rm : ℕ) → mode < 4 → reg < 8 → rm < 8 → mod_rm mode reg rm ≡ mode * 64 + reg * 8 + rm
unfolding mod_rm
mod_rm_lem mode reg rm hm hr hb =
    let r : bit_and reg 7 ≡ reg = bit_and-seven reg (omega arith) ∙ omega arith in
    let b : bit_and rm 7 ≡ rm = bit_and-seven rm (omega arith) ∙ omega arith in
    rw (r, b, bit_or_fields mode reg rm hm hr hb) (omega arith)

pub rex_of_lem :
    (wide reg_hi rm_hi : Bool)
    → rex_of wide reg_hi rm_hi
      ≡ 64 + (if wide then 8 else 0) + (if reg_hi then 4 else 0) + (if rm_hi then 1 else 0)
rex_of_lem wide reg_hi rm_hi = ground arith

pub num_split : (r : Gpr) → lo3 r + (if is_hi r then 8 else 0) ≡ num r
unfolding lo3 is_hi
num_split rax = refl
num_split _ = refl
