-- ===== src/Common/Memory.antt =====
-- Words read from memory, a list of bytes.
use compiled_lua.Common.{
  ℕ, zero, suc, ◌+◌, ◌-◌, ◌*◌, ◌/◌, ◌%◌, ◌^◌, ◌≤◌, ◌<◌, min, max, bit_and, bit_or,
}
use compiled_lua.Common.{
  ◌≡◌, refl, sym, ap, ◌∙◌, ◌≢◌, ◌↔◌, ◌⊎◌, inl, inr, Bool, true, false, not, ◌&&◌, ◌||◌,
}
use compiled_lua.Common.{
  Option, none, some, List, [], ◌∷◌, ◌++◌, map, append-nil, append_assoc, arith,
}
use compiled_lua.Common.{
  ltb, leb, ◌==◌, if◌then◌else◌, ltb→lt, lt→ltb, leb→le, ==_iff, tests, Bool-cases, Option-cases,
}
use compiled_lua.Common.{
  length, get_elem?, set, length-append, length-set, get_elem?-set_self, get_elem?-set_ne, get_or,
  take, drop, replicate, length-take, length-drop, length-replicate, get_or-set_self, get_or-set_ne,
  get_or-replicate,
}
use compiled_lua.Common.{
  get_or-append_right, get_or-append_left, drop-append, take-append, take_all, ℕ_discrete,
}
use compiled_lua.Common.Word.{bytes32, word32, word32-bytes32}

-- *( uint32_t * )( base + i )
abbrev pub read32 : List ℕ → ℕ → ℕ
read32 m i = word32 (get_or m i 0) (get_or m (i + 1) 0) (get_or m (i + 2) 0) (get_or m (i + 3) 0)

pub read32-append_right : (xs ys : List ℕ) (i : ℕ) → read32 (xs ++ ys) (length xs + i) ≡ read32 ys i
read32-append_right xs ys i =
    let one : length xs + i + 1 ≡ length xs + (i + 1) = omega arith in
    let two : length xs + i + 2 ≡ length xs + (i + 2) = omega arith in
    let three : length xs + i + 3 ≡ length xs + (i + 3) = omega arith in
    rw (
      one,
      two,
      three,
      get_or-append_right xs ys i 0,
      get_or-append_right xs ys (i + 1) 0,
      get_or-append_right xs ys (i + 2) 0,
      get_or-append_right xs ys (i + 3) 0,
    )

pub read32-append_left :
    (xs ys : List ℕ) (i : ℕ) → i + 3 < length xs → read32 (xs ++ ys) i ≡ read32 xs i
read32-append_left xs ys i h = rw (
  get_or-append_left xs ys i 0 (omega arith),
  get_or-append_left xs ys (i + 1) 0 (omega arith),
  get_or-append_left xs ys (i + 2) 0 (omega arith),
  get_or-append_left xs ys (i + 3) 0 (omega arith),
)

pub read32-bytes32 : (v : ℕ) (r : List ℕ) → v < 2 ^ 32 → read32 (bytes32 v ++ r) 0 ≡ v
read32-bytes32 v r h = word32-bytes32 v h

-- For `omega`, on lists of bytes.
pub length-append_bytes : (xs ys : List ℕ) → length (xs ++ ys) ≡ length xs + length ys
length-append_bytes = length-append

pub ruleset lengths = (arith, length-append_bytes)
