-- ===== src/Common/Name.antt =====
-- C strings, as lists of characters without the final zero.
use compiled_lua.Common.{ℕ, ◌<◌}
use compiled_lua.Common.{◌≡◌, refl, ◌≢◌, inl, inr, Bool, true, false, ◌&&◌}
use compiled_lua.Common.{Option, none, some, List, [], ◌∷◌, ◌++◌, arith}
use compiled_lua.Common.{◌==◌, Bool-cases, if◌then◌else◌, Option-cases}
use compiled_lua.Common.{length}
use Prim.Native.Char.{code}
use Prim.Native.String.{String}

-- A C string.
abbrev pub Name : Type 0
Name = List ℕ

-- The characters of a literal.
abbrev pub codes : String → List ℕ
codes String.[] = []
codes (String.◌∷◌ c s) = code c ∷ codes s

-- strcmp( a, b ) == 0
abbrev pub name_eq : Name → Name → Bool
name_eq [] [] = true
name_eq [] (y ∷ ys) = false
name_eq (x ∷ xs) [] = false
name_eq (x ∷ xs) (y ∷ ys) = x == y && name_eq xs ys

pub name_eq→eq : (a b : Name) → name_eq a b ≡ true → a ≡ b
name_eq→eq [] [] h = refl
name_eq→eq [] (y ∷ ys) h = cc
name_eq→eq (x ∷ xs) [] h = cc
name_eq→eq (x ∷ xs) (y ∷ ys) h = ground (arith, name_eq→eq xs ys)

pub name_eq_refl : (a : Name) → name_eq a a ≡ true
name_eq_refl [] = refl
name_eq_refl (x ∷ xs) = ground (arith, name_eq_refl xs)

pub name_eq-false : (a b : Name) → a ≢ b → name_eq a b ≡ false
name_eq-false a b ne = elim (Bool-cases (name_eq a b)) [
  | inl same ↦ absurd (ne (name_eq→eq a b same))
  | inr differ ↦ differ
]

-- No character is the final zero.
abbrev pub IsText : Name → Type 0
IsText [] = Unit
IsText (c ∷ cs) = (0 < c) × IsText cs

-- The string that starts here; `none` where memory ends before its final zero.
unfoldable pub c_string : List ℕ → Option Name
c_string [] = none
c_string (c ∷ cs) =
    let rest = c_string cs in
    elim (c == 0) [ true ↦ some [] | false ↦ elim rest [ none ↦ none | some s ↦ some (c ∷ s) ] ]

pub c_string-append : (s : Name) (r : List ℕ) → IsText s → c_string (s ++ 0 ∷ r) ≡ some s
unfolding c_string
c_string-append [] r h = refl
c_string-append (c ∷ cs) r (hc, hs) = ground (arith, c_string-append cs r hs)

-- A string that memory holds ends before memory does.
pub c_string-length : (m : List ℕ) (s : Name) → c_string m ≡ some s → length s < length m
unfolding c_string
c_string-length [] s h = cc
c_string-length (c ∷ cs) s h = elim (Bool-cases (c == 0)) [
  | inl end ↦ ground arith
  | inr more ↦ elim (Option-cases (c_string cs)) [
    | inl runs ↦ ground arith
    | inr (t, found) ↦ ground (arith, c_string-length cs t found)
  ]
]

-- The C string that starts here, in memory that ends with a zero.
unfoldable pub up_to_zero : List ℕ → Name
up_to_zero [] = []
up_to_zero (c ∷ cs) = let rest = up_to_zero cs in if c == 0 then [] else c ∷ rest

abbrev pub AllText : List Name → Type 0
AllText [] = Unit
AllText (n ∷ ns) = IsText n × AllText ns

pub IsText-append : (s t : Name) → IsText s → IsText t → IsText (s ++ t)
IsText-append [] t hs ht = ht
IsText-append (c ∷ cs) t (hc, hs) ht = (hc, IsText-append cs t hs ht)

pub up_to_zero-IsText : (s : Name) → IsText s → up_to_zero s ≡ s
unfolding up_to_zero
up_to_zero-IsText [] h = refl
up_to_zero-IsText (c ∷ cs) (hc, hs) =
    let other : (c == 0) ≡ false = ground arith in rw (other, up_to_zero-IsText cs hs)
