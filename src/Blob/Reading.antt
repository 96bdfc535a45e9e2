-- ===== src/Blob/Reading.antt =====
-- clua/src/runtime/blob_reader.c on a blob whose entries stand for modules.
use compiled_lua.Common.{ℕ, zero, suc, ◌+◌, ◌≤◌, ◌<◌}
use compiled_lua.Common.{◌≡◌, refl, inl, inr, true, false}
use compiled_lua.Common.{Option, none, some, List, [], ◌∷◌, arith}
use compiled_lua.Common.{ltb, leb, ◌==◌, if◌then◌else◌, Bool-cases}
use compiled_lua.Common.{length, get_elem?, take, drop}
use mathlib.Core.Option
use compiled_lua.Common.Name.{Name, name_eq, IsText, c_string}
use compiled_lua.Blob.{
  Module, Reader, Found, found, missing, overrun, size, field, entry_to_lookup, find_from,
}

abbrev pub AllText : List Module → Type 0
AllText [] = Unit
AllText (m ∷ ms) = IsText m.name × AllText ms

-- What the reader needs of entry `i` for it to stand for the module `m`.
pub record Entry (r : Reader) (i : ℕ) (m : Module) (n d : ℕ) : Type 0 where
  pub name_at : field r i 0 ≡ n
  pub name_length : field r i 4 ≡ length m.name
  pub bytes_at : field r i 8 ≡ d
  pub bytes_length : field r i 12 ≡ length m.bytes
  pub name_inside : n < size r
  pub bytes_inside : d + length m.bytes ≤ size r
  pub name_there : c_string (drop n r.base) ≡ some m.name
  pub bytes_there : take (length m.bytes) (drop d r.base) ≡ m.bytes

abbrev pub Entries : Reader → ℕ → List Module → ℕ → ℕ → Type 0
Entries r i [] n d = Unit
Entries r i (m ∷ ms) n d =
    Entry r i m n d × Entries r (i + 1) ms (n + (length m.name + 1)) (d + length m.bytes)

-- The payload that a lookup hands out, `some none` where it finds nothing, and `none` where
-- reading a name leaves the blob.
abbrev pub contents : Reader → Found → Option (Option (List ℕ))
contents r (found off len) = some (some (take len (drop off r.base)))
contents r missing = some none
contents r overrun = none

-- The first module of that name.
abbrev pub first_named : List Module → Name → Option (List ℕ)
first_named [] name = none
first_named (m ∷ ms) name = if name_eq m.name name then some m.bytes else first_named ms name

Entry-lookup :
    (r : Reader) (i : ℕ) (m : Module) (n d : ℕ)
    → Entry r i m n d
    → contents r (entry_to_lookup r i) ≡ some (some m.bytes)
Entry-lookup r i m n d e =
    let fits : ltb (size r) (field r i 8 + field r i 12) ≡ false =
      rw (e.bytes_at, e.bytes_length) (ground (arith, e.bytes_inside)) in
    let out : entry_to_lookup r i ≡ found d (length m.bytes) =
      unfold entry_to_lookup in rw (fits, e.bytes_at, e.bytes_length, entry_to_lookup) refl in
    rw (out, e.bytes_there) refl

pub find_from-first :
    (r : Reader) (name : Name) (ms : List Module) (i n d : ℕ)
    → Entries r i ms n d
    → contents r (find_from r name (length ms) i) ≡ some (first_named ms name)
unfolding find_from
find_from-first r name [] i n d es = refl
find_from-first r name (m ∷ ms) i n d (e, es) =
    let inside : leb (size r) (field r i 0) ≡ false =
      rw e.name_at (ground (arith, e.name_inside)) in
    let there : c_string (drop (field r i 0) r.base) ≡ some m.name = rw e.name_at e.name_there in
    let sized : (length m.name == field r i 4) ≡ true = rw e.name_length (ground arith) in
    elim (Bool-cases (name_eq m.name name)) [
      | inl hit ↦
          let out : find_from r name (suc (length ms)) i ≡ entry_to_lookup r i =
            rw (inside, there, sized, hit, find_from) refl in
          rw (out, hit) (Entry-lookup r i m n d e)
      | inr other ↦
          let out : find_from r name (suc (length ms)) i ≡ find_from r name (length ms) (i + 1) =
            rw (inside, there, sized, other, find_from) refl in
          rw (out, other) (find_from-first r name ms (i + 1) _ _ es)
    ]

pub get_entry-lookup :
    (r : Reader) (ms : List Module) (i k n d : ℕ)
    → k < length ms
    → Entries r i ms n d
    → contents r (entry_to_lookup r (i + k)) ≡ some (Option.map (λ m. m.bytes) (get_elem? ms k))
get_entry-lookup r [] i k n d h es = elim h [ ]
get_entry-lookup r (m ∷ ms) i zero n d h (e, es) =
    let here : i + 0 ≡ i = omega arith in rw here (Entry-lookup r i m n d e)
get_entry-lookup r (m ∷ ms) i (suc k) n d h (e, es) =
    let next : i + suc k ≡ (i + 1) + k = omega arith in
    rw next (get_entry-lookup r ms (i + 1) k _ _ (omega arith) es)
