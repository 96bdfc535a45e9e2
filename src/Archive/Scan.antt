-- ===== src/Archive/Scan.antt =====
-- The lookups by linear scans, which the indexes of clua/src/link/ar_read.c stand for.
use compiled_lua.Common.{ℕ, zero, suc, ◌<◌}
use compiled_lua.Common.{◌≡◌, refl, Bool, true, false}
use compiled_lua.Common.{Option, none, some, List, [], ◌∷◌, arith}
use compiled_lua.Common.{◌>>=◌, ltb, ◌==◌, if◌then◌else◌, lt→ltb}
use compiled_lua.Common.{length, get_or}
use compiled_lua.Archive.Data.{Archive, no_symbol}
use compiled_lua.Archive.Lookup.{scan}
use compiled_lua.Archive.Probe.{Stop, running, empty_at, same_at}
use compiled_lua.Archive.Slots.{Answer}
use compiled_lua.Common.Name.{Name, name_eq}

abbrev pub found_at : ℕ → ℕ → Option ℕ
found_at i n = if ltb i n then some i else none

-- The first element that passes the test.
unfoldable pub first {ℓ} : {A : Type ℓ} → (A → Bool) → List A → Option ℕ
first f xs = found_at (scan f xs) (length xs)

-- The first member with the header offset.
unfoldable pub member_of : Archive → ℕ → Option ℕ
member_of a off = first (λ m. m.hdr_off == off) a.members

-- Whether the archive's symbol index names the symbol.
unfoldable pub symbol_of : Archive → Name → Option ℕ
symbol_of a symbol = first (λ s. name_eq s.symname symbol) a.index

-- The member that the first entry with the name points at, whatever later entries say.
unfoldable pub defining_of : Archive → Name → Option ℕ
defining_of a symbol = do
  i ← symbol_of a symbol
  member_of a (get_or a.index i no_symbol).member_off

module _ {ℓ} {A : Type ℓ} (f : A → Bool) where
  scan_found :
      (xs : List A) (j : ℕ) (d : A)
      → j < length xs
      → f (get_or xs j d) ≡ true
      → ((i : ℕ) → i < j → f (get_or xs i d) ≡ false)
      → scan f xs ≡ j
  unfolding scan
  scan_found [] j d h here before = elim h [ ]
  scan_found (x ∷ xs) zero d h here before = rw here
  scan_found (x ∷ xs) (suc j) d h here before =
      let miss = before 0 (omega arith) in
      let rest =
        scan_found xs j d (omega (arith, h)) here (λ i hi. before (suc i) (omega (arith, hi))) in
      rw (miss, rest)

  scan_missed :
      (xs : List A) (d : A)
      → ((i : ℕ) → i < length xs → f (get_or xs i d) ≡ false)
      → scan f xs ≡ length xs
  unfolding scan
  scan_missed [] d all = refl
  scan_missed (x ∷ xs) d all =
      let miss = all 0 (omega arith) in
      let rest = scan_missed xs d (λ i hi. all (suc i) (omega (arith, hi))) in rw (miss, rest)

  pub first_found :
      (xs : List A) (j : ℕ) (d : A)
      → j < length xs
      → f (get_or xs j d) ≡ true
      → ((i : ℕ) → i < j → f (get_or xs i d) ≡ false)
      → first f xs ≡ some j
  unfolding first
  first_found xs j d inside here before =
      let stop = scan_found xs j d inside here before in
      let less = lt→ltb j (length xs) inside in rw (stop, less)

  pub first_missed :
      (xs : List A) (d : A)
      → ((i : ℕ) → i < length xs → f (get_or xs i d) ≡ false)
      → first f xs ≡ none
  unfolding first
  first_missed xs d all =
      let stop = scan_missed xs d all in
      let out : ltb (length xs) (length xs) ≡ false = ground arith in rw (stop, out)

-- What the stop of a probe answers.
abbrev pub answer_of : Stop → Option ℕ
answer_of running = none
answer_of (empty_at _ _) = none
answer_of (same_at j _) = some j

-- A probe answers as the scan does.
pub first-Answer {ℓ κ} :
    {A : Type ℓ} {K : Type κ} (xs : List A) (d : A) (key : A → K) (eq : K → K → Bool) (hash : K → ℕ)
    (m : ℕ) (slots : List ℕ) (k : K) (s : Stop)
    → Answer (λ i. key (get_or xs i d)) eq hash m slots (length xs) k s
    → first (λ x. eq (key x) k) xs ≡ answer_of s
first-Answer xs d key eq hash m slots k running a = elim a [ ]
first-Answer xs d key eq hash m slots k (empty_at p c) (_, _, _, fresh) =
    first_missed (λ x. eq (key x) k) xs d fresh
first-Answer xs d key eq hash m slots k (same_at j c) (inside, equal, before, _) =
    first_found (λ x. eq (key x) k) xs j d inside equal before
