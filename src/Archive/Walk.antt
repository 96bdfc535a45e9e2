-- ===== src/Archive/Walk.antt =====
-- What the loop over the slots has passed when it stops: clua/src/link/ar_read.c.
use compiled_lua.Common.{ℕ, zero, suc, ◌+◌, ◌-◌, ◌%◌, ◌^◌, ◌≤◌, ◌<◌, bit_and}
use compiled_lua.Common.{◌≡◌, refl, ap, ◌∙◌, inl, inr, Bool, true, false}
use compiled_lua.Common.{List, arith}
use compiled_lua.Common.{◌==◌, ==_iff, Bool-cases}
use compiled_lua.Common.{get_or}
use compiled_lua.Archive.Probe.{Stop, running, empty_at, same_at, walk}
use compiled_lua.Common.Bits.{bit_and-mask}
use native.Mathlib.Nat.{mod-add-mod}

-- The v-th slot from the hash h.
abbrev pub at : List ℕ → ℕ → ℕ → ℕ → ℕ
at slots m h v = get_or slots ((h + v) % 2 ^ m) 0

-- The slots t to u - 1 hold entries that do not compare equal.
abbrev pub Passed : List ℕ → ℕ → (ℕ → Bool) → ℕ → ℕ → ℕ → Type 0
Passed slots m same h t u =
    (v : ℕ) → t ≤ v → v < u → (0 < at slots m h v) × (same (at slots m h v - 1) ≡ false)

abbrev pub Walked : List ℕ → ℕ → (ℕ → Bool) → ℕ → ℕ → ℕ → Stop → Type 0
Walked slots m same h t n running = Passed slots m same h t (t + n)
Walked slots m same h t n (empty_at p _) =
    (u : ℕ) × (p ≡ (h + u) % 2 ^ m) × (at slots m h u ≡ 0) × Passed slots m same h t u
Walked slots m same h t n (same_at s _) =
    (u : ℕ) × (at slots m h u ≡ suc s) × (same s ≡ true) × Passed slots m same h t u

pub next_place : (m h t : ℕ) → bit_and ((h + t) % 2 ^ m + 1) (2 ^ m - 1) ≡ (h + suc t) % 2 ^ m
next_place m h t =
    let whole : h + t + 1 ≡ h + suc t = omega arith in
    bit_and-mask m ((h + t) % 2 ^ m + 1) ∙ mod-add-mod (h + t) (2 ^ m) 1 ∙ ap (λ x. x % 2 ^ m) whole

module _ (slots : List ℕ) (m : ℕ) (same : ℕ → Bool) (h : ℕ) where
  Passed-more :
      (t u : ℕ)
      → 0 < at slots m h t
      → same (at slots m h t - 1) ≡ false
      → Passed slots m same h (suc t) u
      → Passed slots m same h t u
  Passed-more t u full differs later v tv vu = elim (Bool-cases (v == t)) [
    | inl here ↦ let e = (==_iff v t).0 here in rw e (full, differs)
    | inr beyond ↦ later v (ground arith) vu
  ]

  Walked-more :
      (t n : ℕ) (s : Stop)
      → 0 < at slots m h t
      → same (at slots m h t - 1) ≡ false
      → Walked slots m same h (suc t) n s
      → Walked slots m same h t (suc n) s
  Walked-more t n running full differs w =
      Passed-more t (t + suc n) full differs (λ v tv vu. w v tv (omega (arith, vu)))
  Walked-more t n (empty_at p _) full differs (u, place, empty, passed) =
      (u, place, empty, Passed-more t u full differs passed)
  Walked-more t n (same_at s _) full differs (u, holds, equal, passed) =
      (u, holds, equal, Passed-more t u full differs passed)

  pub walk-Walked :
      (n t c : ℕ) → Walked slots m same h t n (walk n slots (2 ^ m) same ((h + t) % 2 ^ m) c)
  unfolding walk
  walk-Walked zero t c = λ v tv vu. absurd (omega (arith, tv, vu))
  walk-Walked (suc n) t c =
      let s = at slots m h t in
      let ih = walk-Walked n (suc t) (c + 1) in
      elim (Bool-cases (s == 0)) [
        | inl empty ↦
            rw empty (t, refl, (==_iff s 0).0 empty, λ v tv vu. absurd (omega (arith, tv, vu)))
        | inr full ↦ elim (Bool-cases (same (s - 1))) [
          | inl equal ↦
              rw (full, equal) (t, ground arith, equal, λ v tv vu. absurd (omega (arith, tv, vu)))
          | inr differs ↦
              rw (full, differs, next_place m h t)
                (Walked-more t n (walk n slots (2 ^ m) same ((h + suc t) % 2 ^ m) (c + 1))
                  (ground arith) differs ih)
        ]
      ]
