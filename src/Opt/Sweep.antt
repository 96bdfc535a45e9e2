-- ===== src/Opt/Sweep.antt =====
-- clua/src/opt/passes.c, `lc_pass_dead_global`: the worklist over the call graph. A flag is
-- `none` where there is no function, and else says whether the function is dead.
mod Marks
mod Growth
pub mod Correct
use compiled_lua.Common.{ℕ, zero, suc}
use compiled_lua.Common.{◌≡◌, ◌⊎◌, Bool, true, false, not}
use compiled_lua.Common.{Option, none, some, List, [], ◌∷◌}
use compiled_lua.Common.{if◌then◌else◌}

abbrev pub Flags : Type 0
Flags = List (Option Bool)

-- m->funcs[v] && m->funcs[v]->dead, and the same with a function that is not dead.
unfoldable pub is_dead : Flags → ℕ → Bool
is_dead [] v = false
is_dead (none ∷ fl) zero = false
is_dead (some d ∷ fl) zero = d
is_dead (x ∷ fl) (suc v) = is_dead fl v

unfoldable pub is_live : Flags → ℕ → Bool
is_live [] v = false
is_live (none ∷ fl) zero = false
is_live (some d ∷ fl) zero = not d
is_live (x ∷ fl) (suc v) = is_live fl v

unfoldable pub set_live : Flags → ℕ → Flags
set_live [] v = []
set_live (none ∷ fl) zero = none ∷ fl
set_live (some d ∷ fl) zero = some false ∷ fl
set_live (x ∷ fl) (suc v) = x ∷ set_live fl v

-- `pending` is work[0 .. wn), its top first.
pub record Sweep : Type 0 where
  pub flags : Flags
  pub pending : List ℕ

-- if ( tf && tf->dead ) { tf->dead = false; work[ wn++ ] = tgt; }
unfoldable pub push : Sweep → ℕ → Sweep
push s t =
    if is_dead s.flags t then record { flags = set_live s.flags t; pending = t ∷ s.pending } else s

unfoldable pub scan : Sweep → List ℕ → Sweep
scan s [] = s
scan s (t ∷ ts) = scan (push s t) ts

-- The `while` loop, with fuel; `none` means that the fuel ran out.
unfoldable pub sweep : (ℕ → List ℕ) → ℕ → Sweep → Option Flags
sweep edges zero s = elim s.pending [ [] ↦ some s.flags | _ ∷ _ ↦ none ]
sweep edges (suc fuel) s = elim s.pending [
  | [] ↦ some s.flags
  | u ∷ rest ↦ sweep edges fuel (scan (record s { pending = rest }) (edges u))
]

-- The functions that are still dead.
unfoldable pub count_dead : Flags → ℕ
count_dead [] = 0
count_dead (some true ∷ fl) = suc (count_dead fl)
count_dead (some false ∷ fl) = count_dead fl
count_dead (none ∷ fl) = count_dead fl

abbrev pub In : ℕ → List ℕ → Type 0
In v [] = ⊥
In v (x ∷ xs) = (v ≡ x) ⊎ In v xs

-- Whether there is a function `v`.
unfoldable pub present : Flags → ℕ → Bool
present [] v = false
present (none ∷ fl) zero = false
present (some d ∷ fl) zero = true
present (x ∷ fl) (suc v) = present fl v

-- What the walk should reach: the roots, and the functions that an edge leads to from there.
pub data Reach (fl : Flags) (edges : ℕ → List ℕ) (roots : List ℕ) : ℕ → Type 0 where
  root : {v : ℕ} → In v roots → present fl v ≡ true → Reach fl edges roots v
  step :
      {u v : ℕ}
      → Reach fl edges roots u
      → In v (edges u)
      → present fl v ≡ true
      → Reach fl edges roots v
