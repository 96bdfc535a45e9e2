-- ===== src/Archive/Probe.antt =====
-- Open addressing, as the two lookup indexes of clua/src/link/ar_read.c use it.
use compiled_lua.Common.{ℕ, zero, suc, ◌+◌, ◌-◌, bit_and}
use compiled_lua.Common.{Bool}
use compiled_lua.Common.{Option, none, some, List}
use compiled_lua.Common.{◌==◌, if◌then◌else◌}
use compiled_lua.Common.{set, get_or}

-- Where a `for ( ;; )` over the slots stops; `running` where it has used the steps it was given.
pub data Stop : Type 0 where
  running : Stop
  empty_at : (p probes : ℕ) → Stop
  same_at : (entry probes : ℕ) → Stop

-- The loop over the slots, from the slot p, with the keys compared so far. A slot holds an entry
-- plus one, or 0; `same` compares the key of an entry.
unfoldable pub walk : ℕ → List ℕ → ℕ → (ℕ → Bool) → ℕ → ℕ → Stop
walk zero slots cap same p probes = running
walk (suc n) slots cap same p probes =
    let s = get_or slots p 0 in
    let rest = walk n slots cap same (bit_and (p + 1) (cap - 1)) (probes + 1) in
    if s == 0
    then empty_at p probes
    else if same (s - 1)
    then same_at (s - 1) (probes + 1)
    else rest

module _ {ℓ} {K : Type ℓ} (key_at : ℕ → K) (eq : K → K → Bool) (hash : K → ℕ) where
  -- The walk for a key, with a step for each slot.
  unfoldable pub probe : List ℕ → ℕ → K → Stop
  probe slots cap k = walk cap slots cap (λ j. eq (key_at j) k) (bit_and (hash k) (cap - 1)) 0

  -- The loop that enters the entries i, i + 1, …; an entry whose key is there already is left out.
  -- `none` where a walk does not stop.
  unfoldable pub fill : ℕ → ℕ → List ℕ → ℕ → Option (List ℕ)
  fill zero i slots cap = some slots
  fill (suc n) i slots cap = elim (probe slots cap (key_at i)) [
    | running ↦ none
    | empty_at p _ ↦ fill n (suc i) (set slots p (i + 1)) cap
    | same_at _ _ ↦ fill n (suc i) slots cap
  ]
