-- ===== src/Archive/Slots.antt =====
-- The table of slots that the lookup indexes build: clua/src/link/ar_read.c.
use compiled_lua.Common.{ℕ, zero, suc, ◌+◌, ◌-◌, ◌%◌, ◌^◌, ◌≤◌, ◌<◌, bit_and}
use compiled_lua.Common.{◌≡◌, refl, sym, ap, ◌∙◌, ◌≢◌, ◌↔◌, inl, inr, Bool, true, false}
use compiled_lua.Common.{none, some, List, arith}
use compiled_lua.Common.{ltb, ◌==◌, ltb→lt, ==_iff, Bool-cases}
use compiled_lua.Common.{
  length, set, length-set, get_or, replicate, length-replicate, get_or-set_self, get_or-set_ne,
  get_or-replicate,
}
use compiled_lua.Archive.Probe.{Stop, running, empty_at, same_at, walk, probe, fill}
use compiled_lua.Archive.Walk.{at, Passed, Walked, walk-Walked}
use compiled_lua.Common.Bits.{bit_and-mask, two_pow-pos}
use compiled_lua.Archive.Space.{zeros, zeros-set, zeros-replicate, some_zero, distance}
use native.Mathlib.Nat.{mod-lt}

module _ {ℓ} {K : Type ℓ} (key_at : ℕ → K) (eq : K → K → Bool) (hash : K → ℕ) (m : ℕ) where
  -- No empty slot stands between the hash of an entry and its slot.
  abbrev Reached : List ℕ → ℕ → ℕ → Type 0
  Reached slots j q =
      (d : ℕ) × ((hash (key_at j) + d) % 2 ^ m ≡ q)
      × ((v : ℕ) → v < d → 0 < at slots m (hash (key_at j)) v)

  -- The entry j, in the slot q of a table of the first n entries, is the first one with its key.
  abbrev Stored : List ℕ → ℕ → ℕ → ℕ → Type 0
  Stored slots n j q =
      (j < n) × ((i : ℕ) → i < j → eq (key_at i) (key_at j) ≡ false) × Reached slots j q

  -- The key of the entry i is in a slot.
  abbrev Covered : List ℕ → ℕ → Type 0
  Covered slots i =
      (q : ℕ) × (q < 2 ^ m)
      × (0 < get_or slots q 0)
      × (eq (key_at (get_or slots q 0 - 1)) (key_at i) ≡ true)

  -- A table of the first n entries.
  pub record Table (slots : List ℕ) (n : ℕ) : Type 0 where
    pub size : length slots ≡ 2 ^ m
    pub stored :
        (q : ℕ) → q < 2 ^ m → 0 < get_or slots q 0 → Stored slots n (get_or slots q 0 - 1) q
    pub covered : (i : ℕ) → i < n → Covered slots i
    pub room : 2 ^ m ≤ zeros slots + n

  pub fresh_table : Table (replicate (2 ^ m) 0) 0
  fresh_table = record {
    size = length-replicate (2 ^ m) 0;
    stored = λ q _ full. absurd (omega (arith, full, get_or-replicate {A = ℕ} (2 ^ m) q 0));
    covered = λ i h. absurd (omega (arith, h));
    room = omega (arith, zeros-replicate (2 ^ m));
  }

  -- What a probe for the key k of a table of n entries answers.
  abbrev pub Answer : List ℕ → ℕ → K → Stop → Type 0
  Answer slots n k running = ⊥
  Answer slots n k (empty_at p _) =
      (p < 2 ^ m)
      × (get_or slots p 0 ≡ 0)
      × ((d : ℕ) × ((hash k + d) % 2 ^ m ≡ p) × ((v : ℕ) → v < d → 0 < at slots m (hash k) v))
      × ((i : ℕ) → i < n → eq (key_at i) k ≡ false)
  Answer slots n k (same_at j _) =
      (j < n)
      × (eq (key_at j) k ≡ true)
      × ((i : ℕ) → i < j → eq (key_at i) k ≡ false)
      × ((q : ℕ) × (q < 2 ^ m) × (get_or slots q 0 ≡ suc j))

  module _ (eq_iff : (a b : K) → (eq a b ≡ true) ↔ (a ≡ b)) where
    module _ {slots : List ℕ} {n : ℕ} (t : Table slots n) (k : K) where
      -- An entry with the key stops the walk before an empty slot does.
      not-Passed :
          (u : ℕ)
          → at slots m (hash k) u ≡ 0
          → Passed slots m (λ j. eq (key_at j) k) (hash k) 0 u
          → (i : ℕ) → i < n
          → eq (key_at i) k ≡ true
          → ⊥
      not-Passed u empty passed i inside same =
          let (q, bound, full, equal) = t.covered i inside in
          let j = get_or slots q 0 - 1 in
          let key : key_at j ≡ k = (eq_iff _ _).0 equal ∙ (eq_iff _ _).0 same in
          let (_, _, chain) = t.stored q bound full in
          let d = chain.0 in
          let here : at slots m (hash k) d ≡ get_or slots q 0 =
            ap (λ x. at slots m (hash x) d) (sym key) ∙ ap (λ x. get_or slots x 0) chain.1 in
          elim (Bool-cases (ltb d u)) [
            | inl before ↦
                let differs = (passed d (omega arith) (ltb→lt d u before)).1 in
                let same_key : eq (key_at j) k ≡ true = (eq_iff _ _).1 key in
                let differs' : eq (key_at j) k ≡ false = rw (sym here) differs in cc
            | inr not_before ↦ elim (Bool-cases (d == u)) [
              | inl equal ↦
                  let e = (==_iff d u).0 equal in
                  let empty' : at slots m (hash k) d ≡ 0 = rw e empty in
                  omega (arith, here, full, empty')
              | inr beyond ↦
                  let filled = chain.2 u (ground arith) in
                  let same_place : at slots m (hash (key_at j)) u ≡ 0 =
                    ap (λ x. at slots m (hash x) u) key ∙ empty in
                  omega (arith, filled, same_place)
            ]
          ]

      answer :
          (s : Stop)
          → n < 2 ^ m
          → Walked slots m (λ j. eq (key_at j) k) (hash k) 0 (2 ^ m) s
          → Answer slots n k s
      answer running few w =
          let (q, inside, empty) = some_zero slots (omega (arith, t.room, few)) in
          let (v, near, place) = distance m (hash k) q (omega (arith, inside, t.size)) in
          let filled = (w v (omega arith) (omega (arith, near))).0 in
          let empty' : at slots m (hash k) v ≡ 0 = ap (λ x. get_or slots x 0) place ∙ empty in
          omega (arith, filled, empty')
      answer (empty_at p c) few (u, place, empty, passed) = (
        rw place (mod-lt (hash k + u) (two_pow-pos m)),
        rw place empty,
        (u, sym place, λ v h. (passed v (omega arith) h).0),
        λ i inside. elim (Bool-cases (eq (key_at i) k)) [
          | inl same ↦ absurd (not-Passed u empty passed i inside same)
          | inr differs ↦ differs
        ],
      )
      answer (same_at j c) few (u, holds, equal, passed) =
          let q = (hash k + u) % 2 ^ m in
          let bound = mod-lt (hash k + u) (two_pow-pos m) in
          let entry : get_or slots q 0 - 1 ≡ j = omega (arith, holds) in
          let (inside, first, _) = t.stored q bound (omega (arith, holds)) in
          let key : key_at j ≡ k = (eq_iff _ _).0 equal in
          (
            rw (sym entry) inside,
            equal,
            λ i h.
                ap (λ x. eq (key_at i) x) (sym key)
                ∙ rw (sym entry) (first i (omega (arith, h, entry))),
            (q, bound, holds),
          )

      -- A probe for a key stops, and answers with the first entry that has it.
      pub probe-Answer : n < 2 ^ m → Answer slots n k (probe key_at eq hash slots (2 ^ m) k)
      unfolding probe
      probe-Answer few =
          let start : bit_and (hash k) (2 ^ m - 1) ≡ (hash k + 0) % 2 ^ m =
            bit_and-mask m (hash k) ∙ ap (λ x. x % 2 ^ m) (omega arith) in
          let same : ℕ → Bool = λ j. eq (key_at j) k in
          rw start (
            answer (walk (2 ^ m) slots (2 ^ m) same ((hash k + 0) % 2 ^ m) 0) few
              (walk-Walked slots m same (hash k) (2 ^ m) 0 0))

    module _ {slots : List ℕ} {n : ℕ} (t : Table slots n) where
      Stored-later : {j q : ℕ} → Stored slots n j q → Stored slots (suc n) j q
      Stored-later (old, first, chain) = (omega (arith, old), first, chain)

      -- The next entry has a key that is there already.
      table-same_at : (j c : ℕ) → Answer slots n (key_at n) (same_at j c) → Table slots (suc n)
      table-same_at j c (inside, equal, _, (q, bound, holds)) = record {
        size = t.size;
        stored = λ q bound full. Stored-later (t.stored q bound full);
        covered = λ i h. elim (Bool-cases (i == n)) [
          | inl last ↦
              let e = (==_iff i n).0 last in
              let entry : get_or slots q 0 - 1 ≡ j = omega (arith, holds) in
              (q, bound, omega (arith, holds), rw (e, entry) equal)
          | inr older ↦ t.covered i (ground arith)
        ];
        room = omega (arith, t.room);
      }

      module _ (p : ℕ) (bound : p < 2 ^ m) (empty : get_or slots p 0 ≡ 0) where
        taken : get_or (set slots p (n + 1)) p 0 ≡ n + 1
        taken = get_or-set_self slots p (n + 1) 0 (omega (arith, bound, t.size))

        kept : (q : ℕ) → p ≢ q → get_or (set slots p (n + 1)) q 0 ≡ get_or slots q 0
        kept q other = get_or-set_ne slots p q (n + 1) 0 other

        filled : (q : ℕ) → 0 < get_or slots q 0 → 0 < get_or (set slots p (n + 1)) q 0
        filled q full = elim (Bool-cases (p == q)) [
          | inl same ↦ let e = (==_iff p q).0 same in rw (sym e) (omega (arith, taken))
          | inr other ↦ omega (arith, full, kept q (λ e. ground (arith, e)))
        ]

        -- The next entry takes the empty slot p.
        table-empty_at :
            (d : ℕ)
            → (hash (key_at n) + d) % 2 ^ m ≡ p
            → ((v : ℕ) → v < d → 0 < at slots m (hash (key_at n)) v)
            → ((i : ℕ) → i < n → eq (key_at i) (key_at n) ≡ false)
            → Table (set slots p (n + 1)) (suc n)
        table-empty_at d place chain fresh = record {
          size = length-set slots p (n + 1) ∙ t.size;
          stored = λ q inside full. elim (Bool-cases (p == q)) [
            | inl same ↦
                let e = (==_iff p q).0 same in
                let entry : get_or (set slots p (n + 1)) q 0 - 1 ≡ n =
                  rw (sym e) (omega (arith, taken)) in
                rw entry (omega arith, fresh, (d, place ∙ e, λ v h. filled _ (chain v h)))
            | inr other ↦
                let same_slot = kept q (λ e. ground (arith, e)) in
                let (old, first, (d', place', chain')) =
                  t.stored q inside (omega (arith, same_slot, full)) in
                rw same_slot (omega (arith, old), first, (d', place', λ v h. filled _ (chain' v h)))
          ];
          covered = λ i h. elim (Bool-cases (i == n)) [
            | inl last ↦
                let e = (==_iff i n).0 last in
                let entry : get_or (set slots p (n + 1)) p 0 - 1 ≡ n = omega (arith, taken) in
                (p, bound, omega (arith, taken), rw (e, entry) ((eq_iff _ _).1 refl))
            | inr older ↦
                let (q, inside, full, equal) = t.covered i (ground arith) in
                let same_slot =
                  kept q (λ e. omega (arith, ap (λ x. get_or slots x 0) e, empty, full)) in
                (q, inside, filled q full, rw same_slot equal)
          ];
          room = omega (arith, t.room, zeros-set slots p (n + 1));
        }

      -- Entering the next entry.
      step :
          (s : Stop)
          → Answer slots n (key_at n) s
          → (u : List ℕ) × Table u (suc n)
            × ((left : ℕ)
                → elim s [
                  | running ↦ none
                  | empty_at p _ ↦ fill key_at eq hash left (suc n) (set slots p (n + 1)) (2 ^ m)
                  | same_at _ _ ↦ fill key_at eq hash left (suc n) slots (2 ^ m)
                ]
                  ≡ fill key_at eq hash left (suc n) u (2 ^ m))
      step running a = elim a [ ]
      step (empty_at p c) (bound, empty, (d, place, chain), fresh) =
          (set slots p (n + 1), table-empty_at p bound empty d place chain fresh, λ left. refl)
      step (same_at j c) a = (slots, table-same_at j c a, λ left. refl)

    -- Filling stops, with a table of all entries.
    pub fill-Table :
        (left n total : ℕ) {slots : List ℕ}
        → Table slots n
        → n + left ≡ total
        → total < 2 ^ m
        → (u : List ℕ) × Table u total × (fill key_at eq hash left n slots (2 ^ m) ≡ some u)
    unfolding fill
    fill-Table zero n total {slots} t sum few =
        let e : n ≡ total = omega (arith, sum) in (slots, rw (sym e) t, refl)
    fill-Table (suc left) n total {slots} t sum few =
        let stop = probe key_at eq hash slots (2 ^ m) (key_at n) in
        let (u, t', rest) = step t stop (probe-Answer t (key_at n) (omega (arith, sum, few))) in
        let (w, t'', done) = fill-Table left (suc n) total t' (omega (arith, sum)) few in
        (w, t'', rest left ∙ done)
