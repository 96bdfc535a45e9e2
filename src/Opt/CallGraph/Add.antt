-- ===== src/Opt/CallGraph/Add.antt =====
-- What adding one edge keeps and adds, when its allocation succeeds.
use compiled_lua.Common.{get_or-set_self, ℕ, zero, suc, ◌<◌}
use compiled_lua.Common.{◌≡◌, refl, ◌∙◌, ◌⊎◌, inl, inr, true, false, ◌||◌}
use compiled_lua.Common.{List, [], ◌∷◌, ◌++◌, arith}
use compiled_lua.Common.{leb, ◌==◌, Bool-cases}
use compiled_lua.Common.{length, set, length-set, get_or}
use compiled_lua.Opt.{Instruction}
use compiled_lua.Opt.CallGraph.{Grants, Callees, mem, grown_capacity, add_to, cg_add_edge}
use compiled_lua.Opt.Sweep.{In}

-- Two neighbouring instructions with a third behind them.
abbrev pub Adjacent : Instruction → Instruction → List Instruction → Type 0
Adjacent i j (x ∷ y ∷ z ∷ r) = ((x ≡ i) × (y ≡ j)) ⊎ Adjacent i j (y ∷ z ∷ r)
Adjacent i j _ = ⊥

pub data InList {ℓ} {A : Type ℓ} (x : A) : List A → Type ℓ where
  here : {r : List A} → InList x (x ∷ r)
  there : {y : A} {r : List A} → InList x r → InList x (y ∷ r)

abbrev pub granted : Grants
granted = record { tables = true; edge = λ fi n. true }

In-append : (v : ℕ) (xs ys : List ℕ) → In v xs → In v (xs ++ ys)
In-append v [] ys h = absurd h
In-append v (x ∷ xs) ys (inl e) = inl e
In-append v (x ∷ xs) ys (inr h) = inr (In-append v xs ys h)

In-last : (v : ℕ) (xs : List ℕ) → In v (xs ++ v ∷ [])
In-last v [] = inl refl
In-last v (x ∷ xs) = inr (In-last v xs)

In-mem : (v : ℕ) (xs : List ℕ) → mem v xs ≡ true → In v xs
unfolding mem
In-mem v [] h = cc
In-mem v (x ∷ xs) h = elim (Bool-cases (x == v)) [
  | inl e ↦ inl (ground arith)
  | inr other ↦ inr (In-mem v xs (ground arith))
]

module _ (n fi : ℕ) where
  add_to-keeps : (t v : ℕ) (xs : List ℕ) → In v xs → In v (add_to granted n fi t xs)
  unfolding add_to
  add_to-keeps t v xs h = elim (Bool-cases (mem t xs)) [
    | inl old ↦ rw old h
    | inr new ↦ elim (Bool-cases (grown_capacity (length xs) == 0)) [
      | inl room ↦ rw (new, room) (In-append v xs _ h)
      | inr full ↦ rw (new, full) (In-append v xs _ h)
    ]
  ]

  add_to-adds : (t : ℕ) (xs : List ℕ) → In t (add_to granted n fi t xs)
  unfolding add_to
  add_to-adds t xs = elim (Bool-cases (mem t xs)) [
    | inl old ↦ rw old (In-mem t xs old)
    | inr new ↦ elim (Bool-cases (grown_capacity (length xs) == 0)) [
      | inl room ↦ rw (new, room) (In-last t xs)
      | inr full ↦ rw (new, full) (In-last t xs)
    ]
  ]

abbrev pub Has : Callees → ℕ → ℕ → Type 0
Has cs fi t = In t (get_or cs fi [])

-- A write that keeps what its own entry has keeps what every entry has.
Has-set :
    (cs : Callees) (i g v : ℕ) (x : List ℕ)
    → ((w : ℕ) → In w (get_or cs i []) → In w x)
    → Has cs g v
    → Has (set cs i x) g v
Has-set [] i g v x keep h = h
Has-set (c ∷ cs) zero zero v x keep h = keep v h
Has-set (c ∷ cs) zero (suc g) v x keep h = h
Has-set (c ∷ cs) (suc i) zero v x keep h = h
Has-set (c ∷ cs) (suc i) (suc g) v x keep h = Has-set cs i g v x keep h

-- What a later part of the pass leaves of the graph.
pub record Extends (cs ds : Callees) : Type 0 where
  pub size : length ds ≡ length cs
  pub keeps : (g v : ℕ) → Has cs g v → Has ds g v

pub Extends-refl : (cs : Callees) → Extends cs cs
Extends-refl cs = record { size = refl; keeps = λ g v h. h }

pub Extends-trans : {cs ds es : Callees} → Extends cs ds → Extends ds es → Extends cs es
Extends-trans p q = record { size = q.size ∙ p.size; keeps = λ g v h. q.keeps g v (p.keeps g v h) }

pub cg_add_edge-Extends : (n fi t : ℕ) (cs : Callees) → Extends cs (cg_add_edge granted n fi t cs)
cg_add_edge-Extends n fi t cs = elim (Bool-cases (leb n fi || leb n t)) [
  | inl out ↦
      let e : cg_add_edge granted n fi t cs ≡ cs = unfold cg_add_edge in rw out in
      rw e (Extends-refl cs)
  | inr ok ↦
      let e : cg_add_edge granted n fi t cs ≡ set cs fi (add_to granted n fi t (get_or cs fi [])) =
        unfold cg_add_edge in rw ok in
      rw e (record {
        size = length-set cs fi _;
        keeps = λ g v h. Has-set cs fi g v _ (λ w. add_to-keeps n fi t w (get_or cs fi [])) h;
      })
]

pub cg_add_edge-Has :
    (n fi t : ℕ) (cs : Callees)
    → fi < n
    → t < n
    → length cs ≡ n
    → Has (cg_add_edge granted n fi t cs) fi t
unfolding cg_add_edge
cg_add_edge-Has n fi t cs hf ht size =
    let ok : (leb n fi || leb n t) ≡ false = ground arith in
    rw ok (
      rw (get_or-set_self cs fi (add_to granted n fi t (get_or cs fi [])) [] (omega arith))
        (add_to-adds n fi t (get_or cs fi [])))
