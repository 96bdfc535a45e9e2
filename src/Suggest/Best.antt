-- ===== src/Suggest/Best.antt =====
-- clua/src/compiler/diag_suggest.c, `LcDiag_SuggestName`: the choice of a candidate.
use compiled_lua.Common.{ℕ, zero, suc, ◌+◌, ◌-◌, ◌≤◌, ◌<◌, min}
use compiled_lua.Common.{◌≡◌, refl, sym, ◌∙◌, ◌⊎◌, inl, inr, false}
use compiled_lua.Common.{Option, none, some, List, [], ◌∷◌, arith}
use compiled_lua.Common.{ltb, ◌==◌, if◌then◌else◌, Bool-cases, Option-cases}
use compiled_lua.Common.{length, get_or, take}
use compiled_lua.Common.Name.{Name}
use compiled_lua.Suggest.{considered, pick, suggest_name, suggest_min_bad_len}

-- No candidate that counts is nearer than `n`.
abbrev pub AllFrom : Name → List (Option Name) → ℕ → Type 0
AllFrom bad cs n = (k d : ℕ) → considered bad (get_or cs k none) ≡ some d → n ≤ d

-- Candidate `k` is at distance `d`, none is nearer, and those before it are farther.
pub record First (bad : Name) (cs : List (Option Name)) (k d : ℕ) : Type 0 where
  pub counts : considered bad (get_or cs k none) ≡ some d
  pub least : AllFrom bad cs d
  pub before : (j e : ℕ) → j < k → considered bad (get_or cs j none) ≡ some e → d < e

-- What the loop has picked: what it came with, or the first of the nearest.
abbrev pub Picked : Name → List (Option Name) → ℕ → Option Name → Option Name → Type 0
Picked bad cs n best out =
    ((out ≡ best) × AllFrom bad cs n)
    ⊎ ((k : ℕ) × (d : ℕ) × (out ≡ get_or cs k none) × (d < n) × First bad cs k d)

nothing_counts : (bad : Name) (d : ℕ) → considered bad none ≡ some d → ⊥
unfolding considered
nothing_counts bad d h = cc

-- A candidate that does not beat `n` leaves the choice to the rest.
pick_later :
    (bad : Name) (c : Option Name) (cs : List (Option Name)) (n : ℕ) (best out : Option Name)
    → ((d : ℕ) → considered bad c ≡ some d → n ≤ d)
    → Picked bad cs n best out
    → Picked bad (c ∷ cs) n best out
pick_later bad c cs n best out far (inl (kept, all)) = inl (kept, λ k d h. split k d h)
  where
    split : (k d : ℕ) → considered bad (get_or (c ∷ cs) k none) ≡ some d → n ≤ d
    split zero d h = far d h
    split (suc k) d h = all k d h
pick_later bad c cs n best out far (inr (k, d, is, lt, first)) =
    inr (suc k, d, is, lt, record { counts = first.counts; least = least_; before = before_ })
  where
    least_ : AllFrom bad (c ∷ cs) d
    least_ zero e h = omega (arith, far e h)
    least_ (suc j) e h = first.least j e h

    before_ : (j e : ℕ) → j < suc k → considered bad (get_or (c ∷ cs) j none) ≡ some e → d < e
    before_ zero e less h = omega (arith, far e h)
    before_ (suc j) e less h = first.before j e (omega arith) h

-- A candidate that beats `n` is the choice unless the rest beats it.
pick_here :
    (bad : Name) (c : Option Name) (cs : List (Option Name)) (n m : ℕ) (best out : Option Name)
    → considered bad c ≡ some m
    → m < n
    → Picked bad cs m c out
    → Picked bad (c ∷ cs) n best out
pick_here bad c cs n m best out at less (inl (kept, all)) =
    inr (0, m, kept, less, record { counts = at; least = least_; before = λ j e lt h. elim lt [ ] })
  where
    least_ : AllFrom bad (c ∷ cs) m
    least_ zero e h =
        (let both : some m ≡ some e = sym at ∙ h in let eq : m ≡ e = cc in omega arith)
    least_ (suc j) e h = all j e h
pick_here bad c cs n m best out at less (inr (k, d, is, lt, first)) =
    inr (
      suc k,
      d,
      is,
      omega arith,
      record { counts = first.counts; least = least_; before = before_ },
    )
  where
    least_ : AllFrom bad (c ∷ cs) d
    least_ zero e h =
        (let both : some m ≡ some e = sym at ∙ h in let eq : m ≡ e = cc in omega arith)
    least_ (suc j) e h = first.least j e h

    before_ : (j e : ℕ) → j < suc k → considered bad (get_or (c ∷ cs) j none) ≡ some e → d < e
    before_ zero e l h =
        (let both : some m ≡ some e = sym at ∙ h in let eq : m ≡ e = cc in omega arith)
    before_ (suc j) e l h = first.before j e (omega arith) h

pick_lem :
    (bad : Name) (cs : List (Option Name)) (n : ℕ) (best : Option Name)
    → Picked bad cs n best (pick bad cs n best)
pick_lem bad [] n best = unfold pick in inl (refl, λ k d h. absurd (nothing_counts bad d h))
pick_lem bad (c ∷ cs) n best = elim (Option-cases (considered bad c)) [
  | inl passed ↦
      let out : pick bad (c ∷ cs) n best ≡ pick bad cs n best =
        unfold pick in rw (passed, pick) refl in
      rw out (pick_later bad c cs n best _ (λ d h. cc) (pick_lem bad cs n best))
  | inr (m, at) ↦ elim (Bool-cases (ltb m n)) [
    | inl less ↦
        let out : pick bad (c ∷ cs) n best ≡ pick bad cs m c =
          unfold pick in rw (at, less, pick) refl in
        rw out (pick_here bad c cs n m best _ at (ground arith) (pick_lem bad cs m c))
    | inr far ↦
        let out : pick bad (c ∷ cs) n best ≡ pick bad cs n best =
          unfold pick in rw (at, far, pick) refl in
        rw out (
          pick_later bad c cs n best _
            (λ d h.
              (let both : some m ≡ some d = sym at ∙ h in let eq : m ≡ d = cc in ground arith))
            (pick_lem bad cs n best))
  ]
]

-- For a name of at least four characters and a buffer that is not empty: either no candidate
-- counts and nothing is suggested, or what is suggested is the first of the nearest candidates,
-- at a distance of at most two, cut to the buffer.
pub suggest_name_lem :
    (bad : Name) (candidates : List (Option Name)) (outsz : ℕ)
    → 0 < outsz
    → suggest_min_bad_len ≤ length bad
    → ((suggest_name bad candidates outsz ≡ none) × AllFrom bad candidates 3)
      ⊎ ((k : ℕ) × (d : ℕ) × (best : Name) × (get_or candidates k none ≡ some best)
          × (d ≤ 2)
          × First bad candidates k d
          × (suggest_name bad candidates outsz ≡ some (take (min (outsz - 1) (length best)) best)))
suggest_name_lem bad candidates outsz room long =
    let sized : (outsz == 0) ≡ false = ground arith in
    let enough : ltb (length bad) suggest_min_bad_len ≡ false = ground arith in
    elim (pick_lem bad candidates 3 none) [
      | inl (nothing, all) ↦ inl (unfold suggest_name in rw (sized, enough, nothing) refl, all)
      | inr (k, d, is, lt, first) ↦ elim (Option-cases (get_or candidates k none)) [
        | inl missing ↦ absurd (nothing_counts bad d (rw missing at first.counts))
        | inr (best, found) ↦
            let chosen : pick bad candidates 3 none ≡ some best = is ∙ found in
            let cut : (if ltb outsz (length best + 1) then outsz - 1 else length best)
                ≡ min (outsz - 1) (length best) =
              ground arith in
            inr (
              k,
              d,
              best,
              found,
              omega arith,
              first,
              unfold suggest_name in rw (sized, enough, chosen, cut) refl,
            )
      ]
    ]
