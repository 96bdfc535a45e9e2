-- ===== src/Opt/Sweep/Correct.antt =====
-- clua/src/opt/passes.c, `lc_pass_dead_global`: the worklist loop and reachability.
use compiled_lua.Common.{ℕ, zero, suc, ◌≤◌}
use compiled_lua.Common.{◌≡◌, refl, sym, ap, ◌∙◌, ◌↔◌, ◌⊎◌, inl, inr, true, false}
use compiled_lua.Common.{some, List, [], ◌∷◌, arith}
use compiled_lua.Common.{length}
use compiled_lua.Opt.Sweep.{
  Flags, Sweep, is_dead, is_live, scan, sweep, count_dead, In, present, Reach, root, step,
}
use compiled_lua.Opt.Sweep.Marks.{live_of_present, present_of_live}
use compiled_lua.Opt.Sweep.Growth.{work, scan-Grows, scan-target, scan-live}

module _ (fl : Flags) (edges : ℕ → List ℕ) (roots : List ℕ) where
  -- Live functions are reachable, every root is seen, and the edges of a live function that is
  -- not pending lead to no dead one.
  pub record Inv (s : Sweep) : Type 0 where
    pub same : (v : ℕ) → present s.flags v ≡ present fl v
    pub sound : (v : ℕ) → is_live s.flags v ≡ true → Reach fl edges roots v
    pub queued : (v : ℕ) → In v s.pending → is_live s.flags v ≡ true
    pub rooted : (v : ℕ) → In v roots → is_dead s.flags v ≡ false
    pub closed :
        (u v : ℕ)
        → is_live s.flags u ≡ true
        → In v (edges u)
        → In u s.pending ⊎ (is_dead s.flags v ≡ false)

  Inv-expand :
      (s : Sweep) (u : ℕ) (rest : List ℕ)
      → s.pending ≡ u ∷ rest
      → Inv s
      → Inv (scan (record s { pending = rest }) (edges u))
  Inv-expand s u rest e inv =
      let r : Sweep = record s { pending = rest } in
      let t = scan r (edges u) in
      let g = scan-Grows r (edges u) in
      let head : In u s.pending = rw e (inl refl) in
      let tail = λ (v : ℕ) (h : In v rest). (let w : In v s.pending = rw e (inr h) in w) in
      record {
        same = λ v. g.same_present v ∙ inv.same v;
        sound = λ v h. elim (scan-live r (edges u) v h) [
          | inl old ↦ inv.sound v old
          | inr edge ↦
              step (inv.sound u (inv.queued u head)) edge
                (sym (g.same_present v ∙ inv.same v) ∙ present_of_live t.flags v h)
        ];
        queued = λ v h. elim (g.queued_live v h) [
          | inl old ↦ g.kept_live v (inv.queued v (tail v old))
          | inr l ↦ l
        ];
        rooted = λ v h. g.kept_alive v (inv.rooted v h);
        closed = λ x v live edge. elim (g.new_pending x live) [
          | inl old ↦ elim (inv.closed x v old edge) [
            | inl waiting ↦ elim (rw e at waiting) [
              | inl same ↦ inr (scan-target r (edges u) v (rw same at edge))
              | inr later ↦ inl (g.kept_pending x later)
            ]
            | inr alive ↦ inr (g.kept_alive v alive)
          ]
          | inr queued ↦ inl queued
        ];
      }

  List-cases : (xs : List ℕ) → (xs ≡ []) ⊎ ((x : ℕ) × (r : List ℕ) × (xs ≡ x ∷ r))
  List-cases [] = inl refl
  List-cases (x ∷ r) = inr (x, r, refl)

  -- Each round takes one function off the worklist, and each is put on it once.
  sweep_ends :
      (fuel : ℕ) (s : Sweep)
      → work s ≤ fuel
      → Inv s
      → (r : Sweep) × (sweep edges fuel s ≡ some r.flags) × (r.pending ≡ []) × Inv r
  unfolding sweep
  sweep_ends zero s bound inv = elim (List-cases s.pending) [
    | inl empty ↦ (s, rw (empty, sweep), empty, inv)
    | inr (u, rest, e) ↦ absurd (omega (arith, ap length e))
  ]
  sweep_ends (suc fuel) s bound inv = elim (List-cases s.pending) [
    | inl empty ↦ (s, rw (empty, sweep), empty, inv)
    | inr (u, rest, e) ↦
        let r : Sweep = record s { pending = rest } in
        let g = scan-Grows r (edges u) in
        let (q, runs, empty, kept) =
          sweep_ends fuel (scan r (edges u)) (omega (arith, g.same_work, ap length e))
            (Inv-expand s u rest e inv) in
        (q, rw (e, sweep) runs, empty, kept)
  ]

  abbrev start : Sweep
  start = record { flags = fl; pending = [] }

  Inv-start : ((v : ℕ) → is_live fl v ≡ false) → Inv (scan start roots)
  Inv-start dead =
      let g = scan-Grows start roots in
      record {
        same = g.same_present;
        sound = λ v h. elim (scan-live start roots v h) [
          | inl old ↦ cc (dead v)
          | inr seed ↦
              root seed (sym (g.same_present v) ∙ present_of_live (scan start roots).flags v h)
        ];
        queued = λ v h. elim (g.queued_live v h) [ inl none_yet ↦ absurd none_yet | inr l ↦ l ];
        rooted = scan-target start roots;
        closed = λ u v live edge. elim (g.new_pending u live) [
          | inl old ↦ cc (dead u)
          | inr queued ↦ inl queued
        ];
      }

  complete :
      (r : Sweep)
      → Inv r
      → r.pending ≡ []
      → {v : ℕ} → Reach fl edges roots v
      → is_live r.flags v ≡ true
  complete r inv empty (root {v} h p) = live_of_present r.flags v (inv.same v ∙ p) (inv.rooted v h)
  complete r inv empty (step {u} {v} path edge p) =
      elim (inv.closed u v (complete r inv empty path) edge) [
        | inl waiting ↦ absurd (rw empty at waiting)
        | inr alive ↦ live_of_present r.flags v (inv.same v ∙ p) alive
      ]

  -- From flags that are all dead, the sweep ends within as many rounds as there are functions,
  -- and then a function is live exactly when it is reachable from the roots.
  pub sweep_lem :
      (fuel : ℕ)
      → count_dead fl ≤ fuel
      → ((v : ℕ) → is_live fl v ≡ false)
      → (out : Flags) × (sweep edges fuel (scan start roots) ≡ some out)
        × ((v : ℕ) → (is_live out v ≡ true) ↔ Reach fl edges roots v)
  sweep_lem fuel bound dead =
      let g = scan-Grows start roots in
      let (r, runs, empty, inv) =
        sweep_ends fuel (scan start roots) (omega (arith, g.same_work)) (Inv-start dead) in
      (r.flags, runs, λ v. (inv.sound v, complete r inv empty))
