-- ===== src/Opt/TypeInfer/Reach/Walked.antt =====
-- clua/src/opt/passes.c, `ti_run` with `keep`: what `reach` marks.
use compiled_lua.Common.{ℕ, zero, suc, ◌≤◌, ◌<◌}
use compiled_lua.Common.{◌≡◌, refl, ◌↔◌, inl, inr, true, false}
use compiled_lua.Common.{Option, none, some, List, [], ◌∷◌, arith}
use compiled_lua.Common.{Option-cases}
use compiled_lua.Common.{length, get_elem?}
use compiled_lua.Opt.Sweep.{Flags, is_live, count_dead, present, In, Reach, root, step}
use compiled_lua.Opt.Sweep.Correct.{sweep_lem}
use compiled_lua.Opt.TypeInfer.{Ti, State}
use compiled_lua.Opt.TypeInfer.Flow.{Inst, Source, next_of, out_state, entry_state}
use compiled_lua.Opt.TypeInfer.Flow.Paths.{Route, start, next, get_elem?-lt}
use compiled_lua.Opt.TypeInfer.Annotate.{captured_of}
use compiled_lua.Opt.TypeInfer.Annotate.Run.{Arrives}
use compiled_lua.Opt.TypeInfer.Reach.{unreached, reach_edges, ti_reach}

unreached-live : (xs : List Inst) (v : ℕ) → is_live (unreached xs) v ≡ false
unfolding unreached is_live
unreached-live [] v = refl
unreached-live (x ∷ xs) zero = refl
unreached-live (x ∷ xs) (suc v) = unreached-live xs v

count-unreached : (xs : List Inst) → count_dead (unreached xs) ≤ length xs
unfolding unreached count_dead
count-unreached [] = omega arith
count-unreached (x ∷ xs) = omega (arith, count-unreached xs)

present-unreached : (xs : List Inst) (v : ℕ) → v < length xs → present (unreached xs) v ≡ true
unfolding unreached present
present-unreached [] v lt = absurd (omega (arith, lt))
present-unreached (x ∷ xs) zero lt = refl
present-unreached (x ∷ xs) (suc v) lt = present-unreached xs v (omega (arith, lt))

unreached-lt : (xs : List Inst) (v : ℕ) → present (unreached xs) v ≡ true → v < length xs
unfolding unreached present
unreached-lt [] v h = cc h
unreached-lt (x ∷ xs) zero h = omega arith
unreached-lt (x ∷ xs) (suc v) h = omega (arith, unreached-lt xs v h)

edges-some :
    (insts : List Inst) (u : ℕ) {x : Inst}
    → get_elem? insts u ≡ some x
    → reach_edges insts u ≡ next_of insts u x
unfolding reach_edges
edges-some insts u at = rw (at, reach_edges) refl

edges-none : (insts : List Inst) (u : ℕ) → get_elem? insts u ≡ none → reach_edges insts u ≡ []
unfolding reach_edges
edges-none insts u out = rw (out, reach_edges) refl

reach_edges-In :
    (insts : List Inst) (u v : ℕ)
    → In v (reach_edges insts u)
    → (x : Inst) × (get_elem? insts u ≡ some x) × In v (next_of insts u x)
reach_edges-In insts u v h = elim (Option-cases (get_elem? insts u)) [
  | inl out ↦ absurd (rw (edges-none insts u out) at h)
  | inr (x, at) ↦ (x, at, rw (edges-some insts u at) at h)
]

module _ (p : Source) (params : Option (List Ti)) (insts : List Inst) where
  Arrives-Reach :
      {v : ℕ} {s : State}
      → v < length insts
      → Route p (captured_of p insts) insts (entry_state p params) v s
      → Reach (unreached insts) (reach_edges insts) (0 ∷ []) v
  Arrives-Reach lt start = root (inl refl) (present-unreached insts 0 lt)
  Arrives-Reach {v} lt (next {i} path at edge) =
      step (Arrives-Reach (get_elem?-lt insts i at) path) (rw (edges-some insts i at) edge)
        (present-unreached insts v lt)

  Reach-Arrives :
      {v : ℕ}
      → Reach (unreached insts) (reach_edges insts) (0 ∷ []) v
      → (s : State) × Arrives p params insts v s
  Reach-Arrives (root (inl e) here) =
      (entry_state p params, (unreached-lt insts _ here, rw e start))
  Reach-Arrives (root (inr none_in) here) = absurd none_in
  Reach-Arrives {v} (step {u} path edge here) =
      let (s, arrived) = Reach-Arrives path in
      let (x, at, later) = reach_edges-In insts u v edge in
      (out_state p (captured_of p insts) x s, (unreached-lt insts v here, next arrived.1 at later))

-- `reach` of `ti_run`, with both its allocations granted: the walk ends, each instruction taken up
-- once, and it marks exactly the instructions that some control path from the first one leads to.
pub ti_reach_lem :
    (p : Source) (params : Option (List Ti)) (insts : List Inst)
    → (out : Flags) × (ti_reach insts ≡ some out)
      × ((v : ℕ) → (is_live out v ≡ true) ↔ ((s : State) × Arrives p params insts v s))
unfolding ti_reach
ti_reach_lem p params insts =
    let (out, ends, marks) =
      sweep_lem (unreached insts) (reach_edges insts) (0 ∷ []) (length insts)
        (count-unreached insts) (unreached-live insts) in
    (
      out,
      ends,
      λ v. (
        λ live. Reach-Arrives p params insts ((marks v).0 live),
        λ a. (marks v).1 (Arrives-Reach p params insts a.1.0 a.1.1),
      ),
    )
