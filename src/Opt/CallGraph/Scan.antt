-- ===== src/Opt/CallGraph/Scan.antt =====
-- What the scans of one function keep and add.
use compiled_lua.Common.{ℕ, ◌<◌}
use compiled_lua.Common.{◌≡◌, ◌∙◌, inl, inr}
use compiled_lua.Common.{Option, none, some, List, [], ◌∷◌}
use compiled_lua.Common.{length}
use compiled_lua.Opt.{Instruction, Proto, LcInst, LcFunc, LcModule}
use compiled_lua.Opt.CallGraph.{
  Callees, require_target, inst_target, add_target, require_edges, inst_edges, block_edges,
  cg_add_require_edges, func_edges,
}
use compiled_lua.Opt.CallGraph.Add.{
  Adjacent, InList, here, there, granted, Has, Extends, Extends-refl, Extends-trans,
  cg_add_edge-Extends, cg_add_edge-Has,
}

module _ (m : LcModule) (fi : ℕ) where
  add_target-Extends : (o : Option ℕ) (cs : Callees) → Extends cs (add_target granted m fi o cs)
  add_target-Extends none cs = Extends-refl cs
  add_target-Extends (some t) cs = cg_add_edge-Extends (length m.funcs) fi t cs

  require_edges-Extends :
      (p : Proto) (is : List Instruction) (cs : Callees)
      → Extends cs (require_edges granted m fi p is cs)
  unfolding require_edges
  require_edges-Extends p [] cs = Extends-refl cs
  require_edges-Extends p (i ∷ []) cs = Extends-refl cs
  require_edges-Extends p (i ∷ j ∷ []) cs = Extends-refl cs
  require_edges-Extends p (i ∷ j ∷ k ∷ is) cs =
      Extends-trans (add_target-Extends (require_target m p i j) cs)
        (require_edges-Extends p (j ∷ k ∷ is) _)

  inst_edges-Extends :
      (p : Option Proto) (xs : List LcInst) (cs : Callees)
      → Extends cs (inst_edges granted m fi p xs cs)
  unfolding inst_edges
  inst_edges-Extends p [] cs = Extends-refl cs
  inst_edges-Extends p (x ∷ xs) cs =
      Extends-trans (add_target-Extends (inst_target m p x) cs) (inst_edges-Extends p xs _)

  pub block_edges-Extends :
      (p : Option Proto) (bs : List (Option (List LcInst))) (cs : Callees)
      → Extends cs (block_edges granted m fi p bs cs)
  unfolding block_edges
  block_edges-Extends p [] cs = Extends-refl cs
  block_edges-Extends p (none ∷ bs) cs = block_edges-Extends p bs cs
  block_edges-Extends p (some b ∷ bs) cs =
      Extends-trans (inst_edges-Extends p b cs) (block_edges-Extends p bs _)

  pub cg_add_require_edges-Extends :
      (p : Option Proto) (cs : Callees) → Extends cs (cg_add_require_edges granted m fi p cs)
  unfolding cg_add_require_edges
  cg_add_require_edges-Extends none cs = Extends-refl cs
  cg_add_require_edges-Extends (some p) cs = require_edges-Extends p p.code cs

  pub func_edges-Extends :
      (f : Option LcFunc) (cs : Callees) → Extends cs (func_edges granted m fi f cs)
  unfolding func_edges
  func_edges-Extends none cs = Extends-refl cs
  func_edges-Extends (some f) cs =
      Extends-trans (block_edges-Extends f.source f.blocks cs)
        (cg_add_require_edges-Extends f.source _)

  module _ (inside : fi < length m.funcs) (t : ℕ) (target : t < length m.funcs) where
    inst_edges-Has :
        (p : Option Proto) (xs : List LcInst) (cs : Callees) {x : LcInst}
        → length cs ≡ length m.funcs
        → InList x xs
        → inst_target m p x ≡ some t
        → Has (inst_edges granted m fi p xs cs) fi t
    unfolding inst_edges
    inst_edges-Has p [] cs size h e = elim h [ ]
    inst_edges-Has p (x ∷ xs) cs size here e =
        (inst_edges-Extends p xs _).keeps fi t
          (rw e (cg_add_edge-Has (length m.funcs) fi t cs inside target size))
    inst_edges-Has p (x ∷ xs) cs size (there h) e =
        inst_edges-Has p xs _ ((add_target-Extends (inst_target m p x) cs).size ∙ size) h e

    pub block_edges-Has :
        (p : Option Proto) (bs : List (Option (List LcInst))) (cs : Callees) {b : List LcInst}
        {x : LcInst}
        → length cs ≡ length m.funcs
        → InList (some b) bs
        → InList x b
        → inst_target m p x ≡ some t
        → Has (block_edges granted m fi p bs cs) fi t
    unfolding block_edges
    block_edges-Has p [] cs size h k e = elim h [ ]
    block_edges-Has p (some b ∷ bs) cs size here k e =
        (block_edges-Extends p bs _).keeps fi t (inst_edges-Has p b cs size k e)
    block_edges-Has p (none ∷ bs) cs size (there h) k e = block_edges-Has p bs cs size h k e
    block_edges-Has p (some c ∷ bs) cs size (there h) k e =
        block_edges-Has p bs _ ((inst_edges-Extends p c cs).size ∙ size) h k e

    pub require_edges-Has :
        (p : Proto) (is : List Instruction) (cs : Callees) (i j : Instruction)
        → length cs ≡ length m.funcs
        → Adjacent i j is
        → require_target m p i j ≡ some t
        → Has (require_edges granted m fi p is cs) fi t
    unfolding require_edges
    require_edges-Has p [] cs i j size h e = absurd h
    require_edges-Has p (x ∷ []) cs i j size h e = absurd h
    require_edges-Has p (x ∷ y ∷ []) cs i j size h e = absurd h
    require_edges-Has p (x ∷ y ∷ z ∷ is) cs i j size (inl (ex, ey)) e =
        let found : require_target m p x y ≡ some t = rw (ex, ey) e in
        (require_edges-Extends p (y ∷ z ∷ is) _).keeps fi t
          (rw found (cg_add_edge-Has (length m.funcs) fi t cs inside target size))
    require_edges-Has p (x ∷ y ∷ z ∷ is) cs i j size (inr h) e =
        require_edges-Has p (y ∷ z ∷ is) _ i j
          ((add_target-Extends (require_target m p x y) cs).size ∙ size) h e
