-- ===== src/Opt/CallGraph/Edges.antt =====
-- clua/src/opt/passes.c, `lc_build_callgraph`: the references of a function and its edges.
use compiled_lua.Common.{ℕ, zero, suc, ◌+◌, ◌<◌}
use compiled_lua.Common.{◌≡◌, refl, ◌∙◌, false}
use compiled_lua.Common.{Option, some, List, [], ◌∷◌, arith}
use compiled_lua.Common.{◌==◌}
use compiled_lua.Common.{length, get_elem?, get_or, replicate, length-replicate}
use compiled_lua.Opt.{Instruction, Proto, LcInst, LcFunc, LcModule}
use compiled_lua.Opt.CallGraph.{
  Callees, require_target, inst_target, block_edges, cg_add_require_edges, func_edges, all_edges,
  lc_build_callgraph,
}
use compiled_lua.Opt.Sweep.{In}
use compiled_lua.Opt.CallGraph.Add.{
  Adjacent, InList, granted, Has, Extends, Extends-refl, Extends-trans,
}
use compiled_lua.Opt.CallGraph.Scan.{
  block_edges-Extends, block_edges-Has, cg_add_require_edges-Extends, func_edges-Extends,
  require_edges-Has,
}

-- What function `f` refers to: the target of an instruction of one of its blocks, or the module
-- that its own code requires by name.
pub data Targets (m : LcModule) (f : LcFunc) (t : ℕ) : Type 0 where
  instruction :
      (b : List LcInst) (x : LcInst)
      → InList (some b) f.blocks
      → InList x b
      → inst_target m f.source x ≡ some t
      → Targets m f t
  required :
      (p : Proto) (i j : Instruction)
      → f.source ≡ some p
      → Adjacent i j p.code
      → require_target m p i j ≡ some t
      → Targets m f t

func_edges-Has :
    (m : LcModule) (fi t : ℕ) (f : LcFunc) (cs : Callees)
    → fi < length m.funcs
    → t < length m.funcs
    → length cs ≡ length m.funcs
    → Targets m f t
    → Has (func_edges granted m fi (some f) cs) fi t
unfolding func_edges
func_edges-Has m fi t f cs inside target size (instruction b x hb hx e) =
    (cg_add_require_edges-Extends m fi f.source _).keeps fi t
      (block_edges-Has m fi inside t target f.source f.blocks cs size hb hx e)
func_edges-Has m fi t f cs inside target size (required p i j src h e) = rw src (
    unfold cg_add_require_edges in
    require_edges-Has m fi inside t target p p.code (block_edges granted m fi (some p) f.blocks cs)
      i j ((block_edges-Extends m fi (some p) f.blocks cs).size ∙ size) h e)

all_edges-Extends :
    (m : LcModule) (i : ℕ) (fs : List (Option LcFunc)) (cs : Callees)
    → Extends cs (all_edges granted m i fs cs)
unfolding all_edges
all_edges-Extends m i [] cs = Extends-refl cs
all_edges-Extends m i (f ∷ fs) cs =
    Extends-trans (func_edges-Extends m i f cs) (all_edges-Extends m (i + 1) fs _)

all_edges-Has :
    (m : LcModule) (i k t : ℕ) (f : LcFunc) (fs : List (Option LcFunc)) (cs : Callees)
    → get_elem? fs k ≡ some (some f)
    → i + k < length m.funcs
    → t < length m.funcs
    → length cs ≡ length m.funcs
    → Targets m f t
    → Has (all_edges granted m i fs cs) (i + k) t
unfolding all_edges
all_edges-Has m i k t f [] cs at inside target size h = cc
all_edges-Has m i zero t f (g ∷ fs) cs at inside target size h =
    let same : g ≡ some f = cc in
    let e : i + 0 ≡ i = omega arith in
    rw (e, same)
      ((all_edges-Extends m (i + 1) fs _).keeps i t
        (func_edges-Has m i t f cs (omega arith) target size h))
all_edges-Has m i (suc k) t f (g ∷ fs) cs at inside target size h =
    let e : i + suc k ≡ (i + 1) + k = omega arith in
    rw e (
      all_edges-Has m (i + 1) k t f fs (func_edges granted m i g cs) at (omega arith) target
        ((func_edges-Extends m i g cs).size ∙ size) h)

-- Where every allocation is granted, the graph is there, whatever graph there was before, and
-- it misses nothing: a function that function `fi` refers to is among the callees of `fi`.
pub lc_build_callgraph_lem :
    (m : LcModule) (prior : Option Callees) (fi t : ℕ) (f : LcFunc)
    → get_elem? m.funcs fi ≡ some (some f)
    → fi < length m.funcs
    → t < length m.funcs
    → Targets m f t
    → (cs : Callees) × (lc_build_callgraph granted m prior ≡ some cs) × In t (get_or cs fi [])
unfolding lc_build_callgraph
lc_build_callgraph_lem m prior fi t f at inside target h =
    let some_funcs : (length m.funcs == 0) ≡ false = ground arith in
    let shift : 0 + fi ≡ fi = omega arith in
    (
      all_edges granted m 0 m.funcs (replicate (length m.funcs) []),
      rw some_funcs refl,
      rw shift at (
          all_edges-Has m 0 fi t f m.funcs (replicate (length m.funcs) []) at (omega arith) target
            (length-replicate (length m.funcs) []) h),
    )
