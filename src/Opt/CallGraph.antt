-- ===== src/Opt/CallGraph.antt =====
-- clua/src/opt/passes.c: `lc_build_callgraph` and its helpers. `tables` says whether the two
-- `calloc`s succeed, and `edge fi bytes` whether a list's `realloc` does.
use compiled_lua.Common.{ℕ, ◌+◌, ◌-◌, ◌*◌, bit_and}
use compiled_lua.Common.{Bool, false, ◌&&◌, ◌||◌}
use compiled_lua.Common.{Option, none, some, List, [], ◌∷◌, ◌++◌}
use compiled_lua.Common.{ltb, leb, ◌==◌, if◌then◌else◌}
use compiled_lua.Common.{length, get_elem?, set, get_or, replicate}
pub mod Add
mod Scan
pub mod Edges
use compiled_lua.Common.Int.{ℤ, pos, negsuc}
use compiled_lua.Opt.{
  Name, codes, name_eq, Op, gettabup, getupval, getfield, geti, gettable, self, mmbin, mmbini,
  mmbink, loadk, closure, call, other, Constant, string, Instruction, Proto, LcInst, LcFunc,
  LcModule,
}
use compiled_lua.Opt.Libs.{is_string, constant_at}

pub record Grants : Type 0 where
  pub tables : Bool
  pub edge : ℕ → ℕ → Bool

-- `callees` of every function; the source's `ncallees` are their lengths.
abbrev pub Callees : Type 0
Callees = List (List ℕ)

unfoldable pub find_module_from : ℕ → List (Option LcFunc) → Name → Option ℕ
find_module_from i [] name = none
find_module_from i (none ∷ fs) name = find_module_from (i + 1) fs name
find_module_from i (some f ∷ fs) name =
    let later = find_module_from (i + 1) fs name in
    elim f.module_name [ none ↦ later | some n ↦ if name_eq n name then some i else later ]

unfoldable pub cg_find_module_by_name : LcModule → Name → Option ℕ
cg_find_module_by_name m name = find_module_from 0 m.funcs name

unfoldable pub find_proto_from : ℕ → List (Option LcFunc) → ℕ → Option ℕ
find_proto_from i [] p = none
find_proto_from i (none ∷ fs) p = find_proto_from (i + 1) fs p
find_proto_from i (some f ∷ fs) p =
    let later = find_proto_from (i + 1) fs p in
    elim f.source [ none ↦ later | some q ↦ if q.address == p then some i else later ]

unfoldable pub cg_find_func_by_proto : LcModule → ℕ → Option ℕ
cg_find_func_by_proto m p = find_proto_from 0 m.funcs p

unfoldable pub mem : ℕ → List ℕ → Bool
mem v [] = false
mem v (x ∷ xs) = x == v || mem v xs

-- The new capacity of a list of `n` edges, 0 where there is room.
unfoldable pub grown_capacity : ℕ → ℕ
grown_capacity n = if n == 0 then 4 else if bit_and n (n - 1) == 0 && leb 4 n then n * 2 else 0

module _ (grants : Grants) (nfuncs : ℕ) where
  -- The list stays as it is where the edge is known or the `realloc` is refused.
  unfoldable pub add_to : ℕ → ℕ → List ℕ → List ℕ
  unfolding mem grown_capacity
  add_to fi callee list =
      let cap = grown_capacity (length list) in
      if mem callee list
      then list
      else if cap == 0
      then list ++ callee ∷ []
      else if grants.edge fi (cap * 4)
      then list ++ callee ∷ []
      else list

  unfoldable pub cg_add_edge : ℕ → ℕ → Callees → Callees
  cg_add_edge fi callee cs =
      if leb nfuncs fi || leb nfuncs callee
      then cs
      else set cs fi (add_to fi callee (get_or cs fi []))

-- The module that `require("literal")` at the front of the code names, if it is there.
unfoldable pub require_target : LcModule → Proto → Instruction → Instruction → Option ℕ
unfolding cg_find_module_by_name
require_target m p i j = elim i.op [
  | gettabup ↦ elim (constant_at p i.c) [
    | none ↦ none
    | some k ↦
        if is_string (codes "require") k
        then (elim j.op [
          | loadk ↦ elim (constant_at p j.bx) [
            | some (string name) ↦ cg_find_module_by_name m name
            | _ ↦ none
          ]
          | _ ↦ none
        ])
        else none
  ]
  | _ ↦ none
]

-- The function that a `CLOSURE` instantiates, or that a resolved `CALL` calls.
unfoldable pub inst_target : LcModule → Option Proto → LcInst → Option ℕ
unfolding cg_find_func_by_proto
inst_target m p in_ = elim in_.bc_op [
  | closure ↦ elim in_.b [
    | negsuc _ ↦ none
    | pos bx ↦ elim p [
      | none ↦ none
      | some q ↦ elim (get_elem? q.protos bx) [
        | some (some child) ↦ cg_find_func_by_proto m child
        | _ ↦ none
      ]
    ]
  ]
  | call ↦ elim in_.call_callee [
    | negsuc _ ↦ none
    | pos callee ↦ if ltb 0 callee && ltb callee (length m.funcs) then some callee else none
  ]
  | _ ↦ none
]

module _ (grants : Grants) (m : LcModule) (fi : ℕ) where
  abbrev pub add_target : Option ℕ → Callees → Callees
  add_target none cs = cs
  add_target (some t) cs = cg_add_edge grants (length m.funcs) fi t cs

  -- i + 2 < p->sizecode: an instruction with two more behind it.
  unfoldable pub require_edges : Proto → List Instruction → Callees → Callees
  require_edges p (i ∷ j ∷ k ∷ is) cs =
      require_edges p (j ∷ k ∷ is) (add_target (require_target m p i j) cs)
  require_edges p _ cs = cs

  unfoldable pub inst_edges : Option Proto → List LcInst → Callees → Callees
  inst_edges p [] cs = cs
  inst_edges p (x ∷ xs) cs = inst_edges p xs (add_target (inst_target m p x) cs)

  unfoldable pub block_edges : Option Proto → List (Option (List LcInst)) → Callees → Callees
  block_edges p [] cs = cs
  block_edges p (none ∷ bs) cs = block_edges p bs cs
  block_edges p (some b ∷ bs) cs = block_edges p bs (inst_edges p b cs)

  unfoldable pub cg_add_require_edges : Option Proto → Callees → Callees
  cg_add_require_edges none cs = cs
  cg_add_require_edges (some p) cs = require_edges p p.code cs

  unfoldable pub func_edges : Option LcFunc → Callees → Callees
  func_edges none cs = cs
  func_edges (some f) cs = cg_add_require_edges f.source (block_edges f.source f.blocks cs)

module _ (grants : Grants) (m : LcModule) where
  unfoldable pub all_edges : ℕ → List (Option LcFunc) → Callees → Callees
  all_edges fi [] cs = cs
  all_edges fi (f ∷ fs) cs = all_edges (fi + 1) fs (func_edges grants m fi f cs)

  -- The graph that the pass leaves, `none` for the null tables. A module without functions
  -- keeps the graph it had.
  unfoldable pub lc_build_callgraph : Option Callees → Option Callees
  lc_build_callgraph prior =
      if length m.funcs == 0
      then prior
      else if grants.tables
      then some (all_edges 0 m.funcs (replicate (length m.funcs) []))
      else none
