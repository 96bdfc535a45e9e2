-- ===== src/Opt.antt =====
-- clua/src/opt/passes.c: the optimizer. This module has the parts of the IR (clua/src/ir/ir.h)
-- and of Lua's prototypes that the modelled passes read. A prototype is identified by `address`;
-- its instructions are given decoded, since the decoding macros belong to the vendored Lua.
use compiled_lua.Common.{ℕ}
use compiled_lua.Common.{Option, none, some, List, [], ◌∷◌}
pub mod Libs
pub mod CallGraph
pub mod Sweep
pub mod DeadGlobal
pub mod TypeInfer
pub mod FoldBranches
mod Tests
use compiled_lua.Common.Int.{ℤ}
pub use compiled_lua.Common.Name.{Name, codes, name_eq}

-- The opcodes that the scans and the call graph look at; `other` is any further one.
pub data Op : Type 0 where
  gettabup getupval getfield geti gettable self mmbin mmbini mmbink loadk closure call : Op
  other : ℕ → Op

pub data Constant : Type 0 where
  string : Name → Constant
  integer float nonstring : Constant

-- A decoded bytecode instruction.
pub record Instruction : Type 0 where
  pub op : Op
  pub b : ℕ
  pub c : ℕ
  pub bx : ℕ

pub record Proto : Type 0 where
  pub address : ℕ
  pub constants : List Constant
  pub code : List Instruction
  pub upvalue_names : List (Option Name)
  pub protos : List (Option ℕ)

-- An IR instruction, as far as the call graph reads it.
pub record LcInst : Type 0 where
  pub bc_op : Op
  pub b : ℤ
  pub call_callee : ℤ

pub record LcFunc : Type 0 where
  pub source : Option Proto
  pub module_name : Option Name
  pub blocks : List (Option (List LcInst))

-- `entry` is the index of the function that the source's pointer names.
pub record LcModule : Type 0 where
  pub funcs : List (Option LcFunc)
  pub entry : Option ℕ

-- The prototypes that the scans go through, `m->funcs[i] ? m->funcs[i]->source : NULL`.
abbrev pub sources : List (Option LcFunc) → List Proto
sources [] = []
sources (none ∷ fs) = sources fs
sources (some f ∷ fs) = elim f.source [ none ↦ sources fs | some p ↦ p ∷ sources fs ]
