-- ===== src/Opt/TypeInfer/Flow/Bounds.antt =====
-- clua/src/opt/passes.c, `ti_run`: the successors of an instruction are instructions, so that the
-- rows that the loop reads and writes exist.
use compiled_lua.Common.{ℕ, ◌+◌, ◌≤◌, ◌<◌}
use compiled_lua.Common.{◌≡◌, refl, sym, ◌∙◌, inl, inr}
use compiled_lua.Common.{Option, none, some, List, [], ◌∷◌, ◌++◌, arith}
use compiled_lua.Common.{ltb, leb, ltb→lt, Bool-cases}
use compiled_lua.Common.{length, set, get_or, replicate, get_or-replicate}
use compiled_lua.Common.{get_or-set_cases}
use compiled_lua.Opt.Sweep.{In}
use compiled_lua.Opt.TypeInfer.{
  OpCode, op_eq, op_lt, op_le, op_eqk, op_eqi, op_lti, op_lei, op_gti, op_gei, op_forloop,
  op_forprep, op_tforloop, op_tforprep, op_return, op_return0, op_return1, op_tailcall, op_jmp,
  op_test, op_testset, op_lfalseskip,
}
use compiled_lua.Opt.TypeInfer.Flow.{
  Inst, max_pc, index_insts, target, within, to_target, successors, next_of,
}

abbrev Indexes : ℕ → List (Option ℕ) → Type 0
Indexes n idxof = (c t : ℕ) → get_or idxof c none ≡ some t → t < n

set-Indexes :
    (n : ℕ) (idxof : List (Option ℕ)) (o : Option ℕ) (i : ℕ)
    → i < n
    → Indexes n idxof
    → Indexes n (elim o [ none ↦ idxof | some pc ↦ set idxof pc (some i) ])
set-Indexes n idxof none i lt h = h
set-Indexes n idxof (some pc) i lt h = λ c t e. elim (get_or-set_cases idxof pc c (some i) none) [
  | inl old ↦ h c t (sym old ∙ e)
  | inr (_, new) ↦ (let same : i ≡ t = cc (sym new ∙ e) in omega (arith, same, lt))
]

index_insts-Indexes :
    (n i : ℕ) (xs : List Inst) (idxof : List (Option ℕ))
    → i + length xs ≤ n
    → Indexes n idxof
    → Indexes n (index_insts i xs idxof)
unfolding index_insts
index_insts-Indexes n i [] idxof room h = h
index_insts-Indexes n i (x ∷ xs) idxof room h =
    index_insts-Indexes n (i + 1) xs (elim x.pc [ none ↦ idxof | some pc ↦ set idxof pc (some i) ])
      (omega arith) (set-Indexes n idxof x.pc i (omega arith) h)

target-lt : (insts : List Inst) (c t : ℕ) → target insts c ≡ some t → t < length insts
unfolding target
target-lt insts c t h = elim (Bool-cases (leb c (max_pc insts 0))) [
  | inl within_code ↦
      index_insts-Indexes (length insts) 0 insts (replicate (max_pc insts 0 + 2) none) (omega arith)
        (λ k u e. absurd (cc (sym (get_or-replicate (max_pc insts 0 + 2) k none) ∙ e))) c t
        (rw within_code at h)
  | inr outside ↦ absurd (cc (rw outside at h))
]

within-lt : (n k j : ℕ) → In j (within n k) → j < n
within-lt n k j h = elim (Bool-cases (ltb k n)) [
  | inl lt ↦ elim (rw lt at h) [
    | inl e ↦ omega (arith, e, ltb→lt k n lt)
    | inr none_in ↦ absurd none_in
  ]
  | inr out ↦ absurd (rw out at h)
]

-- What holds of every element of two lists holds of their concatenation.
append-lt :
    (n j : ℕ) (xs ys : List ℕ) → (In j xs → j < n) → (In j ys → j < n) → In j (xs ++ ys) → j < n
append-lt n j [] ys f g h = g h
append-lt n j (x ∷ xs) ys f g (inl e) = f (inl e)
append-lt n j (x ∷ xs) ys f g (inr h) = append-lt n j xs ys (λ k. f (inr k)) g h

to_target-lt :
    (n j : ℕ) (t : Option ℕ) → ((u : ℕ) → t ≡ some u → u < n) → In j (to_target t) → j < n
to_target-lt n j none ok h = absurd h
to_target-lt n j (some u) ok (inl e) = omega (arith, e, ok u refl)
to_target-lt n j (some u) ok (inr h) = absurd h

branch-lt :
    (n i j : ℕ) (t : Option ℕ)
    → ((u : ℕ) → t ≡ some u → u < n)
    → In j (to_target t ++ within n (i + 1))
    → j < n
branch-lt n i j t ok =
    append-lt n j (to_target t) (within n (i + 1)) (to_target-lt n j t ok) (within-lt n (i + 1) j)

skip-lt : (n i j : ℕ) → In j (within n (i + 1) ++ within n (i + 2)) → j < n
skip-lt n i j =
    append-lt n j (within n (i + 1)) (within n (i + 2)) (within-lt n (i + 1) j)
      (within-lt n (i + 2) j)

successors-lt :
    (n i j : ℕ) (t : Option ℕ)
    → ((u : ℕ) → t ≡ some u → u < n)
    → (op : OpCode) → In j (successors n i t op)
    → j < n
unfolding successors
successors-lt n i j t ok op_return h = absurd h
successors-lt n i j t ok op_return0 h = absurd h
successors-lt n i j t ok op_return1 h = absurd h
successors-lt n i j t ok op_tailcall h = absurd h
successors-lt n i j t ok op_jmp h = to_target-lt n j t ok h
successors-lt n i j t ok op_forloop h = branch-lt n i j t ok h
successors-lt n i j t ok op_forprep h = branch-lt n i j t ok h
successors-lt n i j t ok op_tforloop h = branch-lt n i j t ok h
successors-lt n i j t ok op_tforprep h = branch-lt n i j t ok h
successors-lt n i j t ok op_eq h = skip-lt n i j h
successors-lt n i j t ok op_lt h = skip-lt n i j h
successors-lt n i j t ok op_le h = skip-lt n i j h
successors-lt n i j t ok op_eqk h = skip-lt n i j h
successors-lt n i j t ok op_eqi h = skip-lt n i j h
successors-lt n i j t ok op_lti h = skip-lt n i j h
successors-lt n i j t ok op_lei h = skip-lt n i j h
successors-lt n i j t ok op_gti h = skip-lt n i j h
successors-lt n i j t ok op_gei h = skip-lt n i j h
successors-lt n i j t ok op_test h = skip-lt n i j h
successors-lt n i j t ok op_testset h = skip-lt n i j h
successors-lt n i j t ok op_lfalseskip h = within-lt n (i + 2) j h
successors-lt n i j t ok _ h = within-lt n (i + 1) j h

-- Each successor of an instruction, wherever it branches to, is the index of an instruction.
pub next_of-lt :
    (insts : List Inst) (i j : ℕ) (x : Inst) → In j (next_of insts i x) → j < length insts
next_of-lt insts i j x h =
    successors-lt (length insts) i j (target insts x.inst.c) (target-lt insts x.inst.c) x.inst.op h
