-- ===== src/Opt/TypeInfer/Annotate/Sound.antt =====
-- clua/src/opt/passes.c, `ti_run`: a type noted at an instruction is the type on every path to it.
use compiled_lua.Common.{both, either}
use compiled_lua.Common.{ℕ, zero, suc, ◌+◌}
use compiled_lua.Common.{◌≡◌, refl, sym, ◌⊎◌, inl, inr, Bool, true, false, ◌&&◌, ◌||◌}
use compiled_lua.Common.{Option, none, some, List, [], ◌∷◌, arith}
use compiled_lua.Common.{Bool-cases}
use compiled_lua.Common.{get_elem?, get_or}
use mathlib.Core.Path.{subst}
use compiled_lua.Opt.TypeInfer.{Ti, State, TiInst, OpCode, ti_reg, ti_int, ti_flt, op_forloop}
use compiled_lua.Opt.TypeInfer.Order.{Le, LeState, unk_le, same, nil, cons, reg-Le}
use compiled_lua.Opt.TypeInfer.Flow.{Inst, row, target}
use compiled_lua.Opt.TypeInfer.Flow.Settled.{ti_same-eq}
use compiled_lua.Opt.TypeInfer.Annotate.{
  operands, holds, mark, entry_mask, target_mask, mark_loop, annotate_op, annotate,
}

-- Operand `o` is a register of the type `t`.
pub data HasType (s : State) (t : Ti) : Option ℕ → Type 0 where
  reads : {o : ℕ} → ti_reg s o ≡ t → HasType s t (some o)

-- The loop of `x` has an integer index and an integer step.
pub record IntLoop (x : TiInst) (s : State) : Type 0 where
  pub loop : x.op ≡ op_forloop
  pub index : ti_reg s x.a ≡ ti_int
  pub stride : ti_reg s (x.a + 2) ≡ ti_int

abbrev pub first_operand : TiInst → Option ℕ
first_operand x = (operands x.op x).0

abbrev pub second_operand : TiInst → Option ℕ
second_operand x = (operands x.op x).1

module _ (insts : List Inst) (At : ℕ → State → Type 0) where
  -- A new mask has the slots that have the type `t` wherever the branch of `x` goes to.
  abbrev pub EntryMask : Ti → Inst → List Bool → List Bool → Type 0
  EntryMask t x old new =
      (new ≡ old)
      ⊎ ((j k : ℕ) (s : State)
          → target insts x.inst.c ≡ some j
          → At j s
          → get_or new k false ≡ true
          → ti_reg s k ≡ t)

  -- `y` is what `x` becomes, and in the state `s` each new bit of `known` says what is so.
  pub record Sound (s : State) (x y : Inst) : Type 0 where
    pub inst : y.inst ≡ x.inst
    pub b_int :
        y.known.b_int ≡ true
        → (x.known.b_int ≡ true) ⊎ (HasType s ti_int (first_operand x.inst) ⊎ IntLoop x.inst s)
    pub c_int :
        y.known.c_int ≡ true → (x.known.c_int ≡ true) ⊎ HasType s ti_int (second_operand x.inst)
    pub b_flt :
        y.known.b_flt ≡ true → (x.known.b_flt ≡ true) ⊎ HasType s ti_flt (first_operand x.inst)
    pub c_flt :
        y.known.c_flt ≡ true → (x.known.c_flt ≡ true) ⊎ HasType s ti_flt (second_operand x.inst)
    pub entry_int : EntryMask ti_int x x.res_entry_int y.res_entry_int
    pub entry_flt : EntryMask ti_flt x x.res_entry_flt y.res_entry_flt

-- A type below which only TI_UNK and itself are
data Number : Ti → Type 0 where
  integer : Number ti_int
  float : Number ti_flt

Number-Le : {a b t : Ti} → Number t → Le a b → a ≡ t → b ≡ t
Number-Le integer unk_le e = cc e
Number-Le float unk_le e = cc e
Number-Le k same e = e

holds-HasType :
    {sin s : State} {t : Ti}
    → Number t
    → LeState sin s
    → (o : Option ℕ) → holds sin t o ≡ true
    → HasType s t o
holds-HasType k le none h = cc h
holds-HasType {sin} {t} k le (some o) h =
    reads (Number-Le k (reg-Le le o) (ti_same-eq (ti_reg sin o) t h))

-- A bit that `mark` sets
bit-HasType :
    {sin s : State} {t : Ti}
    → Number t
    → LeState sin s
    → (old : Bool) (o : Option ℕ) → (old || holds sin t o) ≡ true
    → (old ≡ true) ⊎ HasType s t o
bit-HasType {sin} {t} k le old o h = elim (either old (holds sin t o) h) [
  | inl was ↦ inl was
  | inr now ↦ inr (holds-HasType k le o now)
]

entry_mask-reg :
    {sin s : State} {t : Ti}
    → Number t
    → LeState sin s
    → (lim k : ℕ) → get_or (entry_mask lim t sin) k false ≡ true
    → ti_reg s k ≡ t
unfolding entry_mask
entry_mask-reg n le zero k h = cc h
entry_mask-reg n nil (suc lim) k h = cc h
entry_mask-reg {sin = x ∷ sin} {t} n (cons l le) (suc lim) zero h = Number-Le n l (ti_same-eq x t h)
entry_mask-reg n (cons l le) (suc lim) (suc k) h = entry_mask-reg n le lim k h

pub unmarked-Sound :
    (insts : List Inst) (At : ℕ → State → Type 0) (s : State) (x : Inst) → Sound insts At s x x
unmarked-Sound insts At s x = record {
  inst = refl;
  b_int = λ h. inl h;
  c_int = λ h. inl h;
  b_flt = λ h. inl h;
  c_flt = λ h. inl h;
  entry_int = inl refl;
  entry_flt = inl refl;
}

module _ (insts : List Inst) (st : List State) (At : ℕ → State → Type 0)
    (below : (j : ℕ) (s : State) → At j s → LeState (row st j) s) where
  target_mask-reg :
      {t : Ti}
      → Number t
      → (to : Option ℕ) (j k : ℕ) (s : State) → to ≡ some j
      → At j s
      → get_or (target_mask t st to) k false ≡ true
      → ti_reg s k ≡ t
  target_mask-reg n none j k s e here h = cc e
  target_mask-reg {t} n (some i) j k s e here h =
      let same_place : i ≡ j = cc e in
      let le = subst (λ m. LeState (row st m) s) (sym same_place) (below j s here) in
      entry_mask-reg n le 64 k h

  mark-Sound :
      {sin s : State} (x : Inst)
      → LeState sin s
      → Sound insts At s x (record x { known = mark sin (operands x.inst.op x.inst) x.known })
  unfolding mark
  mark-Sound {sin} {s} x le =
      let (o1, o2) = operands x.inst.op x.inst in
      record {
        inst = refl;
        b_int = λ h. elim (bit-HasType integer le x.known.b_int o1 h) [
          | inl was ↦ inl was
          | inr now ↦ inr (inl now)
        ];
        c_int = λ h. bit-HasType integer le x.known.c_int o2 h;
        b_flt = λ h. bit-HasType float le x.known.b_flt o1 h;
        c_flt = λ h. bit-HasType float le x.known.c_flt o2 h;
        entry_int = inl refl;
        entry_flt = inl refl;
      }

  mark_op-Sound :
      {sin s : State} (x : Inst) (op : OpCode)
      → x.inst.op ≡ op
      → LeState sin s
      → Sound insts At s x (record x { known = mark sin (operands op x.inst) x.known })
  mark_op-Sound {sin} {s} x op e le =
      subst (λ o. Sound insts At s x (record x { known = mark sin (operands o x.inst) x.known })) e
        (mark-Sound x le)

  marked_loop-Sound :
      {s : State} (x : Inst)
      → IntLoop x.inst s
      → Sound insts At s x (record x {
        known = record x.known { b_int = true };
        res_entry_int = target_mask ti_int st (target insts x.inst.c);
        res_entry_flt = target_mask ti_flt st (target insts x.inst.c);
      })
  marked_loop-Sound x loop = record {
    inst = refl;
    b_int = λ h. inr (inr loop);
    c_int = λ h. inl h;
    b_flt = λ h. inl h;
    c_flt = λ h. inl h;
    entry_int = inr (target_mask-reg integer (target insts x.inst.c));
    entry_flt = inr (target_mask-reg float (target insts x.inst.c));
  }

  mark_loop-Sound :
      {sin s : State} (x : Inst)
      → x.inst.op ≡ op_forloop
      → LeState sin s
      → Sound insts At s x (mark_loop st insts sin x)
  unfolding mark_loop
  mark_loop-Sound {sin} {s} x e le =
      let index = holds sin ti_int (some x.inst.a) in
      let stride = holds sin ti_int (some (x.inst.a + 2)) in
      elim (Bool-cases (index && stride)) [
        | inl yes_loop ↦
            let (i, j) = both index stride yes_loop in
            rw yes_loop (
              marked_loop-Sound x (record {
                loop = e;
                index =
                    Number-Le integer (reg-Le le x.inst.a)
                      (ti_same-eq (ti_reg sin x.inst.a) ti_int i);
                stride =
                    Number-Le integer (reg-Le le (x.inst.a + 2))
                      (ti_same-eq (ti_reg sin (x.inst.a + 2)) ti_int j);
              }))
        | inr no_loop ↦ rw no_loop (unmarked-Sound insts At s x)
      ]

  pub annotate_op-Sound :
      {sin s : State} (x : Inst) (op : OpCode)
      → x.inst.op ≡ op
      → LeState sin s
      → Sound insts At s x (annotate_op st insts sin op x)
  annotate_op-Sound x op_forloop e le = mark_loop-Sound x e le
  annotate_op-Sound x op e le = mark_op-Sound x op e le

  pub annotate-get_elem? :
      (rest : List Inst) (i k : ℕ) {x : Inst}
      → get_elem? rest k ≡ some x
      → get_elem? (annotate st insts i rest) k
        ≡ some (annotate_op st insts (row st (i + k)) x.inst.op x)
  unfolding annotate
  annotate-get_elem? [] i k h = cc h
  annotate-get_elem? (y ∷ rest) i zero {x} h =
      let place : i + 0 ≡ i = omega arith in
      let same_inst : y ≡ x = cc h in rw (place, ← same_inst) refl
  annotate-get_elem? (y ∷ rest) i (suc k) h =
      let place : i + suc k ≡ i + 1 + k = omega arith in
      rw place (annotate-get_elem? rest (i + 1) k h)
