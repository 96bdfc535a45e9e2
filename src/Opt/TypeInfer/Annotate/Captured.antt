-- ===== src/Opt/TypeInfer/Annotate/Captured.antt =====
-- clua/src/opt/passes.c, `ti_run`: a register that a nested function holds as an open upvalue.
use compiled_lua.Common.{ℕ, zero, suc, ◌<◌}
use compiled_lua.Common.{◌≡◌, refl, ◌∙◌, inl, inr, Bool, true, false, ◌&&◌}
use compiled_lua.Common.{Option, none, some, List, [], ◌∷◌, arith}
use compiled_lua.Common.{ltb, if◌then◌else◌, lt→ltb}
use compiled_lua.Common.{
  length, get_elem?, set, length-set, get_or, replicate, length-replicate, get_or-set_self,
}
use compiled_lua.Common.{get_or-set_cases}
use compiled_lua.Opt.Sweep.{In}
use compiled_lua.Opt.TypeInfer.{Ti, State, OpCode, ti_reg, ti_unk, op_closure}
use compiled_lua.Opt.TypeInfer.Order.{Le, unk_le, same, reg-Le}
use compiled_lua.Opt.TypeInfer.Flow.{
  Upvalue, Inst, Source, row, forget, out_state, next_of, capture, capture_proto, capture_closure,
  captures,
}
use compiled_lua.Opt.TypeInfer.Flow.Bounds.{next_of-lt}
use compiled_lua.Opt.TypeInfer.Flow.Paths.{next}
use compiled_lua.Opt.TypeInfer.Annotate.{captured_of, ti_states}
use compiled_lua.Opt.TypeInfer.Annotate.Run.{HasTypes, Arrives, ti_states_lem}

abbrev Marked : List Bool → ℕ → Type 0
Marked captured r = get_or captured r false ≡ true

-- Some upvalue is register `r` of the enclosing function.
pub data Holds (r : ℕ) : List Upvalue → Type 0 where
  stacked : {u : Upvalue} {us : List Upvalue} → u.instack ≡ true → u.idx ≡ r → Holds r (u ∷ us)
  later : {u : Upvalue} {us : List Upvalue} → Holds r us → Holds r (u ∷ us)

-- Some instruction makes a closure of a function that holds register `r`.
pub data Captures (p : Source) (r : ℕ) : List Inst → Type 0 where
  closes :
      {x : Inst} {xs : List Inst} {pc bx : ℕ} {us : List Upvalue}
      → x.inst.op ≡ op_closure
      → x.pc ≡ some pc
      → get_elem? p.code pc ≡ some bx
      → get_or p.protos bx none ≡ some us
      → Holds r us
      → Captures p r (x ∷ xs)
  later : {x : Inst} {xs : List Inst} → Captures p r xs → Captures p r (x ∷ xs)

set-Marked : (captured : List Bool) (i r : ℕ) → Marked captured r → Marked (set captured i true) r
set-Marked captured i r h = elim (get_or-set_cases captured i r true false) [
  | inl old ↦ old ∙ h
  | inr (_, new) ↦ new
]

if-Marked :
    (b : Bool) (captured : List Bool) (i r : ℕ)
    → Marked captured r
    → Marked (if b then set captured i true else captured) r
if-Marked true captured i r h = set-Marked captured i r h
if-Marked false captured i r h = h

length-if :
    (b : Bool) (captured : List Bool) (i : ℕ)
    → length (if b then set captured i true else captured) ≡ length captured
length-if true captured i = length-set captured i true
length-if false captured i = refl

capture-Marked :
    (us : List Upvalue) (captured : List Bool) (r : ℕ)
    → Marked captured r
    → Marked (capture us captured) r
unfolding capture
capture-Marked [] captured r h = h
capture-Marked (u ∷ us) captured r h =
    capture-Marked us _ r (if-Marked (u.instack && ltb u.idx (length captured)) captured u.idx r h)

length-capture :
    (us : List Upvalue) (captured : List Bool) → length (capture us captured) ≡ length captured
unfolding capture
length-capture [] captured = refl
length-capture (u ∷ us) captured =
    length-capture us _ ∙ length-if (u.instack && ltb u.idx (length captured)) captured u.idx

here-Marked :
    (b c : Bool) (captured : List Bool) (i r : ℕ)
    → b ≡ true
    → c ≡ true
    → i ≡ r
    → r < length captured
    → Marked (if b && c then set captured i true else captured) r
here-Marked b c captured i r e f place lt =
    rw (e, f, place) (get_or-set_self captured r true false lt)

capture-Holds :
    {r : ℕ} {us : List Upvalue}
    → Holds r us
    → (captured : List Bool) → r < length captured
    → Marked (capture us captured) r
unfolding capture
capture-Holds {r} (stacked {u} {us} stack at) captured lt = capture-Marked us _ r (
    here-Marked u.instack (ltb u.idx (length captured)) captured u.idx r stack
      (lt→ltb u.idx (length captured) (omega (arith, at, lt))) at lt)
capture-Holds {r} (later {u} {us} h) captured lt =
    capture-Holds h _
      (omega (arith, lt, length-if (u.instack && ltb u.idx (length captured)) captured u.idx))

capture_proto_rule {ℓ} :
    (P : List Bool → Type ℓ)
    → ((us : List Upvalue) (c : List Bool) → P c → P (capture us c))
    → (o : Option (List Upvalue)) (c : List Bool) → P c
    → P (capture_proto o c)
capture_proto_rule P keep none c h = h
capture_proto_rule P keep (some us) c h = keep us c h

module _ (p : Source) where
  word_rule {ℓ} :
      (P : List Bool → Type ℓ)
      → ((us : List Upvalue) (c : List Bool) → P c → P (capture us c))
      → (o : Option ℕ) (c : List Bool) → P c
      → P (elim o [ none ↦ c | some bx ↦ capture_proto (get_or p.protos bx none) c ])
  word_rule P keep none c h = h
  word_rule P keep (some bx) c h = capture_proto_rule P keep (get_or p.protos bx none) c h

  -- What marking the upvalues of a function keeps, every instruction keeps.
  closure_rule {ℓ} :
      (P : List Bool → Type ℓ)
      → ((us : List Upvalue) (c : List Bool) → P c → P (capture us c))
      → (op : OpCode) (pc : Option ℕ) (c : List Bool) → P c
      → P (capture_closure p op pc c)
  closure_rule P keep op_closure (some pc) c h = word_rule P keep (get_elem? p.code pc) c h
  closure_rule P keep _ _ c h = h

  captures_rule {ℓ} :
      (P : List Bool → Type ℓ)
      → ((us : List Upvalue) (c : List Bool) → P c → P (capture us c))
      → (xs : List Inst) (c : List Bool) → P c
      → P (captures p xs c)
  unfolding captures
  captures_rule P keep [] c h = h
  captures_rule P keep (x ∷ xs) c h =
      captures_rule P keep xs _ (closure_rule P keep x.inst.op x.pc c h)

  closure-eq :
      {pc bx : ℕ} {us : List Upvalue} (op : OpCode) (at : Option ℕ) (c : List Bool)
      → op ≡ op_closure
      → at ≡ some pc
      → get_elem? p.code pc ≡ some bx
      → get_or p.protos bx none ≡ some us
      → capture_closure p op at c ≡ capture us c
  closure-eq op at c e f g h = rw (e, f) (rw (g, capture_closure) (rw h refl))

  captures-Captures :
      {r : ℕ} {xs : List Inst}
      → Captures p r xs
      → (c : List Bool) → r < length c
      → Marked (captures p xs c) r
  unfolding captures
  captures-Captures {r} (closes {x} {xs} op pc word proto h) c lt =
      captures_rule (λ d. Marked d r) (λ us d m. capture-Marked us d r m) xs _
        (rw (closure-eq x.inst.op x.pc c op pc word proto) (capture-Holds h c lt))
  captures-Captures {r} (Captures.later {x} {xs} h) c lt =
      let kept =
        closure_rule (λ d. length d ≡ length c) (λ us d e. length-capture us d ∙ e) x.inst.op x.pc c
          refl in
      captures-Captures h _ (omega (arith, lt, kept))

forget-Marked : (c : List Bool) (s : State) (r : ℕ) → Marked c r → ti_reg (forget c s) r ≡ ti_unk
unfolding forget
forget-Marked [] s r h = cc h
forget-Marked (b ∷ c) [] r h = refl
forget-Marked (b ∷ c) (x ∷ s) zero h = rw h refl
forget-Marked (b ∷ c) (x ∷ s) (suc r) h = forget-Marked c s r h

Le-unk : {a b : Ti} → Le a b → b ≡ ti_unk → a ≡ ti_unk
Le-unk unk_le e = refl
Le-unk same e = e

out_state-unk :
    (p : Source) (c : List Bool) (x : Inst) (s : State) (r : ℕ)
    → Marked c r
    → ti_reg (out_state p c x s) r ≡ ti_unk
unfolding out_state
out_state-unk p c x s r h = forget-Marked c _ r h

-- A register of the frame that some closure of the function holds as an open upvalue is unknown in
-- the state of every instruction that control comes to from another one, so that no type is noted
-- for it there, whatever the closure does to it.
pub captured_lem :
    (p : Source) (params : Option (List Ti)) (x : Inst) (rest : List Inst) (r : ℕ)
    → HasTypes params
    → Captures p r (x ∷ rest)
    → r < p.maxstacksize
    → (st : List State) × (ti_states p params (x ∷ rest) ≡ some st)
      × ((i j : ℕ) (s : State) (y : Inst)
          → Arrives p params (x ∷ rest) i s
          → get_elem? (x ∷ rest) i ≡ some y
          → In j (next_of (x ∷ rest) i y)
          → ti_reg (row st j) r ≡ ti_unk)
captured_lem p params x rest r types held inside =
    let insts : List Inst = x ∷ rest in
    let (st, ends, below) = ti_states_lem p params x rest types in
    let marked =
      captures-Captures p held (replicate p.maxstacksize false)
        (omega (arith, inside, length-replicate p.maxstacksize false)) in
    (
      st,
      ends,
      λ i j s y here at edge.
          let there : Arrives p params insts j (out_state p (captured_of p insts) y s) =
            (next_of-lt insts i j y edge, next here.1 at edge) in
          Le-unk (reg-Le (below j _ there) r) (out_state-unk p (captured_of p insts) y s r marked),
    )
