-- ===== src/Ctype/Types/Again.antt =====
-- The second registration of a name.
use compiled_lua.Common.{ℕ, ◌<◌}
use compiled_lua.Common.{◌≡◌, refl, sym, ap, ◌∙◌, ◌≢◌, inl, inr, true, false}
use compiled_lua.Common.{arith}
use compiled_lua.Common.{ℕ_discrete, ◌==◌, Bool-cases}
use compiled_lua.Common.{length, get_or-set_self, get_or-set_ne}
use compiled_lua.Ctype.{CType, Store, Kind, same_kind, zeroed, type_at}
use compiled_lua.Ctype.Types.{register_again, is_stub, complete_stub, compatible}

-- The objects `e` and `t` agree in what a layout needs.
abbrev pub Agrees : CType → CType → Type 0
Agrees old new =
    (same_kind old.kind new.kind ≡ true) × (old.size ≡ new.size) × (old.align ≡ new.align)

pub same_kind_refl : (k : Kind) → same_kind k k ≡ true
same_kind_refl k = ground arith

module _ (s : Store) (e t : ℕ) (differ : e ≢ t) (e_in : e < length s.types)
    (t_in : t < length s.types) where
  complete_stub-size : ((type_at (complete_stub s e t) e).size ≡ (type_at s t).size)
  unfolding complete_stub
  complete_stub-size =
      ap (λ c. c.size)
        (get_or-set_ne _ t e _ zeroed (λ h. differ (sym h))
          ∙ get_or-set_self s.types e _ zeroed e_in)

  complete_stub-align : ((type_at (complete_stub s e t) e).align ≡ (type_at s t).align)
  unfolding complete_stub
  complete_stub-align =
      ap (λ c. c.align)
        (get_or-set_ne _ t e _ zeroed (λ h. differ (sym h))
          ∙ get_or-set_self s.types e _ zeroed e_in)

  complete_stub-kind : ((type_at (complete_stub s e t) e).kind ≡ (type_at s e).kind)
  unfolding complete_stub
  complete_stub-kind =
      ap (λ c. c.kind)
        (get_or-set_ne _ t e _ zeroed (λ h. differ (sym h))
          ∙ get_or-set_self s.types e _ zeroed e_in)

-- What a second registration of a name does: it changes no name, and where it succeeds the
-- type that the name has agrees with the new one.
pub register_again_lem :
    (s : Store) (e t : ℕ)
    → e < length s.types
    → t < length s.types
    → ((register_again s e t).0.slots ≡ s.slots)
      × ((register_again s e t).1 ≡ true
          → Agrees (type_at (register_again s e t).0 e) (type_at s t))
register_again_lem s e t e_in t_in = elim (ℕ_discrete e t) [
  | yes same ↦
      let test : (e == t) ≡ true = ground arith in
      let out : register_again s e t ≡ (s, true) = unfold register_again in rw test refl in
      rw (out, same) (refl, λ h. (same_kind_refl _, refl, refl))
  | no differ ↦
      let test : (e == t) ≡ false = ground arith in
      elim (Bool-cases (is_stub (type_at s e) (type_at s t))) [
        | inl stub ↦
            let out : register_again s e t ≡ (complete_stub s e t, true) =
              unfold register_again in rw (test, stub) refl in
            let kind : same_kind (type_at s e).kind (type_at s t).kind ≡ true =
              unfold is_stub in ground arith in
            rw out (
              unfold complete_stub in refl,
              λ h. (
                rw (complete_stub-kind s e t differ e_in t_in) kind,
                complete_stub-size s e t differ e_in t_in,
                complete_stub-align s e t differ e_in t_in,
              ),
            )
        | inr full_type ↦
            let out : register_again s e t ≡ (s, compatible (type_at s e) (type_at s t)) =
              unfold register_again in rw (test, full_type) refl in
            rw out (
              refl,
              λ h. (
                unfold compatible in ground arith,
                unfold compatible in ground arith,
                unfold compatible in ground arith,
              ),
            )
      ]
]
