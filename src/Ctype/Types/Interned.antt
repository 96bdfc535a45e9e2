-- ===== src/Ctype/Types/Interned.antt =====
-- clua/src/ffi/ctype.c, `Ctype_PointerTo`: repeated requests.
use compiled_lua.Common.{ℕ, ◌*◌, ◌≤◌, ◌<◌}
use compiled_lua.Common.{◌≡◌, refl, sym, ap, ◌∙◌, ◌⊎◌, inl, inr, Bool}
use compiled_lua.Common.{Option, none, some, [], ◌∷◌, ◌++◌, arith}
use compiled_lua.Common.{leb, Bool-cases, Option-cases}
use compiled_lua.Common.{length, set, length-append, length-set, get_or-set_self}
use compiled_lua.Ctype.{Store, ctype_table_max, zeroed, type_at}
use compiled_lua.Ctype.Types.{ctype_new, intern, ctype_pointer_to}

intern_lem :
    (elem : ℕ) (r : Store × Option ℕ)
    → elem < length r.0.types
    → ((intern elem r).1 ≡ none)
      ⊎ ((p : ℕ) × ((intern elem r).1 ≡ some p)
          × ((type_at (intern elem r).0 elem).ptr_to ≡ some p))
unfolding intern
intern_lem elem (s, none) h = inl refl
intern_lem elem (s, some p) h =
    let inside : elem < length (set s.types p _) = omega (arith, length-set s.types p _) in
    inr (p, refl, ap (λ c. c.ptr_to) (get_or-set_self (set s.types p _) elem _ zeroed inside))

length-ctype_new :
    (alloc : ℕ → Bool) (s : Store) → length s.types ≤ length (ctype_new alloc s).0.types
length-ctype_new alloc s = elim (Bool-cases (leb (ctype_table_max * 2) (length s.types))) [
  | inl full ↦
      let out : ctype_new alloc s ≡ (s, none) = unfold ctype_new in rw (full, ctype_new) refl in
      rw out (omega arith)
  | inr room ↦ elim (Bool-cases (alloc s.allocs)) [
    | inl granted ↦
        let out : (ctype_new alloc s).0.types ≡ s.types ++ zeroed ∷ [] =
          unfold ctype_new in rw (room, granted, ctype_new) refl in
        rw out (omega (arith, length-append s.types (zeroed ∷ [])))
    | inr refused ↦
        let out : (ctype_new alloc s).0.types ≡ s.types =
          unfold ctype_new in rw (room, refused, ctype_new) refl in
        rw out (omega arith)
  ]
]

-- A request for the pointer type to a type that exists either gets none, where a new type is
-- refused, or gets what any further request for it then gets, which changes nothing.
pub ctype_pointer_to_lem :
    (alloc : ℕ → Bool) (s : Store) (elem : ℕ)
    → elem < length s.types
    → let r = ctype_pointer_to alloc s (some elem) in
      (r.1 ≡ none) ⊎ (ctype_pointer_to alloc r.0 (some elem) ≡ r)
ctype_pointer_to_lem alloc s elem inside =
    let made = intern elem (ctype_new alloc s) in
    elim (Option-cases (type_at s elem).ptr_to) [
      | inl unseen ↦
          let out : ctype_pointer_to alloc s (some elem) ≡ made =
            unfold ctype_pointer_to in rw (unseen, ctype_pointer_to) refl in
          elim (intern_lem elem (ctype_new alloc s) (omega (arith, length-ctype_new alloc s))) [
            | inl refused ↦ inl (ap (λ q. q.1) out ∙ refused)
            | inr (p, is, ptr) ↦
                let again : ctype_pointer_to alloc made.0 (some elem) ≡ (made.0, some p) =
                  unfold ctype_pointer_to in rw (ptr, ctype_pointer_to) refl in
                inr (
                  ap (λ q. ctype_pointer_to alloc q.0 (some elem)) out
                  ∙ again
                  ∙ ap (λ o. (made.0, o)) (sym is)
                  ∙ sym out)
          ]
      | inr (p, seen) ↦
          let out : ctype_pointer_to alloc s (some elem) ≡ (s, some p) =
            unfold ctype_pointer_to in rw (seen, ctype_pointer_to) refl in
          inr (ap (λ q. ctype_pointer_to alloc q.0 (some elem)) out)
    ]
