-- ===== src/Opt/Sweep/Growth.antt =====
-- What an offer to the worklist, and a scan of offers, keeps and adds.
use compiled_lua.Common.{ℕ, ◌+◌}
use compiled_lua.Common.{◌≡◌, refl, ◌∙◌, ◌⊎◌, inl, inr, true, false}
use compiled_lua.Common.{List, [], ◌∷◌, arith}
use compiled_lua.Common.{Bool-cases}
use compiled_lua.Common.{length}
use compiled_lua.Opt.Sweep.{Sweep, is_dead, is_live, set_live, push, scan, count_dead, In, present}
use compiled_lua.Opt.Sweep.Marks.{dead-set_live, live-set_live, count-set_live, present-set_live}

-- What one offer to the worklist does.
abbrev pub work : Sweep → ℕ
work s = count_dead s.flags + length s.pending

push-work : (s : Sweep) (t : ℕ) → work (push s t) ≡ work s
unfolding push
push-work s t = ground (arith, count-set_live s.flags t)

pub record Grows (s r : Sweep) : Type 0 where
  pub kept_alive : (v : ℕ) → is_dead s.flags v ≡ false → is_dead r.flags v ≡ false
  pub kept_pending : (v : ℕ) → In v s.pending → In v r.pending
  pub new_pending : (v : ℕ) → is_live r.flags v ≡ true → (is_live s.flags v ≡ true) ⊎ In v r.pending
  pub kept_live : (v : ℕ) → is_live s.flags v ≡ true → is_live r.flags v ≡ true
  pub queued_live : (v : ℕ) → In v r.pending → In v s.pending ⊎ (is_live r.flags v ≡ true)
  pub same_work : work r ≡ work s
  pub same_present : (v : ℕ) → present r.flags v ≡ present s.flags v

push-Grows : (s : Sweep) (t : ℕ) → Grows s (push s t)
push-Grows s t = elim (Bool-cases (is_dead s.flags t)) [
  | inl dead ↦
      let e : push s t ≡ record { flags = set_live s.flags t; pending = t ∷ s.pending } =
        unfold push in rw dead in
      rw e (record {
        kept_alive = λ v h. ground (arith, dead-set_live s.flags t v);
        kept_pending = λ v h. inr h;
        new_pending = λ v h. ground (arith, live-set_live s.flags t v dead);
        kept_live = λ v h. ground (arith, live-set_live s.flags t v dead);
        queued_live = λ v h. elim h [
          | inl e ↦ inr (ground (arith, live-set_live s.flags t v dead))
          | inr old ↦ inl old
        ];
        same_work = omega (arith, count-set_live s.flags t dead);
        same_present = present-set_live s.flags t;
      })
  | inr alive ↦
      let e : push s t ≡ s = unfold push in rw alive in
      rw e (record {
        kept_alive = λ v h. h;
        kept_pending = λ v h. h;
        new_pending = λ v h. inl h;
        kept_live = λ v h. h;
        queued_live = λ v h. inl h;
        same_work = refl;
        same_present = λ v. refl;
      })
]

push-target : (s : Sweep) (t : ℕ) → is_dead (push s t).flags t ≡ false
unfolding push
push-target s t = ground (arith, dead-set_live s.flags t t)

-- A function is made live only as the target.
push-live :
    (s : Sweep) (t v : ℕ) → is_live (push s t).flags v ≡ true → (is_live s.flags v ≡ true) ⊎ (v ≡ t)
unfolding push
push-live s t v h = ground (arith, live-set_live s.flags t v)

Grows-trans : (s r q : Sweep) → Grows s r → Grows r q → Grows s q
Grows-trans s r q f g = record {
  kept_alive = λ v h. g.kept_alive v (f.kept_alive v h);
  kept_pending = λ v h. g.kept_pending v (f.kept_pending v h);
  new_pending = λ v h. elim (g.new_pending v h) [
    | inl old ↦ elim (f.new_pending v old) [
      | inl older ↦ inl older
      | inr queued ↦ inr (g.kept_pending v queued)
    ]
    | inr queued ↦ inr queued
  ];
  kept_live = λ v h. g.kept_live v (f.kept_live v h);
  queued_live = λ v h. elim (g.queued_live v h) [
    | inl mid ↦ elim (f.queued_live v mid) [ inl old ↦ inl old | inr l ↦ inr (g.kept_live v l) ]
    | inr l ↦ inr l
  ];
  same_work = g.same_work ∙ f.same_work;
  same_present = λ v. g.same_present v ∙ f.same_present v;
}

pub scan-Grows : (s : Sweep) (ts : List ℕ) → Grows s (scan s ts)
unfolding scan
scan-Grows s [] = record {
  kept_alive = λ v h. h;
  kept_pending = λ v h. h;
  new_pending = λ v h. inl h;
  kept_live = λ v h. h;
  queued_live = λ v h. inl h;
  same_work = refl;
  same_present = λ v. refl;
}
scan-Grows s (t ∷ ts) = Grows-trans s (push s t) _ (push-Grows s t) (scan-Grows (push s t) ts)

pub scan-target : (s : Sweep) (ts : List ℕ) (v : ℕ) → In v ts → is_dead (scan s ts).flags v ≡ false
unfolding scan
scan-target s [] v h = absurd h
scan-target s (t ∷ ts) v (inl e) = (scan-Grows (push s t) ts).kept_alive v (rw e (push-target s t))
scan-target s (t ∷ ts) v (inr h) = scan-target (push s t) ts v h

pub scan-live :
    (s : Sweep) (ts : List ℕ) (v : ℕ)
    → is_live (scan s ts).flags v ≡ true
    → (is_live s.flags v ≡ true) ⊎ In v ts
unfolding scan
scan-live s [] v h = inl h
scan-live s (t ∷ ts) v h = elim (scan-live (push s t) ts v h) [
  | inl old ↦ elim (push-live s t v old) [ inl older ↦ inl older | inr e ↦ inr (inl e) ]
  | inr later ↦ inr (inr later)
]
