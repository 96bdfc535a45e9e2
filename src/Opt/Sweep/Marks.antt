-- ===== src/Opt/Sweep/Marks.antt =====
-- What waking one function changes of the flags.
use compiled_lua.Common.{ℕ, zero, suc}
use compiled_lua.Common.{◌≡◌, refl, ap, true, false}
use compiled_lua.Common.{none, some, [], ◌∷◌, arith}
use compiled_lua.Common.{◌==◌, if◌then◌else◌}
use compiled_lua.Opt.Sweep.{Flags, is_dead, is_live, set_live, count_dead, present}

pub dead-set_live :
    (fl : Flags) (t v : ℕ) → is_dead (set_live fl t) v ≡ (if v == t then false else is_dead fl v)
unfolding is_dead set_live
dead-set_live [] t v = ground arith
dead-set_live (none ∷ fl) zero zero = refl
dead-set_live (some d ∷ fl) zero zero = refl
dead-set_live (none ∷ fl) zero (suc v) = ground arith
dead-set_live (some d ∷ fl) zero (suc v) = ground arith
dead-set_live (none ∷ fl) (suc t) zero = ground arith
dead-set_live (some d ∷ fl) (suc t) zero = ground arith
dead-set_live (x ∷ fl) (suc t) (suc v) = ground (arith, dead-set_live fl t v)

pub live-set_live :
    (fl : Flags) (t v : ℕ)
    → is_dead fl t ≡ true
    → is_live (set_live fl t) v ≡ (if v == t then true else is_live fl v)
unfolding is_dead is_live set_live
live-set_live [] t v h = cc
live-set_live (none ∷ fl) zero v h = cc
live-set_live (some d ∷ fl) zero zero h = refl
live-set_live (some d ∷ fl) zero (suc v) h = ground arith
live-set_live (none ∷ fl) (suc t) zero h = ground arith
live-set_live (some d ∷ fl) (suc t) zero h = ground arith
live-set_live (x ∷ fl) (suc t) (suc v) h = ground (arith, live-set_live fl t v h)

pub count-set_live :
    (fl : Flags) (t : ℕ) → is_dead fl t ≡ true → suc (count_dead (set_live fl t)) ≡ count_dead fl
unfolding is_dead set_live count_dead
count-set_live [] t h = cc
count-set_live (none ∷ fl) zero h = cc
count-set_live (some true ∷ fl) zero h = refl
count-set_live (some false ∷ fl) zero h = cc
count-set_live (none ∷ fl) (suc t) h = count-set_live fl t h
count-set_live (some true ∷ fl) (suc t) h = ap suc (count-set_live fl t h)
count-set_live (some false ∷ fl) (suc t) h = count-set_live fl t h

pub present-set_live : (fl : Flags) (t v : ℕ) → present (set_live fl t) v ≡ present fl v
unfolding present set_live
present-set_live [] t v = refl
present-set_live (none ∷ fl) zero v = refl
present-set_live (some d ∷ fl) zero zero = refl
present-set_live (some d ∷ fl) zero (suc v) = refl
present-set_live (none ∷ fl) (suc t) zero = refl
present-set_live (some d ∷ fl) (suc t) zero = refl
present-set_live (none ∷ fl) (suc t) (suc v) = present-set_live fl t v
present-set_live (some d ∷ fl) (suc t) (suc v) = present-set_live fl t v

pub not_dead_of_live : (fl : Flags) (v : ℕ) → is_live fl v ≡ true → is_dead fl v ≡ false
unfolding is_dead is_live
not_dead_of_live [] v h = refl
not_dead_of_live (none ∷ fl) zero h = refl
not_dead_of_live (some d ∷ fl) zero h = ground arith
not_dead_of_live (none ∷ fl) (suc v) h = not_dead_of_live fl v h
not_dead_of_live (some d ∷ fl) (suc v) h = not_dead_of_live fl v h

pub live_of_present :
    (fl : Flags) (v : ℕ) → present fl v ≡ true → is_dead fl v ≡ false → is_live fl v ≡ true
unfolding present is_dead is_live
live_of_present [] v p d = cc
live_of_present (none ∷ fl) zero p d = cc
live_of_present (some x ∷ fl) zero p d = ground arith
live_of_present (none ∷ fl) (suc v) p d = live_of_present fl v p d
live_of_present (some x ∷ fl) (suc v) p d = live_of_present fl v p d

pub present_of_live : (fl : Flags) (v : ℕ) → is_live fl v ≡ true → present fl v ≡ true
unfolding present is_live
present_of_live [] v h = cc
present_of_live (none ∷ fl) zero h = cc
present_of_live (some x ∷ fl) zero h = refl
present_of_live (none ∷ fl) (suc v) h = present_of_live fl v h
present_of_live (some x ∷ fl) (suc v) h = present_of_live fl v h
