-- ===== src/Response/Ending.antt =====
-- Splitting a response file ends: `tokenize` of clua/src/driver/argexpand.c.
use compiled_lua.Common.{ℕ, zero, suc, ◌≤◌, ◌<◌}
use compiled_lua.Common.{◌≡◌, refl, inl, inr, Bool, true, false, ◌||◌}
use compiled_lua.Common.{Option, none, some, List, [], ◌∷◌, arith}
use compiled_lua.Common.{◌==◌, if◌then◌else◌, Bool-cases}
use compiled_lua.Common.{length}
use compiled_lua.Response.{
  Args, Expanded, done, failed, unfinished, is_space, skip_space, skip_line, bare, quoted, unescape,
  first_of, tail_of, enter, tokenize,
}

skip_space-shorter : (cs : List ℕ) → length (skip_space cs) ≤ length cs
unfolding skip_space
skip_space-shorter [] = omega arith
skip_space-shorter (c ∷ cs) = ground (arith, skip_space-shorter cs)

skip_space-stops : (cs : List ℕ) (c : ℕ) (ds : List ℕ) → skip_space cs ≡ c ∷ ds → is_space c ≡ false
unfolding skip_space
skip_space-stops [] c ds h = cc
skip_space-stops (b ∷ cs) c ds h = elim (Bool-cases (is_space b)) [
  | inl space ↦ skip_space-stops cs c ds (ground arith)
  | inr other ↦ ground arith
]

skip_line-shorter : (cs : List ℕ) → length (skip_line cs) ≤ length cs
unfolding skip_line
skip_line-shorter [] = omega arith
skip_line-shorter (c ∷ cs) = ground (arith, skip_line-shorter cs)

skip_line-comment :
    (c : ℕ) (cs : List ℕ) → (c == 35) ≡ true → length (skip_line (c ∷ cs)) ≤ length cs
unfolding skip_line
skip_line-comment c cs h =
    let other : (c == 10) ≡ false = ground arith in rw other (skip_line-shorter cs)

bare-shorter : (cs : List ℕ) → length (bare cs).1 ≤ length cs
unfolding bare
bare-shorter [] = omega arith
bare-shorter (c ∷ cs) = elim (Bool-cases (is_space c)) [
  | inl space ↦ rw space (omega arith)
  | inr other ↦ rw other (omega (arith, bare-shorter cs))
]

bare-later : (c : ℕ) (cs : List ℕ) → is_space c ≡ false → length (bare (c ∷ cs)).1 ≤ length cs
unfolding bare
bare-later c cs other = rw other (bare-shorter cs)

quoted-shorter : (q : ℕ) (cs : List ℕ) → length (quoted q cs).1 ≤ length cs
unfolding quoted
quoted-shorter q [] = omega arith
quoted-shorter q (c ∷ []) = elim (Bool-cases (c == q)) [
  | inl close ↦ rw close (omega arith)
  | inr other ↦ rw other (omega arith)
]
quoted-shorter q (c ∷ d ∷ cs) = elim (Bool-cases (c == q)) [
  | inl close ↦ rw close (omega arith)
  | inr other ↦ elim (Bool-cases (c == 92)) [
    | inl slash ↦ rw (other, slash) (omega (arith, quoted-shorter q cs))
    | inr plain ↦ rw (other, plain) (omega (arith, quoted-shorter q (d ∷ cs)))
  ]
]

tail_of-shorter : (cs : List ℕ) → length (tail_of cs) ≤ length cs
tail_of-shorter [] = omega arith
tail_of-shorter (c ∷ cs) = omega arith

-- A property of both branches.
if_both : (P : Expanded → Type 0) {x y : Expanded} (b : Bool) → P x → P y → P (if b then x else y)
if_both P true p q = p
if_both P false p q = q

abbrev pub Ends : Expanded → Type 0
Ends (done v) = Unit
Ends failed = Unit
Ends unfinished = ⊥

module _ (alloc : ℕ → Bool) where
  enter-Ends :
      (n : ℕ) (rest : List ℕ) (o : Option Args)
      → ((v : Args) → Ends (tokenize alloc n rest v))
      → Ends elim o [ none ↦ failed | some w ↦ tokenize alloc n rest w ]
  enter-Ends n rest none h = tt
  enter-Ends n rest (some w) h = h w

  -- One token, where shorter texts are known to come to an end.
  token-Ends :
      (n : ℕ) (ds : List ℕ) (v : Args)
      → length ds ≤ n
      → ((c : ℕ) (es : List ℕ) → ds ≡ c ∷ es → is_space c ≡ false)
      → ((es : List ℕ) (w : Args) → length es < n → Ends (tokenize alloc n es w))
      → Ends elim ds [
        | [] ↦ done v
        | c ∷ es ↦
            if c == 35
            then tokenize alloc n (skip_line (c ∷ es)) v
            else if c == 34 || c == 39
            then (elim (enter alloc (unescape c (first_of (quoted c es).1) (quoted c es).0) v) [
              | none ↦ failed
              | some w ↦ tokenize alloc n (tail_of (quoted c es).1) w
            ])
            else (elim (enter alloc (bare (c ∷ es)).0 v) [
              | none ↦ failed
              | some w ↦ tokenize alloc n (bare (c ∷ es)).1 w
            ])
      ]
  token-Ends n [] v h head rest = tt
  token-Ends n (c ∷ es) v h head rest =
      let span = quoted-shorter c es in
      let behind = tail_of-shorter (quoted c es).1 in
      let word = bare-later c es (head c es refl) in
      elim (Bool-cases (c == 35)) [
        | inl comment ↦
            rw comment
              (rest (skip_line (c ∷ es)) v (omega (arith, h, skip_line-comment c es comment)))
        | inr other ↦ rw other (
            if_both Ends (c == 34 || c == 39)
              (enter-Ends n (tail_of (quoted c es).1)
                (enter alloc (unescape c (first_of (quoted c es).1) (quoted c es).0) v)
                (λ w. rest _ w (omega (arith, h, span, behind))))
              (enter-Ends n (bare (c ∷ es)).1 (enter alloc (bare (c ∷ es)).0 v)
                (λ w. rest _ w (omega (arith, h, word)))))
      ]

  -- For every text, with more rounds than characters, and whatever memory there is, `tokenize`
  -- comes to an end.
  pub tokenize-Ends :
      (n : ℕ) (cs : List ℕ) (v : Args) → length cs < n → Ends (tokenize alloc n cs v)
  unfolding tokenize
  tokenize-Ends zero cs v h = elim h [ ]
  tokenize-Ends (suc n) cs v h =
      token-Ends n (skip_space cs) v (omega (arith, h, skip_space-shorter cs)) (skip_space-stops cs)
        (tokenize-Ends n)
