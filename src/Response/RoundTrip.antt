-- ===== src/Response/RoundTrip.antt =====
-- Arguments that are quoted in a response file come back: clua/src/driver/argexpand.c.
use compiled_lua.Common.{ℕ, zero, suc, ◌+◌, ◌*◌, ◌<◌}
use compiled_lua.Common.{◌≡◌, refl, sym, ap, ◌∙◌, inl, inr, Bool, true, false, ◌||◌}
use compiled_lua.Common.{Option, some, List, [], ◌∷◌, ◌++◌, append-nil, append_assoc, arith}
use compiled_lua.Common.{◌>>=◌, ◌==◌, if◌then◌else◌, Bool-cases}
use compiled_lua.Common.{length, length-append}
use compiled_lua.Common.Name.{Name}
use compiled_lua.Response.{
  Args, Expanded, done, skip_space, before, quoted, unescape, first_of, tail_of, push, enter,
  tokenize, push_all,
}

-- An argument with a backslash before each quote and backslash.
unfoldable pub escape : Name → List ℕ
escape [] = []
escape (c ∷ cs) = let rest = escape cs in if c == 34 || c == 92 then 92 ∷ c ∷ rest else c ∷ rest

abbrev pub quote : Name → List ℕ
quote a = 34 ∷ (escape a ++ 34 ∷ [])

-- A response file of arguments, one on each line.
unfoldable pub quote_all : List Name → List ℕ
quote_all [] = []
quote_all (a ∷ rest) = quote a ++ 10 ∷ quote_all rest

quoted-plain :
    (c : ℕ) (cs : List ℕ)
    → (c == 34) ≡ false
    → (c == 92) ≡ false
    → 0 < length cs
    → quoted 34 (c ∷ cs) ≡ before c (quoted 34 cs)
unfolding quoted
quoted-plain c [] not_quote not_slash h = elim h [ ]
quoted-plain c (d ∷ cs) not_quote not_slash h = rw (not_quote, not_slash)

-- The span of a quoted argument is its escaped form.
quoted-escape : (a : Name) (r : List ℕ) → quoted 34 (escape a ++ 34 ∷ r) ≡ (escape a, 34 ∷ r)
unfolding escape quoted
quoted-escape [] [] = refl
quoted-escape [] (c ∷ r) = refl
quoted-escape (c ∷ cs) r =
    let ih = quoted-escape cs r in
    elim (Bool-cases (c == 34 || c == 92)) [
      | inl special ↦ rw (special, ih)
      | inr plain ↦
          let not_quote : (c == 34) ≡ false = ground arith in
          let not_slash : (c == 92) ≡ false = ground arith in
          let some_left : 0 < length (escape cs ++ 34 ∷ r) =
            omega (arith, length-append (escape cs) (34 ∷ r)) in
          rw plain
            (quoted-plain c (escape cs ++ 34 ∷ r) not_quote not_slash some_left ∙ ap (before c) ih)
    ]

unescape-plain :
    (c : ℕ) (cs : List ℕ) → (c == 92) ≡ false → unescape 34 34 (c ∷ cs) ≡ c ∷ unescape 34 34 cs
unfolding unescape
unescape-plain c [] h = rw h
unescape-plain c (d ∷ cs) h = rw h

unescape-nil : unescape 34 34 [] ≡ []
unfolding unescape
unescape-nil = refl

unescape-pair :
    (c : ℕ) (cs : List ℕ)
    → (c == 34 || c == 92) ≡ true
    → unescape 34 34 (92 ∷ c ∷ cs) ≡ c ∷ unescape 34 34 cs
unfolding unescape
unescape-pair c cs h = rw h

unescape-escape : (a : Name) → unescape 34 34 (escape a) ≡ a
unfolding escape
unescape-escape [] = unescape-nil
unescape-escape (c ∷ cs) =
    let ih = unescape-escape cs in
    elim (Bool-cases (c == 34 || c == 92)) [
      | inl special ↦ rw special (unescape-pair c (escape cs) special ∙ ap (λ r. c ∷ r) ih)
      | inr plain ↦
          let not_slash : (c == 92) ≡ false = ground arith in
          rw plain (unescape-plain c (escape cs) not_slash ∙ ap (λ r. c ∷ r) ih)
    ]

quote_group : (a : Name) (r : List ℕ) → quote a ++ 10 ∷ r ≡ 34 ∷ (escape a ++ 34 ∷ 10 ∷ r)
quote_group a r = ap (λ t. 34 ∷ t) (append_assoc (escape a) (34 ∷ []) (10 ∷ r))

module _ (alloc : ℕ → Bool) (memory : (k : ℕ) → alloc k ≡ true) where
  abbrev pub Granted : List Name → Args → Option Args → Type 0
  Granted new v o = (room : ℕ) × (o ≡ some (record { items = v.items ++ new; room = room }))

  push-Granted : (s : Name) (v : Args) → Granted (s ∷ []) v (push alloc s v)
  unfolding push
  push-Granted s v =
      let more = if v.room == 0 then 8 else v.room * 2 in
      elim (Bool-cases (length v.items == v.room)) [
        | inl full ↦ (more, rw (full, memory (more * 8)) refl)
        | inr free ↦ (v.room, rw free refl)
      ]

  pub enter-Granted : (s : Name) (v : Args) → Granted (s ∷ []) v (enter alloc s v)
  unfolding enter
  enter-Granted s v = rw (memory (length s + 1)) (push-Granted s v)

  quoted_token :
      (n : ℕ) (cs span rest : List ℕ) (v w : Args)
      → quoted 34 cs ≡ (span, rest)
      → enter alloc (unescape 34 (first_of rest) span) v ≡ some w
      → tokenize alloc (suc n) (34 ∷ cs) v ≡ tokenize alloc n (tail_of rest) w
  unfolding tokenize skip_space
  quoted_token n cs span rest v w split entered =
      rw (split, entered) (ap (λ p. tokenize alloc n (tail_of p.1) w) split)

  -- One quoted argument, and the line's end.
  tokenize-quoted :
      (n : ℕ) (a : Name) (r : List ℕ) (v : Args)
      → (room : ℕ) × (tokenize alloc (suc n) (quote a ++ 10 ∷ r) v
          ≡ tokenize alloc n (10 ∷ r) (record { items = v.items ++ a ∷ []; room = room }))
  tokenize-quoted n a r v =
      let (room, run) = enter-Granted a v in
      (
        room,
        ap (λ t. tokenize alloc (suc n) t v) (quote_group a r)
            ∙ quoted_token n (escape a ++ 34 ∷ 10 ∷ r) (escape a) (34 ∷ 10 ∷ r) v
                (record { items = v.items ++ a ∷ []; room = room }) (quoted-escape a (10 ∷ r))
                (ap (λ s. enter alloc s v) (unescape-escape a) ∙ run),
      )

  tokenize-nil : (n : ℕ) (v : Args) → tokenize alloc (suc n) [] v ≡ done v
  unfolding tokenize skip_space
  tokenize-nil n v = refl

  skip_newline :
      (n : ℕ) (r : List ℕ) (v : Args) → tokenize alloc n (10 ∷ r) v ≡ tokenize alloc n r v
  unfolding tokenize skip_space
  skip_newline zero r v = refl
  skip_newline (suc n) r v = refl

  abbrev pub Tokens : List Name → Args → Expanded → Type 0
  Tokens new v o = (room : ℕ) × (o ≡ done (record { items = v.items ++ new; room = room }))

  one_more :
      (a : Name) (rest : List Name) (v : Args) (room : ℕ) (o : Expanded)
      → Tokens rest (record { items = v.items ++ a ∷ []; room = room }) o
      → Tokens (a ∷ rest) v o
  one_more a rest v room o (room', e) = (
    room',
    e
        ∙ ap (λ items. done (record { items = items; room = room' }))
            (append_assoc v.items (a ∷ []) rest),
  )

  pub tokenize-quote_all :
      (n : ℕ) (names : List Name) (v : Args)
      → length names < n
      → Tokens names v (tokenize alloc n (quote_all names) v)
  unfolding quote_all
  tokenize-quote_all zero names v h = elim h [ ]
  tokenize-quote_all (suc n) [] v h = (
    v.room,
    tokenize-nil n v
        ∙ sym (ap (λ items. done (record { items = items; room = v.room })) (append-nil v.items)),
  )
  tokenize-quote_all (suc n) (a ∷ rest) v h =
      let (room, run) = tokenize-quoted n a (quote_all rest) v in
      let w : Args = record { items = v.items ++ a ∷ []; room = room } in
      let (room', more) =
        one_more a rest v room (tokenize alloc n (quote_all rest) w)
          (tokenize-quote_all n rest w (omega arith)) in
      (room', run ∙ skip_newline n (quote_all rest) w ∙ more)

  pub after :
      (s : Name) (ss : List Name) (v : Args) (room : ℕ) (o : Option Args) (w : Args)
      → o ≡ some w
      → (f : Args → Option Args) → f w ≡ some (record { items = v.items ++ s ∷ ss; room = room })
      → Granted (s ∷ ss) v (o >>= f)
  after s ss v room o w run f e = (room, ap (λ x. x >>= f) run ∙ e)

  pub push_all-Granted : (new : List Name) (v : Args) → Granted new v (push_all alloc new v)
  unfolding push_all
  push_all-Granted [] v = (
    v.room,
    sym (ap (λ items. some (record { items = items; room = v.room })) (append-nil v.items)),
  )
  push_all-Granted (s ∷ ss) v =
      let (room, run) = push-Granted s v in
      let w : Args = record { items = v.items ++ s ∷ []; room = room } in
      let (room', rest) = push_all-Granted ss w in
      after s ss v room' (push alloc s v) w run (λ x. push_all alloc ss x)
        (rest
          ∙ ap (λ items. some (record { items = items; room = room' }))
              (append_assoc v.items (s ∷ []) ss))
