-- ===== src/Response/Expansion.antt =====
-- Whole command lines: `LcArg_Expand` of clua/src/driver/argexpand.c.
use compiled_lua.Common.{ℕ, suc, ◌+◌, ◌^◌, ◌≤◌}
use compiled_lua.Common.{◌≡◌, refl, sym, ap, ◌∙◌, inl, inr, Bool, true, false, ◌||◌}
use compiled_lua.Common.{Option, none, some, List, [], ◌∷◌, ◌++◌, append-nil, append_assoc, arith}
use compiled_lua.Common.{◌>>=◌, ltb, ◌==◌, Bool-cases, Option-cases}
use compiled_lua.Common.{length, length-append}
use compiled_lua.Common.Name.{Name, up_to_zero-IsText, IsText, IsText-append, AllText}
use compiled_lua.Response.{Args, enter, tokenize, slurp, response, splice, expand}
use compiled_lua.Response.RoundTrip.{
  escape, quote, quote_all, Granted, enter-Granted, push_all-Granted, after, tokenize-quote_all,
}

-- No argument names a response file.
abbrev pub AllPlain : List Name → Type 0
AllPlain [] = Unit
AllPlain (a ∷ rest) = (response a ≡ none) × AllPlain rest

IsText-escape : (a : Name) → IsText a → IsText (escape a)
unfolding escape
IsText-escape [] h = tt
IsText-escape (c ∷ cs) (hc, hs) = elim (Bool-cases (c == 34 || c == 92)) [
  | inl special ↦ rw special (omega arith, (hc, IsText-escape cs hs))
  | inr plain ↦ rw plain (hc, IsText-escape cs hs)
]

IsText-quote_all : (names : List Name) → AllText names → IsText (quote_all names)
unfolding quote_all
IsText-quote_all [] h = tt
IsText-quote_all (a ∷ rest) (ha, hs) =
    IsText-append (quote a) (10 ∷ quote_all rest)
      (omega arith, IsText-append (escape a) (34 ∷ []) (IsText-escape a ha) (omega arith, tt))
      (omega arith, IsText-quote_all rest hs)

length-quote_all : (names : List Name) → length names ≤ length (quote_all names)
unfolding quote_all
length-quote_all [] = omega arith
length-quote_all (a ∷ rest) =
    omega (arith, length-quote_all rest, length-append (quote a) (10 ∷ quote_all rest))

bind_through :
    {A B C : Type 0} (o : Option A) (f : A → Option C) (g : A → Option B) (h : B → Option C)
    → ((a : A) → f a ≡ (g a >>= h))
    → (o >>= f) ≡ (o >>= g >>= h)
bind_through none f g h e = refl
bind_through (some a) f g h e = e a

module _ (alloc : ℕ → Bool) (read : Name → Option (List ℕ)) where
  expand-append :
      (xs ys : List Name) (v : Args)
      → expand alloc read (xs ++ ys) v ≡ (expand alloc read xs v >>= expand alloc read ys)
  unfolding expand
  expand-append [] ys v = refl
  expand-append (x ∷ xs) ys v = elim (Option-cases (response x)) [
    | inl e ↦ rw (e, expand) (bind_through (enter alloc x v) _ _ _ (λ w. expand-append xs ys w))
    | inr (path, e) ↦
        rw (e, expand)
          (bind_through (slurp alloc read path) _ _ _ (λ text.
            bind_through
              (splice alloc
                (tokenize alloc (suc (length text)) text (record { items = []; room = 0 })) v)
              _ _ _ (λ w. expand-append xs ys w)))
  ]

  module _ (memory : (k : ℕ) → alloc k ≡ true) where
    expand-plain :
        (xs : List Name) (v : Args)
        → AllPlain xs
        → Granted alloc memory xs v (expand alloc read xs v)
    unfolding expand
    expand-plain [] v h = (
      v.room,
      sym (ap (λ items. some (record { items = items; room = v.room })) (append-nil v.items)),
    )
    expand-plain (x ∷ xs) v (h, hs) =
        let (room, run) = enter-Granted alloc memory x v in
        let w : Args = record { items = v.items ++ x ∷ []; room = room } in
        let (room', rest) = expand-plain xs w hs in
        rw (h, expand)
          (after alloc memory x xs v room' (enter alloc x v) w run (expand alloc read xs) (
            rest
            ∙ ap (λ items. some (record { items = items; room = room' }))
                (append_assoc v.items (x ∷ []) xs)))

    slurp-quote_all :
        (path : Name) (names : List Name)
        → read path ≡ some (quote_all names)
        → length (quote_all names) ≤ 2 ^ 20
        → AllText names
        → slurp alloc read path ≡ some (quote_all names)
    unfolding slurp
    slurp-quote_all path names found small text =
        let text_of = quote_all names in
        let fits : ltb (2 ^ 20) (length text_of) ≡ false = ground arith in
        rw (found, fits, memory (length text_of + 1))
          (ap some (up_to_zero-IsText text_of (IsText-quote_all names text)))

    spliced :
        (names : List Name) (v : Args)
        → Granted alloc memory names v (
            splice alloc
              (tokenize alloc
                (suc (length (quote_all names)))
                (quote_all names)
                (record { items = []; room = 0 }))
              v)
    unfolding splice
    spliced names v =
        let (room, run) =
          tokenize-quote_all alloc memory (suc (length (quote_all names))) names
            (record { items = []; room = 0 }) (omega (arith, length-quote_all names)) in
        rw run (push_all-Granted alloc memory names v)

    -- The response file, then plain arguments.
    expand-response :
        (c : ℕ) (path : Name) (names post : List Name) (v : Args)
        → read (c ∷ path) ≡ some (quote_all names)
        → length (quote_all names) ≤ 2 ^ 20
        → AllText names
        → AllPlain post
        → Granted alloc memory (names ++ post) v (expand alloc read ((64 ∷ c ∷ path) ∷ post) v)
    unfolding expand response
    expand-response c path names post v found small text plain =
        let file = slurp-quote_all (c ∷ path) names found small text in
        let (room, run) = spliced names v in
        let w : Args = record { items = v.items ++ names; room = room } in
        let (room', rest) = expand-plain post w plain in
        (
          room',
          rw file (
              ap (λ o. o >>= expand alloc read post) run
              ∙ rest
              ∙ ap (λ items. some (record { items = items; room = room' }))
                  (append_assoc v.items names post)),
        )

    -- Where memory is granted: a command line with one response file among arguments that name
    -- none expands to the arguments before it, the arguments quoted in the file, one on each line,
    -- and the arguments behind it, each as it is; the file has 1 MB at most, and its arguments are
    -- C strings with any characters.
    pub expand_round_trip :
        (pre post names : List Name) (c : ℕ) (path : Name)
        → AllPlain pre
        → AllPlain post
        → read (c ∷ path) ≡ some (quote_all names)
        → length (quote_all names) ≤ 2 ^ 20
        → AllText names
        → (room : ℕ) × (expand alloc read
              (pre ++ (64 ∷ c ∷ path) ∷ post)
              (record { items = []; room = 0 })
            ≡ some (record { items = pre ++ (names ++ post); room = room }))
    expand_round_trip pre post names c path plain plain' found small text =
        let start : Args = record { items = []; room = 0 } in
        let (room, run) = expand-plain pre start plain in
        let w : Args = record { items = pre; room = room } in
        let (room', rest) = expand-response c path names post w found small text plain' in
        (
          room',
          expand-append pre ((64 ∷ c ∷ path) ∷ post) start
              ∙ ap (λ o. o >>= expand alloc read ((64 ∷ c ∷ path) ∷ post)) run
              ∙ rest,
        )
