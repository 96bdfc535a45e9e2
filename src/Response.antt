-- ===== src/Response.antt =====
-- Response files: clua/src/driver/argexpand.c. A text is the list of its characters before the
-- final zero; the allocations are one argument, on the bytes asked for.
pub mod Ending
pub mod RoundTrip
pub mod Expansion
mod Tests
use compiled_lua.Common.{ℕ, zero, suc, ◌+◌, ◌*◌, ◌^◌}
use compiled_lua.Common.{Bool, not, ◌&&◌, ◌||◌}
use compiled_lua.Common.{Option, none, some, List, [], ◌∷◌, ◌++◌}
use compiled_lua.Common.{◌>>=◌, ltb, leb, ◌==◌, if◌then◌else◌}
use compiled_lua.Common.{length}
use compiled_lua.Common.Name.{Name, up_to_zero}

-- The growing array of `push`: its strings and the room it has.
pub record Args : Type 0 where
  pub items : List Name
  pub room : ℕ

-- How expanding ends; `unfinished` where the loop has used the rounds it was given.
pub data Expanded : Type 0 where
  done : Args → Expanded
  failed : Expanded
  unfinished : Expanded

abbrev pub is_space : ℕ → Bool
is_space c = leb c 32

unfoldable pub skip_space : List ℕ → List ℕ
skip_space [] = []
skip_space (c ∷ cs) = let rest = skip_space cs in if is_space c then rest else c ∷ cs

-- To the end of a comment's line.
unfoldable pub skip_line : List ℕ → List ℕ
skip_line [] = []
skip_line (c ∷ cs) = let rest = skip_line cs in if c == 10 then c ∷ cs else rest

abbrev pub before {ℓ} : {A : Type ℓ} → A → List A × List A → List A × List A
before c (xs, rest) = (c ∷ xs, rest)

-- A bare token, and what follows it.
unfoldable pub bare : List ℕ → List ℕ × List ℕ
bare [] = ([], [])
bare (c ∷ cs) = let more = before c (bare cs) in if is_space c then ([], c ∷ cs) else more

-- The characters of a token quoted by q, still escaped, and what follows from the closing quote
-- on.
unfoldable pub quoted : ℕ → List ℕ → List ℕ × List ℕ
quoted q [] = ([], [])
quoted q (c ∷ []) = if c == q then ([], c ∷ []) else (c ∷ [], [])
quoted q (c ∷ d ∷ cs) =
    let pair = before c (before d (quoted q cs)) in
    let more = before c (quoted q (d ∷ cs)) in
    if c == q then ([], c ∷ d ∷ cs) else if c == 92 then pair else more

abbrev pub is_escaped : ℕ → ℕ → ℕ → Bool
is_escaped q c d = c == 92 && (d == q || d == 92)

-- The copy without the escapes; `next` is the character behind the last one.
unfoldable pub unescape : ℕ → ℕ → List ℕ → List ℕ
unescape q next [] = []
unescape q next (c ∷ []) = if is_escaped q c next then next ∷ [] else c ∷ []
unescape q next (c ∷ d ∷ cs) =
    let short = d ∷ unescape q next cs in
    let more = c ∷ unescape q next (d ∷ cs) in if is_escaped q c d then short else more

abbrev pub first_of : List ℕ → ℕ
first_of [] = 0
first_of (c ∷ cs) = c

abbrev pub tail_of : List ℕ → List ℕ
tail_of [] = []
tail_of (c ∷ cs) = cs

-- arg[ 0 ] == '@' && arg[ 1 ] != '\0'
unfoldable pub response : Name → Option Name
response [] = none
response (c ∷ []) = none
response (c ∷ d ∷ cs) = if c == 64 then some (d ∷ cs) else none

module _ (alloc : ℕ → Bool) where
  unfoldable pub push : Name → Args → Option Args
  push s v =
      let more = if v.room == 0 then 8 else v.room * 2 in
      let items = v.items ++ s ∷ [] in
      if not (length v.items == v.room)
      then some (record { items = items; room = v.room })
      else if alloc (more * 8)
      then some (record { items = items; room = more })
      else none

  -- A token that was read enters the array.
  unfoldable pub enter : Name → Args → Option Args
  enter s v = if alloc (length s + 1) then push s v else none

  -- `tokenize`, appending to `v`
  unfoldable pub tokenize : ℕ → List ℕ → Args → Expanded
  tokenize zero cs v = unfinished
  tokenize (suc n) cs v = elim (skip_space cs) [
    | [] ↦ done v
    | c ∷ ds ↦
        if c == 35
        then tokenize n (skip_line (c ∷ ds)) v
        else if c == 34 || c == 39
        then (let (span, rest) = quoted c ds in
            elim (enter (unescape c (first_of rest) span) v) [
              | none ↦ failed
              | some w ↦ tokenize n (tail_of rest) w
            ])
        else (let (word, rest) = bare (c ∷ ds) in
            elim (enter word v) [ none ↦ failed | some w ↦ tokenize n rest w ])
  ]

  -- The tokens move into the array of the arguments.
  unfoldable pub push_all : List Name → Args → Option Args
  push_all [] v = some v
  push_all (s ∷ ss) v = push s v >>= push_all ss

  -- `slurp`; `read` gives the bytes of a file.
  unfoldable pub slurp : (Name → Option (List ℕ)) → Name → Option (List ℕ)
  slurp read path = read path >>= λ bytes.
      if ltb (2 ^ 20) (length bytes)
      then none
      else if alloc (length bytes + 1)
      then some (up_to_zero bytes)
      else none

  -- The tokens of a response file.
  unfoldable pub splice : Expanded → Args → Option Args
  splice (done tokens) v = push_all tokens.items v
  splice failed v = none
  splice unfinished v = none

  -- `LcArg_Expand`, appending to `v`; `none` for NULL
  unfoldable pub expand : (Name → Option (List ℕ)) → List Name → Args → Option Args
  expand read [] v = some v
  expand read (arg ∷ args) v = elim (response arg) [
    | none ↦ enter arg v >>= expand read args
    | some path ↦ do
      text ← slurp read path
      w ← splice (tokenize (suc (length text)) text (record { items = []; room = 0 })) v
      expand read args w
  ]
