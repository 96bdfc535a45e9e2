-- ===== src/Response/Tests.antt =====
-- Concrete runs for clua/src/driver/argexpand.c.
use compiled_lua.Common.{ℕ}
use compiled_lua.Common.{◌≡◌, refl, Bool, true}
use compiled_lua.Common.{Option, none, some, List, [], ◌∷◌, ◌++◌, arith}
use compiled_lua.Common.Name.{Name, codes, up_to_zero}
use compiled_lua.Response.{
  Args, done, skip_space, skip_line, bare, quoted, unescape, push, enter, tokenize, push_all, slurp,
  response, splice, expand,
}
use compiled_lua.Response.Ending.{Ends, tokenize-Ends}
use compiled_lua.Response.RoundTrip.{escape, quote_all}
use compiled_lua.Response.Expansion.{expand_round_trip}

program : Unit {0}
unfolding skip_space skip_line bare quoted unescape push enter tokenize push_all slurp response
    splice expand escape quote_all up_to_zero
program = tt

always : ℕ → Bool
unfolding program
always k = true

abbrev empty : Args
empty = record { items = []; room = 0 }

-- A comment, a bare token, and a quoted one with an escaped quote.
abbrev text : List ℕ
text = codes "# c" ++ 10 ∷ codes " -O2 'a b\\'c' "

tokenize_test :
    tokenize always 99 text empty
    ≡ done (record { items = codes "-O2" ∷ codes "a b'c" ∷ []; room = 8 })
unfolding program always
tokenize_test = refl

tokenize-Ends_example : Ends (tokenize always 30 text empty)
tokenize-Ends_example = tokenize-Ends always 30 text empty (omega arith)

-- An argument with a space and a quote.
abbrev inner : List Name
inner = codes "a \"b" ∷ []

files : Name → Option (List ℕ)
unfolding program
files path = some (quote_all inner)

missing_file : expand always (λ path. none) (codes "@x" ∷ []) empty ≡ none
unfolding program
missing_file = refl

expand_round_trip_example :
    (room : ℕ) × (expand always files ((codes "-v" ∷ []) ++ codes "@x" ∷ codes "y" ∷ []) empty
      ≡ some (record { items = (codes "-v" ∷ []) ++ (inner ++ codes "y" ∷ []); room = room }))
unfolding program always files
expand_round_trip_example =
    expand_round_trip always files (λ k. refl) (codes "-v" ∷ []) (codes "y" ∷ []) inner 120 []
      (refl, tt) (refl, tt) refl (omega arith)
      ((omega arith, (omega arith, (omega arith, (omega arith, tt)))), tt)
