-- ===== src/Lexer/Sources.antt =====
-- Reading a whole source by calls of `Lexer_Next` of clua/src/ffi/cdecl_lexer.c.
use compiled_lua.Common.{ℕ, zero, suc, ◌≤◌, ◌<◌}
use compiled_lua.Common.{◌≡◌, refl, inl, inr, Bool, true, false}
use compiled_lua.Common.{Option, none, some, List, [], ◌∷◌, arith}
use compiled_lua.Common.{◌>>=◌, Bool-cases}
use compiled_lua.Common.{length}
use compiled_lua.Lexer.{Lexer}
use compiled_lua.Lexer.Next.{TokenType, tok_eof, Token, lexer_next}
use compiled_lua.Lexer.Tokens.{Result, lexer_next_lem}

abbrev pub is_eof : TokenType → Bool
is_eof tok_eof = true
is_eof _ = false

-- The tokens of n calls at most, up to TOK_EOF; `none` where it is not reached.
unfoldable pub tokens : ℕ → Lexer → Option (List Token)
tokens zero l = none
tokens (suc n) l = lexer_next l >>= λ r. elim (is_eof r.0.type) [
  | true ↦ some (r.0 ∷ [])
  | false ↦ tokens n r.1 >>= λ rest. some (r.0 ∷ rest)
]

abbrev Reached : Option (List Token) → Type 0
Reached o = (ts : List Token) × (o ≡ some ts)

reach_next :
    (n : ℕ) (t : Token) (l : Lexer)
    → is_eof t.type ≡ false
    → Reached (tokens n l)
    → Reached (tokens n l >>= λ rest. some (t ∷ rest))
reach_next n t l more (ts, run) = (t ∷ ts, rw run)

token-Reached :
    (n : ℕ) (k : Lexer) (t : Token) (l : Lexer)
    → length k.0 ≤ n
    → Result k t l
    → (length l.0 < n → Reached (tokens n l))
    → Reached elim (is_eof t.type) [
      | true ↦ some (t ∷ [])
      | false ↦ tokens n l >>= λ rest. some (t ∷ rest)
    ]
token-Reached n k t l h (_, _, inl (eof, _)) rest = rw eof (t ∷ [], refl)
token-Reached n k t l h (_, _, inr shorter) rest = elim (Bool-cases (is_eof t.type)) [
  | inl eof ↦ rw eof (t ∷ [], refl)
  | inr more ↦ rw more (reach_next n t l more (rest (omega (arith, h, shorter))))
]

-- Every source is read to TOK_EOF by at most one call of `Lexer_Next` more than it has
-- characters.
pub tokens_lem : (n : ℕ) (l : Lexer) → length l.0 < n → (ts : List Token) × (tokens n l ≡ some ts)
unfolding tokens
tokens_lem zero l h = absurd (omega (arith, h))
tokens_lem (suc n) l h =
    let (r, (run, result)) = lexer_next_lem l in
    rw run (token-Reached n l r.0 r.1 (omega (arith, h)) result (tokens_lem n r.1))
