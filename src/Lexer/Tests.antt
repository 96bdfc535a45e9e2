-- ===== src/Lexer/Tests.antt =====
-- Concrete runs for clua/src/ffi/cdecl_lexer.c.
use compiled_lua.Common.{ℕ}
use compiled_lua.Common.{◌≡◌, refl}
use compiled_lua.Common.{some, List, [], ◌∷◌, ◌++◌, arith}
use compiled_lua.Common.{◌>>=◌}
use compiled_lua.Common.{replicate}
use compiled_lua.Common.Name.{codes}
use compiled_lua.Lexer.{
  Lexer, step, advance, line_comment, block_comment, close_comment, skip_blank, text_of,
}
use compiled_lua.Lexer.Next.{
  TokenType, tok_eof, tok_ident, tok_int_lit, tok_star, tok_semi, tok_kw_int, Token, Next,
  lookup_keyword, digits_in, punctuation, number, scan_token, lexer_next,
}
use compiled_lua.Lexer.Tokens.{Result, lexer_next_lem}
use compiled_lua.Lexer.Sources.{tokens, tokens_lem}

program : Unit {0}
unfolding step advance line_comment block_comment close_comment skip_blank text_of lookup_keyword
    digits_in punctuation number scan_token lexer_next tokens
program = tt

abbrev start : List ℕ → Lexer
start cs = (cs, record { pos = 0; line = 1; col = 1 })

abbrev source : Lexer
source = start (codes "/* a */ int *f; // x" ++ 10 ∷ codes "0x1F")

kinds : List Token → List TokenType
unfolding program
kinds [] = []
kinds (t ∷ ts) = t.type ∷ kinds ts

tokens_test :
    (tokens 99 source >>= λ ts. some (kinds ts))
    ≡ some (tok_kw_int ∷ tok_star ∷ tok_ident ∷ tok_semi ∷ tok_int_lit ∷ tok_eof ∷ [])
unfolding program kinds
tokens_test = refl

-- An identifier of more than 127 characters is read as two.
long_identifier :
    (tokens 9 (start (replicate 130 97)) >>= λ ts. some (kinds ts))
    ≡ some (tok_ident ∷ tok_ident ∷ tok_eof ∷ [])
unfolding program kinds
long_identifier = refl

lexer_next_lem_example : (r : Next) × ((lexer_next source ≡ some r) × Result source r.0 r.1)
lexer_next_lem_example = lexer_next_lem source

tokens_lem_example : (ts : List Token) × (tokens 40 source ≡ some ts)
tokens_lem_example = tokens_lem 40 source (omega arith)
