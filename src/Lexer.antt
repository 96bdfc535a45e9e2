-- ===== src/Lexer.antt =====
-- The scanner of C declarations: clua/src/ffi/cdecl_lexer.c. A source is the list of its
-- characters before the final zero; `Peek` past it gives 0.
pub mod Next
pub mod Progress
pub mod Blanks
pub mod Tokens
pub mod Sources
mod Tests
use compiled_lua.Common.{ℕ, zero, suc, ◌+◌}
use compiled_lua.Common.{Bool, ◌&&◌, ◌||◌}
use compiled_lua.Common.{Option, none, some, List, [], ◌∷◌}
use compiled_lua.Common.{leb, ◌==◌, if◌then◌else◌}
use compiled_lua.Common.{get_or}
use compiled_lua.Common.Name.{Name, name_eq, codes}

-- Pos, Line and Col of LEXER_T.
pub record Place : Type 0 where
  pub pos : ℕ
  pub line : ℕ
  pub col : ℕ

-- The rest of the source and the place it starts at.
abbrev pub Lexer : Type 0
Lexer = List ℕ × Place

-- `Peek`
abbrev pub peek : List ℕ → ℕ → ℕ
peek cs k = get_or cs k 0

-- The place behind a character.
unfoldable pub step : ℕ → Place → Place
step c p =
    if c == 10
    then record { pos = p.pos + 1; line = p.line + 1; col = 1 }
    else record { pos = p.pos + 1; line = p.line; col = p.col + 1 }

-- `Advance`
unfoldable pub advance : Lexer → Lexer
advance ([], p) = ([], p)
advance (c ∷ cs, p) = (cs, step c p)

-- The loop over a comment that ends with its line.
unfoldable pub line_comment : List ℕ → Place → Lexer
line_comment [] p = ([], p)
line_comment (c ∷ cs) p =
    let more = line_comment cs (step c p) in if c == 10 then (c ∷ cs, p) else more

-- The loop over a comment, up to its closing characters.
unfoldable pub block_comment : List ℕ → Place → Lexer
block_comment [] p = ([], p)
block_comment (c ∷ cs) p =
    let more = block_comment cs (step c p) in
    if c == 42 && peek cs 0 == 47 then (c ∷ cs, p) else more

unfoldable pub close_comment : Lexer → Lexer
close_comment l = if peek l.0 0 == 42 then advance (advance l) else l

abbrev pub is_blank : ℕ → Bool
is_blank c = c == 32 || c == 9 || c == 13 || c == 10

-- `SkipWhitespaceAndComments`; `none` where the rounds are used up.
unfoldable pub skip_blank : ℕ → List ℕ → Place → Option Lexer
skip_blank zero cs p = none
skip_blank (suc n) [] p = some ([], p)
skip_blank (suc n) (c ∷ cs) p =
    let comment = line_comment (c ∷ cs) p in
    let opened = advance (advance (c ∷ cs, p)) in
    let closed = close_comment (block_comment opened.0 opened.1) in
    let blank = skip_blank n cs (step c p) in
    let after_line = skip_blank n comment.0 comment.1 in
    let after_block = skip_blank n closed.0 closed.1 in
    if is_blank c
    then blank
    else if c == 47 && peek cs 0 == 47
    then after_line
    else if c == 47 && peek cs 0 == 42
    then after_block
    else some (c ∷ cs, p)

abbrev pub is_between : ℕ → ℕ → ℕ → Bool
is_between a b c = leb a c && leb c b

-- `IsIdentStart` and `IsIdentCont`
abbrev pub is_ident_start : ℕ → Bool
is_ident_start c = is_between 97 122 c || is_between 65 90 c || c == 95

abbrev pub is_ident_cont : ℕ → Bool
is_ident_cont c = is_ident_start c || is_between 48 57 c

abbrev pub is_hex : ℕ → Bool
is_hex c = is_between 48 57 c || is_between 97 102 c || is_between 65 70 c

-- The loops over the characters of a token, with room for n.
unfoldable pub text_of : (ℕ → Bool) → ℕ → List ℕ → Place → Name × Lexer
text_of good zero cs p = ([], (cs, p))
text_of good (suc n) [] p = ([], ([], p))
text_of good (suc n) (c ∷ cs) p =
    let more = text_of good n cs (step c p) in
    if good c then (c ∷ more.0, more.1) else ([], (c ∷ cs, p))
