-- ===== src/Lexer/Next.antt =====
-- The tokens of C declarations: `Lexer_Next` of clua/src/ffi/cdecl_lexer.c and the tokens of
-- clua/src/ffi/cdecl_lexer.h.
use compiled_lua.Common.{ℕ, suc, ◌+◌, ◌-◌, ◌*◌, ◌^◌, min}
use compiled_lua.Common.{◌&&◌, ◌||◌}
use compiled_lua.Common.{Option, none, some, List, [], ◌∷◌}
use compiled_lua.Common.{◌>>=◌, leb, ◌==◌, if◌then◌else◌}
use compiled_lua.Common.{length}
use compiled_lua.Common.Name.{Name, name_eq, codes}
use compiled_lua.Lexer.{
  Place, Lexer, peek, advance, skip_blank, is_between, is_ident_start, is_ident_cont, is_hex,
  text_of,
}

-- TOKEN_TYPE_T
pub data TokenType : Type 0 where
  tok_eof tok_ident tok_int_lit : TokenType
  tok_lbrace tok_rbrace tok_lparen tok_rparen tok_lbracket tok_rbracket : TokenType
  tok_semi tok_comma tok_star tok_eq tok_question tok_minus tok_plus tok_ellipsis : TokenType
  tok_kw_void tok_kw_bool tok_kw_char tok_kw_short tok_kw_int tok_kw_long : TokenType
  tok_kw_signed tok_kw_unsigned tok_kw_float tok_kw_double : TokenType
  tok_kw_struct tok_kw_union tok_kw_enum tok_kw_typedef : TokenType
  tok_kw_const tok_kw_volatile tok_kw_restrict tok_kw_callconv tok_kw_storage : TokenType
  tok_error : TokenType

-- TOKEN_T
pub record Token : Type 0 where
  pub type : TokenType
  pub text : Name
  pub int_value : ℕ
  pub line : ℕ
  pub col : ℕ

abbrev pub Keywords : Type 0
Keywords = List (Name × TokenType)

-- g_Keywords
abbrev pub keywords : Keywords
keywords =
    (codes "void", tok_kw_void)
    ∷ (codes "_Bool", tok_kw_bool)
    ∷ (codes "char", tok_kw_char)
    ∷ (codes "short", tok_kw_short)
    ∷ (codes "int", tok_kw_int)
    ∷ (codes "long", tok_kw_long)
    ∷ (codes "signed", tok_kw_signed)
    ∷ (codes "unsigned", tok_kw_unsigned)
    ∷ (codes "float", tok_kw_float)
    ∷ (codes "double", tok_kw_double)
    ∷ (codes "struct", tok_kw_struct)
    ∷ (codes "union", tok_kw_union)
    ∷ (codes "enum", tok_kw_enum)
    ∷ (codes "typedef", tok_kw_typedef)
    ∷ (codes "const", tok_kw_const)
    ∷ (codes "volatile", tok_kw_volatile)
    ∷ (codes "restrict", tok_kw_restrict)
    ∷ (codes "__stdcall", tok_kw_callconv)
    ∷ (codes "__cdecl", tok_kw_callconv)
    ∷ (codes "__fastcall", tok_kw_callconv)
    ∷ (codes "__thiscall", tok_kw_callconv)
    ∷ (codes "__vectorcall", tok_kw_callconv)
    ∷ (codes "WINAPI", tok_kw_callconv)
    ∷ (codes "CALLBACK", tok_kw_callconv)
    ∷ (codes "APIENTRY", tok_kw_callconv)
    ∷ (codes "NTAPI", tok_kw_callconv)
    ∷ (codes "extern", tok_kw_storage)
    ∷ (codes "static", tok_kw_storage)
    ∷ (codes "register", tok_kw_storage)
    ∷ (codes "auto", tok_kw_storage)
    ∷ (codes "inline", tok_kw_storage)
    ∷ (codes "__inline", tok_kw_storage)
    ∷ (codes "__forceinline", tok_kw_storage)
    ∷ (codes "_Atomic", tok_kw_storage)
    ∷ []

-- `LookupKeyword`, with TOK_IDENT where there is none
unfoldable pub lookup_keyword : Keywords → Name → TokenType
lookup_keyword [] text = tok_ident
lookup_keyword ((word, type) ∷ rest) text =
    let more = lookup_keyword rest text in if name_eq word text then type else more

abbrev digit_value : ℕ → ℕ
digit_value c = if leb c 57 then c - 48 else if leb 97 c then c - 87 else c - 55

unfoldable pub digits_in : ℕ → ℕ → Name → ℕ
digits_in base v [] = v
digits_in base v (c ∷ cs) = digits_in base (v * base + digit_value c) cs

-- `strtoll` of digits
abbrev pub strtoll : ℕ → Name → ℕ
strtoll base digits = min (digits_in base 0 digits) (2 ^ 63 - 1)

-- The punctuation of one character.
unfoldable pub punctuation : ℕ → Option TokenType
punctuation c =
    if c == 123
    then some tok_lbrace
    else if c == 125
    then some tok_rbrace
    else if c == 40
    then some tok_lparen
    else if c == 41
    then some tok_rparen
    else if c == 91
    then some tok_lbracket
    else if c == 93
    then some tok_rbracket
    else if c == 59
    then some tok_semi
    else if c == 44
    then some tok_comma
    else if c == 42
    then some tok_star
    else if c == 61
    then some tok_eq
    else if c == 63
    then some tok_question
    else if c == 45
    then some tok_minus
    else if c == 43
    then some tok_plus
    else none

-- What `Lexer_Next` leaves: the token and the lexer behind it. The result 0 is the type of errors.
abbrev pub Next : Type 0
Next = Token × Lexer

abbrev pub token : TokenType → Name → ℕ → Place → Token
token type text value p = record {
  type = type;
  text = text;
  int_value = value;
  line = p.line;
  col = p.col;
}

-- A number; the 128 bytes of its text hold 127 characters.
unfoldable pub number : ℕ → List ℕ → Place → Next
number c cs p =
    let behind = advance (advance (c ∷ cs, p)) in
    let hex = text_of is_hex 125 behind.0 behind.1 in
    let dec = text_of (is_between 48 57) 127 (c ∷ cs) p in
    if c == 48 && (peek cs 0 == 120 || peek cs 0 == 88)
    then (token tok_int_lit (48 ∷ 120 ∷ hex.0) (strtoll 16 hex.0) p, hex.1)
    else (token tok_int_lit dec.0 (strtoll 10 dec.0) p, dec.1)

-- A token whose first character is c.
unfoldable pub scan_token : ℕ → List ℕ → Place → Next
scan_token c cs p =
    let word = text_of is_ident_cont 127 (c ∷ cs) p in
    let one = advance (c ∷ cs, p) in
    let three = advance (advance one) in
    if is_ident_start c
    then (token (lookup_keyword keywords word.0) word.0 0 p, word.1)
    else if is_between 48 57 c
    then number c cs p
    else elim (punctuation c) [
      | some type ↦ (token type [] 0 p, one)
      | none ↦
          if c == 46 && (peek cs 0 == 46 && peek cs 1 == 46)
          then (token tok_ellipsis [] 0 p, three)
          else (token tok_error [] 0 p, one)
    ]

-- `Lexer_Next`
unfoldable pub lexer_next : Lexer → Option Next
lexer_next (cs, p) = skip_blank (suc (length cs)) cs p >>= λ l. elim l.0 [
  | [] ↦ some (token tok_eof [] 0 l.1, l)
  | c ∷ ds ↦ some (scan_token c ds l.1)
]
