-- ===== src/Lexer/Tokens.antt =====
-- Every call of `Lexer_Next` of clua/src/ffi/cdecl_lexer.c.
use compiled_lua.Common.{ℕ, suc, ◌≤◌, ◌<◌}
use compiled_lua.Common.{◌≡◌, refl, ◌⊎◌, inl, inr, Bool, true, false, ◌&&◌, ◌||◌}
use compiled_lua.Common.{some, List, [], ◌∷◌, arith}
use compiled_lua.Common.{◌==◌, if◌then◌else◌, Option-cases}
use compiled_lua.Common.{length}
use compiled_lua.Lexer.{
  Place, Lexer, peek, step, advance, is_between, is_ident_start, is_ident_cont, is_hex, text_of,
}
use compiled_lua.Lexer.Next.{
  TokenType, tok_eof, tok_int_lit, tok_ellipsis, tok_error, Token, Next, token, keywords,
  lookup_keyword, strtoll, punctuation, number, scan_token, lexer_next,
}
use compiled_lua.Lexer.Progress.{
  Moves, Moves-trans, step-Moves, advance-Moves, text_of-Moves, length-text_of,
}
use compiled_lua.Lexer.Blanks.{skip_blank-Reaches, shorter-twice, Moves-shorter}

-- A token of the source that starts with c, at the place p.
abbrev pub Scanned : ℕ → List ℕ → Place → Next → Type 0
Scanned c cs p (t, l) =
    Moves (c ∷ cs, p) l
    × (length l.0 ≤ length cs)
    × (length t.text ≤ 127)
    × (t.line ≡ p.line)
    × (t.col ≡ p.col)

-- A token of characters of which the first one is good.
text_of-shorter :
    (good : ℕ → Bool) (n c : ℕ) (cs : List ℕ) (p : Place)
    → good c ≡ true
    → length (text_of good (suc n) (c ∷ cs) p).1.0 ≤ length cs
unfolding text_of
text_of-shorter good n c cs p h = rw h (
    Moves-shorter (cs, step c p) (text_of good n cs (step c p)).1
      (text_of-Moves good n cs (step c p)))

one-Scanned :
    (type : TokenType) (c : ℕ) (cs : List ℕ) (p : Place)
    → Scanned c cs p (token type [] 0 p, advance (c ∷ cs, p))
unfolding advance
one-Scanned type c cs p = (step-Moves c cs p, omega arith, omega arith, refl, refl)

word-Scanned :
    (good : ℕ → Bool) (type : TokenType) (value c : ℕ) (cs : List ℕ) (p : Place)
    → good c ≡ true
    → Scanned c cs p
        (token type (text_of good 127 (c ∷ cs) p).0 value p, (text_of good 127 (c ∷ cs) p).1)
word-Scanned good type value c cs p h = (
  text_of-Moves good 127 (c ∷ cs) p,
  text_of-shorter good 126 c cs p h,
  length-text_of good 127 (c ∷ cs) p,
  refl,
  refl,
)

twice-Moves : (c : ℕ) (cs : List ℕ) (p : Place) → Moves (c ∷ cs, p) (advance (advance (c ∷ cs, p)))
twice-Moves c cs p =
    Moves-trans (c ∷ cs, p) (advance (c ∷ cs, p)) (advance (advance (c ∷ cs, p)))
      (advance-Moves (c ∷ cs, p)) (advance-Moves (advance (c ∷ cs, p)))

if_scanned :
    (P : Next → Type 0) {x y : Next} (b : Bool)
    → ((b ≡ true) → P x)
    → ((b ≡ false) → P y)
    → P (if b then x else y)
if_scanned P true yes_case no_case = yes_case refl
if_scanned P false yes_case no_case = no_case refl

or_left : (a b : Bool) → a ≡ true → (a || b) ≡ true
or_left a b h = rw h

number-Scanned :
    (c : ℕ) (cs : List ℕ) (p : Place) → is_between 48 57 c ≡ true → Scanned c cs p (number c cs p)
unfolding number
number-Scanned c cs p digit =
    let behind = advance (advance (c ∷ cs, p)) in
    let hex = text_of is_hex 125 behind.0 behind.1 in
    let moves = text_of-Moves is_hex 125 behind.0 behind.1 in
    if_scanned (Scanned c cs p) (c == 48 && (peek cs 0 == 120 || peek cs 0 == 88))
      (λ _. (
        Moves-trans (c ∷ cs, p) behind hex.1 (twice-Moves c cs p) moves,
        omega (arith, Moves-shorter behind hex.1 moves, shorter-twice c cs p),
        omega (arith, length-text_of is_hex 125 behind.0 behind.1),
        refl,
        refl,
      ))
      (λ _.
        word-Scanned (is_between 48 57) tok_int_lit
          (strtoll 10 (text_of (is_between 48 57) 127 (c ∷ cs) p).0) c cs p digit)

ellipsis-Scanned :
    (c : ℕ) (cs : List ℕ) (p : Place)
    → Scanned c cs p (token tok_ellipsis [] 0 p, advance (advance (advance (c ∷ cs, p))))
ellipsis-Scanned c cs p =
    let two = advance (advance (c ∷ cs, p)) in
    let last = advance-Moves two in
    (
      Moves-trans (c ∷ cs, p) two (advance two) (twice-Moves c cs p) last,
      omega (arith, Moves-shorter two (advance two) last, shorter-twice c cs p),
      omega arith,
      refl,
      refl,
    )

scan_token-Scanned : (c : ℕ) (cs : List ℕ) (p : Place) → Scanned c cs p (scan_token c cs p)
unfolding scan_token
scan_token-Scanned c cs p =
    if_scanned (Scanned c cs p) (is_ident_start c)
      (λ start.
        word-Scanned is_ident_cont
          (lookup_keyword keywords (text_of is_ident_cont 127 (c ∷ cs) p).0) 0 c cs p
          (or_left (is_ident_start c) (is_between 48 57 c) start))
      (λ _. if_scanned (Scanned c cs p) (is_between 48 57 c) (number-Scanned c cs p) (λ _.
        elim (Option-cases (punctuation c)) [
          | inr (type, e) ↦ rw e (one-Scanned type c cs p)
          | inl e ↦ rw e (
              if_scanned (Scanned c cs p) (c == 46 && (peek cs 0 == 46 && peek cs 1 == 46))
                (λ _. ellipsis-Scanned c cs p) (λ _. one-Scanned tok_error c cs p))
        ]))

-- What a call leaves: the end of the source, or a token that took some of it.
abbrev pub Result : Lexer → Token → Lexer → Type 0
Result k t l =
    Moves k l
    × (length t.text ≤ 127)
    × (((t.type ≡ tok_eof) × (l.0 ≡ [])) ⊎ (length l.0 < length k.0))

Scanned-Result :
    (k : Lexer) (c : ℕ) (cs : List ℕ) (p : Place) (r : Next)
    → Moves k (c ∷ cs, p)
    → Scanned c cs p r
    → Result k r.0 r.1
Scanned-Result (es, q) c cs p (t, (ds, p')) (a, b, d) (moves, shorter, text, _, _) = (
  Moves-trans (es, q) (c ∷ cs, p) (ds, p') (a, b, d) moves,
  text,
  inr (omega (arith, b, shorter)),
)

at_rest :
    (k l : Lexer)
    → Moves k l
    → (r : Next) × ((elim l.0 [
      | [] ↦ some (token tok_eof [] 0 l.1, l)
      | c ∷ ds ↦ some (scan_token c ds l.1)
    ]
          ≡ some r)
        × Result k r.0 r.1)
at_rest k ([], p) moves =
    ((token tok_eof [] 0 p, ([], p)), (refl, (moves, omega arith, inl (refl, refl))))
at_rest k (c ∷ ds, p) moves = (
  scan_token c ds p,
  (refl, Scanned-Result k c ds p (scan_token c ds p) moves (scan_token-Scanned c ds p)),
)

-- From every point of every source, `Lexer_Next` ends with a token of at most 127 characters. The
-- token is TOK_EOF with nothing left, or the lexer took at least one character; the position moves
-- on by the number of characters taken, and the line does not go back.
pub lexer_next_lem : (k : Lexer) → (r : Next) × ((lexer_next k ≡ some r) × Result k r.0 r.1)
unfolding lexer_next
lexer_next_lem (cs, p) =
    let (l, (run, moves)) = skip_blank-Reaches (suc (length cs)) cs p (omega arith) in
    let (r, (scanned, result)) = at_rest (cs, p) l moves in (r, (rw run scanned, result))
