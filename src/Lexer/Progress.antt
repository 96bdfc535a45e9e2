-- ===== src/Lexer/Progress.antt =====
-- The scanner gets on: clua/src/ffi/cdecl_lexer.c.
use compiled_lua.Common.{ℕ, zero, suc, ◌+◌, ◌≤◌}
use compiled_lua.Common.{◌≡◌, refl, inl, inr, Bool, ◌&&◌}
use compiled_lua.Common.{List, [], ◌∷◌, arith}
use compiled_lua.Common.{◌==◌, Bool-cases}
use compiled_lua.Common.{length}
use compiled_lua.Lexer.{
  Place, Lexer, peek, step, advance, line_comment, block_comment, close_comment, text_of,
}

-- From one lexer to another of the same source, further on.
abbrev pub Moves : Lexer → Lexer → Type 0
Moves (cs, p) (ds, q) =
    (q.pos + length ds ≡ p.pos + length cs) × (length ds ≤ length cs) × (p.line ≤ q.line)

pub Moves-refl : (l : Lexer) → Moves l l
Moves-refl (cs, p) = (refl, omega arith, omega arith)

pub Moves-trans : (k l m : Lexer) → Moves k l → Moves l m → Moves k m
Moves-trans (cs, p) (ds, q) (es, r) (a, b, c) (a', b', c') =
    (omega (arith, a, a'), omega (arith, b, b'), omega (arith, c, c'))

pub step-Moves : (c : ℕ) (cs : List ℕ) (p : Place) → Moves (c ∷ cs, p) (cs, step c p)
unfolding step
step-Moves c cs p = elim (Bool-cases (c == 10)) [
  | inl newline ↦ rw newline (omega arith, omega arith, omega arith)
  | inr other ↦ rw other (omega arith, omega arith, omega arith)
]

pub advance-Moves : (l : Lexer) → Moves l (advance l)
unfolding advance
advance-Moves ([], p) = Moves-refl ([], p)
advance-Moves (c ∷ cs, p) = step-Moves c cs p

pub line_comment-Moves : (cs : List ℕ) (p : Place) → Moves (cs, p) (line_comment cs p)
unfolding line_comment
line_comment-Moves [] p = Moves-refl ([], p)
line_comment-Moves (c ∷ cs) p = elim (Bool-cases (c == 10)) [
  | inl newline ↦ rw newline (Moves-refl (c ∷ cs, p))
  | inr other ↦ rw other (
      Moves-trans (c ∷ cs, p) (cs, step c p) (line_comment cs (step c p)) (step-Moves c cs p)
        (line_comment-Moves cs (step c p)))
]

pub block_comment-Moves : (cs : List ℕ) (p : Place) → Moves (cs, p) (block_comment cs p)
unfolding block_comment
block_comment-Moves [] p = Moves-refl ([], p)
block_comment-Moves (c ∷ cs) p = elim (Bool-cases (c == 42 && peek cs 0 == 47)) [
  | inl close ↦ rw close (Moves-refl (c ∷ cs, p))
  | inr other ↦ rw other (
      Moves-trans (c ∷ cs, p) (cs, step c p) (block_comment cs (step c p)) (step-Moves c cs p)
        (block_comment-Moves cs (step c p)))
]

pub close_comment-Moves : (l : Lexer) → Moves l (close_comment l)
unfolding close_comment
close_comment-Moves l = elim (Bool-cases (peek l.0 0 == 42)) [
  | inl star ↦ rw star (
      Moves-trans l (advance l) (advance (advance l)) (advance-Moves l) (advance-Moves (advance l)))
  | inr other ↦ rw other (Moves-refl l)
]

pub text_of-Moves :
    (good : ℕ → Bool) (n : ℕ) (cs : List ℕ) (p : Place) → Moves (cs, p) (text_of good n cs p).1
unfolding text_of
text_of-Moves good zero cs p = Moves-refl (cs, p)
text_of-Moves good (suc n) [] p = Moves-refl ([], p)
text_of-Moves good (suc n) (c ∷ cs) p = elim (Bool-cases (good c)) [
  | inl fits ↦ rw fits (
      Moves-trans (c ∷ cs, p) (cs, step c p) (text_of good n cs (step c p)).1 (step-Moves c cs p)
        (text_of-Moves good n cs (step c p)))
  | inr other ↦ rw other (Moves-refl (c ∷ cs, p))
]

-- A token takes no more characters than it has room for.
pub length-text_of :
    (good : ℕ → Bool) (n : ℕ) (cs : List ℕ) (p : Place) → length (text_of good n cs p).0 ≤ n
unfolding text_of
length-text_of good zero cs p = omega arith
length-text_of good (suc n) [] p = omega arith
length-text_of good (suc n) (c ∷ cs) p = elim (Bool-cases (good c)) [
  | inl fits ↦ rw fits (omega (arith, length-text_of good n cs (step c p)))
  | inr other ↦ rw other (omega arith)
]
