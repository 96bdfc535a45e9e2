-- ===== src/Lexer/Blanks.antt =====
-- Passing blanks and comments: clua/src/ffi/cdecl_lexer.c.
use compiled_lua.Common.{ℕ, zero, suc, ◌≤◌, ◌<◌}
use compiled_lua.Common.{◌≡◌, refl, Bool, true, false, ◌&&◌}
use compiled_lua.Common.{Option, some, List, [], ◌∷◌, arith}
use compiled_lua.Common.{◌==◌, if◌then◌else◌}
use compiled_lua.Common.{length}
use compiled_lua.Lexer.{
  Place, Lexer, peek, step, advance, line_comment, block_comment, close_comment, skip_blank,
  is_blank,
}
use compiled_lua.Lexer.Progress.{
  Moves, Moves-refl, Moves-trans, step-Moves, advance-Moves, line_comment-Moves,
  block_comment-Moves, close_comment-Moves,
}

abbrev pub Reaches : Lexer → Option Lexer → Type 0
Reaches k o = (l : Lexer) × ((o ≡ some l) × Moves k l)

Reaches-later : (k l : Lexer) (o : Option Lexer) → Moves k l → Reaches l o → Reaches k o
Reaches-later k l o moves (m, (e, rest)) = (m, (e, Moves-trans k l m moves rest))

line_comment-shorter :
    (c : ℕ) (cs : List ℕ) (p : Place)
    → (c == 47) ≡ true
    → length (line_comment (c ∷ cs) p).0 ≤ length cs
unfolding line_comment
line_comment-shorter c cs p slash =
    let other : (c == 10) ≡ false = ground arith in
    let (_, shorter, _) = line_comment-Moves cs (step c p) in rw other shorter

block-Moves : (l : Lexer) → Moves l (close_comment (block_comment l.0 l.1))
block-Moves (cs, p) =
    Moves-trans (cs, p) (block_comment cs p) (close_comment (block_comment cs p))
      (block_comment-Moves cs p) (close_comment-Moves (block_comment cs p))

pub Moves-shorter : (k l : Lexer) → Moves k l → length l.0 ≤ length k.0
Moves-shorter (cs, p) (ds, q) (_, shorter, _) = shorter

pub shorter-twice :
    (c : ℕ) (cs : List ℕ) (p : Place) → length (advance (advance (c ∷ cs, p))).0 ≤ length cs
unfolding advance
shorter-twice c [] p = omega arith
shorter-twice c (d ∷ cs) p = omega arith

if_Reaches :
    (k : Lexer) {x y : Option Lexer} (b : Bool)
    → ((b ≡ true) → Reaches k x)
    → ((b ≡ false) → Reaches k y)
    → Reaches k (if b then x else y)
if_Reaches k true yes_case no_case = yes_case refl
if_Reaches k false yes_case no_case = no_case refl

-- With a round for each character, blanks and comments are passed.
pub skip_blank-Reaches :
    (n : ℕ) (cs : List ℕ) (p : Place) → length cs < n → Reaches (cs, p) (skip_blank n cs p)
unfolding skip_blank
skip_blank-Reaches zero cs p h = elim h [ ]
skip_blank-Reaches (suc n) [] p h = (([], p), (refl, Moves-refl ([], p)))
skip_blank-Reaches (suc n) (c ∷ cs) p h =
    let start : Lexer = (c ∷ cs, p) in
    let comment = line_comment (c ∷ cs) p in
    let opened = advance (advance start) in
    let closed = close_comment (block_comment opened.0 opened.1) in
    let one = step-Moves c cs p in
    let two =
      Moves-trans start (advance start) opened (advance-Moves start)
        (advance-Moves (advance start)) in
    let inside = shorter-twice c cs p in
    let three = Moves-trans start opened closed two (block-Moves opened) in
    let behind = Moves-shorter opened closed (block-Moves opened) in
    if_Reaches start (is_blank c)
      (λ _.
        Reaches-later start (cs, step c p) (skip_blank n cs (step c p)) one
          (skip_blank-Reaches n cs (step c p) (omega (arith, h))))
      (λ _.
        if_Reaches start (c == 47 && peek cs 0 == 47)
          (λ slashes.
            let shorter = line_comment-shorter c cs p (ground arith) in
            Reaches-later start comment (skip_blank n comment.0 comment.1)
              (line_comment-Moves (c ∷ cs) p)
              (skip_blank-Reaches n comment.0 comment.1 (omega (arith, h, shorter))))
          (λ _.
            if_Reaches start (c == 47 && peek cs 0 == 42)
              (λ _.
                Reaches-later start closed (skip_blank n closed.0 closed.1) three
                  (skip_blank-Reaches n closed.0 closed.1 (omega (arith, h, behind, inside))))
              (λ _. (start, (refl, Moves-refl start)))))
