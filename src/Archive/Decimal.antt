-- ===== src/Archive/Decimal.antt =====
-- Number fields, written and read: `fill_dec` of clua/src/link/ar_write.c and `dec_field` of
-- clua/src/link/ar_read.c.
use compiled_lua.Common.{ℕ, zero, suc, ◌+◌, ◌-◌, ◌*◌, ◌/◌, ◌%◌, ◌^◌, ◌≤◌, ◌<◌}
use compiled_lua.Common.{◌≡◌, refl, ap, ◌∙◌, inl, inr, true}
use compiled_lua.Common.{List, [], ◌∷◌, ◌++◌, append_assoc, arith}
use compiled_lua.Common.{ltb, ltb→lt, Bool-cases}
use compiled_lua.Common.{length, length-append, replicate, length-replicate}
use compiled_lua.Common.{get_or-append_right, take_all}
use compiled_lua.Archive.Header.{dec_digits, dec_field, is_digit, be32}
use compiled_lua.Archive.Write.{decimal, fill_dec, put_be32}
use native.Mathlib.Nat.{pow-suc}

digit_read :
    (v d : ℕ) (ys : List ℕ)
    → d < 10
    → v * 10 + d < 2 ^ 32
    → dec_digits v ((48 + d) ∷ ys) ≡ dec_digits (v * 10 + d) ys
unfolding dec_digits
digit_read v d ys small fits =
    let digit : is_digit (48 + d) ≡ true = ground arith in
    let value : (v * 10 + (48 + d - 48)) % 2 ^ 32 ≡ v * 10 + d = omega arith in rw (digit, value)

decimal-read :
    (n v : ℕ) (ys : List ℕ)
    → v < 10 ^ n
    → v < 2 ^ 32
    → dec_digits 0 (decimal n v ++ ys) ≡ dec_digits v ys
unfolding decimal
decimal-read zero v ys small fits = let e : v ≡ 0 = omega arith in rw e
decimal-read (suc n) v ys small fits = elim (Bool-cases (ltb v 10)) [
  | inl last ↦
      let less = ltb→lt v 10 last in
      let e : 0 * 10 + v ≡ v = omega arith in
      rw last (digit_read 0 v ys less (omega arith) ∙ ap (λ x. dec_digits x ys) e)
  | inr more ↦
      let power = pow-suc 10 n in
      let e : v / 10 * 10 + v % 10 ≡ v = omega arith in
      let ih =
        decimal-read n (v / 10) ((48 + v % 10) ∷ ys) (omega (arith, small, power)) (omega arith) in
      let step = digit_read (v / 10) (v % 10) ys (omega arith) (omega arith) in
      rw (more, append_assoc (decimal n (v / 10)) ((48 + v % 10) ∷ []) ys)
        (ih ∙ step ∙ ap (λ x. dec_digits x ys) e)
]

length-decimal : (n v : ℕ) → length (decimal n v) ≤ n
unfolding decimal
length-decimal zero v = omega arith
length-decimal (suc n) v = elim (Bool-cases (ltb v 10)) [
  | inl last ↦ rw last (omega arith)
  | inr more ↦
      let ih = length-decimal n (v / 10) in
      rw more (omega (arith, ih, length-append (decimal n (v / 10)) ((48 + v % 10) ∷ [])))
]

blanks : (n v : ℕ) → dec_digits v (replicate n 32) ≡ v
unfolding dec_digits
blanks zero v = refl
blanks (suc n) v = refl

fill_dec-whole : (v : ℕ) → fill_dec 10 v ≡ decimal 10 v ++ replicate (10 - length (decimal 10 v)) 32
unfolding fill_dec
fill_dec-whole v =
    ap (λ xs. xs ++ replicate (10 - length (decimal 10 v)) 32)
      (take_all 10 (decimal 10 v) (length-decimal 10 v))

pub length-fill_dec : (v : ℕ) → length (fill_dec 10 v) ≡ 10
length-fill_dec v =
    let xs = decimal 10 v in
    ap length (fill_dec-whole v)
    ∙ omega (
      arith,
      length-append xs (replicate (10 - length xs) 32),
      length-replicate {A = ℕ} (10 - length xs) 32,
      length-decimal 10 v,
    )

-- A field that `fill_dec` fills is read back by `dec_field`.
pub dec_field-fill_dec : (v : ℕ) → v < 2 ^ 32 → dec_field (fill_dec 10 v) ≡ v
dec_field-fill_dec v fits =
    let xs = decimal 10 v in
    ap dec_field (fill_dec-whole v)
    ∙ decimal-read 10 v (replicate (10 - length xs) 32) (omega arith) fits
    ∙ blanks (10 - length xs) v

-- A big-endian word is read back.
pub be32-put_be32 : (v : ℕ) (r : List ℕ) → v < 2 ^ 32 → be32 (put_be32 v ++ r) 0 ≡ v
be32-put_be32 v r h = omega arith

pub be32-append_right : (xs ys : List ℕ) (i : ℕ) → be32 (xs ++ ys) (length xs + i) ≡ be32 ys i
be32-append_right xs ys i =
    let one : length xs + i + 1 ≡ length xs + (i + 1) = omega arith in
    let two : length xs + i + 2 ≡ length xs + (i + 2) = omega arith in
    let three : length xs + i + 3 ≡ length xs + (i + 3) = omega arith in
    rw (
      one,
      two,
      three,
      get_or-append_right xs ys i 0,
      get_or-append_right xs ys (i + 1) 0,
      get_or-append_right xs ys (i + 2) 0,
      get_or-append_right xs ys (i + 3) 0,
    )
