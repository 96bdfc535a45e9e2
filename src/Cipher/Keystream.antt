-- ===== src/Cipher/Keystream.antt =====
-- The bytes of the keystream one by one: clua/src/common/stream_cipher.h.
use compiled_lua.Common.{ℕ, zero, suc, ◌+◌, ◌/◌, ◌%◌, ◌<◌, bit_xor}
use compiled_lua.Common.{◌≡◌, refl, sym, ap, ◌∙◌}
use compiled_lua.Common.{List, [], ◌∷◌, arith}
use compiled_lua.Common.{length, get_or}
use compiled_lua.Cipher.{StreamState, init, next_u64, key_byte, apply_tail, apply_rounds, apply}
use compiled_lua.Common.Bits.{bit_xor_twice}

-- The state after n rounds.
unfoldable pub after : ℕ → StreamState → StreamState
after zero s = s
after (suc n) s = after n (next_u64 s).1

unfoldable pub stream : StreamState → ℕ → ℕ
stream s i = key_byte (next_u64 (after (i / 8) s)).0 (i % 8)

-- The i-th byte of the keystream of a key.
unfoldable pub keystream : List ℕ → ℕ → ℕ
keystream key i = stream (init key) i

-- Every byte of a list, with the byte of `f` at its place.
unfoldable pub xor_with : (ℕ → ℕ) → List ℕ → List ℕ
xor_with f [] = []
xor_with f (b ∷ bs) = bit_xor b (f 0) ∷ xor_with (λ i. f (suc i)) bs

pub xor_with_congr :
    (f g : ℕ → ℕ) (bs : List ℕ)
    → ((i : ℕ) → i < length bs → f i ≡ g i)
    → xor_with f bs ≡ xor_with g bs
unfolding xor_with
xor_with_congr f g [] h = refl
xor_with_congr f g (b ∷ bs) h = rw (
  h 0 (omega arith),
  xor_with_congr (λ i. f (suc i)) (λ i. g (suc i)) bs (λ i q. h (suc i) (omega (arith, q))),
)

pub xor_with_twice : (f : ℕ → ℕ) (bs : List ℕ) → xor_with f (xor_with f bs) ≡ bs
unfolding xor_with
xor_with_twice f [] = refl
xor_with_twice f (b ∷ bs) = rw (bit_xor_twice b (f 0), xor_with_twice (λ i. f (suc i)) bs)

pub length-xor_with : (f : ℕ → ℕ) (bs : List ℕ) → length (xor_with f bs) ≡ length bs
unfolding xor_with
length-xor_with f [] = refl
length-xor_with f (b ∷ bs) = omega (arith, length-xor_with (λ i. f (suc i)) bs)

apply_tail_lem : (k j : ℕ) (bs : List ℕ) → apply_tail k j bs ≡ xor_with (λ i. key_byte k (j + i)) bs
unfolding apply_tail xor_with
apply_tail_lem k j [] = refl
apply_tail_lem k j (b ∷ bs) =
    let here : j + 0 ≡ j = omega arith in
    let shift =
      xor_with_congr (λ i. key_byte k (suc j + i)) (λ i. key_byte k (j + suc i)) bs
        (λ i _. ap (key_byte k) (omega arith)) in
    rw (here, apply_tail_lem k (suc j) bs, shift)

-- Fewer than eight bytes are left: the bytes of one word.
stream-short : (s : StreamState) (i : ℕ) → i < 8 → stream s i ≡ key_byte (next_u64 s).0 i
unfolding stream after
stream-short s i h =
    let none : i / 8 ≡ 0 = omega arith in let same : i % 8 ≡ i = omega arith in rw (none, same)

apply_tail-stream :
    (s : StreamState) (bs : List ℕ)
    → length bs < 8
    → apply_tail (next_u64 s).0 0 bs ≡ xor_with (stream s) bs
apply_tail-stream s bs h =
    apply_tail_lem (next_u64 s).0 0 bs
    ∙ xor_with_congr (λ i. key_byte (next_u64 s).0 (0 + i)) (stream s) bs
        (λ i q.
          ap (key_byte (next_u64 s).0) (omega arith) ∙ sym (stream-short s i (omega (arith, q))))

stream-later :
    (s : StreamState) (i : ℕ)
    → stream s (suc (suc (suc (suc (suc (suc (suc (suc i)))))))) ≡ stream (next_u64 s).1 i
unfolding stream after
stream-later s i =
    let eight_more = suc (suc (suc (suc (suc (suc (suc (suc i))))))) in
    let count : eight_more / 8 ≡ suc (i / 8) = omega arith in
    let place : eight_more % 8 ≡ i % 8 = omega arith in rw (count, place)

-- A whole round, and what follows it.
apply_rounds_lem : (s : StreamState) (bs : List ℕ) → apply_rounds s bs ≡ xor_with (stream s) bs
unfolding apply_rounds xor_with
apply_rounds_lem s (b0 ∷ b1 ∷ b2 ∷ b3 ∷ b4 ∷ b5 ∷ b6 ∷ b7 ∷ bs) =
    let rest =
      apply_rounds_lem (next_u64 s).1 bs
      ∙ sym (
          xor_with_congr (λ i. stream s (suc (suc (suc (suc (suc (suc (suc (suc i)))))))))
            (stream (next_u64 s).1) bs (λ i _. stream-later s i)) in
    rw (
      stream-short s 0 (omega arith),
      stream-short s 1 (omega arith),
      stream-short s 2 (omega arith),
      stream-short s 3 (omega arith),
      stream-short s 4 (omega arith),
      stream-short s 5 (omega arith),
      stream-short s 6 (omega arith),
      stream-short s 7 (omega arith),
      rest,
    )
apply_rounds_lem s [] = refl
apply_rounds_lem s (b0 ∷ []) = apply_tail-stream s _ (omega arith)
apply_rounds_lem s (b0 ∷ b1 ∷ []) = apply_tail-stream s _ (omega arith)
apply_rounds_lem s (b0 ∷ b1 ∷ b2 ∷ []) = apply_tail-stream s _ (omega arith)
apply_rounds_lem s (b0 ∷ b1 ∷ b2 ∷ b3 ∷ []) = apply_tail-stream s _ (omega arith)
apply_rounds_lem s (b0 ∷ b1 ∷ b2 ∷ b3 ∷ b4 ∷ []) = apply_tail-stream s _ (omega arith)
apply_rounds_lem s (b0 ∷ b1 ∷ b2 ∷ b3 ∷ b4 ∷ b5 ∷ []) = apply_tail-stream s _ (omega arith)
apply_rounds_lem s (b0 ∷ b1 ∷ b2 ∷ b3 ∷ b4 ∷ b5 ∷ b6 ∷ []) = apply_tail-stream s _ (omega arith)

get_or-xor_with :
    (f : ℕ → ℕ) (bs : List ℕ) (i d : ℕ)
    → i < length bs
    → get_or (xor_with f bs) i d ≡ bit_xor (get_or bs i d) (f i)
unfolding xor_with
get_or-xor_with f [] i d h = absurd (omega arith)
get_or-xor_with f (b ∷ bs) zero d h = refl
get_or-xor_with f (b ∷ bs) (suc i) d h = get_or-xor_with (λ i. f (suc i)) bs i d (omega arith)

-- For every key and buffer, `StreamCipher_Apply` leaves the length as it is and combines the
-- byte at each place i with byte i % 8 of the (i / 8)-th word of the keystream, counted from 0:
-- the rounds of eight and the tail are one stream.
pub apply-keystream :
    (key buf : List ℕ)
    → (length (apply key buf) ≡ length buf)
      × ((i : ℕ)
          → i < length buf
          → get_or (apply key buf) i 0 ≡ bit_xor (get_or buf i 0) (keystream key i))
unfolding apply keystream
apply-keystream key buf =
    let stream_form = apply_rounds_lem (init key) buf in
    (
      ap length stream_form ∙ length-xor_with (stream (init key)) buf,
      λ i h. ap (λ bs. get_or bs i 0) stream_form ∙ get_or-xor_with (stream (init key)) buf i 0 h,
    )

-- For every key and buffer, `StreamCipher_Apply` twice with the same key gives the buffer back.
pub apply_twice : (key buf : List ℕ) → apply key (apply key buf) ≡ buf
unfolding apply
apply_twice key buf =
    let s = init key in
    apply_rounds_lem s (apply_rounds s buf)
    ∙ ap (xor_with (stream s)) (apply_rounds_lem s buf)
    ∙ xor_with_twice (stream s) buf
