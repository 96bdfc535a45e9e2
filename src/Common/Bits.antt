-- ===== src/Common/Bits.antt =====
-- Laws of the bitwise operators of C on unsigned words.
use compiled_lua.Common.{
  ℕ, zero, suc, ◌+◌, ◌-◌, ◌*◌, ◌/◌, ◌%◌, ◌^◌, ◌≤◌, ◌<◌, min, max, bit_and, bit_or, bit_xor,
}
use compiled_lua.Common.{◌≡◌, refl, sym, ap, ◌∙◌}
use compiled_lua.Common.{arith}
use native.Mathlib.Nat.{
  pow-succ', mul_assoc, mul_left_comm, div-add-mod, mod-lt, mod-eq_of_lt, mod-one,
  add-mul-mod_self_left,
}
use Prim.Native.Nat.{digits, bit_and-bitwise, bit_or-bitwise, bit_xor-bitwise, differ}

pub two_pow-suc : (k : ℕ) → 2 ^ suc k ≡ 2 * 2 ^ k
two_pow-suc k = pow-succ' 2 k

pub two_pow-pos : (k : ℕ) → 0 < 2 ^ k
two_pow-pos zero = omega arith
two_pow-pos (suc k) = omega (arith, two_pow-suc k, two_pow-pos k)

mul_halves : (p q : ℕ) → 2 * p * q ≡ 2 * (p * q)
mul_halves p q = mul_assoc 2 p q

-- The count of digits does not matter where it is enough.
digits-enough :
    (z : ℕ → ℕ) (f : ℕ → ℕ → ℕ) (n m a b : ℕ) → a ≤ n → a ≤ m → digits z f n a b ≡ digits z f m a b
digits-enough z f zero zero a b p q = refl
digits-enough z f zero (suc m) zero b p q = refl
digits-enough z f (suc n) zero zero b p q = refl
digits-enough z f (suc n) (suc m) zero b p q = refl
digits-enough z f zero (suc m) (suc a) b p q = absurd (omega arith)
digits-enough z f (suc n) zero (suc a) b p q = absurd (omega arith)
digits-enough z f (suc n) (suc m) (suc a) b p q =
    let half : suc a / 2 ≤ n = omega arith in
    let half' : suc a / 2 ≤ m = omega arith in
    omega (arith, digits-enough z f n m (suc a / 2) (b / 2) half half')

pub bit_and_halves : (a b : ℕ) → bit_and a b ≡ bit_and (a / 2) (b / 2) * 2 + min (a % 2) (b % 2)
bit_and_halves zero b = omega (arith, bit_and-bitwise 0 b, bit_and-bitwise 0 (b / 2))
bit_and_halves (suc a) b =
    let rest =
      digits-enough (λ b. zero) min a (suc a / 2) (suc a / 2) (b / 2) (omega arith) (omega arith) in
    omega (arith, bit_and-bitwise (suc a) b, bit_and-bitwise (suc a / 2) (b / 2), rest)

pub bit_or_halves : (a b : ℕ) → bit_or a b ≡ bit_or (a / 2) (b / 2) * 2 + max (a % 2) (b % 2)
bit_or_halves zero b = omega (arith, bit_or-bitwise 0 b, bit_or-bitwise 0 (b / 2))
bit_or_halves (suc a) b =
    let rest =
      digits-enough (λ b. b) max a (suc a / 2) (suc a / 2) (b / 2) (omega arith) (omega arith) in
    omega (arith, bit_or-bitwise (suc a) b, bit_or-bitwise (suc a / 2) (b / 2), rest)

pub bit_xor_halves : (a b : ℕ) → bit_xor a b ≡ bit_xor (a / 2) (b / 2) * 2 + differ (a % 2) (b % 2)
bit_xor_halves zero b = omega (arith, bit_xor-bitwise 0 b, bit_xor-bitwise 0 (b / 2))
bit_xor_halves (suc a) b =
    let rest =
      digits-enough (λ b. b) differ a (suc a / 2) (suc a / 2) (b / 2) (omega arith) (omega arith) in
    omega (arith, bit_xor-bitwise (suc a) b, bit_xor-bitwise (suc a / 2) (b / 2), rest)

differ_twice : (x y : ℕ) → x < 2 → y < 2 → differ (differ x y) y ≡ x
differ_twice zero zero p q = refl
differ_twice zero (suc zero) p q = refl
differ_twice (suc zero) zero p q = refl
differ_twice (suc zero) (suc zero) p q = refl
differ_twice (suc (suc x)) y p q = absurd (omega arith)
differ_twice zero (suc (suc y)) p q = absurd (omega arith)
differ_twice (suc zero) (suc (suc y)) p q = absurd (omega arith)

differ-lt : (x y : ℕ) → x < 2 → y < 2 → differ x y < 2
differ-lt zero y p q = q
differ-lt (suc zero) zero p q = p
differ-lt (suc zero) (suc zero) p q = omega arith
differ-lt (suc (suc x)) y p q = absurd (omega arith)
differ-lt (suc zero) (suc (suc y)) p q = absurd (omega arith)

-- Exclusive or with the same word again gives the first word back.
bit_xor_twice_upto : (n a b : ℕ) → a ≤ n → b ≤ n → bit_xor (bit_xor a b) b ≡ a
bit_xor_twice_upto zero zero zero p q = refl
bit_xor_twice_upto zero (suc a) b p q = absurd (omega arith)
bit_xor_twice_upto zero zero (suc b) p q = absurd (omega arith)
bit_xor_twice_upto (suc n) a b p q =
    let ih = bit_xor_twice_upto n (a / 2) (b / 2) (omega arith) (omega arith) in
    let digit = differ_twice (a % 2) (b % 2) (omega arith) (omega arith) in
    let small = differ-lt (a % 2) (b % 2) (omega arith) (omega arith) in
    let high : bit_xor a b / 2 ≡ bit_xor (a / 2) (b / 2) = omega (arith, bit_xor_halves a b) in
    let low : bit_xor a b % 2 ≡ differ (a % 2) (b % 2) = omega (arith, bit_xor_halves a b) in
    bit_xor_halves (bit_xor a b) b ∙ rw (high, low, ih, digit) (omega arith)

pub bit_xor_twice : (a b : ℕ) → bit_xor (bit_xor a b) b ≡ a
bit_xor_twice a b = bit_xor_twice_upto (max a b) a b (omega arith) (omega arith)

pub bit_xor-lt : (k a b : ℕ) → a < 2 ^ k → b < 2 ^ k → bit_xor a b < 2 ^ k
bit_xor-lt zero zero zero p q = p
bit_xor-lt zero (suc a) b p q = absurd (omega arith)
bit_xor-lt zero zero (suc b) p q = absurd (omega arith)
bit_xor-lt (suc k) a b p q =
    let double = two_pow-suc k in
    let high = bit_xor-lt k (a / 2) (b / 2) (omega arith) (omega arith) in
    let low = differ-lt (a % 2) (b % 2) (omega arith) (omega arith) in
    omega (arith, bit_xor_halves a b)

pub bit_and-zero_left : (b : ℕ) → bit_and 0 b ≡ 0
bit_and-zero_left b = bit_and-bitwise 0 b

bit_and-zero_upto : (n a : ℕ) → a ≤ n → bit_and a 0 ≡ 0
bit_and-zero_upto n zero p = bit_and-zero_left 0
bit_and-zero_upto zero (suc a) p = absurd (omega arith)
bit_and-zero_upto (suc n) (suc a) p =
    let ih = bit_and-zero_upto n (suc a / 2) (omega arith) in
    omega (arith, bit_and_halves (suc a) 0)

pub bit_and-zero_right : (a : ℕ) → bit_and a 0 ≡ 0
bit_and-zero_right a = bit_and-zero_upto a a (omega arith)

-- The remainder by a power of two, digit by digit.
mod_halves : (x p : ℕ) → 0 < p → x % (2 * p) ≡ x / 2 % p * 2 + x % 2
mod_halves x p pos =
    let q = x / 2 / p in
    let split = div-add-mod (x / 2) p in
    let small = mod-lt (x / 2) pos in
    let whole : x ≡ (x / 2 % p * 2 + x % 2) + 2 * p * q = omega (arith, mul_halves p q) in
    ap (λ n. n % (2 * p)) whole
    ∙ add-mul-mod_self_left (x / 2 % p * 2 + x % 2) (2 * p) q
    ∙ mod-eq_of_lt (omega arith)

-- `x & (2^k - 1)`
pub bit_and-mask : (k x : ℕ) → bit_and x (2 ^ k - 1) ≡ x % 2 ^ k
bit_and-mask zero x = bit_and-zero_right x ∙ sym (mod-one x)
bit_and-mask (suc k) x =
    let double = two_pow-suc k in
    let pos = two_pow-pos k in
    let half : (2 ^ suc k - 1) / 2 ≡ 2 ^ k - 1 = omega arith in
    let odd : (2 ^ suc k - 1) % 2 ≡ 1 = omega arith in
    bit_and_halves x (2 ^ suc k - 1)
    ∙ rw (half, odd, bit_and-mask k (x / 2), double) (omega (arith, mod_halves x (2 ^ k) pos))

-- `x | y << k`, where x has k digits at most
pub bit_or-shifted : (k x y : ℕ) → x < 2 ^ k → bit_or x (y * 2 ^ k) ≡ x + y * 2 ^ k
bit_or-shifted zero zero y p = omega (arith, bit_or-bitwise 0 (y * 1))
bit_or-shifted zero (suc x) y p = absurd (omega arith)
bit_or-shifted (suc k) x y p =
    let double : y * 2 ^ suc k ≡ 2 * (y * 2 ^ k) = rw (two_pow-suc k) (mul_left_comm y 2 (2 ^ k)) in
    let double' = two_pow-suc k in
    let ih = bit_or-shifted k (x / 2) y (omega arith) in
    let half : y * 2 ^ suc k / 2 ≡ y * 2 ^ k = omega arith in
    let even : y * 2 ^ suc k % 2 ≡ 0 = omega arith in
    bit_or_halves x (y * 2 ^ suc k) ∙ rw (half, even, ih, double) (omega arith)
