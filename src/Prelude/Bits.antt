-- ===== src/Prelude/Bits.antt =====
-- The bits of a machine word under `&`, `|`, `^` and `~`.
use Prim.Native.Nat.{
  ℕ, zero, suc, ◌+◌, ◌-◌, ◌/◌, ◌%◌, ◌^◌, ◌≤◌, ◌<◌, min, max, bit_and, bit_or, bit_xor, digits,
  bit_and-bitwise, bit_or-bitwise, bit_xor, bit_xor-bitwise, differ, bit_xor-bitwise,
}
use mathlib.Core.Path.{◌≡◌, refl, sym, ap, ◌∙◌}
use mathlib.Core.Logic.{◌≢◌, inl, inr}
use mathlib.Core.Bool.{false, not}
use native.Mathlib.Omega.{arith}
use native.Mathlib.Nat.{pow-suc, one-le-pow}
use turbo_baker.Prelude.Tests.{◌==◌, if◌then◌else◌, ==→eq, ==→ne, ne→==, Bool-cases}

-- Bit `k` of a word, counted from the lowest.
abbrev pub bit : ℕ → ℕ → ℕ
bit w zero = w % 2
bit w (suc k) = bit (w / 2) k

pub bit-le : (w k : ℕ) → bit w k ≤ 1
bit-le w zero = omega arith
bit-le w (suc k) = bit-le (w / 2) k

pub bit-zero : (k : ℕ) → bit 0 k ≡ 0
bit-zero zero = refl
bit-zero (suc k) = bit-zero k

digits-zero : (z : ℕ → ℕ) (f : ℕ → ℕ → ℕ) (n b : ℕ) → digits z f n 0 b ≡ z b
digits-zero z f zero b = refl
digits-zero z f (suc n) b = refl

bit-digits :
    (z : ℕ → ℕ) (f : ℕ → ℕ → ℕ)
    → ((x y : ℕ) → x ≤ 1 → y ≤ 1 → f x y ≤ 1)
    → ((b k : ℕ) → bit (z b) k ≡ f 0 (bit b k))
    → (n a b k : ℕ) → a ≤ n
    → bit (digits z f n a b) k ≡ f (bit a k) (bit b k)
bit-digits z f small start n zero b k h =
    ap (λ x. bit x k) (digits-zero z f n b)
    ∙ (start b k ∙ ap (λ x. f x (bit b k)) (sym (bit-zero k)))
bit-digits z f small start zero (suc a) b k h = absurd (omega arith)
bit-digits z f small start (suc n) (suc a) b zero h =
    omega (arith, small (suc a % 2) (b % 2) (omega arith) (omega arith))
bit-digits z f small start (suc n) (suc a) b (suc k) h =
    ap (λ x. bit x k) (omega (arith, small (suc a % 2) (b % 2) (omega arith) (omega arith)))
    ∙ bit-digits z f small start n (suc a / 2) (b / 2) k (omega arith)

pub bit-bit_and : (a b k : ℕ) → bit (bit_and a b) k ≡ min (bit a k) (bit b k)
bit-bit_and a b k =
    ap (λ x. bit x k) (bit_and-bitwise a b)
    ∙ bit-digits (λ b'. 0) min (λ x y p q. omega arith) (λ b' j. omega (arith, bit-zero j)) a a b k
        (omega arith)

pub bit-bit_or : (a b k : ℕ) → bit (bit_or a b) k ≡ max (bit a k) (bit b k)
bit-bit_or a b k =
    ap (λ x. bit x k) (bit_or-bitwise a b)
    ∙ bit-digits (λ b'. b') max (λ x y p q. omega arith) (λ b' j. omega arith) a a b k (omega arith)

differ-le : (x y : ℕ) → x ≤ 1 → y ≤ 1 → differ x y ≡ (x + y) % 2
differ-le zero y h k = omega arith
differ-le (suc zero) zero h k = refl
differ-le (suc zero) (suc zero) h k = refl
differ-le (suc zero) (suc (suc y)) h k = absurd (omega arith)
differ-le (suc (suc x)) y h k = absurd (omega arith)

pub bit-bit_xor : (a b k : ℕ) → bit (bit_xor a b) k ≡ (bit a k + bit b k) % 2
bit-bit_xor a b k =
    ap (λ x. bit x k) (bit_xor-bitwise a b)
    ∙ bit-digits (λ b'. b') differ (λ x y p q. omega (arith, differ-le x y p q))
        (λ b' j. omega arith) a a b k (omega arith)
    ∙ differ-le (bit a k) (bit b k) (bit-le a k) (bit-le b k)

-- A word is below `2 ^ n` exactly when its bits from `n` on are zero.
zero_of_bits : (n w : ℕ) → w ≤ n → ((k : ℕ) → bit w k ≡ 0) → w ≡ 0
zero_of_bits n zero l h = refl
zero_of_bits zero (suc w) l h = absurd (omega arith)
zero_of_bits (suc n) (suc w) l h =
    omega (arith, h 0, zero_of_bits n (suc w / 2) (omega arith) (λ k. h (suc k)))

pub bits_of_lt : (n w k : ℕ) → w < 2 ^ n → n ≤ k → bit w k ≡ 0
bits_of_lt zero w k l h = ap (λ x. bit x k) (zero_of_lt w l) ∙ bit-zero k
  where
    zero_of_lt : (w : ℕ) → w < 1 → w ≡ 0
    zero_of_lt w l = omega arith
bits_of_lt (suc n) w zero l h = absurd (omega arith)
bits_of_lt (suc n) w (suc k) l h = bits_of_lt n (w / 2) k (omega (arith, pow-suc 2 n)) (omega arith)

pub lt_of_bits : (n w : ℕ) → ((k : ℕ) → n ≤ k → bit w k ≡ 0) → w < 2 ^ n
lt_of_bits zero w h = omega (arith, zero_of_bits w w (omega arith) (λ k. h k (omega arith)))
lt_of_bits (suc n) w h =
    omega (arith, pow-suc 2 n, lt_of_bits n (w / 2) (λ k l. h (suc k) (omega arith)))

pub bit_or-lt : (n a b : ℕ) → a < 2 ^ n → b < 2 ^ n → bit_or a b < 2 ^ n
bit_or-lt n a b p q =
    lt_of_bits n (bit_or a b)
      (λ k l. omega (arith, bit-bit_or a b k, bits_of_lt n a k p l, bits_of_lt n b k q l))

pub bit_and-lt : (n a b : ℕ) → a < 2 ^ n → bit_and a b < 2 ^ n
bit_and-lt n a b p =
    lt_of_bits n (bit_and a b) (λ k l. omega (arith, bit-bit_and a b k, bits_of_lt n a k p l))

pub bit_xor-lt : (n a b : ℕ) → a < 2 ^ n → b < 2 ^ n → bit_xor a b < 2 ^ n
bit_xor-lt n a b p q =
    lt_of_bits n (bit_xor a b)
      (λ k l. omega (arith, bit-bit_xor a b k, bits_of_lt n a k p l, bits_of_lt n b k q l))

-- `1 << k`.
pub bit-pow : (k j : ℕ) → bit (2 ^ k) j ≡ (if k == j then 1 else 0)
bit-pow zero zero = refl
bit-pow zero (suc j) = ground (arith, bit-zero j)
bit-pow (suc k) zero = ground (arith, pow-suc 2 k)
bit-pow (suc k) (suc j) =
    let halved : 2 ^ suc k / 2 ≡ 2 ^ k = omega (arith, pow-suc 2 k) in
    rw halved (ground (arith, bit-pow k j))

pub bit-pow_self : (k : ℕ) → bit (2 ^ k) k ≡ 1
bit-pow_self k = ground (arith, bit-pow k k)

pub bit-pow_ne : (k j : ℕ) → (k == j) ≡ false → bit (2 ^ k) j ≡ 0
bit-pow_ne k j e = ground (arith, bit-pow k j)

pub pow-lt : (n k : ℕ) → k < n → 2 ^ k < 2 ^ n
pow-lt zero k h = absurd (omega arith)
pow-lt (suc n) k h = elim (Bool-cases (k == n)) [
  | inl e ↦
      omega (arith, pow-suc 2 n, ap (λ (x : ℕ). 2 ^ x) (==→eq k n e), one-le-pow n 2 (omega arith))
  | inr e ↦ omega (arith, pow-suc 2 n, pow-lt n k (omega (arith, ==→ne k n e)))
]

-- `~w` at width `n`.
abbrev pub complement : ℕ → ℕ → ℕ
complement n w = 2 ^ n - 1 - w

pub bit-complement : (n w k : ℕ) → w < 2 ^ n → k < n → bit (complement n w) k ≡ 1 - bit w k
bit-complement zero w k l h = absurd (omega arith)
bit-complement (suc n) w zero l h = omega (arith, pow-suc 2 n)
bit-complement (suc n) w (suc k) l h =
    ap (λ x. bit x k) (omega (arith, pow-suc 2 n))
    ∙ bit-complement n (w / 2) k (omega (arith, pow-suc 2 n)) (omega arith)

masked_ne_zero : (w k : ℕ) → bit w k ≡ 1 → bit_and w (2 ^ k) ≢ 0
masked_ne_zero w k e z = absurd (
    omega
      (arith, bit-zero k, ap (λ (x : ℕ). bit x k) z, bit-bit_and w (2 ^ k) k, e, bit-pow_self k))

masked_zero : (w k : ℕ) → bit w k ≡ 0 → bit_and w (2 ^ k) ≡ 0
masked_zero w k e =
    zero_of_bits (bit_and w (2 ^ k)) (bit_and w (2 ^ k)) (omega arith)
      (λ j. bit-bit_and w (2 ^ k) j ∙ one_side j)
  where
    one_side : (j : ℕ) → min (bit w j) (bit (2 ^ k) j) ≡ 0
    one_side j = elim (Bool-cases (k == j)) [
      | inl at ↦ omega (arith, e, ap (λ (x : ℕ). bit w x) (==→eq k j at))
      | inr ne ↦ omega (arith, bit-pow_ne k j ne)
    ]

-- `(w & (1 << k)) != 0` is bit `k`.
pub mask_test : (w k : ℕ) → not (bit_and w (2 ^ k) == 0) ≡ (bit w k == 1)
mask_test w k = elim (Bool-cases (bit w k == 1)) [
  | inl e ↦ rw (e, ne→== _ 0 (masked_ne_zero w k (==→eq _ _ e)))
  | inr e ↦ rw (e, masked_zero w k (omega (arith, bit-le w k, ==→ne _ _ e)))
]

-- Words compare as their bits do, where one has no bit that the other lacks.
le_of_bits : (n a b : ℕ) → a ≤ n → ((k : ℕ) → bit a k ≤ bit b k) → a ≤ b
le_of_bits n zero b l h = omega arith
le_of_bits zero (suc a) b l h = absurd (omega arith)
le_of_bits (suc n) (suc a) b l h =
    omega (arith, h 0, le_of_bits n (suc a / 2) (b / 2) (omega arith) (λ k. h (suc k)))

pub bit_and-le : (a b : ℕ) → bit_and a b ≤ b
bit_and-le a b =
    le_of_bits (bit_and a b) (bit_and a b) b (omega arith) (λ k. omega (arith, bit-bit_and a b k))
