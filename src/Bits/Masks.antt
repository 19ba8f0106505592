-- ===== src/Bits/Masks.antt =====
-- What a machine word's masks and tests are as arithmetic, and the lattice laws of `&` and `|`.
use mini_user_os.Prelude.{
  ℕ, zero, suc, ◌+◌, ◌-◌, ◌*◌, ◌/◌, ◌%◌, ◌^◌, ◌<◌, ◌≤◌, min, max, bit_and, bit_or, ◌≡◌, arith, ap,
  ◌∙◌,
}
use mini_user_os.Bits.Step.{bit_and_step, bit_or_step, zero-bit_and, zero-bit_or}
use native.Mathlib.Nat.{
  pow-suc, pow-succ', one-le-pow, mul-add-mod_self_left, mod-eq_of_lt, mod-lt, div-add-mod,
  mul_assoc, one-mul, div-one, div-div-eq-div-mul,
}

-- Bit `k` of `x`, as 0 or 1.
unfoldable pub bit : ℕ → ℕ → ℕ
bit x zero = x % 2
bit x (suc k) = bit (x / 2) k

bit_or-half : (a b : ℕ) → bit_or a b / 2 ≡ bit_or (a / 2) (b / 2)
bit_or-half a b = omega (arith, bit_or_step a b)

bit_and-half : (a b : ℕ) → bit_and a b / 2 ≡ bit_and (a / 2) (b / 2)
bit_and-half a b = omega (arith, bit_and_step a b)

pub bit-or : (a b k : ℕ) → bit (bit_or a b) k ≡ max (bit a k) (bit b k)
unfolding bit
bit-or a b zero = omega (arith, bit_or_step a b)
bit-or a b (suc k) = rw bit_or-half (bit-or (a / 2) (b / 2) k)

pub bit-and : (a b k : ℕ) → bit (bit_and a b) k ≡ min (bit a k) (bit b k)
unfolding bit
bit-and a b zero = omega (arith, bit_and_step a b)
bit-and a b (suc k) = rw bit_and-half (bit-and (a / 2) (b / 2) k)

bit_ext_upto : (n a b : ℕ) → a ≤ n → b ≤ n → ((k : ℕ) → bit a k ≡ bit b k) → a ≡ b
unfolding bit
bit_ext_upto zero a b p q h = omega arith
bit_ext_upto (suc n) a b p q h =
    omega (arith, h 0, bit_ext_upto n (a / 2) (b / 2) (omega arith) (omega arith) (λ k. h (suc k)))

-- Numbers with the same bits are equal.
pub bit_ext : (a b : ℕ) → ((k : ℕ) → bit a k ≡ bit b k) → a ≡ b
bit_ext a b h = bit_ext_upto (max a b) a b (omega arith) (omega arith) h

pub bit_and_comm : (a b : ℕ) → bit_and a b ≡ bit_and b a
bit_and_comm a b = bit_ext _ _ λ k. omega (arith, bit-and a b k, bit-and b a k)

pub bit_and_assoc : (a b c : ℕ) → bit_and (bit_and a b) c ≡ bit_and a (bit_and b c)
bit_and_assoc a b c = bit_ext _ _ λ k. rw (bit-and, bit-and, bit-and, bit-and) (omega arith)

pub bit_or_comm : (a b : ℕ) → bit_or a b ≡ bit_or b a
bit_or_comm a b = bit_ext _ _ λ k. omega (arith, bit-or a b k, bit-or b a k)

pub bit_and-or : (a b m : ℕ) → bit_and (bit_or a b) m ≡ bit_or (bit_and a m) (bit_and b m)
bit_and-or a b m = bit_ext _ _ λ k. rw (bit-and, bit-or, bit-or, bit-and, bit-and) (omega arith)

pub bit_or-zero : (a : ℕ) → bit_or a 0 ≡ a
bit_or-zero a = rw (bit_or_comm a 0) (zero-bit_or a)

pub bit_and-zero : (a : ℕ) → bit_and a 0 ≡ 0
bit_and-zero a = rw (bit_and_comm a 0) (zero-bit_and a)

pub bit_and_self : (a : ℕ) → bit_and a a ≡ a
bit_and_self a = bit_ext _ _ λ k. omega (arith, bit-and a a k)

-- Masking twice is masking once.
pub bit_and_twice : (a m : ℕ) → bit_and (bit_and a m) m ≡ bit_and a m
bit_and_twice a m = rw (bit_and_assoc a m m, bit_and_self m)

-- The remainder by `2 * m` in terms of the lowest digit.
mod-double : (a m : ℕ) → 0 < m → a % (2 * m) ≡ a / 2 % m * 2 + a % 2
mod-double a m h = rw whole (mul-add-mod_self_left (2 * m) (a / 2 / m) rest ∙ mod-eq_of_lt small)
  where
    rest : ℕ
    rest = a / 2 % m * 2 + a % 2

    whole : a % (2 * m) ≡ (2 * m * (a / 2 / m) + rest) % (2 * m)
    whole = ap (λ t. t % (2 * m)) (omega (arith, div-add-mod (a / 2) m))

    small : rest < 2 * m
    small = omega (arith, mod-lt (a / 2) h)

-- A mask of the `k` lowest bits is the remainder by `2 ^ k`.
pub bit_and_low : (k a : ℕ) → bit_and a (2 ^ k - 1) ≡ a % 2 ^ k
bit_and_low zero a = omega (arith, bit_and-zero a)
bit_and_low (suc k) a = omega (
  arith,
  bit_and_step a (2 ^ suc k - 1),
  pow-suc 2 k,
  one-le-pow k 2,
  half,
  bit_and_low k (a / 2),
  double,
)
  where
    half : bit_and (a / 2) ((2 ^ suc k - 1) / 2) ≡ bit_and (a / 2) (2 ^ k - 1)
    half = ap (bit_and (a / 2)) (omega (arith, pow-suc 2 k, one-le-pow k 2))

    double : a % 2 ^ suc k ≡ a / 2 % 2 ^ k * 2 + a % 2
    double = rw (pow-succ' 2 k) (mod-double a (2 ^ k) (omega (arith, one-le-pow k 2)))

bit_and-double : (a m : ℕ) → bit_and a (2 * m) ≡ 2 * bit_and (a / 2) m
bit_and-double a m = omega (arith, bit_and_step a (2 * m), ap (bit_and (a / 2)) halved)
  where
    halved : 2 * m / 2 ≡ m
    halved = omega arith

-- A mask shifted left by `j`.
pub bit_and_high : (j a m : ℕ) → bit_and a (2 ^ j * m) ≡ 2 ^ j * bit_and (a / 2 ^ j) m
bit_and_high zero a m = rw (one-mul m, div-one a) (omega arith)
bit_and_high (suc j) a m =
    rw
      (pow-succ' 2 j, mul_assoc 2 (2 ^ j) m, bit_and-double a (2 ^ j * m), bit_and_high j (a / 2) m)
      (rw (div-div-eq-div-mul a 2 (2 ^ j)) (omega arith))
