-- ===== src/Bits/Step.antt =====
-- `&` and `|` of the native numbers, from their lowest binary digit on.
use Prim.Native.Nat.{digits, bit_and-bitwise, bit_or-bitwise}
use mini_user_os.Prelude.{
  ℕ, zero, suc, ◌+◌, ◌*◌, ◌/◌, ◌%◌, ◌≤◌, min, max, bit_and, bit_or, ◌≡◌, ◌∙◌, refl, arith, dec_lt,
  ap,
}

-- A recursion over binary digits, with as many rounds as the first number.
module _ (last : ℕ → ℕ) (join : ℕ → ℕ → ℕ) where
  one_more :
      (rounds x y : ℕ)
      → x ≤ rounds
      → digits last join (suc rounds) x y ≡ digits last join rounds x y
  one_more zero zero y h = refl
  one_more (suc rounds) zero y h = refl
  one_more zero (suc x) y h = absurd (omega arith)
  one_more (suc rounds) (suc x) y h =
      ap (λ r. r * 2 + join (suc x % 2) (y % 2)) (one_more rounds (suc x / 2) (y / 2) (omega arith))

  settled : (rounds x y : ℕ) → x ≤ rounds → digits last join rounds x y ≡ digits last join x x y
  settled zero zero y h = refl
  settled zero (suc x) y h = absurd (omega arith)
  settled (suc rounds) x y h = elim (dec_lt rounds x) [
    | yes all ↦
        let same : suc rounds ≡ x = omega (arith, all, h) in ap (λ n. digits last join n x y) same
    | no fewer ↦ one_more rounds x y (omega arith) ∙ settled rounds x y (omega arith)
  ]

pub zero-bit_and : (y : ℕ) → bit_and 0 y ≡ 0
zero-bit_and = bit_and-bitwise 0

pub zero-bit_or : (y : ℕ) → bit_or 0 y ≡ y
zero-bit_or = bit_or-bitwise 0

pub bit_and_step : (x y : ℕ) → bit_and x y ≡ min (x % 2) (y % 2) + 2 * bit_and (x / 2) (y / 2)
bit_and_step zero y = omega (arith, zero-bit_and y, zero-bit_and (y / 2))
bit_and_step (suc x) y =
    let halves = settled (λ d. 0) min x (suc x / 2) (y / 2) (omega arith) in
    omega (arith, halves, bit_and-bitwise (suc x / 2) (y / 2), bit_and-bitwise (suc x) y)

pub bit_or_step : (x y : ℕ) → bit_or x y ≡ max (x % 2) (y % 2) + 2 * bit_or (x / 2) (y / 2)
bit_or_step zero y = omega (arith, zero-bit_or y, zero-bit_or (y / 2))
bit_or_step (suc x) y =
    let halves = settled (λ d. d) max x (suc x / 2) (y / 2) (omega arith) in
    omega (arith, halves, bit_or-bitwise (suc x / 2) (y / 2), bit_or-bitwise (suc x) y)
