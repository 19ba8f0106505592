-- ===== src/SystemTables/Words.antt =====
-- The numbers in the tables of src/Initialize/systemTables.c, in bytes of memory.
use mini_user_os.Prelude.{ℕ, ◌+◌, ◌*◌, ◌^◌, ◌≡◌, ap, arith}
use mini_user_os.SystemTables.{Bytes, field}

-- The number in the four bytes from an address on, the lowest one first, and that in eight.
abbrev pub u32 : Bytes → ℕ → ℕ
u32 b p = b p + 2 ^ 8 * b (p + 1) + 2 ^ 16 * b (p + 2) + 2 ^ 24 * b (p + 3)

abbrev pub u64 : Bytes → ℕ → ℕ
u64 b p = u32 b p + 2 ^ 32 * u32 b (p + 4)

-- A field of four bytes is the first number.
pub field-u32 : (p : ℕ) (b : Bytes) → field 4 p b ≡ u32 b p
unfolding field
field-u32 p b = omega (arith, second, third)
  where
    second : b (p + 1 + 1) ≡ b (p + 2)
    second = ap b (omega arith)

    third : b (p + 1 + 1 + 1) ≡ b (p + 3)
    third = ap b (omega arith)

field-append : (p : ℕ) (b : Bytes) → field 8 p b ≡ field 4 p b + 2 ^ 32 * field 4 (p + 4) b
unfolding field
field-append p b = omega (arith, four, five, six, seven)
  where
    four : b (p + 1 + 1 + 1 + 1) ≡ b (p + 4)
    four = ap b (omega arith)

    five : b (p + 1 + 1 + 1 + 1 + 1) ≡ b (p + 4 + 1)
    five = ap b (omega arith)

    six : b (p + 1 + 1 + 1 + 1 + 1 + 1) ≡ b (p + 4 + 1 + 1)
    six = ap b (omega arith)

    seven : b (p + 1 + 1 + 1 + 1 + 1 + 1 + 1) ≡ b (p + 4 + 1 + 1 + 1)
    seven = ap b (omega arith)

-- A field of eight bytes is the second.
pub field-u64 : (p : ℕ) (b : Bytes) → field 8 p b ≡ u64 b p
field-u64 p b = omega (arith, field-append p b, field-u32 p b, field-u32 (p + 4) b)
