-- ===== src/Console/Digits.antt =====
-- The digits that the console prints (src/Initialize/baseConsole.c) stand for the number.
use mini_user_os.Prelude.{
  ℕ, zero, suc, ◌+◌, ◌*◌, ◌-◌, ◌/◌, ◌%◌, ◌^◌, ◌<◌, ◌≡◌, ◌≢◌, refl, sym, ap, ◌∙◌, ltb, if◌then◌else◌,
  List, [], ◌∷◌, arith, bit_and, ℕ_discrete,
}
use native.Mathlib.Nat.{pow-suc}
use mini_user_os.Bits.{bit_and_low}
use mini_user_os.Machine.{word}
use mini_user_os.Console.{hex_char, hex_from, dec_from}

-- The value of a decimal string that follows the value `n`.
abbrev pub read_dec : ℕ → List ℕ → ℕ
read_dec n [] = n
read_dec n (c ∷ cs) = read_dec (n * 10 + (c - 48)) cs

abbrev pub hex_value : ℕ → ℕ
hex_value c = if ltb c 65 then c - 48 else c - 55

abbrev pub read_hex : ℕ → List ℕ → ℕ
read_hex n [] = n
read_hex n (c ∷ cs) = read_hex (n * 16 + hex_value c) cs

hex_value-hex_char : (d : ℕ) → d < 16 → hex_value (hex_char d) ≡ d
hex_value-hex_char d h = ground arith

dec_from-stop : (room : ℕ) (buf : List ℕ) → dec_from (suc room) 0 buf ≡ buf
unfolding dec_from
dec_from-stop room buf = refl

dec_from-digit :
    (room val : ℕ) (buf : List ℕ)
    → val ≢ 0
    → dec_from (suc room) val buf ≡ dec_from room (val / 10) ((48 + val % 10) ∷ buf)
unfolding dec_from
dec_from-digit room val buf ne = ground arith

-- What is printed in front of `buf` is read as `val`, with room for its digits.
dec_from-read :
    (room val : ℕ) (buf : List ℕ)
    → val < 10 ^ room
    → read_dec 0 (dec_from room val buf) ≡ read_dec val buf
unfolding dec_from
dec_from-read zero val buf h = ap (λ n. read_dec n buf) (omega arith)
dec_from-read (suc room) val buf h = elim (ℕ_discrete val 0) [
  | yes none_left ↦
      ap (λ n. read_dec 0 (dec_from (suc room) n buf)) none_left
      ∙ ap (λ n. read_dec n buf) (sym none_left)
  | no more ↦
      ap (read_dec 0) (dec_from-digit room val buf more)
      ∙ dec_from-read room (val / 10) ((48 + val % 10) ∷ buf) (omega (arith, pow-suc 10 room))
      ∙ ap (λ n. read_dec n buf) (omega arith)
]

hex_from-read :
    (left val : ℕ) (buf : List ℕ)
    → val < 16 ^ left
    → read_hex 0 (hex_from left val buf) ≡ read_hex val buf
unfolding hex_from
hex_from-read zero val buf h = ap (λ n. read_hex n buf) (omega arith)
hex_from-read (suc left) val buf h =
    let low = bit_and_low 4 val in
    hex_from-read left (val / 2 ^ 4) (hex_char (bit_and val 0xF) ∷ buf)
      (omega (arith, pow-suc 16 left))
    ∙ ap (λ n. read_hex n buf)
        (omega (arith, low, hex_value-hex_char (bit_and val 0xF) (omega (arith, low))))

-- The characters that `console_print_dec` puts into its buffer of 20 for a 64-bit number, and the
-- sixteen that `console_print_hex` puts behind `0x`, are read as that number: no digit is cut off.
pub printed-read :
    (val : ℕ)
    → val < word
    → (read_dec 0 (dec_from 20 val []) ≡ val) × (read_hex 0 (hex_from 16 val []) ≡ val)
printed-read val h = (dec_from-read 20 val [] (omega arith), hex_from-read 16 val [] (omega arith))
