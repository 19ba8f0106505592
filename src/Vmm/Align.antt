-- ===== src/Vmm/Align.antt =====
-- Rounding to pages, `align_up` and `align_down` of src/MemoryManager/vmm.c.
use mini_user_os.Prelude.{ℕ, ◌+◌, ◌*◌, ◌/◌, ◌^◌, ◌-◌, ◌<◌, ◌≡◌, ◌∙◌, ap, bit_and, arith}
use mini_user_os.Bits.{bit_and_low, bit_and_high}
use mini_user_os.Machine.{word, add64, sub64}
use mini_user_os.Vmm.Structs.{align_up, align_down}

high_bits : (x : ℕ) → x < word → bit_and x (2 ^ 12 * (2 ^ 52 - 1)) ≡ 4096 * (x / 4096)
high_bits x h =
    bit_and_high 12 x (2 ^ 52 - 1) ∙ ap (λ t. 4096 * t) (omega (arith, bit_and_low 52 (x / 4096)))

pub align_down-page : (x : ℕ) → x < word → align_down x 4096 ≡ 4096 * (x / 4096)
unfolding align_down
align_down-page x h = high_bits x h

pub align_up-page : (x : ℕ) → x + 4095 < word → align_up x 4096 ≡ 4096 * ((x + 4095) / 4096)
unfolding align_up
align_up-page x h = ap (λ y. bit_and y (2 ^ 12 * (2 ^ 52 - 1))) same ∙ high_bits (x + 4095) h
  where
    same : sub64 (add64 x 4096) 1 ≡ x + 4095
    same = omega arith
