-- ===== src/Gdt/Fields.antt =====
-- The fields of a descriptor (src/Tables/gdt.c), put together the way the processor reads them.
use mini_user_os.Prelude.{ℕ, ◌+◌, ◌*◌, ◌/◌, ◌%◌, ◌^◌, ◌<◌, ◌≡◌, refl, ◌∙◌, arith, bit_and, bit_or}
use mini_user_os.Bits.{
  bit_and_low, bit_and-or, bit_and_assoc, bit_and_twice, bit_and-zero, bit_or-zero, bit_or_comm,
}
use mini_user_os.Gdt.{GdtEntry, TssDescriptor, gdt_create_entry, gdt_create_tss_entry, tss_limit}

abbrev pub entry_base : GdtEntry → ℕ
entry_base e = e.base_low + e.base_middle * 2 ^ 16 + e.base_high * 2 ^ 24

abbrev pub entry_limit : GdtEntry → ℕ
entry_limit e = e.limit_low + bit_and e.granularity 0x0F * 2 ^ 16

abbrev pub tss_base : TssDescriptor → ℕ
tss_base d = d.base_low + d.base_middle1 * 2 ^ 16 + d.base_middle2 * 2 ^ 24 + d.base_high * 2 ^ 32

abbrev pub descriptor_limit : TssDescriptor → ℕ
descriptor_limit d = d.limit_low + bit_and d.granularity 0x0F * 2 ^ 16

nibbles_low : (x flags : ℕ) → bit_and (bit_or (bit_and x 0x0F) (bit_and flags 0xF0)) 0x0F ≡ x % 16
nibbles_low x flags =
    rw (bit_and-or, bit_and_assoc flags 0xF0 0x0F, bit_and-zero, bit_or-zero, bit_and_twice)
      (bit_and_low 4 x)

nibbles_high :
    (x flags : ℕ) → bit_and (bit_or (bit_and x 0x0F) (bit_and flags 0xF0)) 0xF0 ≡ bit_and flags 0xF0
nibbles_high x flags =
    rw (bit_and-or, bit_and_assoc x 0x0F 0xF0, bit_and-zero, bit_and_twice)
      (bit_or_comm 0 (bit_and flags 0xF0) ∙ bit_or-zero (bit_and flags 0xF0))

-- From the descriptor that `gdt_create_entry` makes, the processor reads the 32-bit base address, the
-- low 20 bits of the limit, the access byte and the high four flags that it was given.
pub gdt_create_entry-fields :
    (base limit access flags : ℕ)
    → base < 2 ^ 32
    → let e = gdt_create_entry base limit access flags in
      (entry_base e ≡ base)
      × (entry_limit e ≡ limit % 2 ^ 20)
      × (e.access ≡ access)
      × (bit_and e.granularity 0xF0 ≡ bit_and flags 0xF0)
unfolding gdt_create_entry
gdt_create_entry-fields base limit access flags h = (
  omega
      (arith, h, bit_and_low 16 base, bit_and_low 8 (base / 2 ^ 16), bit_and_low 8 (base / 2 ^ 24)),
  omega (arith, bit_and_low 16 limit, nibbles_low (limit / 2 ^ 16) flags),
  refl,
  nibbles_high (limit / 2 ^ 16) flags,
)

-- From the descriptor that `gdt_create_tss_entry` makes, the processor reads the 64-bit address of the
-- task state and, for a size from 1 to 2 ^ 20, the size minus one as the limit.
pub gdt_create_tss_entry-fields :
    (address size : ℕ)
    → address < 2 ^ 64
    → 0 < size
    → size < 2 ^ 20 + 1
    → let d = gdt_create_tss_entry address size in
      (tss_base d ≡ address) × (descriptor_limit d + 1 ≡ size)
unfolding gdt_create_tss_entry
gdt_create_tss_entry-fields address size h pos small = (
  omega (
    arith,
    h,
    bit_and_low 16 address,
    bit_and_low 8 (address / 2 ^ 16),
    bit_and_low 8 (address / 2 ^ 24),
    bit_and_low 32 (address / 2 ^ 32),
  ),
  omega (
    arith,
    pos,
    small,
    bit_and_low 16 (tss_limit size),
    bit_and_low 4 (tss_limit size / 2 ^ 16),
    bit_and_twice (tss_limit size / 2 ^ 16) 0x0F,
  ),
)
