-- ===== src/Ioapic.antt =====
-- The interrupt controllers, src/Root/apic.c and include/Root/apic.h. The I/O APIC's register window is
-- a parameter: a device with a store and a load of 32-bit words at offsets in the window.
use mini_user_os.Prelude.{
  ℕ, zero, suc, ◌+◌, ◌*◌, ◌-◌, ◌/◌, ◌%◌, ◌^◌, ◌≡◌, ◌==◌, if◌then◌else◌, bit_and, bit_or,
}
pub mod Fields
pub mod Entries
mod Tests

abbrev pub ioapic_regsel : ℕ
ioapic_regsel = 0x00

abbrev pub ioapic_iowin : ℕ
ioapic_iowin = 0x10

abbrev pub ioapic_ver : ℕ
ioapic_ver = 0x01

abbrev pub ioapic_redtbl : ℕ
ioapic_redtbl = 0x10

abbrev pub ioapic_int_masked : ℕ
ioapic_int_masked = 2 ^ 16

abbrev pub irq_base_vector : ℕ
irq_base_vector = 32

abbrev pub irq_timer : ℕ
irq_timer = 0

abbrev pub irq_keyboard : ℕ
irq_keyboard = 1

-- The window of memory at `IOAPIC_BASE`.
pub record Window : Type 1 where
  pub State : Type 0
  pub store : ℕ → ℕ → State → State
  pub load : ℕ → State → ℕ × State

-- `((ver >> 16) & 0xFF) + 1` in 8 bits
unfoldable pub max_redir_of : ℕ → ℕ
max_redir_of ver = (bit_and (ver / 2 ^ 16) 0xFF + 1) % 2 ^ 8

module _ (w : Window) where
  -- The register is a `uint8_t`.
  unfoldable pub ioapic_write : ℕ → ℕ → w.State → w.State
  ioapic_write reg value s = w.store ioapic_iowin value (w.store ioapic_regsel (reg % 2 ^ 8) s)

  unfoldable pub ioapic_read : ℕ → w.State → ℕ × w.State
  ioapic_read reg s = w.load ioapic_iowin (w.store ioapic_regsel (reg % 2 ^ 8) s)

  unfoldable pub ioapic_set_irq : ℕ → ℕ → ℕ → ℕ → w.State → w.State
  ioapic_set_irq irq vector dest_cpu flags s =
      let reg_lo = ioapic_redtbl + irq * 2 in
      let reg_hi = ioapic_redtbl + irq * 2 + 1 in
      ioapic_write reg_lo (bit_or vector flags) (ioapic_write reg_hi (dest_cpu * 2 ^ 24) s)

  unfoldable pub ioapic_mask_irq : ℕ → w.State → w.State
  ioapic_mask_irq irq s =
      let reg = ioapic_redtbl + irq * 2 in
      let (value, s') = ioapic_read reg s in ioapic_write reg (bit_or value ioapic_int_masked) s'

  -- `value & ~IOAPIC_INT_MASKED`
  unfoldable pub ioapic_unmask_irq : ℕ → w.State → w.State
  ioapic_unmask_irq irq s =
      let reg = ioapic_redtbl + irq * 2 in
      let (value, s') = ioapic_read reg s in
      ioapic_write reg (bit_and value (0xFFFF_FFFF - ioapic_int_masked)) s'

  -- `for (i; i < max_redir; i++)`, with the rounds that are left first
  unfoldable pub mask_from : ℕ → ℕ → w.State → w.State
  mask_from zero i s = s
  mask_from (suc left) i s =
      mask_from left (i + 1)
        (ioapic_write (ioapic_redtbl + i * 2) (bit_or ioapic_int_masked (0x20 + i)) s)

  -- The part of `ioapic_init` behind the loop. The entries read back are printed only.
  unfoldable pub route_irqs : ℕ → w.State → w.State
  route_irqs cpu_id s2 =
      let s3 = ioapic_write (ioapic_redtbl + irq_keyboard * 2 + 1) (cpu_id * 2 ^ 24) s2 in
      let s4 =
        ioapic_write (ioapic_redtbl + irq_keyboard * 2) (irq_base_vector + irq_keyboard) s3 in
      let s5 = ioapic_write (ioapic_redtbl + irq_timer * 2 + 1) (cpu_id * 2 ^ 24) s4 in
      let s6 = ioapic_write (ioapic_redtbl + irq_timer * 2) (irq_base_vector + irq_timer) s5 in
      let s7 = (ioapic_read (ioapic_redtbl + irq_keyboard * 2) s6).1 in
      (ioapic_read (ioapic_redtbl + irq_timer * 2) s7).1

  -- `cpu_id` is what `lapic_get_id` returns.
  unfoldable pub ioapic_init : ℕ → w.State → w.State
  ioapic_init cpu_id s =
      let (ver, s1) = ioapic_read ioapic_ver s in
      route_irqs cpu_id (mask_from (max_redir_of ver) 0 s1)
