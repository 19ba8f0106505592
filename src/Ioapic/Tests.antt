-- ===== src/Ioapic/Tests.antt =====
-- The interrupt controller at concrete inputs: a register file behind a selector.
use mini_user_os.Prelude.{
  ℕ, ◌+◌, ◌*◌, ◌-◌, ◌^◌, ◌<◌, ◌≤◌, ◌≡◌, ◌≢◌, refl, ap, false, ◌==◌, if◌then◌else◌, arith, bit_and,
  bit_or,
}
use mini_user_os.Machine.{Memory, write, write_self, write_ne}
use mini_user_os.Ioapic.{
  Window, ioapic_regsel, ioapic_ver, ioapic_mask_irq, ioapic_unmask_irq, ioapic_init,
  ioapic_int_masked, irq_keyboard, irq_timer, max_redir_of,
}
use mini_user_os.Ioapic.Fields.{IsIoapic, fields, entry_low, entry_high}
use mini_user_os.Ioapic.Entries.{ioapic_mask_irq-entry, ioapic_init-entries}

-- The version register shows 24 entries.
abbrev version : ℕ
version = 0x170020

-- The selected register and the registers, but for the version.
abbrev file : Window
file = record {
  State = ℕ × Memory;
  store = λ offset v s. if offset == ioapic_regsel then (v, s.1) else (s.0, write s.1 s.0 v);
  load = λ offset s. (if s.0 == ioapic_ver then version else s.1 s.0, s);
}

abbrev file_reg : ℕ × Memory → ℕ → ℕ
file_reg s r = if r == ioapic_ver then version else fields r (s.1 r)

below_table : (r : ℕ) → 16 ≤ r → (r == ioapic_ver) ≡ false
below_table r h = ground arith

file-IsIoapic : IsIoapic file file_reg
file-IsIoapic = record {
  read_version = λ s. refl;
  read = λ s r low high. rw (below_table r low) refl;
  read_same = λ s r q. refl;
  written = λ s r v low high. rw (below_table r low) (ap (fields r) (write_self s.1 r v));
  kept = λ s r v q low high ne.
      ap (λ x. if q == ioapic_ver then version else fields q x) (write_ne s.1 r v q ne);
  two_entries = λ s. omega arith;
}

abbrev blank : ℕ × Memory
blank = (0, λ r. 0)

ioapic_mask_irq-entry_example :
    let masked = ioapic_mask_irq file 4 blank in
    let unmasked = ioapic_unmask_irq file 4 blank in
    (file_reg masked (entry_low 4) ≡ bit_or (file_reg blank (entry_low 4)) ioapic_int_masked)
    × (file_reg unmasked (entry_low 4)
        ≡ bit_and (file_reg blank (entry_low 4)) (0xFFFF_FFFF - ioapic_int_masked))
    × ((q : ℕ)
        → q ≢ entry_low 4
        → (file_reg masked q ≡ file_reg blank q) × (file_reg unmasked q ≡ file_reg blank q))
ioapic_mask_irq-entry_example =
    ioapic_mask_irq-entry file file_reg file-IsIoapic 4 blank (omega arith) (omega arith)

few_entries : max_redir_of (file_reg blank ioapic_ver) ≤ 120
unfolding max_redir_of
few_entries = omega arith

ioapic_init-entries_example :
    let s' = ioapic_init file 0 blank in
    ((irq : ℕ)
      → 2 ≤ irq
      → irq < max_redir_of (file_reg blank ioapic_ver)
      → file_reg s' (entry_low irq) ≡ bit_or ioapic_int_masked (0x20 + irq))
    × (file_reg s' (entry_low irq_keyboard) ≡ 33)
    × (file_reg s' (entry_high irq_keyboard) ≡ 0 * 2 ^ 24)
    × (file_reg s' (entry_low irq_timer) ≡ 32)
    × (file_reg s' (entry_high irq_timer) ≡ 0 * 2 ^ 24)
ioapic_init-entries_example = ioapic_init-entries file file_reg file-IsIoapic 0 blank few_entries
