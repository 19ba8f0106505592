-- ===== src/Ioapic/Fields.antt =====
-- The documented behaviour of the I/O APIC that src/Root/apic.c relies on.
use mini_user_os.Prelude.{
  ℕ, ◌+◌, ◌*◌, ◌-◌, ◌%◌, ◌^◌, ◌<◌, ◌≤◌, ◌≡◌, ◌≢◌, refl, ap, sym, ◌∙◌, ◌/◌, ◌==◌, true, false,
  if◌then◌else◌, arith, bit_and, bit_or,
}
use mini_user_os.Bits.{bit_and-or, bit_and_assoc, bit_and_low}
use mini_user_os.Ioapic.{
  Window, ioapic_regsel, ioapic_iowin, ioapic_redtbl, ioapic_int_masked, max_redir_of,
}

-- How many entries the table has, by the version register.
abbrev pub entries_in : ℕ → ℕ
entries_in version = version / 2 ^ 16 % 2 ^ 8 + 1

-- The fields of a register of the table that can be written: in the low one of an entry all below bit 17
-- but the delivery status, bit 12, and the remote IRR, bit 14; in the high one the destination, from bit
-- 24 on.
abbrev pub fields : ℕ → ℕ → ℕ
fields r v = if r % 2 == 0 then bit_and v 0x1AFFF else v / 2 ^ 24 * 2 ^ 24

-- The documented behaviour of the window: the word at IOWIN is the register that REGSEL selects. `reg` is
-- the version register, at 1, and the fields of the table's registers, from 16 on, that can be written; a
-- store into a register of one of the entries sets its fields, and no others. The table has entries for
-- the timer and the keyboard.
pub record IsIoapic (w : Window) (reg : w.State → ℕ → ℕ) : Type 0 where
  pub read_version : (s : w.State) → (w.load ioapic_iowin (w.store ioapic_regsel 1 s)).0 ≡ reg s 1
  pub read :
      (s : w.State) (r : ℕ)
      → 16 ≤ r
      → r < 16 + 2 * entries_in (reg s 1)
      → fields r (w.load ioapic_iowin (w.store ioapic_regsel r s)).0 ≡ reg s r
  pub read_same :
      (s : w.State) (r q : ℕ) → reg (w.load ioapic_iowin (w.store ioapic_regsel r s)).1 q ≡ reg s q
  pub written :
      (s : w.State) (r v : ℕ)
      → 16 ≤ r
      → r < 16 + 2 * entries_in (reg s 1)
      → reg (w.store ioapic_iowin v (w.store ioapic_regsel r s)) r ≡ fields r v
  pub kept :
      (s : w.State) (r v q : ℕ)
      → 16 ≤ r
      → r < 16 + 2 * entries_in (reg s 1)
      → q ≢ r
      → reg (w.store ioapic_iowin v (w.store ioapic_regsel r s)) q ≡ reg s q
  pub two_entries : (s : w.State) → 2 ≤ entries_in (reg s 1)

-- The two registers of an interrupt.
abbrev pub entry_low : ℕ → ℕ
entry_low irq = ioapic_redtbl + irq * 2

abbrev pub entry_high : ℕ → ℕ
entry_high irq = ioapic_redtbl + irq * 2 + 1

fields-low : (irq v : ℕ) → fields (entry_low irq) v ≡ bit_and v 0x1AFFF
fields-low irq v = rw test refl
  where
    test : (entry_low irq % 2 == 0) ≡ true
    test = ground arith

pub fields-high : (irq cpu : ℕ) → fields (entry_high irq) (cpu * 2 ^ 24) ≡ cpu * 2 ^ 24
fields-high irq cpu = rw test (omega arith)
  where
    test : (entry_high irq % 2 == 0) ≡ false
    test = ground arith

-- Setting or clearing the mask bit is the same before and behind the choice of the fields.
pub fields-mask :
    (irq v : ℕ)
    → fields (entry_low irq) (bit_or v ioapic_int_masked)
      ≡ bit_or (fields (entry_low irq) v) ioapic_int_masked
fields-mask irq v =
    fields-low irq (bit_or v ioapic_int_masked)
    ∙ bit_and-or v ioapic_int_masked 0x1AFFF
    ∙ ap (λ f. bit_or f ioapic_int_masked) (sym (fields-low irq v))

pub fields-unmask :
    (irq v : ℕ)
    → fields (entry_low irq) (bit_and v (0xFFFF_FFFF - ioapic_int_masked))
      ≡ bit_and (fields (entry_low irq) v) (0xFFFF_FFFF - ioapic_int_masked)
fields-unmask irq v =
    fields-low irq (bit_and v (0xFFFF_FFFF - ioapic_int_masked))
    ∙ bit_and_assoc v (0xFFFF_FFFF - ioapic_int_masked) 0x1AFFF
    ∙ sym (bit_and_assoc v 0x1AFFF (0xFFFF_FFFF - ioapic_int_masked))
    ∙ ap (λ f. bit_and f (0xFFFF_FFFF - ioapic_int_masked)) (sym (fields-low irq v))

small-fields : (x : ℕ) → x < 2 ^ 12 → bit_and x 0x1AFFF ≡ x
small-fields x h =
    ap (λ y. bit_and y 0x1AFFF) (sym low) ∙ bit_and_assoc x (2 ^ 12 - 1) 0x1AFFF ∙ low
  where
    low : bit_and x (2 ^ 12 - 1) ≡ x
    low = bit_and_low 12 x ∙ omega arith

pub fields-masked :
    (irq x : ℕ)
    → x < 2 ^ 12
    → fields (entry_low irq) (bit_or ioapic_int_masked x) ≡ bit_or ioapic_int_masked x
fields-masked irq x h =
    fields-low irq (bit_or ioapic_int_masked x)
    ∙ bit_and-or ioapic_int_masked x 0x1AFFF
    ∙ ap (bit_or ioapic_int_masked) (small-fields x h)

pub max_redir_of-entries_in : (version : ℕ) → max_redir_of version ≤ entries_in version
unfolding max_redir_of
max_redir_of-entries_in version = omega (arith, bit_and_low 8 (version / 2 ^ 16))
