-- ===== src/Lapic.antt =====
-- The local APIC, the old interrupt controller and the PS/2 controller, src/Root/apic.c, with the port access
-- of include/Root/io.h. The hardware is a parameter; loops that wait for it run on fuel.
use mini_user_os.Prelude.{
  ℕ, zero, suc, ◌-◌, ◌/◌, ◌^◌, Bool, true, false, not, ◌==◌, if◌then◌else◌, bit_and, bit_or,
}
use mini_user_os.Ioapic.{Window, ioapic_read, ioapic_ver, mask_from, max_redir_of, route_irqs}

-- What the hardware does: ports, the registers of the local APIC by their number, the window of the I/O
-- APIC, and instructions.
pub record Board : Type 1 where
  pub State : Type 0
  pub inb : ℕ → State → ℕ × State
  pub outb : ℕ → ℕ → State → State
  pub io_wait : State → State
  pub lapic_store : ℕ → ℕ → State → State
  pub lapic_load : ℕ → State → ℕ × State
  pub ioapic_store : ℕ → ℕ → State → State
  pub ioapic_load : ℕ → State → ℕ × State
  pub read_msr : ℕ → State → ℕ
  pub write_msr : ℕ → ℕ → State → State
  -- `eax`, `ebx`, `ecx` and `edx` for a leaf
  pub cpuid : ℕ → ℕ × ℕ × ℕ × ℕ
  pub read_tsc : State → ℕ × State

abbrev pub window_of : Board → Window
window_of b = record { State = b.State; store = b.ioapic_store; load = b.ioapic_load }

abbrev pub lapic_id : ℕ
lapic_id = 0x020

abbrev pub lapic_tpr : ℕ
lapic_tpr = 0x080

abbrev pub lapic_eoi : ℕ
lapic_eoi = 0x0B0

abbrev pub lapic_svr : ℕ
lapic_svr = 0x0F0

abbrev pub lapic_esr : ℕ
lapic_esr = 0x280

abbrev pub lapic_timer : ℕ
lapic_timer = 0x320

abbrev pub lapic_thermal : ℕ
lapic_thermal = 0x330

abbrev pub lapic_perf : ℕ
lapic_perf = 0x340

abbrev pub lapic_lint0 : ℕ
lapic_lint0 = 0x350

abbrev pub lapic_lint1 : ℕ
lapic_lint1 = 0x360

abbrev pub lapic_error : ℕ
lapic_error = 0x370

abbrev pub lapic_timer_icr : ℕ
lapic_timer_icr = 0x380

abbrev pub lapic_timer_ccr : ℕ
lapic_timer_ccr = 0x390

abbrev pub lapic_timer_dcr : ℕ
lapic_timer_dcr = 0x3E0

abbrev pub lapic_svr_enable : ℕ
lapic_svr_enable = 0x100

abbrev pub lapic_lvt_masked : ℕ
lapic_lvt_masked = 0x10000

module _ (b : Board) where
  unfoldable pub cpu_has_apic : Bool
  cpu_has_apic = not (bit_and ((b.cpuid 1).3 / 2 ^ 9) 1 == 0)

  unfoldable pub enable_lapic_msr : b.State → b.State
  enable_lapic_msr s = b.write_msr 0x1B (bit_or (b.read_msr 0x1B s) (2 ^ 11)) s

  -- The store is followed by a load that waits for it.
  unfoldable pub lapic_write : ℕ → ℕ → b.State → b.State
  lapic_write reg value s = (b.lapic_load lapic_id (b.lapic_store reg value s)).1

  unfoldable pub lapic_read : ℕ → b.State → ℕ × b.State
  lapic_read reg s = b.lapic_load reg s

  unfoldable pub lapic_send_eoi : b.State → b.State
  lapic_send_eoi s = lapic_write lapic_eoi 0 s

  unfoldable pub lapic_get_id : b.State → ℕ × b.State
  lapic_get_id s = let (value, s1) = lapic_read lapic_id s in (bit_and (value / 2 ^ 24) 0xFF, s1)

  -- The base that the registers are read from is that of the parameter.
  unfoldable pub lapic_init : b.State → b.State
  lapic_init s =
      let s1 = lapic_write lapic_svr (bit_or lapic_svr_enable 0xFF) (enable_lapic_msr s) in
      let s2 = lapic_write lapic_thermal lapic_lvt_masked s1 in
      let s3 = lapic_write lapic_perf lapic_lvt_masked s2 in
      let s4 = lapic_write lapic_lint0 lapic_lvt_masked s3 in
      let s5 = lapic_write lapic_lint1 lapic_lvt_masked s4 in
      let s6 = lapic_write lapic_error lapic_lvt_masked s5 in
      let s7 = lapic_write lapic_esr 0 (lapic_write lapic_esr 0 s6) in
      let s8 = lapic_send_eoi (lapic_write lapic_tpr 0 s7) in (lapic_get_id s8).1

  unfoldable pub pic_disable : b.State → b.State
  pic_disable s =
      let s1 = b.io_wait (b.outb 0xA0 0x11 (b.outb 0x20 0x11 s)) in
      let s2 = b.io_wait (b.outb 0xA1 0xF8 (b.outb 0x21 0xF0 s1)) in
      let s3 = b.io_wait (b.outb 0xA1 0x02 (b.outb 0x21 0x04 s2)) in
      let s4 = b.io_wait (b.outb 0xA1 0x01 (b.outb 0x21 0x01 s3)) in
      b.outb 0xA1 0xFF (b.outb 0x21 0xFF s4)

  -- `while (inb(0x64) & 0x01) inb(0x60)`
  unfoldable pub flush_output : ℕ → b.State → b.State
  flush_output zero s = s
  flush_output (suc fuel) s =
      let (status, s1) = b.inb 0x64 s in
      let rest = flush_output fuel (b.inb 0x60 s1).1 in
      if bit_and status 0x01 == 0 then s1 else rest

  -- `while (inb(0x64) & 0x02)`
  unfoldable pub wait_input : ℕ → b.State → b.State
  wait_input zero s = s
  wait_input (suc fuel) s =
      let (status, s1) = b.inb 0x64 s in
      let rest = wait_input fuel s1 in if bit_and status 0x02 == 0 then s1 else rest

  -- `while (!(inb(0x64) & 0x01))`
  unfoldable pub wait_output : ℕ → b.State → b.State
  wait_output zero s = s
  wait_output (suc fuel) s =
      let (status, s1) = b.inb 0x64 s in
      let rest = wait_output fuel s1 in if bit_and status 0x01 == 0 then rest else s1

  -- `while (timeout-- > 0)`, with the rounds that are left
  unfoldable pub wait_ack : ℕ → b.State → b.State
  wait_ack zero s = s
  wait_ack (suc left) s =
      let (status, s1) = b.inb 0x64 s in
      let rest = wait_ack left s1 in if bit_and status 0x01 == 0 then rest else (b.inb 0x60 s1).1

  -- Interrupt 1 is enabled and port 1 no longer disabled.
  unfoldable pub config_of : ℕ → ℕ
  config_of config = bit_and (bit_or config 0x01) (0xFF - 0x10)

  unfoldable pub keyboard_init : ℕ → b.State → b.State
  keyboard_init fuel s =
      let s1 = wait_input fuel (flush_output fuel s) in
      let s2 = wait_input fuel (b.io_wait (b.outb 0x64 0xAE s1)) in
      let (config, s3) = b.inb 0x60 (wait_output fuel (b.outb 0x64 0x20 s2)) in
      let s4 = wait_input fuel (b.outb 0x64 0x60 (wait_input fuel s3)) in
      let s5 = wait_input fuel (b.outb 0x60 (config_of config) s4) in
      wait_ack 100000 (b.outb 0x60 0xF4 s5)

  -- Whether the result is 0, and the state. `ioapic_init` reads the processor's number behind its loop.
  unfoldable pub apic_init : ℕ → b.State → Bool × b.State
  apic_init fuel s =
      let s1 = lapic_init (pic_disable s) in
      let (ver, s2) = ioapic_read (window_of b) ioapic_ver s1 in
      let (cpu_id, s3) = lapic_get_id (mask_from (window_of b) (max_redir_of ver) 0 s2) in
      let s4 = route_irqs (window_of b) cpu_id s3 in
      if not cpu_has_apic then (false, s) else (true, keyboard_init fuel s4)
