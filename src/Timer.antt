-- ===== src/Timer.antt =====
-- The local APIC's timer, src/Drivers/timer.c. The hardware is a parameter.
pub mod Calibration
pub mod Ticks
mod Tests
use mini_user_os.Prelude.{
  ℕ, zero, suc, ◌+◌, ◌-◌, ◌*◌, ◌/◌, ◌%◌, ◌^◌, Bool, true, false, not, ◌&&◌, ◌||◌, ◌==◌, leb, ltb,
  if◌then◌else◌, bit_and, bit_or,
}
use mini_user_os.Machine.{add64, sub64}
use mini_user_os.Idt.{Idt, idt_register_handler}
use mini_user_os.Lapic.{
  Board, lapic_write, lapic_read, lapic_send_eoi, lapic_timer, lapic_timer_icr, lapic_timer_ccr,
  lapic_timer_dcr, lapic_lvt_masked,
}

-- `uint16_t pit_count`
abbrev pub pit_count : ℕ
pit_count = 11932

abbrev pub poll_limit : ℕ
poll_limit = 100000000

-- `0xFFFFFFFF - count` in 32 bits
abbrev pub elapsed : ℕ → ℕ
elapsed count = (2 ^ 32 + 0xFFFFFFFF - count) % 2 ^ 32

-- The fallback of the calibration.
abbrev pub default_ticks : ℕ
default_ticks = 1875000

-- `(ticks_per_10ms * 100) / frequency` in 32 bits, and at least 1
unfoldable pub initial_count_of : ℕ → ℕ → ℕ
initial_count_of ticks frequency =
    let count = (ticks * 100) % 2 ^ 32 / frequency in if count == 0 then 1 else count

module _ (b : Board) where
  -- The timer is started with the largest count.
  unfoldable pub start_timer : b.State → b.State
  start_timer s = lapic_write b lapic_timer_icr 0xFFFFFFFF (lapic_write b lapic_timer_dcr 0x03 s)

  -- The timer is masked; the ticks that have passed.
  unfoldable pub stop_timer : b.State → ℕ × b.State
  stop_timer s =
      let (count, s1) =
        lapic_read b lapic_timer_ccr (lapic_write b lapic_timer lapic_lvt_masked s) in
      (elapsed count, s1)

  -- `while (!(inb(0x61) & 0x20))`, with the value of `timeout`: whether the bit came in time.
  unfoldable pub poll_ch2 : ℕ → b.State → Bool × b.State
  poll_ch2 zero s = (false, s)
  poll_ch2 (suc timeout) s =
      let (status, s1) = b.inb 0x61 s in
      let rest = poll_ch2 timeout s1 in
      if not (bit_and status 0x20 == 0)
      then (true, s1)
      else if timeout == 0
      then (false, s1)
      else rest

  -- The programming of channel 2 and its gate; the old value of port 0x61 and the state.
  unfoldable pub setup_ch2 : b.State → ℕ × b.State
  setup_ch2 s =
      let (port61, s1) = b.inb 0x61 s in
      let s2 = b.outb 0x61 (bit_or (bit_and port61 0xFD) 0x01) s1 in
      let s3 = b.outb 0x42 (bit_and pit_count 0xFF) (b.outb 0x43 0xB0 s2) in
      let s4 = b.outb 0x42 (bit_and (pit_count / 2 ^ 8) 0xFF) s3 in
      let (tmp, s5) = b.inb 0x61 s4 in
      (port61, b.outb 0x61 (bit_or tmp 0x01) (b.outb 0x61 (bit_and tmp 0xFE) s5))

  unfoldable pub calibrate_via_pit_ch2 : b.State → ℕ × b.State
  calibrate_via_pit_ch2 s =
      let (port61, s1) = setup_ch2 s in
      let (ok, s2) = poll_ch2 poll_limit (start_timer s1) in
      let (ticks, s3) = stop_timer s2 in
      if ok
      then (ticks, b.outb 0x61 port61 s3)
      else (0, b.outb 0x61 port61 (lapic_write b lapic_timer lapic_lvt_masked s2))

  -- The counter of channel 0 behind a latch command.
  unfoldable pub read_ch0 : b.State → ℕ × b.State
  read_ch0 s =
      let (lo, s1) = b.inb 0x40 (b.outb 0x43 0x00 s) in
      let (hi, s2) = b.inb 0x40 s1 in (bit_or (hi * 2 ^ 8) lo, s2)

  -- `while (timeout-- > 0)`, with the value of `timeout`; the value that it leaves there, in 32 bits.
  unfoldable pub poll_ch0 : ℕ → ℕ → b.State → ℕ × b.State
  poll_ch0 zero prev_count s = (0xFFFFFFFF, s)
  poll_ch0 (suc timeout) prev_count s =
      let (current, s1) = read_ch0 s in
      let rest = poll_ch0 timeout current s1 in
      if ltb prev_count current then (timeout, s1) else rest

  unfoldable pub calibrate_via_pit_ch0 : b.State → ℕ × b.State
  calibrate_via_pit_ch0 s =
      let s1 = b.outb 0x40 (bit_and pit_count 0xFF) (b.outb 0x43 0x30 s) in
      let s2 = b.outb 0x40 (bit_and (pit_count / 2 ^ 8) 0xFF) s1 in
      let (timeout, s3) = poll_ch0 poll_limit pit_count (start_timer s2) in
      let (ticks, s4) = stop_timer s3 in if timeout == 0 then (0, s4) else (ticks, s4)

  -- `do ... while (tsc_end - tsc_start < tsc_wait)`, on fuel
  unfoldable pub wait_tsc : ℕ → ℕ → ℕ → b.State → b.State
  wait_tsc zero tsc_start tsc_wait s = s
  wait_tsc (suc fuel) tsc_start tsc_wait s =
      let (tsc_end, s1) = b.read_tsc s in
      let rest = wait_tsc fuel tsc_start tsc_wait s1 in
      if ltb (sub64 tsc_end tsc_start) tsc_wait then rest else s1

  unfoldable pub calibrate_via_tsc : ℕ → b.State → ℕ × b.State
  calibrate_via_tsc fuel s =
      let (eax, ebx, ecx, edx) = b.cpuid 0x15 in
      let tsc_freq = ecx * ebx / eax in
      let (tsc_start, s1) = b.read_tsc (start_timer s) in
      let measured = stop_timer (wait_tsc fuel tsc_start (tsc_freq / 100) s1) in
      if bit_and ((b.cpuid 0x80000007).3 / 2 ^ 8) 1 == 0
      then (0, s)
      else if eax == 0 || ebx == 0 || ecx == 0
      then (0, s)
      else measured

  unfoldable pub calibrate_apic_timer : ℕ → b.State → ℕ × b.State
  calibrate_apic_timer fuel s =
      let (tsc, s1) = calibrate_via_tsc fuel s in
      let (ch2, s2) = calibrate_via_pit_ch2 s1 in
      let (ch0, s3) = calibrate_via_pit_ch0 s2 in
      if ltb 0 tsc
      then (tsc, s1)
      else if ltb 0 ch2
      then (ch2, s2)
      else if ltb 0 ch0
      then (ch0, s3)
      else (default_ticks, s3)

  -- The part of `timer_init` behind the registration of the handler.
  unfoldable pub program_timer : ℕ → ℕ → b.State → b.State
  program_timer fuel frequency s =
      let (ticks, s1) = calibrate_apic_timer fuel s in
      let count = initial_count_of ticks frequency in
      let s2 =
        lapic_write b lapic_timer (bit_or 32 (2 ^ 17)) (lapic_write b lapic_timer_dcr 0x03 s1) in
      lapic_write b lapic_timer_icr count s2

  -- `timer_handler` is the handler's address.
  unfoldable pub timer_init : ℕ → ℕ → ℕ → Idt × b.State → Idt × b.State
  timer_init timer_handler fuel frequency (t, s) =
      (idt_register_handler 32 timer_handler t, program_timer fuel frequency s)

-- `timer_ticks`, how often 'T' has been printed, and the hardware's state
pub record Clock (b : Board) : Type 0 where
  pub timer_ticks : ℕ
  pub printed : ℕ
  pub board : b.State

unfoldable pub timer_handler : (b : Board) → Clock b → Clock b
timer_handler b c =
    let ticks = add64 c.timer_ticks 1 in
    record {
      timer_ticks = ticks;
      printed = if ticks % 1000 == 0 then c.printed + 1 else c.printed;
      board = lapic_send_eoi b c.board;
    }

unfoldable pub timer_get_ticks : (b : Board) → Clock b → ℕ
timer_get_ticks b c = c.timer_ticks
