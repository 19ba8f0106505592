-- ===== src/Timer/Tests.antt =====
-- The timer with hardware that answers every read with zero.
use mini_user_os.Prelude.{ℕ, ◌+◌, ◌/◌, ◌<◌, ◌≡◌, refl, arith}
use mini_user_os.Lapic.{Board}
use mini_user_os.Idt.{Idt, zero_entry, idt_register_handler}
use mini_user_os.Timer.{
  calibrate_apic_timer, timer_init, calibrate_via_pit_ch0, poll_ch0, poll_limit, pit_count,
  read_ch0, stop_timer, timer_get_ticks,
}
use mini_user_os.Timer.Calibration.{
  Counts, running, started, timer_init-Counts, calibrate_via_pit_ch0-stuck,
}
use mini_user_os.Timer.Ticks.{at_start, interrupts, acknowledgements, timer_handler-counts}

-- The state counts the accesses.
abbrev silent : Board
silent = record {
  State = ℕ;
  inb = λ p s. (0, s + 1);
  outb = λ p v s. s + 1;
  io_wait = λ s. s;
  lapic_store = λ r v s. s + 1;
  lapic_load = λ r s. (0, s + 1);
  ioapic_store = λ r v s. s + 1;
  ioapic_load = λ r s. (0, s + 1);
  read_msr = λ r s. 0;
  write_msr = λ r v s. s;
  cpuid = λ leaf. (0, 0, 0, 0);
  read_tsc = λ s. (s, s + 1);
}

silent-read_ch0 : (t : ℕ) → (read_ch0 silent t).0 ≡ 0
unfolding read_ch0
silent-read_ch0 t = refl

abbrev no_handlers : Idt
no_handlers = record { entries = λ v. zero_entry; limit = 0; base = 0; handlers = λ v. 0 }

timer_init-Counts_example :
    let measured = calibrate_apic_timer silent 5 0 in
    (0 < measured.0)
    × ((count : ℕ) × (0 < count)
        × Counts measured.0 1000 count
        × (timer_init silent 4096 5 1000 (no_handlers, 0)
            ≡ (idt_register_handler 32 4096 no_handlers, running silent count measured.1)))
timer_init-Counts_example = timer_init-Counts silent 4096 5 1000 no_handlers 0 (omega arith)

calibrate_via_pit_ch0-stuck_example :
    calibrate_via_pit_ch0 silent 0
    ≡ stop_timer silent (poll_ch0 silent poll_limit pit_count (started silent 0)).1
calibrate_via_pit_ch0-stuck_example =
    calibrate_via_pit_ch0-stuck silent 0 0 silent-read_ch0 (omega arith)

timer_handler-counts_example :
    (timer_get_ticks silent (interrupts silent 3 (at_start silent 0)) ≡ 3)
    × ((interrupts silent 3 (at_start silent 0)).printed ≡ 3 / 1000)
    × ((interrupts silent 3 (at_start silent 0)).board ≡ acknowledgements silent 3 0)
timer_handler-counts_example = timer_handler-counts silent 3 0 (omega arith)
