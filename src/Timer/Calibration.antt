-- ===== src/Timer/Calibration.antt =====
-- The calibration of the timer, src/Drivers/timer.c.
use mini_user_os.Prelude.{
  ℕ, zero, suc, ◌+◌, ◌*◌, ◌/◌, ◌%◌, ◌^◌, ◌<◌, ◌≤◌, ◌≡◌, ◌⊎◌, inl, inr, refl, ap, true, false, ◌==◌,
  ltb, if◌then◌else◌, bit_and, arith, dec_lt, ℕ_discrete,
}
use native.Mathlib.Nat.{div-add-mod, mod-lt}
use mini_user_os.Lapic.{Board, lapic_write}
use mini_user_os.Idt.{Idt, idt_register_handler}
use mini_user_os.Timer.{
  initial_count_of, calibrate_apic_timer, program_timer, timer_init, calibrate_via_pit_ch0,
  poll_ch0, poll_limit, pit_count, read_ch0, start_timer, stop_timer,
}

calibrate_apic_timer-positive :
    (b : Board) (fuel : ℕ) (s : b.State) → 0 < (calibrate_apic_timer b fuel s).0
unfolding calibrate_apic_timer
calibrate_apic_timer-positive b fuel s = ground arith

-- The count for a number of ticks in 10 ms.
abbrev pub Counts : ℕ → ℕ → ℕ → Type 0
Counts ticks frequency count =
    (2 ^ 32 ≤ ticks * 100)
    ⊎ ((ticks * 100 < frequency) × (count ≡ 1))
    ⊎ ((count * frequency ≤ ticks * 100) × (ticks * 100 < (count + 1) * frequency))

-- The quotient of `n` by `d` is the largest number whose product with `d` is at most `n`.
div-bounds : (n d : ℕ) → 0 < d → (n / d * d ≤ n) × (n < (n / d + 1) * d)
div-bounds n d h = (omega (arith, div-add-mod n d), omega (arith, div-add-mod n d, mod-lt n h))

quotient-Counts :
    (n d q : ℕ)
    → (q * d ≤ n) × (n < (q + 1) * d)
    → ((n < d) × ((if q == 0 then 1 else q) ≡ 1))
      ⊎ (((if q == 0 then 1 else q) * d ≤ n) × (n < ((if q == 0 then 1 else q) + 1) * d))
quotient-Counts n d q h = elim (ℕ_discrete q 0) [
  | yes e ↦
      let test : (q == 0) ≡ true = ground arith in
      rw test (inl (omega (arith, ap (λ x. x * d) e, h.1), refl))
  | no ne ↦ let test : (q == 0) ≡ false = ground arith in rw test (inr h)
]

initial_count_of-Counts :
    (ticks frequency : ℕ)
    → 0 < frequency
    → (0 < initial_count_of ticks frequency)
      × Counts ticks frequency (initial_count_of ticks frequency)
unfolding initial_count_of
initial_count_of-Counts ticks frequency h = (
  ground arith,
  elim (dec_lt (ticks * 100) (2 ^ 32)) [
    | no wide ↦ inl (omega arith)
    | yes small ↦
        let same : (ticks * 100) % 2 ^ 32 ≡ ticks * 100 = omega arith in
        inr (
          rw same (
            quotient-Counts (ticks * 100) frequency (ticks * 100 / frequency)
              (div-bounds (ticks * 100) frequency h)))
  ],
)

-- A store into a register of the local APIC, and the load of register 0x20 that waits for it.
abbrev pub set_register : (b : Board) → ℕ → ℕ → b.State → b.State
set_register b r v s = (b.lapic_load 0x20 (b.lapic_store r v s)).1

-- The divider is 16, the timer is periodic with the vector 32, and is then started with that count.
abbrev pub running : (b : Board) → ℕ → b.State → b.State
running b count s =
    set_register b 0x380 count (set_register b 0x320 0x20020 (set_register b 0x3E0 3 s))

program_timer-running :
    (b : Board) (fuel frequency : ℕ) (s : b.State)
    → program_timer b fuel frequency s
      ≡ running b
          (initial_count_of (calibrate_apic_timer b fuel s).0 frequency)
          (calibrate_apic_timer b fuel s).1
unfolding program_timer lapic_write
program_timer-running b fuel frequency s = refl

-- For a frequency that is not 0, `timer_init` registers its handler for the vector 32 and, behind the
-- calibration, writes the divider, the mode and last a count that is not 0 to the timer's registers; if a
-- hundred times the measured ticks, which are not 0, fit into 32 bits, the count is 1 for a frequency above
-- that number, and else the largest that makes no more than that number of ticks.
pub timer_init-Counts :
    (b : Board) (handler fuel frequency : ℕ) (t : Idt) (s : b.State)
    → 0 < frequency
    → let measured = calibrate_apic_timer b fuel s in
      (0 < measured.0)
      × ((count : ℕ) × (0 < count)
          × Counts measured.0 frequency count
          × (timer_init b handler fuel frequency (t, s)
              ≡ (idt_register_handler 32 handler t, running b count measured.1)))
unfolding timer_init
timer_init-Counts b handler fuel frequency t s h =
    let ticks = (calibrate_apic_timer b fuel s).0 in
    let counts = initial_count_of-Counts ticks frequency h in
    (
      calibrate_apic_timer-positive b fuel s,
      (
        initial_count_of ticks frequency,
        counts.0,
        counts.1,
        rw (program_timer-running b fuel frequency s) refl,
      ),
    )

-- A counter that never rises leaves the poll with 2 ^ 32 - 1.
poll_ch0-stuck :
    (b : Board) (c n prev : ℕ) (s : b.State)
    → ((t : b.State) → (read_ch0 b t).0 ≡ c)
    → c ≤ prev
    → (poll_ch0 b n prev s).0 ≡ 0xFFFFFFFF
unfolding poll_ch0
poll_ch0-stuck b c zero prev s h le = refl
poll_ch0-stuck b c (suc n) prev s h le =
    rw (h s, test) (poll_ch0-stuck b c n c (read_ch0 b s).1 h (omega arith))
  where
    test : ltb prev c ≡ false
    test = ground arith

-- The state in which channel 0 and the timer have been started.
abbrev pub started : (b : Board) → b.State → b.State
started b s = start_timer b (
    b.outb 0x40 (bit_and (pit_count / 2 ^ 8) 0xFF)
      (b.outb 0x40 (bit_and pit_count 0xFF) (b.outb 0x43 0x30 s)))

-- With a counter of channel 0 that always shows the same value, which is at most the count it was started
-- with, the calibration does not fail: it gives what the timer has counted over all the rounds of the
-- poll.
pub calibrate_via_pit_ch0-stuck :
    (b : Board) (c : ℕ) (s : b.State)
    → ((t : b.State) → (read_ch0 b t).0 ≡ c)
    → c ≤ pit_count
    → calibrate_via_pit_ch0 b s ≡ stop_timer b (poll_ch0 b poll_limit pit_count (started b s)).1
unfolding calibrate_via_pit_ch0
calibrate_via_pit_ch0-stuck b c s h le =
    rw (poll_ch0-stuck b c poll_limit pit_count (started b s) h le) refl
