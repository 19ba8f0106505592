-- ===== src/Timer/Ticks.antt =====
-- The clock of src/Drivers/timer.c over a run of interrupts.
use mini_user_os.Prelude.{ℕ, zero, suc, ◌/◌, ◌<◌, ◌≡◌, refl, arith, ap}
use mini_user_os.Machine.{word}
use mini_user_os.Lapic.{Board, lapic_send_eoi}
use mini_user_os.Timer.{Clock, timer_handler, timer_get_ticks}

module _ (b : Board) where
  -- The clock at the start.
  abbrev pub at_start : b.State → Clock b
  at_start s = record { timer_ticks = 0; printed = 0; board = s }

  -- The clock after so many interrupts.
  abbrev pub interrupts : ℕ → Clock b → Clock b
  interrupts zero c = c
  interrupts (suc n) c = timer_handler b (interrupts n c)

  -- So many ends of interrupts.
  abbrev pub acknowledgements : ℕ → b.State → b.State
  acknowledgements zero s = s
  acknowledgements (suc n) s = lapic_send_eoi b (acknowledgements n s)

  interrupts-ticks : (n : ℕ) (s : b.State) → n < word → (interrupts n (at_start s)).timer_ticks ≡ n
  unfolding timer_handler
  interrupts-ticks zero s h = refl
  interrupts-ticks (suc n) s h =
      let before = interrupts-ticks n s (omega arith) in omega (arith, before)

  interrupts-printed :
      (n : ℕ) (s : b.State) → n < word → (interrupts n (at_start s)).printed ≡ n / 1000
  unfolding timer_handler
  interrupts-printed zero s h = refl
  interrupts-printed (suc n) s h =
      let before = interrupts-printed n s (omega arith) in
      let ticks = interrupts-ticks n s (omega arith) in ground (arith, before, ticks)

  interrupts-board :
      (n : ℕ) (s : b.State) → (interrupts n (at_start s)).board ≡ acknowledgements n s
  unfolding timer_handler
  interrupts-board zero s = refl
  interrupts-board (suc n) s = ap (lapic_send_eoi b) (interrupts-board n s)

  -- After fewer than 2 ^ 64 interrupts the clock shows their number, 'T' has been printed once for each
  -- thousand, and every one has been acknowledged.
  pub timer_handler-counts :
      (n : ℕ) (s : b.State)
      → n < word
      → (timer_get_ticks b (interrupts n (at_start s)) ≡ n)
        × ((interrupts n (at_start s)).printed ≡ n / 1000)
        × ((interrupts n (at_start s)).board ≡ acknowledgements n s)
  unfolding timer_get_ticks
  timer_handler-counts n s h =
      (interrupts-ticks n s h, interrupts-printed n s h, interrupts-board n s)
