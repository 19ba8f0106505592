-- ===== src/Keyboard/Tests.antt =====
-- The keyboard at concrete inputs.
use mini_user_os.Prelude.{◌≡◌, ◌∷◌, []}
use mini_user_os.Keyboard.{start}
use mini_user_os.Keyboard.Events.{
  byte, get, clear, run, spec_run, spec_of, run_refines, start-IsRing,
}

-- Shift and `a` are pressed, `a` is released, two keys are asked for.
run_refines_example :
    run (byte 0x2A ∷ byte 0x1E ∷ byte 0x9E ∷ get ∷ get ∷ clear ∷ []) start
    ≡ spec_run (byte 0x2A ∷ byte 0x1E ∷ byte 0x9E ∷ get ∷ get ∷ clear ∷ []) (spec_of start)
run_refines_example =
    run_refines (byte 0x2A ∷ byte 0x1E ∷ byte 0x9E ∷ get ∷ get ∷ clear ∷ []) start start-IsRing
