-- ===== src/Keyboard/Events.antt =====
-- The keyboard driver as its client sees it (src/Drivers/keyboard.c): the modifiers and a queue of keys.
use mini_user_os.Prelude.{
  ℕ, ◌+◌, ◌≡◌, refl, ap, ◌∙◌, true, false, ◌==◌, if◌then◌else◌, Option, none, List, [], ◌∷◌,
  bit_and, arith, Bool-cases, inl, inr,
}
use mathlib.Core.Path.{ap₂}
use mini_user_os.Keyboard.{
  KeyboardKey, KeyboardState, Driver, start, keyboard_driver_handler, keyboard_clear_buffer,
  try_get_key, update_modifiers, key_of, buffer_push, buffer_pop,
}
use mini_user_os.Keyboard.Ring.{
  IsRing, queue_of, queue_push, queue_pop, push-IsRing, push_refines, pop-IsRing, pop_refines,
}

-- What happens to the driver: a byte arrives, a key is asked for, the buffer is cleared.
pub data Event : Type 0 where
  byte : ℕ → Event
  get : Event
  clear : Event

-- An event's answer is the key returned, `none` for the other events.
unfoldable pub step : Event → Driver → Option KeyboardKey × Driver
step (byte b) d = (none, keyboard_driver_handler b d)
step get d = try_get_key d
step clear d = (none, keyboard_clear_buffer d)

unfoldable pub run : List Event → Driver → List (Option KeyboardKey)
run [] d = []
run (e ∷ es) d = (step e d).0 ∷ run es (step e d).1

-- The specification: a queue of at most 63 keys beside the modifiers.
abbrev pub Spec : Type 0
Spec = KeyboardState × List KeyboardKey

abbrev pub spec_byte : ℕ → Spec → Spec
spec_byte b (k, q) =
    let pressed = bit_and b 0x80 == 0 in
    let k' = update_modifiers (bit_and b 0x7F) pressed k in
    (k', if pressed then queue_push (key_of b k') q else q)

abbrev pub spec_step : Event → Spec → Option KeyboardKey × Spec
spec_step (byte b) s = (none, spec_byte b s)
spec_step get (k, q) = ((queue_pop q).0, (k, (queue_pop q).1))
spec_step clear (k, q) = (none, (k, []))

abbrev pub spec_run : List Event → Spec → List (Option KeyboardKey)
spec_run [] s = []
spec_run (e ∷ es) s = (spec_step e s).0 ∷ spec_run es (spec_step e s).1

abbrev pub spec_of : Driver → Spec
spec_of d = (d.keyboard_state, queue_of d)

with_state : KeyboardState → Driver → Driver
with_state k d = record d { keyboard_state = k }

handler-pressed :
    (b : ℕ) (d : Driver)
    → (bit_and b 0x80 == 0) ≡ true
    → let k = update_modifiers (bit_and b 0x7F) true d.keyboard_state in
      let d' = buffer_push (key_of b k) (with_state k d) in
      keyboard_driver_handler b d ≡ record d' { eois = d'.eois + 1 }
unfolding keyboard_driver_handler with_state
handler-pressed b d h = rw h refl

handler-released :
    (b : ℕ) (d : Driver)
    → (bit_and b 0x80 == 0) ≡ false
    → let d' = with_state (update_modifiers (bit_and b 0x7F) false d.keyboard_state) d in
      keyboard_driver_handler b d ≡ record d' { eois = d'.eois + 1 }
unfolding keyboard_driver_handler with_state
handler-released b d h = rw h refl

buffer_push-state :
    (key : KeyboardKey) (d : Driver) → (buffer_push key d).keyboard_state ≡ d.keyboard_state
unfolding buffer_push
buffer_push-state key d = ground arith

buffer_pop-state : (d : Driver) → (try_get_key d).1.keyboard_state ≡ d.keyboard_state
unfolding try_get_key buffer_pop
buffer_pop-state d = ground arith

-- An acknowledged interrupt changes neither the ring nor the queue.
IsRing-eoi : (d : Driver) (n : ℕ) → IsRing d → IsRing (record d { eois = n })
IsRing-eoi d n r = record { full_size = r.full_size; head_in = r.head_in; tail_in = r.tail_in }

IsRing-state : (d : Driver) (k : KeyboardState) → IsRing d → IsRing (with_state k d)
unfolding with_state
IsRing-state d k r = record { full_size = r.full_size; head_in = r.head_in; tail_in = r.tail_in }

IsRing-byte : (b : ℕ) (d : Driver) → IsRing d → IsRing (keyboard_driver_handler b d)
IsRing-byte b d r = elim (Bool-cases (bit_and b 0x80 == 0)) [
  | inl pressed ↦
      rw (handler-pressed b d pressed) (IsRing-eoi _ _ (push-IsRing _ _ (IsRing-state d _ r)))
  | inr released ↦ rw (handler-released b d released) (IsRing-eoi _ _ (IsRing-state d _ r))
]

spec-byte :
    (b : ℕ) (d : Driver)
    → IsRing d
    → spec_of (keyboard_driver_handler b d) ≡ spec_byte b (spec_of d)
unfolding with_state
spec-byte b d r = elim (Bool-cases (bit_and b 0x80 == 0)) [
  | inl pressed ↦
      let k = update_modifiers (bit_and b 0x7F) true d.keyboard_state in
      ap spec_of (handler-pressed b d pressed)
      ∙ rw pressed (
          ap₂ (λ s q. (s, q)) (buffer_push-state (key_of b k) (with_state k d))
            (push_refines (key_of b k) (with_state k d) (IsRing-state d k r)))
  | inr released ↦ ap spec_of (handler-released b d released) ∙ rw released refl
]

pub step-IsRing : (e : Event) (d : Driver) → IsRing d → IsRing (step e d).1
unfolding step try_get_key keyboard_clear_buffer
step-IsRing (byte b) d r = IsRing-byte b d r
step-IsRing get d r = pop-IsRing d r
step-IsRing clear d r = record {
  full_size = r.full_size;
  head_in = omega arith;
  tail_in = omega arith;
}

pub step_refines :
    (e : Event) (d : Driver)
    → IsRing d
    → ((step e d).0, spec_of (step e d).1) ≡ spec_step e (spec_of d)
unfolding step try_get_key keyboard_clear_buffer
step_refines (byte b) d r = ap (λ s. (none, s)) (spec-byte b d r)
step_refines get d r = ap₂ (λ k x. (x.0, (k, x.1))) (buffer_pop-state d) (pop_refines d r)
step_refines clear d r = refl

-- From any ring, no sequence of scan codes, requests and clears tells the driver from a queue of at
-- most 63 keys beside the modifiers: a press adds its key, with the character and the modifiers of its
-- time, unless 63 are waiting, a release adds none, and keys are returned in the order of arrival.
pub run_refines : (es : List Event) (d : Driver) → IsRing d → run es d ≡ spec_run es (spec_of d)
unfolding run
run_refines [] d r = refl
run_refines (e ∷ es) d r =
    let same = step_refines e d r in
    ap₂ ◌∷◌ (ap (λ x. x.0) same)
      (run_refines es (step e d).1 (step-IsRing e d r) ∙ ap (λ x. spec_run es x.1) same)

pub start-IsRing : IsRing start
start-IsRing = record { full_size = refl; head_in = omega arith; tail_in = omega arith }
