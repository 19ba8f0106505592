-- ===== src/Idt/Gates.antt =====
-- The gates of src/Tables/idt.c.
use mini_user_os.Prelude.{
  ℕ, zero, suc, ◌+◌, ◌*◌, ◌/◌, ◌%◌, ◌^◌, ◌<◌, ◌≤◌, ◌≡◌, ◌≢◌, ◌⊎◌, inl, inr, refl, ap, ◌∙◌, true,
  false, ◌==◌, ltb, if◌then◌else◌, List, [], ◌∷◌, arith, ℕ_discrete, dec_lt,
}
use mathlib.Core.Path.{subst}
use mini_user_os.Bits.{bit_and_low}
use mini_user_os.Machine.{null, word}
use mini_user_os.Idt.{
  Idt, IdtEntry, called, halted, acknowledged, gate, gates, zero_entry, stub_of, set_gates,
  idt_set_gate, idt_init, idt_register_handler, interrupt_common_handler, attr, attr_ring3,
  ist_none, ist_nmi, ist_double_fault, ist_machine_check,
}

-- The address that the processor reads from an entry.
abbrev pub handler_of : IdtEntry → ℕ
handler_of e = e.offset_low + e.offset_middle * 2 ^ 16 + e.offset_high * 2 ^ 32

pub gate-handler_of :
    (handler ist type_attr : ℕ) → handler < word → handler_of (gate handler ist type_attr) ≡ handler
unfolding gate
gate-handler_of handler ist type_attr h = omega (
  arith,
  bit_and_low 16 handler,
  bit_and_low 16 (handler / 2 ^ 16),
  bit_and_low 32 (handler / 2 ^ 32),
)

set_gate_self :
    (v handler ist type_attr : ℕ) (t : Idt)
    → (idt_set_gate v handler ist type_attr t).entries v ≡ gate handler ist type_attr
unfolding idt_set_gate
set_gate_self v handler ist type_attr t = rw test refl
  where
    test : (v == v) ≡ true
    test = ground arith

set_gate_other :
    (v w handler ist type_attr : ℕ) (t : Idt)
    → w ≢ v
    → (idt_set_gate v handler ist type_attr t).entries w ≡ t.entries w
unfolding idt_set_gate
set_gate_other v w handler ist type_attr t ne = rw test refl
  where
    test : (w == v) ≡ false
    test = ground arith

set_gate-handlers :
    (v handler ist type_attr : ℕ) (t : Idt)
    → (idt_set_gate v handler ist type_attr t).handlers ≡ t.handlers
unfolding idt_set_gate
set_gate-handlers v handler ist type_attr t = refl

-- The stacks of a vector's own, and the privilege from which it may be raised, as the comments have it.
abbrev pub ist_for : ℕ → ℕ
ist_for v =
    if v == 2
    then ist_nmi
    else if v == 8
    then ist_double_fault
    else if v == 18
    then ist_machine_check
    else ist_none

abbrev pub attr_for : ℕ → ℕ
attr_for v = if v == 3 then attr_ring3 else attr

abbrev rows : ℕ → ℕ → List (ℕ × ℕ)
rows zero v = []
rows (suc left) v = (ist_for v, attr_for v) ∷ rows left (suc v)

gates-rows : gates ≡ rows 48 0
gates-rows = refl

module _ (isr irq : ℕ → ℕ) where
  set_gates-below :
      (left v w : ℕ) (t : Idt)
      → w < v
      → (set_gates isr irq v (rows left v) t).entries w ≡ t.entries w
  unfolding set_gates
  set_gates-below zero v w t h = refl
  set_gates-below (suc left) v w t h =
      set_gates-below left (suc v) w _ (omega arith) ∙ set_gate_other v w _ _ _ t (omega arith)

  set_gates-in :
      (left v w : ℕ) (t : Idt)
      → v ≤ w
      → w < v + left
      → (set_gates isr irq v (rows left v) t).entries w
        ≡ gate (stub_of isr irq w) (ist_for w) (attr_for w)
  unfolding set_gates
  set_gates-in zero v w t lo hi = absurd (omega arith)
  set_gates-in (suc left) v w t lo hi = elim (ℕ_discrete v w) [
    | yes e ↦
        set_gates-below left (suc v) w _ (omega arith)
        ∙ subst
            (λ x.
              (idt_set_gate v (stub_of isr irq v) (ist_for v) (attr_for v) t).entries x
              ≡ gate (stub_of isr irq x) (ist_for x) (attr_for x))
            e (set_gate_self v (stub_of isr irq v) (ist_for v) (attr_for v) t)
    | no ne ↦ set_gates-in left (suc v) w _ (omega arith) (omega arith)
  ]

  set_gates-above :
      (left v w : ℕ) (t : Idt)
      → v + left ≤ w
      → (set_gates isr irq v (rows left v) t).entries w ≡ t.entries w
  unfolding set_gates
  set_gates-above zero v w t h = refl
  set_gates-above (suc left) v w t h =
      set_gates-above left (suc v) w _ (omega arith) ∙ set_gate_other v w _ _ _ t (omega arith)

  set_gates-handlers :
      (left v : ℕ) (t : Idt) → (set_gates isr irq v (rows left v) t).handlers ≡ t.handlers
  unfolding set_gates idt_set_gate
  set_gates-handlers zero v t = refl
  set_gates-handlers (suc left) v t = set_gates-handlers left (suc v) _

  -- After `idt_init` the entries of the vectors 0 to 47 are gates to their stubs, with stacks of their own
  -- for the vectors 2, 8 and 18 alone, and vector 3 alone open to user mode; all other entries are zero,
  -- and no handler is registered.
  pub idt_init-gates :
      (idt : ℕ) (t : Idt) (v : ℕ)
      → (((v < 48)
            × ((idt_init isr irq idt t).entries v
                ≡ gate (stub_of isr irq v) (ist_for v) (attr_for v)))
          ⊎ ((48 ≤ v) × ((idt_init isr irq idt t).entries v ≡ zero_entry)))
        × ((idt_init isr irq idt t).handlers v ≡ null)
  unfolding idt_init
  idt_init-gates idt t v = (
    elim (dec_lt v 48) [
      | yes low ↦ inl (low, set_gates-in 48 0 v _ (omega arith) (omega arith))
      | no high ↦ inr (omega arith, set_gates-above 48 0 v _ (omega arith))
    ],
    ap (λ h. h v) (set_gates-handlers 48 0 _),
  )

-- An entry that `idt_set_gate` writes leads to the handler, at the lowest three bits of the stack's index
-- and with the attributes given; the other entries and the handlers stay.
pub idt_set_gate-handler_of :
    (vector handler ist type_attr w : ℕ) (t : Idt)
    → handler < word
    → (handler_of ((idt_set_gate vector handler ist type_attr t).entries vector) ≡ handler)
      × (((idt_set_gate vector handler ist type_attr t).entries vector).ist ≡ ist % 8)
      × (((idt_set_gate vector handler ist type_attr t).entries vector).type_attr ≡ type_attr)
      × ((w ≡ vector) ⊎ ((idt_set_gate vector handler ist type_attr t).entries w ≡ t.entries w))
      × ((idt_set_gate vector handler ist type_attr t).handlers ≡ t.handlers)
unfolding gate
idt_set_gate-handler_of vector handler ist type_attr w t h = (
  ap handler_of (set_gate_self vector handler ist type_attr t)
      ∙ gate-handler_of handler ist type_attr h,
  ap (λ e. e.ist) (set_gate_self vector handler ist type_attr t) ∙ bit_and_low 3 ist,
  ap (λ e. e.type_attr) (set_gate_self vector handler ist type_attr t),
  elim (ℕ_discrete w vector) [
    | yes e ↦ inl e
    | no ne ↦ inr (set_gate_other vector w handler ist type_attr t ne)
  ],
  set_gate-handlers vector handler ist type_attr t,
)

-- After `idt_init` and one registration, an interrupt calls the registered handler just when its vector, the
-- number's lowest 8 bits, is the one registered; otherwise an exception halts the processor and any
-- other interrupt is acknowledged.
pub interrupt_common_handler-registered :
    (isr irq : ℕ → ℕ) (idt vector handler number : ℕ) (t : Idt)
    → handler ≢ null
    → ((number % 256 ≡ vector)
        × (interrupt_common_handler number
              (idt_register_handler vector handler (idt_init isr irq idt t))
            ≡ called handler))
      ⊎ ((number % 256 ≢ vector)
          × (number % 256 < 32)
          × (interrupt_common_handler number
                (idt_register_handler vector handler (idt_init isr irq idt t))
              ≡ halted))
      ⊎ ((number % 256 ≢ vector)
          × (32 ≤ number % 256)
          × (interrupt_common_handler number
                (idt_register_handler vector handler (idt_init isr irq idt t))
              ≡ acknowledged))
unfolding interrupt_common_handler idt_register_handler
interrupt_common_handler-registered isr irq idt vector handler number t ne =
    elim (ℕ_discrete (number % 256) vector) [
      | yes e ↦
          let here : (number % 256 == vector) ≡ true = ground arith in
          let some_handler : (handler == null) ≡ false = ground arith in
          inl (e, rw (here, some_handler) refl)
      | no ne' ↦
          let other : (number % 256 == vector) ≡ false = ground arith in
          let clear = (idt_init-gates isr irq idt t (number % 256)).1 in
          elim (dec_lt (number % 256) 32) [
            | yes low ↦
                let exception : ltb (number % 256) 32 ≡ true = ground arith in
                inr (inl (ne', low, rw (other, clear, exception) refl))
            | no high ↦
                let hardware : ltb (number % 256) 32 ≡ false = ground arith in
                inr (inr (ne', omega arith, rw (other, clear, hardware) refl))
          ]
    ]
