-- ===== src/Idt/Tests.antt =====
-- The interrupt descriptor table at concrete vectors.
use mini_user_os.Prelude.{ℕ, ◌+◌, ◌%◌, ◌<◌, ◌≤◌, ◌≡◌, ◌≢◌, ◌⊎◌, arith}
use mini_user_os.Machine.{null}
use mini_user_os.Idt.{
  Idt, called, halted, acknowledged, gate, zero_entry, stub_of, idt_set_gate, idt_init,
  idt_register_handler, interrupt_common_handler,
}
use mini_user_os.Idt.Gates.{
  handler_of, ist_for, attr_for, idt_init-gates, idt_set_gate-handler_of,
  interrupt_common_handler-registered,
}

abbrev empty : Idt
empty = record { entries = λ v. zero_entry; limit = 0; base = 0; handlers = λ v. 0 }

abbrev isr : ℕ → ℕ
isr v = 0x100000 + v

abbrev irq : ℕ → ℕ
irq v = 0x200000 + v

idt_init-gates_example :
    (((8 < 48)
        × ((idt_init isr irq 0x3000 empty).entries 8
            ≡ gate (stub_of isr irq 8) (ist_for 8) (attr_for 8)))
      ⊎ ((48 ≤ 8) × ((idt_init isr irq 0x3000 empty).entries 8 ≡ zero_entry)))
    × ((idt_init isr irq 0x3000 empty).handlers 8 ≡ null)
idt_init-gates_example = idt_init-gates isr irq 0x3000 empty 8

idt_set_gate-handler_of_example :
    (handler_of ((idt_set_gate 14 0x123456789A 9 0x8E empty).entries 14) ≡ 0x123456789A)
    × (((idt_set_gate 14 0x123456789A 9 0x8E empty).entries 14).ist ≡ 1)
    × (((idt_set_gate 14 0x123456789A 9 0x8E empty).entries 14).type_attr ≡ 0x8E)
    × ((◌≡◌ {A = ℕ} 15 14)
        ⊎ ((idt_set_gate 14 0x123456789A 9 0x8E empty).entries 15 ≡ empty.entries 15))
    × ((idt_set_gate 14 0x123456789A 9 0x8E empty).handlers ≡ empty.handlers)
idt_set_gate-handler_of_example =
    idt_set_gate-handler_of 14 0x123456789A 9 0x8E 15 empty (omega arith)

interrupt_common_handler-registered_example :
    ((0x21 % 256 ≡ 32)
      × (interrupt_common_handler 0x21
            (idt_register_handler 32 0x5000 (idt_init isr irq 0x3000 empty))
          ≡ called 0x5000))
    ⊎ ((0x21 % 256 ≢ 32)
        × (0x21 % 256 < 32)
        × (interrupt_common_handler 0x21
              (idt_register_handler 32 0x5000 (idt_init isr irq 0x3000 empty))
            ≡ halted))
    ⊎ ((0x21 % 256 ≢ 32)
        × (32 ≤ 0x21 % 256)
        × (interrupt_common_handler 0x21
              (idt_register_handler 32 0x5000 (idt_init isr irq 0x3000 empty))
            ≡ acknowledged))
interrupt_common_handler-registered_example =
    interrupt_common_handler-registered isr irq 0x3000 32 0x5000 0x21 empty (omega arith)
