-- ===== src/Idt.antt =====
-- The interrupt descriptor table and the dispatch of interrupts, src/Tables/idt.c and
-- include/Tables/idt.h. The addresses of the assembly stubs are parameters.
pub mod Gates
mod Tests
use mini_user_os.Prelude.{
  ℕ, zero, suc, ◌+◌, ◌-◌, ◌*◌, ◌/◌, ◌%◌, ◌^◌, ◌==◌, not, ltb, if◌then◌else◌, List, [], ◌∷◌, bit_and,
  bit_or,
}
use mini_user_os.Machine.{null}

-- `idt_entry_t`
pub record IdtEntry : Type 0 where
  pub offset_low : ℕ
  pub selector : ℕ
  pub ist : ℕ
  pub type_attr : ℕ
  pub offset_middle : ℕ
  pub offset_high : ℕ
  pub reserved : ℕ

-- The static variables: `idt`, `idt_ptr` and `handlers`, where NULL is no handler.
pub record Idt : Type 0 where
  pub entries : ℕ → IdtEntry
  pub limit : ℕ
  pub base : ℕ
  pub handlers : ℕ → ℕ

abbrev pub idt_entries : ℕ
idt_entries = 256

abbrev pub idt_type_interrupt : ℕ
idt_type_interrupt = 0x0E

abbrev pub idt_attr_present : ℕ
idt_attr_present = 2 ^ 7

abbrev pub idt_attr_ring0 : ℕ
idt_attr_ring0 = 0 * 2 ^ 5

abbrev pub idt_attr_ring3 : ℕ
idt_attr_ring3 = 3 * 2 ^ 5

abbrev pub ist_none : ℕ
ist_none = 0

abbrev pub ist_double_fault : ℕ
ist_double_fault = 1

abbrev pub ist_nmi : ℕ
ist_nmi = 2

abbrev pub ist_machine_check : ℕ
ist_machine_check = 3

abbrev pub gdt_kernel_code_selector : ℕ
gdt_kernel_code_selector = 0x08

abbrev pub attr : ℕ
attr = bit_or (bit_or idt_attr_present idt_attr_ring0) idt_type_interrupt

abbrev pub attr_ring3 : ℕ
attr_ring3 = bit_or attr idt_attr_ring3

abbrev pub zero_entry : IdtEntry
zero_entry = record {
  offset_low = 0;
  selector = 0;
  ist = 0;
  type_attr = 0;
  offset_middle = 0;
  offset_high = 0;
  reserved = 0;
}

-- The fields that `idt_set_gate` writes.
unfoldable pub gate : ℕ → ℕ → ℕ → IdtEntry
gate handler ist type_attr = record {
  offset_low = bit_and handler 0xFFFF;
  selector = gdt_kernel_code_selector;
  ist = bit_and ist 0x07;
  type_attr = type_attr;
  offset_middle = bit_and (handler / 2 ^ 16) 0xFFFF;
  offset_high = bit_and (handler / 2 ^ 32) 0xFFFFFFFF;
  reserved = 0;
}

unfoldable pub idt_set_gate : ℕ → ℕ → ℕ → ℕ → Idt → Idt
idt_set_gate vector handler ist type_attr t = record t {
  entries = λ v. if v == vector then gate handler ist type_attr else t.entries v;
}

-- What becomes of an interrupt: a handler is called, the processor halts for good, or the end of the
-- interrupt is acknowledged.
pub data Outcome : Type 0 where
  called : ℕ → Outcome
  halted : Outcome
  acknowledged : Outcome

-- `interrupt_common_handler`, given the frame's `interrupt_number`
unfoldable pub interrupt_common_handler : ℕ → Idt → Outcome
interrupt_common_handler interrupt_number t =
    let vector = interrupt_number % 2 ^ 8 in
    if not (t.handlers vector == null)
    then called (t.handlers vector)
    else if ltb vector 32
    then halted
    else acknowledged

unfoldable pub idt_register_handler : ℕ → ℕ → Idt → Idt
idt_register_handler vector handler t = record t {
  handlers = λ v. if v == vector then handler else t.handlers v;
}

-- The `ist` and `type_attr` of the calls of `idt_set_gate` in `idt_init`, from vector 0 on.
abbrev pub gates : List (ℕ × ℕ)
gates =
    (ist_none, attr)
    ∷ (ist_none, attr)
    ∷ (ist_nmi, attr)
    ∷ (ist_none, attr_ring3)
    ∷ (ist_none, attr)
    ∷ (ist_none, attr)
    ∷ (ist_none, attr)
    ∷ (ist_none, attr)
    ∷ (ist_double_fault, attr)
    ∷ (ist_none, attr)
    ∷ (ist_none, attr)
    ∷ (ist_none, attr)
    ∷ (ist_none, attr)
    ∷ (ist_none, attr)
    ∷ (ist_none, attr)
    ∷ (ist_none, attr)
    ∷ (ist_none, attr)
    ∷ (ist_none, attr)
    ∷ (ist_machine_check, attr)
    ∷ (ist_none, attr)
    ∷ (ist_none, attr)
    ∷ (ist_none, attr)
    ∷ (ist_none, attr)
    ∷ (ist_none, attr)
    ∷ (ist_none, attr)
    ∷ (ist_none, attr)
    ∷ (ist_none, attr)
    ∷ (ist_none, attr)
    ∷ (ist_none, attr)
    ∷ (ist_none, attr)
    ∷ (ist_none, attr)
    ∷ (ist_none, attr)
    ∷ (ist_none, attr)
    ∷ (ist_none, attr)
    ∷ (ist_none, attr)
    ∷ (ist_none, attr)
    ∷ (ist_none, attr)
    ∷ (ist_none, attr)
    ∷ (ist_none, attr)
    ∷ (ist_none, attr)
    ∷ (ist_none, attr)
    ∷ (ist_none, attr)
    ∷ (ist_none, attr)
    ∷ (ist_none, attr)
    ∷ (ist_none, attr)
    ∷ (ist_none, attr)
    ∷ (ist_none, attr)
    ∷ (ist_none, attr)
    ∷ []

module _ (isr irq : ℕ → ℕ) where
  -- The stub of a vector.
  abbrev pub stub_of : ℕ → ℕ
  stub_of v = if ltb v 32 then isr v else irq (v - 32)

  unfoldable pub set_gates : ℕ → List (ℕ × ℕ) → Idt → Idt
  set_gates v [] t = t
  set_gates v ((ist, type_attr) ∷ rest) t =
      set_gates (suc v) rest (idt_set_gate v (stub_of v) ist type_attr t)

  -- `idt` is the table's address.
  unfoldable pub idt_init : ℕ → Idt → Idt
  idt_init idt t =
      record (set_gates 0 gates (record t { entries = λ v. zero_entry; handlers = λ v. null })) {
        limit = idt_entries * 16 - 1;
        base = idt;
      }
