-- ===== src/Gdt.antt =====
-- The segment descriptors and the task state, src/Tables/gdt.c and include/Tables/gdt.h. The two slots
-- that the task state's descriptor takes are one record here; loading the registers is left out.
use mini_user_os.Prelude.{ℕ, ◌+◌, ◌*◌, ◌-◌, ◌/◌, ◌%◌, ◌^◌, List, [], ◌∷◌, bit_and, bit_or}
use mini_user_os.Machine.{add64}
pub mod Fields
mod Tests

abbrev pub ist_stack_size : ℕ
ist_stack_size = 4096

-- `sizeof(tss_t)`
abbrev pub tss_size_bytes : ℕ
tss_size_bytes = 104

abbrev pub gdt_access_present : ℕ
gdt_access_present = 2 ^ 7

abbrev pub tss_type_available : ℕ
tss_type_available = 0x09

-- Present, code or data, and writable or readable, with the executable bit for code.
abbrev pub kernel_code_access : ℕ
kernel_code_access = 0x9A

abbrev pub kernel_data_access : ℕ
kernel_data_access = 0x92

abbrev pub user_code_access : ℕ
user_code_access = 0xFA

abbrev pub user_data_access : ℕ
user_data_access = 0xF2

-- `GDT_FLAG_LONG_MODE | GDT_FLAG_GRANULARITY`
abbrev pub code_flags : ℕ
code_flags = 0xA0

-- `GDT_FLAG_GRANULARITY`
abbrev pub data_flags : ℕ
data_flags = 0x80

pub record GdtEntry : Type 0 where
  pub limit_low : ℕ
  pub base_low : ℕ
  pub base_middle : ℕ
  pub access : ℕ
  pub granularity : ℕ
  pub base_high : ℕ

pub record TssDescriptor : Type 0 where
  pub limit_low : ℕ
  pub base_low : ℕ
  pub base_middle1 : ℕ
  pub access : ℕ
  pub granularity : ℕ
  pub base_middle2 : ℕ
  pub base_high : ℕ
  pub reserved : ℕ

-- The fields of `tss_t` that the code sets; `tss_init` clears the others.
pub record Tss : Type 0 where
  pub rsp0 : ℕ
  pub ist1 : ℕ
  pub ist2 : ℕ
  pub ist3 : ℕ
  pub iopb_offset : ℕ

-- Where the linker has put the static objects.
pub record Layout : Type 0 where
  pub gdt : ℕ
  pub tss : ℕ
  pub ist_stack1 : ℕ
  pub ist_stack2 : ℕ
  pub ist_stack3 : ℕ
  pub kernel_stack : ℕ

pub record Tables : Type 0 where
  pub gdt : List GdtEntry
  pub tss_descriptor : TssDescriptor
  pub tss : Tss
  pub gdt_limit : ℕ
  pub gdt_base : ℕ

unfoldable pub gdt_create_entry : ℕ → ℕ → ℕ → ℕ → GdtEntry
gdt_create_entry base limit access flags = record {
  limit_low = bit_and limit 0xFFFF;
  base_low = bit_and base 0xFFFF;
  base_middle = bit_and (base / 2 ^ 16) 0xFF;
  access = access;
  granularity = bit_or (bit_and (limit / 2 ^ 16) 0x0F) (bit_and flags 0xF0);
  base_high = bit_and (base / 2 ^ 24) 0xFF;
}

-- `tss_size - 1` in 32 bits
abbrev pub tss_limit : ℕ → ℕ
tss_limit tss_size = (tss_size + 2 ^ 32 - 1) % 2 ^ 32

unfoldable pub gdt_create_tss_entry : ℕ → ℕ → TssDescriptor
gdt_create_tss_entry tss_address tss_size = record {
  limit_low = bit_and (tss_limit tss_size) 0xFFFF;
  base_low = bit_and tss_address 0xFFFF;
  base_middle1 = bit_and (tss_address / 2 ^ 16) 0xFF;
  access = bit_or gdt_access_present tss_type_available;
  granularity = bit_and (tss_limit tss_size / 2 ^ 16) 0x0F;
  base_middle2 = bit_and (tss_address / 2 ^ 24) 0xFF;
  base_high = bit_and (tss_address / 2 ^ 32) 0xFFFFFFFF;
  reserved = 0;
}

unfoldable pub tss_init : Layout → Tss
tss_init l = record {
  rsp0 = add64 l.kernel_stack (ist_stack_size + ist_stack_size);
  ist1 = add64 l.ist_stack1 ist_stack_size;
  ist2 = add64 l.ist_stack2 ist_stack_size;
  ist3 = add64 l.ist_stack3 ist_stack_size;
  iopb_offset = tss_size_bytes;
}

unfoldable pub gdt_init : Layout → Tables
gdt_init l = record {
  gdt =
      gdt_create_entry 0 0 0 0
      ∷ gdt_create_entry 0 0xFFFFF kernel_code_access code_flags
      ∷ gdt_create_entry 0 0xFFFFF kernel_data_access data_flags
      ∷ gdt_create_entry 0 0xFFFFF user_code_access code_flags
      ∷ gdt_create_entry 0 0xFFFFF user_data_access data_flags
      ∷ [];
  tss_descriptor = gdt_create_tss_entry l.tss tss_size_bytes;
  tss = tss_init l;
  gdt_limit = 7 * 8 - 1;
  gdt_base = l.gdt;
}

unfoldable pub tss_set_kernel_stack : ℕ → Tables → Tables
tss_set_kernel_stack stack_top t = record t { tss = record (t.tss) { rsp0 = stack_top } }
