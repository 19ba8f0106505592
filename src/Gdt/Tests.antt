-- ===== src/Gdt/Tests.antt =====
-- Descriptors at concrete inputs.
use mini_user_os.Prelude.{◌+◌, ◌%◌, ◌^◌, ◌≡◌, arith, bit_and}
use mini_user_os.Gdt.{gdt_create_entry, gdt_create_tss_entry}
use mini_user_os.Gdt.Fields.{
  entry_base, entry_limit, tss_base, descriptor_limit, gdt_create_entry-fields,
  gdt_create_tss_entry-fields,
}

gdt_create_entry-fields_example :
    let e = gdt_create_entry 0x12345678 0xFFFFF 0x9A 0xA0 in
    (entry_base e ≡ 0x12345678)
    × (entry_limit e ≡ 0xFFFFF % 2 ^ 20)
    × (e.access ≡ 0x9A)
    × (bit_and e.granularity 0xF0 ≡ bit_and 0xA0 0xF0)
gdt_create_entry-fields_example = gdt_create_entry-fields 0x12345678 0xFFFFF 0x9A 0xA0 (omega arith)

gdt_create_tss_entry-fields_example :
    let d = gdt_create_tss_entry 0xFFFFFFFF80123450 104 in
    (tss_base d ≡ 0xFFFFFFFF80123450) × (descriptor_limit d + 1 ≡ 104)
gdt_create_tss_entry-fields_example =
    gdt_create_tss_entry-fields 0xFFFFFFFF80123450 104 (omega arith) (omega arith) (omega arith)
