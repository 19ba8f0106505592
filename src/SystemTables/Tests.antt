-- ===== src/SystemTables/Tests.antt =====
-- The firmware's tables at concrete bytes.
use mini_user_os.Prelude.{
  ℕ, ◌+◌, ◌%◌, ◌≡◌, ◌<◌, ◌≤◌, ◌⊎◌, ◌↔◌, inl, inr, refl, true, ◌==◌, if◌then◌else◌, List, [], ◌∷◌,
  max, arith,
}
use mini_user_os.Machine.{null, word}
use mini_user_os.SystemTables.{Bytes, field}
use mini_user_os.SystemTables.Acpi.{
  Firmware, table_length, validate_checksum, find_table, get_processor_count,
}
use mini_user_os.SystemTables.Smbios.{get_next, find_structure}
use mini_user_os.SystemTables.Start.{Tables, madt_signature, initialize}
use mini_user_os.SystemTables.Checksum.{sum_bytes, validate_checksum-sum}
use mini_user_os.SystemTables.Words.{u32}
use mini_user_os.SystemTables.Lookup.{
  IsTable, FirstTable, IsRoot, root_entries, find_table-FirstTable,
}
use mini_user_os.SystemTables.Processors.{
  Entries, enabled, get_processor_count-enabled, get_processor_count-enough,
}
use mini_user_os.SystemTables.Strings.{
  Strings, Structures, table_start, table_end_of, FirstOf, get_next-Strings, find_structure-FirstOf,
}
use mini_user_os.SystemTables.Trusted.{IsRsdp, initialize-IsTable}

-- Bytes by their address, zero elsewhere.
byte_in : List (ℕ × ℕ) → ℕ → ℕ
byte_in [] p = 0
byte_in ((q, v) ∷ rest) p = if p == q then v else byte_in rest p

-- An XSDT at 1000 with one entry; a MADT at 2000 with a processor that is enabled and one that is not; an
-- SMBIOS entry point at 4000 and two structures from 3000 on.
abbrev bytes : Bytes
unfolding byte_in
bytes p =
    byte_in
      ((1004, 44)
        ∷ (1036, 208)
        ∷ (1037, 7)
        ∷ (2000, 65)
        ∷ (2001, 80)
        ∷ (2002, 73)
        ∷ (2003, 67)
        ∷ (2004, 60)
        ∷ (2009, 150)
        ∷ (2045, 8)
        ∷ (2048, 1)
        ∷ (2053, 8)
        ∷ (3000, 17)
        ∷ (3001, 4)
        ∷ (3004, 65)
        ∷ (3007, 127)
        ∷ (4022, 9)
        ∷ (4024, 184)
        ∷ (4025, 11)
        ∷ [])
      p

madt-Entries : Entries bytes (2000 + 44) (2000 + u32 bytes (2000 + 4)) (2044 ∷ 2052 ∷ [])
unfolding byte_in
madt-Entries = (refl, omega arith, omega arith, (refl, omega arith, omega arith, inl (omega arith)))

madt-enabled : enabled bytes (2044 ∷ 2052 ∷ []) < word
unfolding byte_in
madt-enabled = omega arith

madt-length : table_length 2000 bytes ≤ 60
unfolding byte_in field
madt-length = omega arith

xsdt-IsRoot : IsRoot bytes 1000
unfolding byte_in
xsdt-IsRoot = (omega arith, omega arith)

first-Strings : Strings bytes (3000 + bytes (3000 + 1)) 1
unfolding byte_in
first-Strings = (λ c. omega (arith, c.0), (refl, refl))

smbios-Structures :
    Structures 2 bytes (table_start 0 4000 bytes) (table_end_of 0 4000 bytes) (3000 ∷ 3007 ∷ [])
unfolding byte_in field
smbios-Structures = (
  refl,
  omega arith,
  omega arith,
  inr (1, omega arith, first-Strings, (refl, omega arith, omega arith, inl (refl, refl))),
)

validate_checksum-sum_example :
    (validate_checksum 2000 60 bytes ≡ true) ↔ (sum_bytes 60 2000 bytes % 256 ≡ 0)
validate_checksum-sum_example = validate_checksum-sum 2000 60 bytes

find_table-FirstTable_example :
    FirstTable madt_signature bytes
      (root_entries 1000 0 bytes)
      (find_table 1000 0 madt_signature bytes)
find_table-FirstTable_example =
    find_table-FirstTable 1000 0 madt_signature bytes (λ ne. xsdt-IsRoot)
      (λ e ne. absurd (omega (arith, e)))

get_processor_count-enabled_example :
    get_processor_count 2 2000 bytes ≡ max 1 (enabled bytes (2044 ∷ 2052 ∷ []))
get_processor_count-enabled_example =
    get_processor_count-enabled 2 2000 bytes (2044 ∷ 2052 ∷ []) (omega arith) madt-Entries
      (omega arith) madt-enabled

get_processor_count-enough_example :
    get_processor_count (60 + 5) 2000 bytes ≡ get_processor_count 60 2000 bytes
get_processor_count-enough_example = get_processor_count-enough 60 5 2000 bytes madt-length

get_next-Strings_example : get_next 2 3000 bytes ≡ 3000 + bytes 3001 + 1 + 2
get_next-Strings_example = get_next-Strings 2 3000 1 bytes (omega arith) first-Strings (omega arith)

find_structure-FirstOf_example :
    FirstOf 127 bytes (3000 ∷ 3007 ∷ []) (find_structure 2 2 0 4000 127 bytes)
find_structure-FirstOf_example =
    find_structure-FirstOf 2 2 0 4000 127 bytes (3000 ∷ 3007 ∷ []) (inr (omega arith))
      smbios-Structures (omega arith)

abbrev firmware : Firmware
firmware = record { compare_guid = λ g h. 1; configuration = [] }

abbrev no_tables : Tables
no_tables = record { rsdp = 0; xsdt = 0; rsdt = 0; madt = 0; smbios = 0; smbios3 = 0 }

initialize-IsTable_example :
    (((initialize firmware bytes no_tables).rsdp ≡ null)
      ⊎ IsRsdp bytes (initialize firmware bytes no_tables).rsdp)
    × (((initialize firmware bytes no_tables).madt ≡ null)
        ⊎ IsTable madt_signature bytes (initialize firmware bytes no_tables).madt)
initialize-IsTable_example = initialize-IsTable firmware bytes no_tables refl
