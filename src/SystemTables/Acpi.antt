-- ===== src/SystemTables/Acpi.antt =====
-- The ACPI functions of src/Initialize/systemTables.c, with the fields of
-- include/Initialize/systemTables.h.
use mini_user_os.Prelude.{
  ℕ, zero, suc, ◌+◌, ◌*◌, ◌/◌, ◌%◌, Bool, not, ◌&&◌, ◌==◌, leb, ltb, if◌then◌else◌, List, [], ◌∷◌,
}
use mini_user_os.Machine.{null, add64, sub64}
use mini_user_os.SystemTables.{Bytes, field, compare_signature}

-- `EFI_GUID`
pub record Guid : Type 0 where
  pub data1 : ℕ
  pub data2 : ℕ
  pub data3 : ℕ
  pub data4 : List ℕ

-- `EFI_CONFIGURATION_TABLE`
pub record ConfigurationTable : Type 0 where
  pub vendor_guid : Guid
  pub vendor_table : ℕ

-- What the firmware gives: the comparison, which is 0 for equal identifiers, and its table.
pub record Firmware : Type 0 where
  pub compare_guid : Guid → Guid → ℕ
  pub configuration : List ConfigurationTable

abbrev pub acpi20_guid : Guid
acpi20_guid = record {
  data1 = 0x8868e871;
  data2 = 0xe4f1;
  data3 = 0x11d3;
  data4 = 0xbc ∷ 0x22 ∷ 0x00 ∷ 0x80 ∷ 0xc7 ∷ 0x3c ∷ 0x88 ∷ 0x81 ∷ [];
}

abbrev pub acpi10_guid : Guid
acpi10_guid = record {
  data1 = 0xeb9d2d30;
  data2 = 0x2d88;
  data3 = 0x11d3;
  data4 = 0x9a ∷ 0x16 ∷ 0x00 ∷ 0x90 ∷ 0x27 ∷ 0x3f ∷ 0xc1 ∷ 0x4d ∷ [];
}

abbrev pub smbios3_guid : Guid
smbios3_guid = record {
  data1 = 0xf2fd1544;
  data2 = 0x9794;
  data3 = 0x4a2c;
  data4 = 0x99 ∷ 0x2e ∷ 0xe5 ∷ 0xbb ∷ 0xcf ∷ 0x20 ∷ 0xe3 ∷ 0x94 ∷ [];
}

abbrev pub smbios_guid : Guid
smbios_guid = record {
  data1 = 0xeb9d2d31;
  data2 = 0x2d88;
  data3 = 0x11d3;
  data4 = 0x9a ∷ 0x16 ∷ 0x00 ∷ 0x90 ∷ 0x27 ∷ 0x3f ∷ 0xc1 ∷ 0x4d ∷ [];
}

-- `for (i; i < ST->NumberOfTableEntries; i++)`
unfoldable pub find_config : (Guid → Guid → ℕ) → Guid → List ConfigurationTable → ℕ
find_config compare guid [] = null
find_config compare guid (t ∷ ts) =
    let rest = find_config compare guid ts in
    if compare t.vendor_guid guid == 0 then t.vendor_table else rest

unfoldable pub find_config_table : Firmware → Guid → ℕ
find_config_table f guid = find_config f.compare_guid guid f.configuration

-- `for (i; i < length; i++)`: the sum of bytes in 8 bits
unfoldable pub checksum_from : ℕ → ℕ → ℕ → Bytes → ℕ
checksum_from zero p sum b = sum
checksum_from (suc left) p sum b = checksum_from left (p + 1) ((sum + b p) % 256) b

unfoldable pub validate_checksum : ℕ → ℕ → Bytes → Bool
validate_checksum table length b = checksum_from length table 0 b == 0

-- "RSD PTR "
abbrev pub rsdp_signature : List ℕ
rsdp_signature = 82 ∷ 83 ∷ 68 ∷ 32 ∷ 80 ∷ 84 ∷ 82 ∷ 32 ∷ []

-- Fields of `acpi_rsdp_t`
abbrev pub rsdp_revision : ℕ → Bytes → ℕ
rsdp_revision p b = b (p + 15)

abbrev pub rsdt_address : ℕ → Bytes → ℕ
rsdt_address p b = field 4 (p + 16) b

abbrev pub rsdp_length : ℕ → Bytes → ℕ
rsdp_length p b = field 4 (p + 20) b

abbrev pub xsdt_address : ℕ → Bytes → ℕ
xsdt_address p b = field 8 (p + 24) b

-- The tests of `AcpiGetRSDP`
unfoldable pub check_rsdp : ℕ → Bytes → ℕ
check_rsdp rsdp b =
    if rsdp == null
    then null
    else if not (compare_signature rsdp rsdp_signature b)
    then null
    else if not (validate_checksum rsdp 20 b)
    then null
    else if leb 2 (rsdp_revision rsdp b) && not (validate_checksum rsdp (rsdp_length rsdp b) b)
    then null
    else rsdp

unfoldable pub get_rsdp : Firmware → Bytes → ℕ
get_rsdp f b =
    let rsdp = find_config_table f acpi20_guid in
    check_rsdp (if rsdp == null then find_config_table f acpi10_guid else rsdp) b

-- `sizeof(acpi_sdt_header_t)`, and its field `Length`
abbrev pub header_size : ℕ
header_size = 36

abbrev pub table_length : ℕ → Bytes → ℕ
table_length p b = field 4 (p + 4) b

-- `for (i; i < entries; i++)` over entries of `size` bytes, with the rounds that are left first
unfoldable pub search_from : ℕ → ℕ → ℕ → ℕ → List ℕ → Bytes → ℕ
search_from zero i size table signature b = null
search_from (suc left) i size table signature b =
    let header = field size (add64 (table + header_size) (i * size)) b in
    let rest = search_from left (i + 1) size table signature b in
    if not (header == null)
      && compare_signature header signature b
      && validate_checksum header (table_length header b) b
    then header
    else rest

-- `(Length - sizeof(acpi_sdt_header_t)) / size`
abbrev pub entries_of : ℕ → ℕ → Bytes → ℕ
entries_of size table b = sub64 (table_length table b) header_size / size

unfoldable pub find_table : ℕ → ℕ → List ℕ → Bytes → ℕ
find_table xsdt rsdt signature b =
    if not (xsdt == null)
    then search_from (entries_of 8 xsdt b) 0 8 xsdt signature b
    else if not (rsdt == null)
    then search_from (entries_of 4 rsdt b) 0 4 rsdt signature b
    else null

abbrev pub madt_local_apic : ℕ
madt_local_apic = 0

abbrev pub madt_local_x2apic : ℕ
madt_local_x2apic = 9

-- `sizeof(acpi_madt_t)`
abbrev pub madt_size : ℕ
madt_size = 44

-- What an entry adds to the count.
unfoldable pub enabled_at : ℕ → Bytes → ℕ
enabled_at ptr b =
    if b ptr == madt_local_apic
    then field 4 (ptr + 4) b % 2
    else if b ptr == madt_local_x2apic
    then field 4 (ptr + 8) b % 2
    else 0

-- `while (ptr < end)`, on fuel
unfoldable pub count_from : ℕ → ℕ → ℕ → ℕ → Bytes → ℕ
count_from zero ptr end count b = count
count_from (suc fuel) ptr end count b =
    let rest = count_from fuel (ptr + b (ptr + 1)) end (add64 count (enabled_at ptr b)) b in
    if not (ltb ptr end) then count else if b (ptr + 1) == 0 then count else rest

unfoldable pub get_processor_count : ℕ → ℕ → Bytes → ℕ
get_processor_count fuel madt b =
    let count = count_from fuel (madt + madt_size) (madt + table_length madt b) 0 b in
    if madt == null then 1 else if ltb 0 count then count else 1
