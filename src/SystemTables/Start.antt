-- ===== src/SystemTables/Start.antt =====
-- `SystemTablesInitialize` of src/Initialize/systemTables.c.
use mini_user_os.Prelude.{ℕ, not, ◌&&◌, ◌==◌, leb, if◌then◌else◌, List, [], ◌∷◌}
use mini_user_os.Machine.{null}
use mini_user_os.SystemTables.{Bytes}
use mini_user_os.SystemTables.Acpi.{
  Firmware, smbios3_guid, smbios_guid, find_config_table, get_rsdp, rsdp_revision, xsdt_address,
  rsdt_address, find_table,
}

-- The global pointers.
pub record Tables : Type 0 where
  pub rsdp : ℕ
  pub xsdt : ℕ
  pub rsdt : ℕ
  pub madt : ℕ
  pub smbios : ℕ
  pub smbios3 : ℕ

-- "APIC"
abbrev pub madt_signature : List ℕ
madt_signature = 65 ∷ 80 ∷ 73 ∷ 67 ∷ []

-- The branch with an RSDP.
unfoldable pub load_acpi : ℕ → Bytes → Tables → Tables
load_acpi rsdp b t =
    let xsdt =
      if leb 2 (rsdp_revision rsdp b) && not (xsdt_address rsdp b == 0)
      then xsdt_address rsdp b
      else t.xsdt in
    let rsdt = if not (rsdt_address rsdp b == 0) then rsdt_address rsdp b else t.rsdt in
    record t { xsdt = xsdt; rsdt = rsdt; madt = find_table xsdt rsdt madt_signature b }

unfoldable pub load_smbios : Firmware → Tables → Tables
load_smbios f t =
    let smbios3 = find_config_table f smbios3_guid in
    let t1 = record t { smbios3 = smbios3 } in
    if not (smbios3 == null) then t1 else record t1 { smbios = find_config_table f smbios_guid }

unfoldable pub initialize : Firmware → Bytes → Tables → Tables
initialize f b t =
    let rsdp = get_rsdp f b in
    let t1 = record t { rsdp = rsdp } in
    load_smbios f (if not (rsdp == null) then load_acpi rsdp b t1 else t1)
