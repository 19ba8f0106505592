-- ===== src/SystemTables/Trusted.antt =====
-- What the pointers that `SystemTablesInitialize` of src/Initialize/systemTables.c sets refer to.
use mini_user_os.Prelude.{
  ℕ, ◌%◌, ◌≤◌, ◌≡◌, ◌⊎◌, inl, inr, refl, sym, ◌∙◌, true, false, not, ◌&&◌, leb, ◌==◌, if◌then◌else◌,
  List, [], ◌∷◌, arith, ℕ_discrete,
}
use mathlib.Core.Path.{subst}
use mini_user_os.Machine.{null}
use mini_user_os.SystemTables.{Bytes, compare_signature}
use mini_user_os.SystemTables.Acpi.{
  Firmware, check_rsdp, get_rsdp, rsdp_signature, rsdp_length, rsdp_revision, validate_checksum,
  find_table,
}
use mini_user_os.SystemTables.Start.{Tables, madt_signature, load_acpi, load_smbios, initialize}
use mini_user_os.SystemTables.Checksum.{sum_bytes, validate_checksum-sum}
use mini_user_os.SystemTables.Lookup.{
  Reads, IsTable, FirstTable, headers_read, compare_signature-Reads, find_table-FirstTable_read,
}

-- A root pointer: its signature, the checksum of its first 20 bytes, and from revision 2 on that of all.
abbrev pub IsRsdp : Bytes → ℕ → Type 0
IsRsdp b p =
    Reads p rsdp_signature b
    × (sum_bytes 20 p b % 256 ≡ 0)
    × (2 ≤ rsdp_revision p b → sum_bytes (rsdp_length p b) p b % 256 ≡ 0)

long_checksum-right :
    (p : ℕ) (b : Bytes)
    → (leb 2 (rsdp_revision p b) && not (validate_checksum p (rsdp_length p b) b)) ≡ false
    → 2 ≤ rsdp_revision p b
    → validate_checksum p (rsdp_length p b) b ≡ true
long_checksum-right p b e h = ground arith

check_rsdp-cases :
    (p : ℕ) (b : Bytes)
    → (check_rsdp p b ≡ null)
      ⊎ (check_rsdp p b ≡ p)
        × (compare_signature p rsdp_signature b ≡ true)
        × (validate_checksum p 20 b ≡ true)
        × ((leb 2 (rsdp_revision p b) && not (validate_checksum p (rsdp_length p b) b)) ≡ false)
unfolding check_rsdp
check_rsdp-cases p b = ground arith

check_rsdp-IsRsdp : (p : ℕ) (b : Bytes) → (check_rsdp p b ≡ null) ⊎ IsRsdp b (check_rsdp p b)
check_rsdp-IsRsdp p b = elim (check_rsdp-cases p b) [
  | inl e ↦ inl e
  | inr (e, signed, short, long) ↦ inr (
      subst (IsRsdp b) (sym e) (
        compare_signature-Reads p rsdp_signature b signed,
        (validate_checksum-sum p 20 b).0 short,
        λ h. (validate_checksum-sum p (rsdp_length p b) b).0 (long_checksum-right p b long h),
      ))
]

FirstTable-IsTable :
    (signature : List ℕ) (b : Bytes) (hs : List ℕ) (v : ℕ)
    → FirstTable signature b hs v
    → (v ≡ null) ⊎ IsTable signature b v
FirstTable-IsTable signature b [] v f = inl f
FirstTable-IsTable signature b (h ∷ hs) v (inl (t, e)) = inr (subst (IsTable signature b) (sym e) t)
FirstTable-IsTable signature b (h ∷ hs) v (inr (n, f)) = FirstTable-IsTable signature b hs v f

find_table-IsTable :
    (xsdt rsdt : ℕ) (signature : List ℕ) (b : Bytes)
    → (find_table xsdt rsdt signature b ≡ null)
      ⊎ IsTable signature b (find_table xsdt rsdt signature b)
find_table-IsTable xsdt rsdt signature b =
    FirstTable-IsTable signature b (headers_read xsdt rsdt b) (find_table xsdt rsdt signature b)
      (find_table-FirstTable_read xsdt rsdt signature b)

load_smbios-acpi :
    (f : Firmware) (t : Tables)
    → ((load_smbios f t).rsdp ≡ t.rsdp) × ((load_smbios f t).madt ≡ t.madt)
unfolding load_smbios
load_smbios-acpi f t = ground arith

load_acpi-madt :
    (rsdp : ℕ) (b : Bytes) (t : Tables)
    → ((load_acpi rsdp b t).rsdp ≡ t.rsdp)
      × (((load_acpi rsdp b t).madt ≡ null) ⊎ IsTable madt_signature b (load_acpi rsdp b t).madt)
unfolding load_acpi
load_acpi-madt rsdp b t = (refl, find_table-IsTable _ _ madt_signature b)

-- The pointers behind the part of the function that is about ACPI.
abbrev acpi_loaded : ℕ → Bytes → Tables → Tables
acpi_loaded r b t =
    if not (r == null) then load_acpi r b (record t { rsdp = r }) else record t { rsdp = r }

acpi_loaded-IsTable :
    (r : ℕ) (b : Bytes) (t : Tables)
    → t.madt ≡ null
    → ((acpi_loaded r b t).rsdp ≡ r)
      × (((acpi_loaded r b t).madt ≡ null) ⊎ IsTable madt_signature b (acpi_loaded r b t).madt)
acpi_loaded-IsTable r b t h = elim (ℕ_discrete r null) [
  | yes e ↦ let test : (r == null) ≡ true = ground arith in rw test (refl, inl h)
  | no ne ↦
      let test : (r == null) ≡ false = ground arith in
      rw test (load_acpi-madt r b (record t { rsdp = r }))
]

get_rsdp-IsRsdp : (f : Firmware) (b : Bytes) → (get_rsdp f b ≡ null) ⊎ IsRsdp b (get_rsdp f b)
unfolding get_rsdp
get_rsdp-IsRsdp f b = check_rsdp-IsRsdp _ b

initialize-loaded :
    (f : Firmware) (b : Bytes) (t : Tables)
    → ((initialize f b t).rsdp ≡ (acpi_loaded (get_rsdp f b) b t).rsdp)
      × ((initialize f b t).madt ≡ (acpi_loaded (get_rsdp f b) b t).madt)
unfolding initialize
initialize-loaded f b t = load_smbios-acpi f (acpi_loaded (get_rsdp f b) b t)

-- From NULL pointers on, `SystemTablesInitialize` sets the root pointer only to one with its signature
-- and right checksums, and the MADT only to a table with its signature and a right checksum; each is
-- NULL otherwise.
pub initialize-IsTable :
    (f : Firmware) (b : Bytes) (t : Tables)
    → t.madt ≡ null
    → (((initialize f b t).rsdp ≡ null) ⊎ IsRsdp b (initialize f b t).rsdp)
      × (((initialize f b t).madt ≡ null) ⊎ IsTable madt_signature b (initialize f b t).madt)
initialize-IsTable f b t h = (
  subst (λ r. (r ≡ null) ⊎ IsRsdp b r) (sym ((initialize-loaded f b t).0 ∙ loaded.0))
      (get_rsdp-IsRsdp f b),
  subst (λ m. (m ≡ null) ⊎ IsTable madt_signature b m) (sym (initialize-loaded f b t).1) loaded.1,
)
  where
    loaded :
        ((acpi_loaded (get_rsdp f b) b t).rsdp ≡ get_rsdp f b)
        × (((acpi_loaded (get_rsdp f b) b t).madt ≡ null)
            ⊎ IsTable madt_signature b (acpi_loaded (get_rsdp f b) b t).madt)
    loaded = acpi_loaded-IsTable (get_rsdp f b) b t h
