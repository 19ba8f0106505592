-- ===== src/SystemTables.antt =====
-- The firmware's ACPI and SMBIOS tables, src/Initialize/systemTables.c. They lie in memory as bytes.
pub mod Acpi
pub mod Smbios
pub mod Start
pub mod Words
pub mod Checksum
pub mod Lookup
pub mod Processors
pub mod Strings
pub mod Trusted
mod Tests
use mini_user_os.Prelude.{
  ℕ, zero, suc, ◌+◌, ◌*◌, Bool, true, false, ◌==◌, if◌then◌else◌, List, [], ◌∷◌,
}

abbrev pub Bytes : Type 0
Bytes = ℕ → ℕ

-- A field of so many bytes, the lowest one first.
unfoldable pub field : ℕ → ℕ → Bytes → ℕ
field zero p b = 0
field (suc size) p b = b p + 256 * field size (p + 1) b

-- The characters of a literal against those at an address; `len` is the literal's length.
unfoldable pub compare_signature : ℕ → List ℕ → Bytes → Bool
compare_signature p [] b = true
compare_signature p (c ∷ cs) b =
    let rest = compare_signature (p + 1) cs b in if b p == c then rest else false
