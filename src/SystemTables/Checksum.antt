-- ===== src/SystemTables/Checksum.antt =====
-- What `AcpiValidateChecksum` of src/Initialize/systemTables.c accepts.
use mini_user_os.Prelude.{ℕ, zero, suc, ◌+◌, ◌%◌, ◌≡◌, ◌↔◌, true, ◌==◌, ◌∙◌, ap, refl, sym, arith}
use mini_user_os.SystemTables.{Bytes}
use mini_user_os.SystemTables.Acpi.{checksum_from, validate_checksum}

-- The sum of so many bytes, without bound.
abbrev pub sum_bytes : ℕ → ℕ → Bytes → ℕ
sum_bytes zero p b = 0
sum_bytes (suc left) p b = b p + sum_bytes left (p + 1) b

checksum_from-sum :
    (left p sum : ℕ) (b : Bytes)
    → checksum_from left p sum b % 256 ≡ (sum + sum_bytes left p b) % 256
unfolding checksum_from
checksum_from-sum zero p sum b = omega arith
checksum_from-sum (suc left) p sum b =
    checksum_from-sum left (p + 1) ((sum + b p) % 256) b ∙ omega arith

checksum_from-small :
    (left p sum : ℕ) (b : Bytes)
    → sum % 256 ≡ sum
    → checksum_from left p sum b % 256 ≡ checksum_from left p sum b
unfolding checksum_from
checksum_from-small zero p sum b h = h
checksum_from-small (suc left) p sum b h =
    checksum_from-small left (p + 1) ((sum + b p) % 256) b (omega arith)

-- The checksum is right just when the sum of the table's bytes is a multiple of 256.
pub validate_checksum-sum :
    (table length : ℕ) (b : Bytes)
    → (validate_checksum table length b ≡ true) ↔ (sum_bytes length table b % 256 ≡ 0)
unfolding validate_checksum
validate_checksum-sum table length b =
    (λ h. omega (arith, same, zero_sum h), λ h. ground (arith, same))
  where
    same : checksum_from length table 0 b ≡ sum_bytes length table b % 256
    same =
        sym (checksum_from-small length table 0 b refl)
        ∙ checksum_from-sum length table 0 b
        ∙ ap (λ n. n % 256) (omega arith)

    zero_sum : (checksum_from length table 0 b == 0) ≡ true → checksum_from length table 0 b ≡ 0
    zero_sum h = ground arith
