-- ===== src/SystemTables/Processors.antt =====
-- The number of processors that `AcpiGetProcessorCount` of src/Initialize/systemTables.c finds.
use mini_user_os.Prelude.{
  ℕ, zero, suc, ◌+◌, ◌-◌, ◌%◌, ◌<◌, ◌≤◌, ◌≡◌, ◌≢◌, ◌⊎◌, inl, inr, refl, sym, ap, ◌∙◌, Bool, true,
  false, ◌&&◌, ◌||◌, ◌==◌, if◌then◌else◌, ltb, List, [], ◌∷◌, length, max, arith,
}
use mini_user_os.Machine.{null, word, add64}
use mini_user_os.SystemTables.{Bytes, field}
use mini_user_os.SystemTables.Words.{u32, field-u32}
use mini_user_os.SystemTables.Acpi.{
  enabled_at, count_from, get_processor_count, table_length, madt_size,
}

-- The walk from `ptr` visits entries at these addresses: it stops at the end or at an entry of length 0.
abbrev pub Entries : Bytes → ℕ → ℕ → List ℕ → Type 0
Entries b ptr end [] = (end ≤ ptr) ⊎ (b (ptr + 1) ≡ 0)
Entries b ptr end (p ∷ ps) =
    (ptr ≡ p) × (ptr < end) × (b (ptr + 1) ≢ 0) × Entries b (ptr + b (ptr + 1)) end ps

-- An entry for an enabled processor: one of type 0 whose flags, from its byte 4 on, are odd, or one of type
-- 9 whose flags, from its byte 8 on, are odd.
abbrev pub is_enabled : Bytes → ℕ → Bool
is_enabled b p = b p == 0 && b (p + 4) % 2 == 1 || b p == 9 && b (p + 8) % 2 == 1

-- How many of the entries are those of enabled processors.
abbrev pub enabled : Bytes → List ℕ → ℕ
enabled b [] = 0
enabled b (p ∷ ps) = if is_enabled b p then 1 + enabled b ps else enabled b ps

field-odd : (p : ℕ) (b : Bytes) → field 4 p b % 2 ≡ b p % 2
unfolding field
field-odd p b = omega arith

enabled_at-is_enabled :
    (p : ℕ) (b : Bytes) (ps : List ℕ)
    → enabled_at p b + enabled b ps ≡ (if is_enabled b p then 1 + enabled b ps else enabled b ps)
unfolding enabled_at
enabled_at-is_enabled p b ps = ground (arith, field-odd (p + 4) b, field-odd (p + 8) b)

count_from-stop :
    (fuel ptr end count : ℕ) (b : Bytes)
    → (end ≤ ptr) ⊎ (b (ptr + 1) ≡ 0)
    → count_from fuel ptr end count b ≡ count
unfolding count_from
count_from-stop zero ptr end count b h = refl
count_from-stop (suc fuel) ptr end count b h = ground arith

count_from-step :
    (fuel ptr end count : ℕ) (b : Bytes)
    → ptr < end
    → b (ptr + 1) ≢ 0
    → count_from (suc fuel) ptr end count b
      ≡ count_from fuel (ptr + b (ptr + 1)) end (add64 count (enabled_at ptr b)) b
unfolding count_from
count_from-step fuel ptr end count b h ne = rw (below, some_length) refl
  where
    below : ltb ptr end ≡ true
    below = ground arith

    some_length : (b (ptr + 1) == 0) ≡ false
    some_length = ground arith

count_from-enabled :
    (ps : List ℕ) (fuel ptr end count : ℕ) (b : Bytes)
    → Entries b ptr end ps
    → length ps ≤ fuel
    → count + enabled b ps < word
    → count_from fuel ptr end count b ≡ count + enabled b ps
count_from-enabled [] fuel ptr end count b e h small =
    count_from-stop fuel ptr end count b e ∙ omega arith
count_from-enabled (p ∷ ps) zero ptr end count b e h small = absurd (omega arith)
count_from-enabled (p ∷ ps) (suc fuel) ptr end count b e h small =
    count_from-step fuel ptr end count b e.1 e.2
    ∙ count_from-enabled ps fuel (ptr + b (ptr + 1)) end (add64 count (enabled_at ptr b)) b e.3
        (omega arith) (omega (arith, added, sum))
    ∙ omega (arith, added, sum)
  where
    sum : enabled_at p b + enabled b ps ≡ enabled b (p ∷ ps)
    sum = enabled_at-is_enabled p b ps

    added : add64 count (enabled_at ptr b) ≡ count + enabled_at p b
    added = ap (λ q. add64 count (enabled_at q b)) e.0 ∙ omega (arith, sum)

dec-Stop :
    (ptr end : ℕ) (b : Bytes)
    → ((end ≤ ptr) ⊎ (b (ptr + 1) ≡ 0)) ⊎ ((ptr < end) × (b (ptr + 1) ≢ 0))
dec-Stop ptr end b = ground arith

-- The walk ends: more fuel than bytes are left makes no difference.
count_from-enough :
    (f g ptr end count : ℕ) (b : Bytes)
    → end - ptr ≤ f
    → end - ptr ≤ g
    → count_from f ptr end count b ≡ count_from g ptr end count b
count_from-enough zero g ptr end count b hf hg =
    count_from-stop zero ptr end count b (inl (omega arith))
    ∙ sym (count_from-stop g ptr end count b (inl (omega arith)))
count_from-enough (suc f) zero ptr end count b hf hg =
    count_from-stop (suc f) ptr end count b (inl (omega arith))
    ∙ sym (count_from-stop zero ptr end count b (inl (omega arith)))
count_from-enough (suc f) (suc g) ptr end count b hf hg = elim (dec-Stop ptr end b) [
  | inl stop ↦
      count_from-stop (suc f) ptr end count b stop
      ∙ sym (count_from-stop (suc g) ptr end count b stop)
  | inr go ↦
      count_from-step f ptr end count b go.0 go.1
      ∙ count_from-enough f g (ptr + b (ptr + 1)) end (add64 count (enabled_at ptr b)) b
          (omega (arith, go.0, go.1)) (omega (arith, go.0, go.1))
      ∙ sym (count_from-step g ptr end count b go.0 go.1)
]

get_processor_count-walk :
    (fuel madt : ℕ) (b : Bytes)
    → madt ≢ null
    → get_processor_count fuel madt b
      ≡ max 1 (count_from fuel (madt + madt_size) (madt + table_length madt b) 0 b)
unfolding get_processor_count
get_processor_count-walk fuel madt b ne = ground arith

-- With a MADT whose entries, from its byte 44 to its length, lie at given addresses,
-- `AcpiGetProcessorCount` returns the number of the entries of type 0 or 9 whose enabled flag is set, and 1
-- if there is none, if that number fits into 64 bits; as much fuel as there are entries is enough.
pub get_processor_count-enabled :
    (fuel madt : ℕ) (b : Bytes) (ps : List ℕ)
    → madt ≢ null
    → Entries b (madt + 44) (madt + u32 b (madt + 4)) ps
    → length ps ≤ fuel
    → enabled b ps < word
    → get_processor_count fuel madt b ≡ max 1 (enabled b ps)
get_processor_count-enabled fuel madt b ps ne e h small =
    get_processor_count-walk fuel madt b ne
    ∙ ap (λ n. max 1 (count_from fuel (madt + 44) (madt + n) 0 b)) (field-u32 (madt + 4) b)
    ∙ ap (max 1) (count_from-enabled ps fuel _ _ 0 b e h (omega arith) ∙ omega arith)

-- Whatever bytes the table holds, the walk of `AcpiGetProcessorCount` ends: with as much fuel as the
-- table is long, more makes no difference.
pub get_processor_count-enough :
    (fuel more madt : ℕ) (b : Bytes)
    → table_length madt b ≤ fuel
    → get_processor_count (fuel + more) madt b ≡ get_processor_count fuel madt b
unfolding get_processor_count
get_processor_count-enough fuel more madt b h =
    rw
      (count_from-enough (fuel + more) fuel (madt + madt_size) (madt + table_length madt b) 0 b
        (omega arith) (omega arith))
      refl
