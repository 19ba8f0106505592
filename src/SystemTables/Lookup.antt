-- ===== src/SystemTables/Lookup.antt =====
-- Which table `AcpiFindTable` of src/Initialize/systemTables.c finds.
use mini_user_os.Prelude.{
  ℕ, zero, suc, ◌+◌, ◌*◌, ◌-◌, ◌/◌, ◌%◌, ◌<◌, ◌≤◌, ◌≡◌, ◌≢◌, ◌⊎◌, inl, inr, refl, ap, ◌∙◌, Bool,
  true, false, not, ◌&&◌, ◌==◌, if◌then◌else◌, List, [], ◌∷◌, arith, ℕ_discrete,
}
use mathlib.Core.Path.{subst}
use mini_user_os.Machine.{null, word, add64}
use mini_user_os.SystemTables.{Bytes, field, compare_signature}
use mini_user_os.SystemTables.Acpi.{
  header_size, table_length, search_from, validate_checksum, entries_of, find_table,
}
use mini_user_os.SystemTables.Checksum.{sum_bytes, validate_checksum-sum}
use mini_user_os.SystemTables.Words.{u32, u64, field-u32, field-u64}

-- The bytes from an address on are those characters.
abbrev pub Reads : ℕ → List ℕ → Bytes → Type 0
Reads p [] b = Unit {0}
Reads p (c ∷ cs) b = (b p ≡ c) × Reads (p + 1) cs b

-- A table with the signature whose bytes add up to a multiple of 256.
abbrev pub IsTable : List ℕ → Bytes → ℕ → Type 0
IsTable signature b h =
    (h ≢ null) × Reads h signature b × (sum_bytes (table_length h b) h b % 256 ≡ 0)

-- The addresses in a root table's entries.
abbrev pub headers_from : ℕ → ℕ → ℕ → ℕ → Bytes → List ℕ
headers_from zero i size table b = []
headers_from (suc left) i size table b =
    field size (add64 (table + header_size) (i * size)) b ∷ headers_from left (i + 1) size table b

-- The first of them that is such a table, or NULL.
abbrev pub FirstTable : List ℕ → Bytes → List ℕ → ℕ → Type 0
FirstTable signature b [] v = v ≡ null
FirstTable signature b (h ∷ hs) v =
    (IsTable signature b h × (v ≡ h)) ⊎ ((¬ (IsTable signature b h)) × FirstTable signature b hs v)

pub compare_signature-Reads :
    (p : ℕ) (cs : List ℕ) (b : Bytes) → compare_signature p cs b ≡ true → Reads p cs b
unfolding compare_signature
compare_signature-Reads p [] b h = tt
compare_signature-Reads p (c ∷ cs) b h =
    (ground arith, compare_signature-Reads (p + 1) cs b (ground arith))

Reads-compare_signature :
    (p : ℕ) (cs : List ℕ) (b : Bytes) → Reads p cs b → compare_signature p cs b ≡ true
unfolding compare_signature
Reads-compare_signature p [] b r = refl
Reads-compare_signature p (c ∷ cs) b r =
    let rest = Reads-compare_signature (p + 1) cs b r.1 in ground arith

-- The test in the loop.
abbrev accepts : List ℕ → Bytes → ℕ → Bool
accepts signature b h =
    not (h == null) && compare_signature h signature b && validate_checksum h (table_length h b) b

accepts-IsTable :
    (signature : List ℕ) (b : Bytes) (h : ℕ) → accepts signature b h ≡ true → IsTable signature b h
accepts-IsTable signature b h e = (
  ground arith,
  compare_signature-Reads h signature b (ground arith),
  (validate_checksum-sum h (table_length h b) b).0 (ground arith),
)

IsTable-accepts :
    (signature : List ℕ) (b : Bytes) (h : ℕ) → IsTable signature b h → accepts signature b h ≡ true
IsTable-accepts signature b h t = ground (
  arith,
  t.0,
  Reads-compare_signature h signature b t.1,
  (validate_checksum-sum h (table_length h b) b).1 t.2,
)

FirstTable-step :
    (signature : List ℕ) (b : Bytes) (h v : ℕ) (hs : List ℕ) (test : Bool)
    → accepts signature b h ≡ test
    → FirstTable signature b hs v
    → FirstTable signature b (h ∷ hs) (if test then h else v)
FirstTable-step signature b h v hs true e f = inl (accepts-IsTable signature b h e, refl)
FirstTable-step signature b h v hs false e f =
    inr (λ t. absurd (ground (arith, e, IsTable-accepts signature b h t)), f)

search_from-FirstTable :
    (left i size table : ℕ) (signature : List ℕ) (b : Bytes)
    → FirstTable signature b
        (headers_from left i size table b)
        (search_from left i size table signature b)
unfolding search_from
search_from-FirstTable zero i size table signature b = refl
search_from-FirstTable (suc left) i size table signature b =
    FirstTable-step signature b (field size (add64 (table + header_size) (i * size)) b)
      (search_from left (i + 1) size table signature b) (headers_from left (i + 1) size table b) _
      refl (search_from-FirstTable left (i + 1) size table signature b)

-- The addresses that the loops read.
abbrev pub headers_read : ℕ → ℕ → Bytes → List ℕ
headers_read xsdt rsdt b =
    if not (xsdt == null)
    then headers_from (entries_of 8 xsdt b) 0 8 xsdt b
    else if not (rsdt == null)
    then headers_from (entries_of 4 rsdt b) 0 4 rsdt b
    else []

-- The result is the first right table of those addresses, whatever the lengths in the bytes.
pub find_table-FirstTable_read :
    (xsdt rsdt : ℕ) (signature : List ℕ) (b : Bytes)
    → FirstTable signature b (headers_read xsdt rsdt b) (find_table xsdt rsdt signature b)
unfolding find_table
find_table-FirstTable_read xsdt rsdt signature b = go (not (xsdt == null)) (not (rsdt == null))
  where
    go :
        (t u : Bool)
        → FirstTable signature b
            (if t
              then headers_from (entries_of 8 xsdt b) 0 8 xsdt b
              else if u
              then headers_from (entries_of 4 rsdt b) 0 4 rsdt b
              else [])
            (if t
              then search_from (entries_of 8 xsdt b) 0 8 xsdt signature b
              else if u
              then search_from (entries_of 4 rsdt b) 0 4 rsdt signature b
              else null)
    go true u = search_from-FirstTable (entries_of 8 xsdt b) 0 8 xsdt signature b
    go false true = search_from-FirstTable (entries_of 4 rsdt b) 0 4 rsdt signature b
    go false false = refl

-- The entries of a root table, so many and one behind the other from `p` on.
abbrev pub entries_at : (Bytes → ℕ → ℕ) → ℕ → ℕ → ℕ → Bytes → List ℕ
entries_at read size zero p b = []
entries_at read size (suc left) p b = read b p ∷ entries_at read size left (p + size) b

-- A root table has 36 bytes, its length in those from 4 on, and then addresses of 8 bytes in the XSDT and
-- of 4 in the RSDT.
abbrev pub xsdt_entries : Bytes → ℕ → List ℕ
xsdt_entries b t = entries_at u64 8 ((u32 b (t + 4) - 36) / 8) (t + 36) b

abbrev pub rsdt_entries : Bytes → ℕ → List ℕ
rsdt_entries b t = entries_at u32 4 ((u32 b (t + 4) - 36) / 4) (t + 36) b

-- The table is no shorter than its header and does not reach beyond the last address.
abbrev pub IsRoot : Bytes → ℕ → Type 0
IsRoot b t = (36 ≤ u32 b (t + 4)) × (t + u32 b (t + 4) ≤ word)

cons-eq : {h k : ℕ} {hs ks : List ℕ} → h ≡ k → hs ≡ ks → h ∷ hs ≡ k ∷ ks
cons-eq p q = rw (p, q) refl

headers_from-entries_at :
    (read : Bytes → ℕ → ℕ) (left i size table p : ℕ) (b : Bytes)
    → ((q : ℕ) → field size q b ≡ read b q)
    → p ≡ table + 36 + i * size
    → 0 < size
    → p + left * size ≤ word
    → headers_from left i size table b ≡ entries_at read size left p b
headers_from-entries_at read zero i size table p b same at some fits = refl
headers_from-entries_at read (suc left) i size table p b same at some fits =
    cons-eq (ap (λ q. field size q b) here ∙ same p) (
      headers_from-entries_at read left (i + 1) size table (p + size) b same (omega (arith, at))
        some (omega (arith, fits)))
  where
    here : add64 (table + header_size) (i * size) ≡ p
    here = omega (arith, at, fits, some)

entries_of-IsRoot :
    (size table : ℕ) (b : Bytes)
    → IsRoot b table
    → entries_of size table b ≡ (u32 b (table + 4) - 36) / size
entries_of-IsRoot size table b r = ap (λ n. n / size) (omega (arith, field-u32 (table + 4) b, r))

-- The addresses that the XSDT holds, or those of the RSDT if there is no XSDT.
abbrev pub root_entries : ℕ → ℕ → Bytes → List ℕ
root_entries xsdt rsdt b =
    if not (xsdt == null)
    then xsdt_entries b xsdt
    else if not (rsdt == null)
    then rsdt_entries b rsdt
    else []

headers_read-root_entries :
    (xsdt rsdt : ℕ) (b : Bytes)
    → (xsdt ≢ null → IsRoot b xsdt)
    → (xsdt ≡ null → rsdt ≢ null → IsRoot b rsdt)
    → headers_read xsdt rsdt b ≡ root_entries xsdt rsdt b
headers_read-root_entries xsdt rsdt b x r = elim (ℕ_discrete xsdt null) [
  | no ne ↦ let test : (xsdt == null) ≡ false = ground arith in rw test (wide (x ne))
  | yes e ↦ elim (ℕ_discrete rsdt null) [
    | no ne ↦
        let test : (xsdt == null) ≡ true = ground arith in
        let test2 : (rsdt == null) ≡ false = ground arith in rw (test, test2) (narrow (r e ne))
    | yes e2 ↦
        let test : (xsdt == null) ≡ true = ground arith in
        let test2 : (rsdt == null) ≡ true = ground arith in rw (test, test2) refl
  ]
]
  where
    wide : IsRoot b xsdt → headers_from (entries_of 8 xsdt b) 0 8 xsdt b ≡ xsdt_entries b xsdt
    wide i =
        ap (λ n. headers_from n 0 8 xsdt b) (entries_of-IsRoot 8 xsdt b i)
        ∙ headers_from-entries_at u64 _ 0 8 xsdt (xsdt + 36) b (λ q. field-u64 q b) (omega arith)
            (omega arith) (omega (arith, i))

    narrow : IsRoot b rsdt → headers_from (entries_of 4 rsdt b) 0 4 rsdt b ≡ rsdt_entries b rsdt
    narrow i =
        ap (λ n. headers_from n 0 4 rsdt b) (entries_of-IsRoot 4 rsdt b i)
        ∙ headers_from-entries_at u32 _ 0 4 rsdt (rsdt + 36) b (λ q. field-u32 q b) (omega arith)
            (omega arith) (omega (arith, i))

-- With a root table that is no shorter than its header and does not reach beyond the last address,
-- `AcpiFindTable` returns the first of the addresses behind the header of the XSDT, or of the RSDT if there
-- is no XSDT, at which a table lies that has the signature and a right checksum, and NULL if there is none.
pub find_table-FirstTable :
    (xsdt rsdt : ℕ) (signature : List ℕ) (b : Bytes)
    → (xsdt ≢ null → IsRoot b xsdt)
    → (xsdt ≡ null → rsdt ≢ null → IsRoot b rsdt)
    → FirstTable signature b (root_entries xsdt rsdt b) (find_table xsdt rsdt signature b)
find_table-FirstTable xsdt rsdt signature b x r =
    subst (λ hs. FirstTable signature b hs (find_table xsdt rsdt signature b))
      (headers_read-root_entries xsdt rsdt b x r) (find_table-FirstTable_read xsdt rsdt signature b)
