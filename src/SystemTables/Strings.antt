-- ===== src/SystemTables/Strings.antt =====
-- Where `SmbiosGetNext` and `SmbiosFindStructure` of src/Initialize/systemTables.c lead.
use mini_user_os.Prelude.{
  ℕ, zero, suc, ◌+◌, ◌<◌, ◌≤◌, ◌≡◌, ◌≢◌, ◌⊎◌, inl, inr, refl, sym, ap, ◌∙◌, true, false, not, ◌==◌,
  ltb, if◌then◌else◌, List, [], ◌∷◌, length, arith, ℕ_discrete,
}
use mathlib.Core.Path.{subst}
use mini_user_os.Machine.{null}
use mini_user_os.SystemTables.{Bytes, field}
use mini_user_os.SystemTables.Smbios.{
  skip_strings, get_next, find_from, find_structure, end_of_table,
}

-- Two zeros in a row.
abbrev pub Closed : Bytes → ℕ → Type 0
Closed b p = (b p ≡ 0) × (b (p + 1) ≡ 0)

-- The first two zeros in a row from `p` on stand `n` bytes further.
abbrev pub Strings : Bytes → ℕ → ℕ → Type 0
Strings b p zero = Closed b p
Strings b p (suc n) = (¬ (Closed b p)) × Strings b (p + 1) n

skip_strings-end :
    (n fuel p : ℕ) (b : Bytes) → Strings b p n → n < fuel → skip_strings fuel p b ≡ p + n
unfolding skip_strings
skip_strings-end n zero p b s h = absurd (omega arith)
skip_strings-end zero (suc fuel) p b s h = ground arith
skip_strings-end (suc n) (suc fuel) p b s h =
    let rest = skip_strings-end n fuel (p + 1) b s.1 (omega arith) in ground arith

-- A structure's next one stands behind the first two zeros in a row that follow its formatted part;
-- one step of fuel more than there are bytes between is enough.
pub get_next-Strings :
    (fuel current n : ℕ) (b : Bytes)
    → current ≢ null
    → Strings b (current + b (current + 1)) n
    → n < fuel
    → get_next fuel current b ≡ current + b (current + 1) + n + 2
unfolding get_next
get_next-Strings fuel current n b ne s h =
    let e = skip_strings-end n fuel (current + b (current + 1)) b s h in ground arith

-- The structures from `p` on stand at these addresses, up to the table's end or to the structure that
-- ends it; each other one is followed by the next one behind its strings.
abbrev pub Structures : ℕ → Bytes → ℕ → ℕ → List ℕ → Type 0
Structures scan b p table_end [] = table_end ≤ p
Structures scan b p table_end (q ∷ qs) =
    (p ≡ q)
    × (p < table_end)
    × (q ≢ null)
    × (((b p ≡ end_of_table) × (qs ≡ []))
        ⊎ ((n : ℕ) × (n < scan)
            × Strings b (p + b (p + 1)) n
            × Structures scan b (p + b (p + 1) + n + 2) table_end qs))

-- The first one of the type that stands before an end-of-table structure of another type, or NULL.
abbrev pub FirstOf : ℕ → Bytes → List ℕ → ℕ → Type 0
FirstOf type b [] v = v ≡ null
FirstOf type b (q ∷ qs) v =
    ((b q ≡ type) × (v ≡ q))
    ⊎ ((b q ≢ type) × (b q ≡ end_of_table) × (v ≡ null))
    ⊎ ((b q ≢ type) × (b q ≢ end_of_table) × FirstOf type b qs v)

module _ (scan table_end type : ℕ) (b : Bytes) where
  find_from-past : (fuel p : ℕ) → table_end ≤ p → find_from fuel scan p table_end type b ≡ null
  unfolding find_from
  find_from-past zero p h = refl
  find_from-past (suc fuel) p h = ground arith

  find_from-here :
      (fuel p : ℕ) → p < table_end → b p ≡ type → find_from (suc fuel) scan p table_end type b ≡ p
  unfolding find_from
  find_from-here fuel p h e = ground arith

  find_from-last :
      (fuel p : ℕ)
      → p < table_end
      → b p ≢ type
      → b p ≡ end_of_table
      → find_from (suc fuel) scan p table_end type b ≡ null
  unfolding find_from
  find_from-last fuel p h ne e = ground arith

  find_from-step :
      (fuel p n : ℕ)
      → p < table_end
      → b p ≢ type
      → b p ≢ end_of_table
      → get_next scan p b ≡ p + b (p + 1) + n + 2
      → find_from (suc fuel) scan p table_end type b
        ≡ find_from fuel scan (p + b (p + 1) + n + 2) table_end type b
  unfolding find_from
  find_from-step fuel p n h ne last e = rw e (rw (below, other, going, more) refl)
    where
      below : ltb p table_end ≡ true
      below = ground arith

      other : (b p == type) ≡ false
      other = ground arith

      going : (b p == end_of_table) ≡ false
      going = ground arith

      more : (p + b (p + 1) + n + 2 == null) ≡ false
      more = ground arith

  find_from-FirstOf :
      (qs : List ℕ) (fuel p : ℕ)
      → Structures scan b p table_end qs
      → length qs ≤ fuel
      → FirstOf type b qs (find_from fuel scan p table_end type b)
  find_from-FirstOf [] fuel p s h = find_from-past fuel p s
  find_from-FirstOf (q ∷ qs) zero p s h = absurd (omega arith)
  find_from-FirstOf (q ∷ qs) (suc fuel) p s h = elim (ℕ_discrete (b p) type) [
    | yes same ↦ inl (ap b (sym s.0) ∙ same, find_from-here fuel p s.1 same ∙ s.0)
    | no other ↦ elim (ℕ_discrete (b p) end_of_table) [
      | yes last ↦ inr (
          inl (
            λ e. other (ap b s.0 ∙ e),
            ap b (sym s.0) ∙ last,
            find_from-last fuel p s.1 other last,
          ))
      | no going ↦ inr (
          inr (
            λ e. other (ap b s.0 ∙ e),
            λ e. going (ap b s.0 ∙ e),
            elim s.3 [
              | inl last ↦ absurd (going last.0)
              | inr (n, few, strings, rest) ↦
                  subst (FirstOf type b qs)
                    (sym (
                      find_from-step fuel p n s.1 other going
                        (get_next-Strings scan p n b (λ e. s.2 (sym s.0 ∙ e)) strings few)))
                    (find_from-FirstOf qs fuel (p + b (p + 1) + n + 2) rest (omega arith))
            ],
          ))
    ]
  ]

-- The structures' table, as the entry point that is used gives it.
abbrev pub table_start : ℕ → ℕ → Bytes → ℕ
table_start smbios3 smbios b =
    if not (smbios3 == null) then field 8 (smbios3 + 16) b else field 4 (smbios + 24) b

abbrev pub table_end_of : ℕ → ℕ → Bytes → ℕ
table_end_of smbios3 smbios b =
    if not (smbios3 == null)
    then field 8 (smbios3 + 16) b + field 4 (smbios3 + 12) b
    else field 4 (smbios + 24) b + field 2 (smbios + 22) b

find_structure-table :
    (fuel scan smbios3 smbios type : ℕ) (b : Bytes)
    → (smbios3 ≢ null) ⊎ (smbios ≢ null)
    → find_structure fuel scan smbios3 smbios type b
      ≡ find_from fuel scan (table_start smbios3 smbios b) (table_end_of smbios3 smbios b) type b
unfolding find_structure
find_structure-table fuel scan smbios3 smbios type b h = elim (ℕ_discrete smbios3 null) [
  | yes e ↦
      (let none3 : (smbios3 == null) ≡ true = ground arith in
        let some2 : (smbios == null) ≡ false = ground arith in rw (none3, some2) refl)
  | no ne ↦ let some3 : (smbios3 == null) ≡ false = ground arith in rw some3 refl
]

-- With an entry point, and a table whose structures stand at given addresses, `SmbiosFindStructure`
-- returns the first one of the type that is not behind the one that ends the table, and NULL if there is
-- none; as much fuel as there are structures is enough.
pub find_structure-FirstOf :
    (fuel scan smbios3 smbios type : ℕ) (b : Bytes) (qs : List ℕ)
    → (smbios3 ≢ null) ⊎ (smbios ≢ null)
    → Structures scan b (table_start smbios3 smbios b) (table_end_of smbios3 smbios b) qs
    → length qs ≤ fuel
    → FirstOf type b qs (find_structure fuel scan smbios3 smbios type b)
find_structure-FirstOf fuel scan smbios3 smbios type b qs h s enough =
    subst (FirstOf type b qs) (sym (find_structure-table fuel scan smbios3 smbios type b h)) (
      find_from-FirstOf scan (table_end_of smbios3 smbios b) type b qs fuel
        (table_start smbios3 smbios b) s enough)
