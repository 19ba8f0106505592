-- ===== src/Vmm/Cells.antt =====
-- The doubly linked list of regions in memory as a list of cells (src/MemoryManager/vmm.c).
use mini_user_os.Prelude.{ℕ, ◌%◌, ◌<◌, ◌≤◌, ◌≡◌, ◌≢◌, ◌⊎◌, inl, inr, List, [], ◌∷◌, arith, dec_lt}
use mini_user_os.Machine.{Memory, null}
use mini_user_os.Vmm.Structs.{region_start, region_end, region_next, region_prev, flags_of}

-- A region's page, its bounds and its flags.
pub record Cell : Type 0 where
  pub page : ℕ
  pub start : ℕ
  pub end : ℕ
  pub flags : ℕ

-- The region at `r`, behind the region `prev`, is the cell.
pub record IsAt (m : Memory) (prev r : ℕ) (c : Cell) : Type 0 where
  pub here : r ≡ c.page
  pub ne_null : r ≢ null
  pub start : m (region_start r) ≡ c.start
  pub end : m (region_end r) ≡ c.end
  pub flags : flags_of m r ≡ c.flags
  pub behind : m (region_prev r) ≡ prev

-- From the pointer `r`, behind the region `prev`, the cells follow one another.
abbrev pub Linked : Memory → ℕ → ℕ → List Cell → Type 0
Linked m prev r [] = r ≡ null
Linked m prev r (c ∷ cs) = IsAt m prev r c × Linked m r (m (region_next r)) cs

abbrev pub Holds : Cell → ℕ → Type 0
Holds c addr = (c.start ≤ addr) × (addr < c.end)

abbrev pub OneOf : Cell → List Cell → Type 0
OneOf c [] = ⊥
OneOf c (d ∷ ds) = (d ≡ c) ⊎ OneOf c ds

-- No cell before it holds the address, and the one at `r` does, or `r` is NULL and none does.
abbrev pub Found : ℕ → List Cell → ℕ → Type 0
Found addr [] r = r ≡ null
Found addr (c ∷ cs) r = (Holds c addr × (r ≡ c.page)) ⊎ ((¬ (Holds c addr)) × Found addr cs r)

pub dec-Holds : (c : Cell) (addr : ℕ) → Holds c addr ⊎ ¬ (Holds c addr)
dec-Holds c addr = elim (dec_lt addr c.start) [
  | yes below ↦ inr (λ h. absurd (omega (arith, h.0)))
  | no from ↦ elim (dec_lt addr c.end) [
    | yes within ↦ inl (omega arith, within)
    | no above ↦ inr (λ h. above h.1)
  ]
]

-- The page is none of the cells'.
abbrev pub Fresh : ℕ → List Cell → Type 0
Fresh p [] = Unit {0}
Fresh p (c ∷ cs) = (c.page ≢ p) × Fresh p cs

-- The cells are at the starts of pages of their own.
abbrev pub Separate : List Cell → Type 0
Separate [] = Unit {0}
Separate (c ∷ cs) = (c.page % 4096 ≡ 0) × Fresh c.page cs × Separate cs

-- The address is none of the cells' pointers.
abbrev pub Elsewhere : ℕ → List Cell → Type 0
Elsewhere q [] = Unit {0}
Elsewhere q (c ∷ cs) = (q ≢ region_next c.page) × (q ≢ region_prev c.page) × Elsewhere q cs
