-- ===== src/Vmm/Stats.antt =====
-- The totals that `vmm_get_stats` of src/MemoryManager/vmm.c computes.
use mini_user_os.Prelude.{
  ℕ, zero, suc, ◌+◌, ◌-◌, ◌/◌, ◌<◌, ◌≤◌, ◌≡◌, ◌≢◌, refl, ap, ◌∙◌, false, ◌==◌, if◌then◌else◌, List,
  [], ◌∷◌, length, arith, some,
}
use mini_user_os.Machine.{Memory, null, word, add64, sub64}
use mini_user_os.Vmm.Structs.{
  region_start, region_end, region_next, space_regions, region_free, flags_of,
}
use mini_user_os.Vmm.Regions.{stats_from, get_stats}
use mini_user_os.Vmm.Cells.{Cell, Linked}

abbrev pub pages_in : Cell → ℕ
pages_in c = (c.end - c.start) / 4096

abbrev pub used_in : Cell → ℕ
used_in c = if c.flags == region_free then 0 else pages_in c

abbrev pub all_pages : List Cell → ℕ
all_pages [] = 0
all_pages (c ∷ cs) = pages_in c + all_pages cs

abbrev pub used_pages : List Cell → ℕ
used_pages [] = 0
used_pages (c ∷ cs) = used_in c + used_pages cs

-- Every region's bounds are addresses in order.
abbrev pub Ordered : List Cell → Type 0
Ordered [] = Unit {0}
Ordered (c ∷ cs) = (c.start ≤ c.end) × (c.end < word) × Ordered cs

stats_from-end :
    (fuel total used : ℕ) (m : Memory) → stats_from fuel null total used m ≡ (total, used)
unfolding stats_from
stats_from-end zero total used m = refl
stats_from-end (suc fuel) total used m = refl

stats_from-step :
    (fuel r total used : ℕ) (m : Memory) (c : Cell)
    → r ≢ null
    → m (region_start r) ≡ c.start
    → m (region_end r) ≡ c.end
    → flags_of m r ≡ c.flags
    → c.start ≤ c.end
    → c.end < word
    → total + pages_in c < word
    → used ≤ total
    → stats_from (suc fuel) r total used m
      ≡ stats_from fuel (m (region_next r)) (total + pages_in c) (used + used_in c) m
unfolding stats_from
stats_from-step fuel r total used m c ne a b f ordered small room le =
    rw (a, b, f, pages, sum, test, used_sum) refl
  where
    test : (r == null) ≡ false
    test = ground arith

    used_sum : (if c.flags == region_free then used else add64 used (pages_in c)) ≡ used + used_in c
    used_sum = ground arith

    pages : sub64 c.end c.start ≡ c.end - c.start
    pages = omega arith

    sum : add64 total (pages_in c) ≡ total + pages_in c
    sum = omega arith

pair-eq : {a b a' b' : ℕ} → a ≡ a' → b ≡ b' → ◌≡◌ {A = ℕ × ℕ} (a, b) (a', b')
pair-eq p q = rw (p, q) refl

stats_from-sums :
    (m : Memory) (prev : ℕ) (cs : List Cell) (fuel r total used : ℕ)
    → Linked m prev r cs
    → Ordered cs
    → total + all_pages cs < word
    → used ≤ total
    → length cs < fuel
    → stats_from fuel r total used m ≡ (total + all_pages cs, used + used_pages cs)
stats_from-sums m prev [] fuel r total used l o room le h =
    ap (λ q. stats_from fuel q total used m) l
    ∙ stats_from-end fuel total used m
    ∙ pair-eq (omega arith) (omega arith)
stats_from-sums m prev (c ∷ cs) zero r total used l o room le h = absurd (omega arith)
stats_from-sums m prev (c ∷ cs) (suc fuel) r total used l o room le h =
    stats_from-step fuel r total used m c l.0.ne_null l.0.start l.0.end l.0.flags o.0 o.1
      (omega (arith, room)) le
    ∙ stats_from-sums m r cs fuel (m (region_next r)) (total + pages_in c) (used + used_in c) l.1
        o.2 (omega (arith, room)) (ground arith) (omega (arith, h))
    ∙ pair-eq (omega arith) (omega arith)

-- For regions with bounds in order and pages that can be counted, `vmm_get_stats` gives the number of pages
-- of all regions and that of the regions that are not free; one step of fuel more than there are
-- regions is enough.
pub get_stats-sums :
    (fuel space : ℕ) (m : Memory) (cs : List Cell)
    → space ≢ null
    → Linked m null (m (space_regions space)) cs
    → Ordered cs
    → all_pages cs < word
    → length cs < fuel
    → get_stats fuel space m ≡ some (all_pages cs, used_pages cs)
unfolding get_stats
get_stats-sums fuel space m cs ne l o room h =
    rw
      (
        test,
        stats_from-sums m null cs fuel (m (space_regions space)) 0 0 l o (omega arith) (omega arith)
            h,
      )
      (ap some (pair-eq (omega arith) (omega arith)))
  where
    test : (space == null) ≡ false
    test = ground arith
