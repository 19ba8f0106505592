-- ===== src/Vmm/Fill.antt =====
-- A new region, cleared and filled in as `vmm_create_region` of src/MemoryManager/vmm.c does.
use mini_user_os.Prelude.{
  ℕ, ◌+◌, ◌/◌, ◌%◌, ◌^◌, ◌<◌, ◌≡◌, ◌≢◌, refl, sym, ap, ◌∙◌, List, [], ◌∷◌, arith,
}
use mini_user_os.Machine.{Machine, Memory, write, write_self, write_ne}
use mini_user_os.Paging.Table.{zero_from}
use mini_user_os.Paging.Fresh.{zero_from-out, zero_from-in}
use mini_user_os.Vmm.Structs.{
  region_start, region_end, region_flags, region_next, region_words, low_half, with_low_half,
  flags_of,
}
use mini_user_os.Vmm.Regions.{fill_region}
use mini_user_os.Vmm.Cells.{Cell, Linked, Fresh, Separate}

module _ (r start end flags : ℕ) where
  -- The region's word of flags after the bounds have been written.
  abbrev bounded : Memory → Memory
  bounded m = write (write (zero_from region_words r 0 m) (region_start r) start) (region_end r) end

  abbrev pub filled : Memory → Memory
  filled m = write (bounded m) (region_flags r) (with_low_half (bounded m (region_flags r)) flags)

  pub fill_region-mem : (s : Machine) → (fill_region r start end flags s).mem ≡ filled s.mem
  unfolding fill_region
  fill_region-mem s = refl

  pub fill_region-pmm : (s : Machine) → (fill_region r start end flags s).pmm ≡ s.pmm
  unfolding fill_region
  fill_region-pmm s = refl

  module _ (m : Memory) where
    pub filled-start : filled m (region_start r) ≡ start
    filled-start =
        write_ne _ _ _ _ (omega arith) ∙ write_ne _ _ _ _ (omega arith) ∙ write_self _ _ _

    pub filled-end : filled m (region_end r) ≡ end
    filled-end = write_ne _ _ _ _ (omega arith) ∙ write_self _ _ _

    cleared : bounded m (region_flags r) ≡ 0
    cleared =
        write_ne _ _ _ _ (omega arith)
        ∙ write_ne _ _ _ _ (omega arith)
        ∙ zero_from-in region_words r 0 m 2 (omega arith) (omega arith)

    pub filled-flags : flags < 2 ^ 32 → flags_of (filled m) r ≡ flags
    filled-flags h = ap low_half (write_self _ _ _) ∙ omega (arith, cleared)

    -- Other pages stay as they are.
    pub filled-same : (q : ℕ) → r % 4096 ≡ 0 → q / 4096 ≢ r / 4096 → filled m q ≡ m q
    filled-same q a h =
        write_ne _ _ _ _ (omega arith)
        ∙ write_ne _ _ _ _ (omega arith)
        ∙ write_ne _ _ _ _ (omega arith)
        ∙ zero_from-out region_words r 0 m q (λ k lt. omega (arith, lt))

-- Cells in other pages than `r` are still there when only that page has changed.
pub Linked-agree :
    (m n : Memory) (r prev at : ℕ) (cs : List Cell)
    → ((q : ℕ) → q / 4096 ≢ r / 4096 → n q ≡ m q)
    → r % 4096 ≡ 0
    → Fresh r cs
    → Separate cs
    → Linked m prev at cs
    → Linked n prev at cs
Linked-agree m n r prev at [] same a f s l = l
Linked-agree m n r prev at (c ∷ cs) same a f s l = (
  record {
    here = l.0.here;
    ne_null = l.0.ne_null;
    start = kept 0 at (omega arith) (omega arith) ∙ l.0.start;
    end = kept 8 (region_end at) (omega arith) (omega arith) ∙ l.0.end;
    flags = ap low_half (kept 16 (region_flags at) (omega arith) (omega arith)) ∙ l.0.flags;
    behind = kept 32 _ (omega arith) (omega arith) ∙ l.0.behind;
  },
  rw (kept 24 (region_next at) (omega arith) (omega arith))
      (Linked-agree m n r at (m (region_next at)) cs same a f.1 s.2 l.1),
)
  where
    apart : at ≢ r
    apart e = f.0 (sym l.0.here ∙ e)

    aligned : at % 4096 ≡ 0
    aligned = ap (λ q. q % 4096) l.0.here ∙ s.0

    kept : (k q : ℕ) → q ≡ at + k → k < 4096 → n q ≡ m q
    kept k q e h = same q (omega arith)
