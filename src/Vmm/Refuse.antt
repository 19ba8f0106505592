-- ===== src/Vmm/Refuse.antt =====
-- `vmm_alloc_pages_at` of src/MemoryManager/vmm.c at an address that lies in a region.
use mini_user_os.Prelude.{ℕ, ◌<◌, ◌≡◌, ◌≢◌, inl, inr, sym, ◌∙◌, true, List, [], ◌∷◌, length, arith}
use mathlib.Core.Path.{subst}
use mini_user_os.Machine.{Machine, Memory, null}
use mini_user_os.Vmm.Structs.{space_regions, align_down, flags_of}
use mini_user_os.Vmm.Regions.{find_region}
use mini_user_os.Vmm.Pages.{alloc_pages_at, is_taken}
use mini_user_os.Vmm.Cells.{Cell, Linked, Holds, Found, OneOf}
use mini_user_os.Vmm.Search.{find_region-Found}
use mini_user_os.Bits.{bit_and-zero}

Found-ne_null :
    (m : Memory) (prev r addr v : ℕ) (c : Cell) (cs : List Cell)
    → Linked m prev r cs
    → OneOf c cs
    → Holds c addr
    → Found addr cs v
    → v ≢ null
Found-ne_null m prev r addr v c [] l o h f e = elim o [ ]
Found-ne_null m prev r addr v c (d ∷ ds) l o h (inl f) e = l.0.ne_null (l.0.here ∙ sym f.1 ∙ e)
Found-ne_null m prev r addr v c (d ∷ ds) l (inl same) h (inr f) e =
    f.0 (subst (λ x. Holds x addr) (sym same) h)
Found-ne_null m prev r addr v c (d ∷ ds) l (inr o) h (inr f) e =
    Found-ne_null m r _ addr v c ds l.1 o h f.1 e

-- No flags contain the bit of `REGION_FREE`, which is 0.
is_taken-region : (r : ℕ) (m : Memory) → r ≢ null → is_taken r m ≡ true
unfolding is_taken
is_taken-region r m ne = ground (arith, bit_and-zero (flags_of m r))

alloc_pages_at-taken :
    (fuel space virt_addr count flags : ℕ) (s : Machine)
    → virt_addr ≢ 0
    → is_taken (find_region fuel space (align_down virt_addr 4096) s.mem) s.mem ≡ true
    → alloc_pages_at fuel space virt_addr count flags s ≡ (null, s)
unfolding alloc_pages_at
alloc_pages_at-taken fuel space virt_addr count flags s ne h = ground arith

-- At an address that is not 0 and whose page begins in a region of the address space, be that region
-- free or not, `vmm_alloc_pages_at` returns NULL and changes nothing.
pub alloc_pages_at-refuses :
    (fuel space virt_addr count flags : ℕ) (s : Machine) (c : Cell) (cs : List Cell)
    → space ≢ null
    → virt_addr ≢ 0
    → Linked s.mem null (s.mem (space_regions space)) cs
    → length cs < fuel
    → OneOf c cs
    → Holds c (align_down virt_addr 4096)
    → alloc_pages_at fuel space virt_addr count flags s ≡ (null, s)
alloc_pages_at-refuses fuel space virt_addr count flags s c cs ne addr l h o holds =
    alloc_pages_at-taken fuel space virt_addr count flags s addr (
      is_taken-region _ s.mem (
        Found-ne_null s.mem null _ (align_down virt_addr 4096) _ c cs l o holds
          (find_region-Found fuel space (align_down virt_addr 4096) s.mem cs ne l h)))
