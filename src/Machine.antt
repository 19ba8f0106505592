-- ===== src/Machine.antt =====
-- The state that the memory managers share: physical memory, which the kernel sees identity mapped,
-- the page allocator `g_pmm` (include/MemoryManager/pmm.h) and the paging context
-- `g_kernel_paging` (include/MemoryManager/paging.h). An address or a pointer is a number below
-- 2 ^ 64; memory holds 64-bit words by their address.
use mini_user_os.Prelude.{ℕ, ◌+◌, ◌-◌, ◌%◌, ◌^◌, ◌≡◌, ◌≢◌, arith, List, ◌==◌, if◌then◌else◌}

abbrev pub word : ℕ
word = 2 ^ 64

-- `uint64_t` addition and subtraction
abbrev pub add64 : ℕ → ℕ → ℕ
add64 a b = (a + b) % word

abbrev pub sub64 : ℕ → ℕ → ℕ
sub64 a b = (a + word - b) % word

abbrev pub Memory : Type 0
Memory = ℕ → ℕ

abbrev pub null : ℕ
null = 0

-- `*(uint64_t *)p = v`
unfoldable pub write : Memory → ℕ → ℕ → Memory
write m p v q = if q == p then v else m q

pub write_self : (m : Memory) (p v : ℕ) → write m p v p ≡ v
unfolding write
write_self m p v = ground arith

pub write_ne : (m : Memory) (p v q : ℕ) → q ≢ p → write m p v q ≡ m q
unfolding write
write_ne m p v q h = ground arith

-- `struct pmm`. The list of free pages is threaded through the pages themselves.
pub record Pmm : Type 0 where
  pub free_list : ℕ
  pub total_pages : ℕ
  pub free_pages : ℕ
  pub used_pages : ℕ

-- `paging_context_t`
pub record PagingContext : Type 0 where
  pub pml4 : ℕ
  pub total_mapped : ℕ
  pub tables_allocated : ℕ

pub record Machine : Type 0 where
  pub mem : Memory
  pub pmm : Pmm
  pub paging : PagingContext
  -- the CR3 register, and the addresses given to `invlpg`, the latest first
  pub cr3 : ℕ
  pub flushed : List ℕ
