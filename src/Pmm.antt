-- ===== src/Pmm.antt =====
-- The physical page allocator, src/MemoryManager/pmm.c: a stack of free pages, each of which holds
-- the address of the next one in its first word.
pub mod Pool
pub mod Pages
pub mod Start
pub mod Distinct
pub mod Clients
mod Tests
use mini_user_os.Prelude.{ℕ, zero, suc, ◌+◌, ◌*◌, ◌%◌, List, [], ◌∷◌, ◌==◌, if◌then◌else◌}
use mini_user_os.Machine.{Machine, add64, sub64, null, write}
use mini_user_os.MemoryMap.{MemoryRegion}

-- The branch of `pmm_alloc_page` that takes the first page.
unfoldable pub pop_page : Machine → Machine
pop_page s = record s {
  pmm = record (s.pmm) {
    free_list = s.mem s.pmm.free_list;
    free_pages = sub64 s.pmm.free_pages 1;
    used_pages = add64 s.pmm.used_pages 1;
  };
}

-- A NULL result means that no page is left.
unfoldable pub alloc_page : Machine → ℕ × Machine
unfolding pop_page
alloc_page s = if s.pmm.free_list == null then (null, s) else (s.pmm.free_list, pop_page s)

unfoldable pub free_page : ℕ → Machine → Machine
free_page page s = record s {
  mem = write s.mem page s.pmm.free_list;
  pmm = record (s.pmm) {
    free_list = page;
    free_pages = add64 s.pmm.free_pages 1;
    used_pages = sub64 s.pmm.used_pages 1;
  };
}

-- One page of a conventional region: the page at address 0 is kept out of the list.
pub add_page : ℕ → Machine → Machine
add_page addr s =
    if addr == null
    then record s { pmm = record (s.pmm) { used_pages = add64 s.pmm.used_pages 1 } }
    else record s {
      mem = write s.mem addr s.pmm.free_list;
      pmm = record (s.pmm) { free_list = addr; free_pages = add64 s.pmm.free_pages 1 };
    }

-- `for (p; p < pages; p++)`, with the rounds that are left as the first argument
pub add_pages : ℕ → ℕ → ℕ → Machine → Machine
add_pages zero base p s = s
add_pages (suc left) base p s = add_pages left base (p + 1) (add_page (add64 base (p * 4096)) s)

pub count_region : MemoryRegion → Machine → Machine
count_region r s = record s {
  pmm = record (s.pmm) { total_pages = add64 s.pmm.total_pages r.pages };
}

pub count_pages : List MemoryRegion → Machine → Machine
count_pages [] s = s
count_pages (r ∷ rs) s = count_pages rs (count_region r s)

-- `conventional` is EfiConventionalMemory. The branch for the loader's regions does nothing.
pub add_regions : ℕ → List MemoryRegion → Machine → Machine
add_regions conventional [] s = s
add_regions conventional (r ∷ rs) s =
    add_regions conventional rs (if r.type == conventional then add_pages r.pages r.base 0 s else s)

pub init : ℕ → List MemoryRegion → Machine → Machine
unfolding count_region count_pages add_regions add_pages add_page
init conventional regions s = add_regions conventional regions (count_pages regions s)
