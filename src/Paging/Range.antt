-- ===== src/Paging/Range.antt =====
-- Ranges of pages, src/MemoryManager/paging.c. `while (virt < end)` runs on fuel; `none` means that the
-- fuel ran out.
use mini_user_os.Prelude.{
  ℕ, zero, suc, ◌-◌, Option, none, some, Bool, true, false, ltb, if◌then◌else◌, bit_and,
}
use mini_user_os.Machine.{Machine, add64, word}
use mini_user_os.Paging.Entry.{page_size_4k, page_size_2m}
use mini_user_os.Paging.Map.{map_page, map_2mb}
use mini_user_os.Paging.Query.{set_flags}

unfoldable pub map_loop :
    (ℕ → ℕ → Machine → Bool × Machine) → ℕ → ℕ → ℕ → ℕ → ℕ → Machine → Option (Bool × Machine)
map_loop map_one size zero virt phys end s = none
map_loop map_one size (suc fuel) virt phys end s =
    let (done, s') = map_one virt phys s in
    let rest = map_loop map_one size fuel (add64 virt size) (add64 phys size) end s' in
    if ltb virt end then (if done then rest else some (false, s')) else some (true, s)

-- `x & ~(PAGE_SIZE_2M - 1)`
unfoldable pub align_2mb : ℕ → ℕ
align_2mb x = bit_and x (word - page_size_2m)

unfoldable pub map_range : ℕ → ℕ → ℕ → ℕ → ℕ → ℕ → Machine → Option (Bool × Machine)
unfolding map_loop
map_range fuel pml4 virt_start phys_start size flags s =
    map_loop (λ virt phys t. map_page pml4 virt phys flags t) page_size_4k fuel virt_start
      phys_start (add64 virt_start size) s

unfoldable pub map_range_2mb : ℕ → ℕ → ℕ → ℕ → ℕ → ℕ → Machine → Option (Bool × Machine)
unfolding map_loop align_2mb
map_range_2mb fuel pml4 virt_start phys_start size flags s =
    map_loop (λ virt phys t. map_2mb pml4 virt phys flags t) page_size_2m fuel
      (align_2mb virt_start) (align_2mb phys_start)
      (align_2mb (add64 (add64 virt_start size) (page_size_2m - 1))) s

unfoldable pub identity_map_range : ℕ → ℕ → ℕ → ℕ → ℕ → Machine → Option (Bool × Machine)
unfolding map_range_2mb
identity_map_range fuel pml4 start size flags s = map_range_2mb fuel pml4 start start size flags s

-- The result of `paging_set_flags` is ignored, and the function returns true.
unfoldable pub protect_from : ℕ → ℕ → ℕ → ℕ → ℕ → Machine → Option (Bool × Machine)
protect_from zero pml4 virt end flags s = none
protect_from (suc fuel) pml4 virt end flags s =
    let rest =
      protect_from fuel pml4 (add64 virt page_size_4k) end flags (set_flags pml4 virt flags s).1 in
    if ltb virt end then rest else some (true, s)

unfoldable pub protect_range : ℕ → ℕ → ℕ → ℕ → ℕ → Machine → Option (Bool × Machine)
unfolding protect_from
protect_range fuel pml4 virt_start size flags s =
    protect_from fuel pml4 virt_start (add64 virt_start size) flags s
