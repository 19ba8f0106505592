-- ===== src/Paging/Entry.antt =====
-- Page table entries: the flags and masks of include/MemoryManager/paging.h, the index functions and
-- entry tests of src/MemoryManager/paging.c, and the access to CR3 and the TLB.
use mini_user_os.Prelude.{ℕ, ◌+◌, ◌*◌, ◌/◌, ◌^◌, Bool, not, ◌∷◌, ◌==◌, bit_and}
use mini_user_os.Machine.{Machine}

abbrev pub page_present : ℕ
page_present = 2 ^ 0

abbrev pub page_writable : ℕ
page_writable = 2 ^ 1

abbrev pub page_user : ℕ
page_user = 2 ^ 2

abbrev pub page_writethrough : ℕ
page_writethrough = 2 ^ 3

abbrev pub page_nocache : ℕ
page_nocache = 2 ^ 4

abbrev pub page_large : ℕ
page_large = 2 ^ 7

abbrev pub page_nx : ℕ
page_nx = 2 ^ 63

abbrev pub page_addr_mask_4k : ℕ
page_addr_mask_4k = 0x000FFFFFFFFFF000

abbrev pub page_addr_mask_2m : ℕ
page_addr_mask_2m = 0x000FFFFFFFE00000

abbrev pub page_addr_mask_1g : ℕ
page_addr_mask_1g = 0x000FFFFFC0000000

abbrev pub page_size_4k : ℕ
page_size_4k = 0x1000

abbrev pub page_size_2m : ℕ
page_size_2m = 0x200000

abbrev pub page_size_1g : ℕ
page_size_1g = 0x40000000

unfoldable pub get_pml4_index : ℕ → ℕ
get_pml4_index virt = bit_and (virt / 2 ^ 39) 0x1FF

unfoldable pub get_pdpt_index : ℕ → ℕ
get_pdpt_index virt = bit_and (virt / 2 ^ 30) 0x1FF

unfoldable pub get_pd_index : ℕ → ℕ
get_pd_index virt = bit_and (virt / 2 ^ 21) 0x1FF

unfoldable pub get_pt_index : ℕ → ℕ
get_pt_index virt = bit_and (virt / 2 ^ 12) 0x1FF

unfoldable pub get_table_ptr : ℕ → ℕ
get_table_ptr entry = bit_and entry page_addr_mask_4k

unfoldable pub is_present : ℕ → Bool
is_present entry = not (bit_and entry page_present == 0)

unfoldable pub is_large_page : ℕ → Bool
is_large_page entry = not (bit_and entry page_large == 0)

-- The address of `table[index]`.
abbrev pub slot : ℕ → ℕ → ℕ
slot table index = table + index * 8

unfoldable pub invalidate_page : ℕ → Machine → Machine
invalidate_page virt s = record s { flushed = virt ∷ s.flushed }

unfoldable pub load_cr3 : ℕ → Machine → Machine
load_cr3 pml4_phys s = record s { cr3 = pml4_phys }

unfoldable pub read_cr3 : Machine → ℕ
read_cr3 s = bit_and s.cr3 page_addr_mask_4k
