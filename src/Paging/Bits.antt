-- ===== src/Paging/Bits.antt =====
-- The bits of the entries that src/MemoryManager/paging.c writes.
use mini_user_os.Prelude.{
  ℕ, ◌-◌, ◌*◌, ◌/◌, ◌%◌, ◌^◌, ◌<◌, ◌≡◌, ◌≢◌, refl, ap, ◌∙◌, true, false, arith, bit_and, bit_or,
}
use mini_user_os.Bits.{
  bit_and_low, bit_and_high, bit_and-or, bit_and_assoc, bit_and_twice, bit_and-zero, bit_or-zero,
  bit_or_step,
}
use mini_user_os.Paging.Entry.{
  page_present, page_writable, page_user, page_large, page_addr_mask_4k, get_pml4_index,
  get_pdpt_index, get_pd_index, get_pt_index, get_table_ptr, is_present, is_large_page,
}
use mini_user_os.Paging.Map.{leaf_4k}

-- A table's page: aligned, and within the physical addresses that an entry holds.
abbrev pub IsFrame : ℕ → Type 0
IsFrame t = (t ≢ 0) × (t % 4096 ≡ 0) × (t < 2 ^ 52)

pub mask_4k : (x : ℕ) → bit_and x page_addr_mask_4k ≡ 4096 * (x / 4096 % 2 ^ 40)
mask_4k x = bit_and_high 12 x (2 ^ 40 - 1) ∙ ap (λ t. 4096 * t) (bit_and_low 40 (x / 4096))

-- The entry that names a table.
abbrev pub table_entry : ℕ → ℕ → ℕ
table_entry t flags =
    bit_or (bit_or (bit_or t page_present) page_writable) (bit_and flags page_user)

module _ (t flags : ℕ) (f : IsFrame t) where
  frame-mask : bit_and t page_addr_mask_4k ≡ t
  frame-mask = omega (arith, mask_4k t)

  frame-large : bit_and t page_large ≡ 0
  frame-large = omega (arith, bit_and_high 7 t 1, bit_and_low 1 (t / 2 ^ 7))

  frame-present : bit_and t page_present ≡ 0
  frame-present = omega (arith, bit_and_low 1 t)

  user-mask : (m : ℕ) → bit_and page_user m ≡ 0 → bit_and (bit_and flags page_user) m ≡ 0
  user-mask m h = bit_and_assoc flags page_user m ∙ ap (bit_and flags) h ∙ bit_and-zero flags

  -- The bits of the entry under a mask that the user flag misses.
  table_entry-mask :
      (m : ℕ)
      → bit_and page_user m ≡ 0
      → bit_and (table_entry t flags) m
        ≡ bit_or (bit_or (bit_and t m) (bit_and page_present m)) (bit_and page_writable m)
  table_entry-mask m h = rw (bit_and-or, user-mask m h, bit_or-zero, bit_and-or, bit_and-or)

  pub table_entry-ptr : get_table_ptr (table_entry t flags) ≡ t
  unfolding get_table_ptr
  table_entry-ptr =
      table_entry-mask page_addr_mask_4k refl ∙ rw (bit_or-zero, bit_or-zero) frame-mask

  pub table_entry-present : is_present (table_entry t flags) ≡ true
  unfolding is_present
  table_entry-present = rw (table_entry-mask page_present refl, frame-present)

  pub table_entry-large : is_large_page (table_entry t flags) ≡ false
  unfolding is_large_page
  table_entry-large = rw (table_entry-mask page_large refl, frame-large)

-- A zero entry is not present.
pub zero-present : is_present 0 ≡ false
unfolding is_present
zero-present = refl

module _ (phys flags : ℕ) where
  pub leaf_4k-present : is_present (leaf_4k phys flags) ≡ true
  unfolding is_present
  leaf_4k-present = rw low
    where
      low : bit_and (leaf_4k phys flags) page_present ≡ 1
      low = omega (
        arith,
        bit_and_low 1 (leaf_4k phys flags),
        bit_or_step (bit_or (bit_and phys page_addr_mask_4k) flags) 1,
      )

  -- With no address bits in the flags, the entry holds the page's address.
  pub leaf_4k-address :
      bit_and flags page_addr_mask_4k ≡ 0
      → bit_and (leaf_4k phys flags) page_addr_mask_4k ≡ bit_and phys page_addr_mask_4k
  leaf_4k-address h =
      rw (bit_and-or, bit_and-or, h, bit_or-zero, bit_or-zero)
        (bit_and_twice phys page_addr_mask_4k)

pub index-lt :
    (virt : ℕ)
    → (get_pml4_index virt < 512)
      × (get_pdpt_index virt < 512)
      × (get_pd_index virt < 512)
      × (get_pt_index virt < 512)
unfolding get_pml4_index get_pdpt_index get_pd_index get_pt_index
index-lt virt = (
  omega (arith, bit_and_low 9 (virt / 2 ^ 39)),
  omega (arith, bit_and_low 9 (virt / 2 ^ 30)),
  omega (arith, bit_and_low 9 (virt / 2 ^ 21)),
  omega (arith, bit_and_low 9 (virt / 2 ^ 12)),
)
