-- ===== src/Vmm/Walked.antt =====
-- The two translations of addresses: `virt_to_phys` of src/MemoryManager/vmm.c and `paging_get_phys` of
-- src/MemoryManager/paging.c.
use mini_user_os.Prelude.{ℕ, ◌/◌, ◌%◌, ◌^◌, ◌<◌, ◌≡◌, ◌≢◌, ◌⊎◌, Bool, false, if◌then◌else◌}
use mini_user_os.Machine.{Machine, Memory, null}
use mini_user_os.Paging.Entry.{
  get_pml4_index, get_pdpt_index, get_pd_index, get_pt_index, get_table_ptr, is_large_page, slot,
}

-- The entries that a walk reads.
abbrev pub entry4 : Memory → ℕ → ℕ → ℕ
entry4 m pml4 virt = m (slot pml4 (get_pml4_index virt))

abbrev pub entry3 : Memory → ℕ → ℕ → ℕ
entry3 m pml4 virt = m (slot (get_table_ptr (entry4 m pml4 virt)) (get_pdpt_index virt))

abbrev pub entry2 : Memory → ℕ → ℕ → ℕ
entry2 m pml4 virt = m (slot (get_table_ptr (entry3 m pml4 virt)) (get_pd_index virt))

abbrev pub entry1 : Memory → ℕ → ℕ → ℕ
entry1 m pml4 virt = m (slot (get_table_ptr (entry2 m pml4 virt)) (get_pt_index virt))

-- No entry has a bit above the physical address, and those of large pages have no address bits below
-- the page's size.
pub record IsPlain (m : Memory) (pml4 virt : ℕ) : Type 0 where
  pub plain4 : entry4 m pml4 virt < 2 ^ 52
  pub plain3 : entry3 m pml4 virt < 2 ^ 52
  pub plain2 : entry2 m pml4 virt < 2 ^ 52
  pub plain1 : entry1 m pml4 virt < 2 ^ 52
  pub whole3 :
      (is_large_page (entry3 m pml4 virt) ≡ false) ⊎ (entry3 m pml4 virt / 2 ^ 12 % 2 ^ 18 ≡ 0)
  pub whole2 :
      (is_large_page (entry2 m pml4 virt) ≡ false) ⊎ (entry2 m pml4 virt / 2 ^ 12 % 2 ^ 9 ≡ 0)

-- The tests of a walk, in the order of the levels, with what each of them leads to.
walked : (n4 n3 l3 n2 l2 n1 : Bool) → (big middle small : ℕ) → ℕ
walked n4 n3 l3 n2 l2 n1 big middle small =
    if n4
    then 0
    else if n3
    then 0
    else if l3
    then big
    else if n2
    then 0
    else if l2
    then middle
    else if n1
    then 0
    else small

module _ (pml4 virt : ℕ) (s : Machine) (ne : pml4 ≢ null) (p : IsPlain s.mem pml4 virt) where
  abbrev e4 : ℕ
  e4 = entry4 s.mem pml4 virt

  abbrev e3 : ℕ
  e3 = entry3 s.mem pml4 virt

  abbrev e2 : ℕ
  e2 = entry2 s.mem pml4 virt

  abbrev e1 : ℕ
  e1 = entry1 s.mem pml4 virt
