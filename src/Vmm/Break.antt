-- ===== src/Vmm/Break.antt =====
-- The program break, `vmm_brk` of src/MemoryManager/vmm.c.
use mini_user_os.Prelude.{
  ℕ, zero, suc, ◌+◌, ◌-◌, ◌/◌, ◌<◌, ◌≤◌, ◌≡◌, ◌≢◌, ◌⊎◌, inl, inr, refl, Bool, true, false, ◌==◌,
  ltb, if◌then◌else◌, arith, dec_lt, ℕ_discrete,
}
use mini_user_os.Machine.{Machine, null, word, write_self}
use mini_user_os.Pmm.{alloc_page, pop_page}
use mini_user_os.Pmm.Pool.{alloc_page-pop}
use mini_user_os.Paging.Map.{map_page}
use mini_user_os.Vmm.Structs.{space_pml4, space_heap_start, space_heap_end, put, clear}
use mini_user_os.Vmm.Heap.{brk, resize, grow_from, shrink_from, user_page}
use mini_user_os.Vmm.Pages.{page_at}
use mini_user_os.Vmm.Align.{align_up-page}
use mini_user_os.Vmm.Fit.{round_up}

-- The state in which one more page has been mapped.
abbrev pub grown : ℕ → ℕ → ℕ → Machine → Machine
grown i heap_end pml4 s =
    (map_page pml4 (page_at heap_end i) s.pmm.free_list user_page
      (clear 512 s.pmm.free_list (pop_page s))).1

pub grow_from-left :
    (left i heap_end pml4 : ℕ) (s : Machine)
    → s.pmm.free_list ≢ null
    → grow_from (suc left) i heap_end pml4 s
      ≡ grow_from left (i + 1) heap_end pml4 (grown i heap_end pml4 s)
unfolding grow_from
grow_from-left left i heap_end pml4 s h = rw (alloc_page-pop s h, test) refl
  where
    test : (s.pmm.free_list == null) ≡ false
    test = ground arith

grow_from-empty :
    (left i heap_end pml4 : ℕ) (s : Machine)
    → s.pmm.free_list ≡ null
    → grow_from (suc left) i heap_end pml4 s ≡ (false, s)
unfolding grow_from alloc_page
grow_from-empty left i heap_end pml4 s h = ground arith

pub grow_from-done :
    (i heap_end pml4 : ℕ) (s : Machine) → grow_from zero i heap_end pml4 s ≡ (true, s)
unfolding grow_from
grow_from-done i heap_end pml4 s = refl

-- The loop stops early only when no page is free.
grow_from-false :
    (left i heap_end pml4 : ℕ) (s : Machine)
    → (grow_from left i heap_end pml4 s).0 ≡ false
    → (grow_from left i heap_end pml4 s).1.pmm.free_list ≡ null
grow_from-false zero i heap_end pml4 s =
    rw (grow_from-done i heap_end pml4 s) (λ e. absurd (ground (arith, e)))
grow_from-false (suc left) i heap_end pml4 s = elim (ℕ_discrete s.pmm.free_list null) [
  | yes empty ↦ rw (grow_from-empty left i heap_end pml4 s empty) (λ e. empty)
  | no h ↦
      rw (grow_from-left left i heap_end pml4 s h)
        (grow_from-false left (i + 1) heap_end pml4 (grown i heap_end pml4 s))
]

-- The break has the value; or no page was free.
abbrev pub Resized : ℕ → ℕ → Bool × Machine → Type 0
Resized space value (true, s') = s'.mem (space_heap_end space) ≡ value
Resized space value (false, s') = s'.pmm.free_list ≡ null

-- The end of the branch that extends the heap.
abbrev pub extended : ℕ → ℕ → Bool × Machine → Bool × Machine
extended space value r = if r.0 then (true, put (space_heap_end space) value r.1) else (false, r.1)

extended-Resized :
    (space value : ℕ) (r : Bool × Machine)
    → (r.0 ≡ false → r.1.pmm.free_list ≡ null)
    → Resized space value (extended space value r)
extended-Resized space value (true, s) h = write_self s.mem (space_heap_end space) value
extended-Resized space value (false, s) h = h refl

pub resize-grow :
    (space value : ℕ) (s : Machine)
    → s.mem (space_heap_end space) < value
    → resize space value s
      ≡ extended space value (
          grow_from
            ((value - s.mem (space_heap_end space)) / 4096)
            0
            (s.mem (space_heap_end space))
            (s.mem (space_pml4 space))
            s)
unfolding resize
resize-grow space value s h = rw test refl
  where
    test : ltb (s.mem (space_heap_end space)) value ≡ true
    test = ground arith

-- The state in which the pages behind the new end have been freed, if there are any.
abbrev shrunk : ℕ → ℕ → Machine → Machine
shrunk space value s =
    if ltb value (s.mem (space_heap_end space))
    then shrink_from ((s.mem (space_heap_end space) - value) / 4096) 0
        (s.mem (space_heap_end space)) (s.mem (space_pml4 space)) s
    else s

resize-shrink :
    (space value : ℕ) (s : Machine)
    → ¬ (s.mem (space_heap_end space) < value)
    → resize space value s ≡ (true, put (space_heap_end space) value (shrunk space value s))
unfolding resize
resize-shrink space value s h = elim (dec_lt value (s.mem (space_heap_end space))) [
  | yes lower ↦
      let below : ltb value (s.mem (space_heap_end space)) ≡ true = ground arith in
      rw (test, below) refl
  | no same ↦
      let level : ltb value (s.mem (space_heap_end space)) ≡ false = ground arith in
      rw (test, level) refl
]
  where
    test : ltb (s.mem (space_heap_end space)) value ≡ false
    test = ground arith

resize-Resized : (space value : ℕ) (s : Machine) → Resized space value (resize space value s)
resize-Resized space value s = elim (dec_lt (s.mem (space_heap_end space)) value) [
  | yes above ↦ rw (resize-grow space value s above) (
      extended-Resized space value _ (
        grow_from-false ((value - s.mem (space_heap_end space)) / 4096) 0
          (s.mem (space_heap_end space)) (s.mem (space_pml4 space)) s))
  | no within ↦
      rw (resize-shrink space value s within)
        (write_self (shrunk space value s).mem (space_heap_end space) value)
]

-- For an address space and a new end that does not wrap: below the heap's start `vmm_brk` refuses and
-- changes nothing; otherwise the heap's end is the next page's start, or the result is -1 and no page
-- is free.
pub brk-Resized :
    (space new_end : ℕ) (s : Machine)
    → space ≢ null
    → new_end + 4095 < word
    → (round_up new_end < s.mem (space_heap_start space)) × (brk space new_end s ≡ (false, s))
      ⊎ (s.mem (space_heap_start space) ≤ round_up new_end)
        × Resized space (round_up new_end) (brk space new_end s)
unfolding brk
brk-Resized space new_end s ne h =
    elim (dec_lt (round_up new_end) (s.mem (space_heap_start space))) [
      | yes low ↦
          let below : ltb (round_up new_end) (s.mem (space_heap_start space)) ≡ true =
            ground arith in
          rw (align_up-page new_end h, test, below) (inl (low, refl))
      | no high ↦
          let above : ltb (round_up new_end) (s.mem (space_heap_start space)) ≡ false =
            ground arith in
          rw (align_up-page new_end h, test, above)
            (inr (omega arith, resize-Resized space (round_up new_end) s))
    ]
  where
    test : (space == null) ≡ false
    test = ground arith
