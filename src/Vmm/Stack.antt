-- ===== src/Vmm/Stack.antt =====
-- Page faults and the growth of the stack, src/MemoryManager/vmm.c.
use mini_user_os.Prelude.{
  ◌+◌, ◌^◌, ℕ, ◌*◌, ◌/◌, ◌<◌, ◌≤◌, ◌≡◌, ◌≢◌, ◌⊎◌, inl, inr, refl, sym, ◌∙◌, List, [], ◌∷◌, length,
  Bool, true, false, ◌==◌, ltb, if◌then◌else◌, arith, dec_lt,
}
use mini_user_os.Machine.{Machine, Memory, null, word, sub64}
use mini_user_os.Pmm.{alloc_page, pop_page}
use mini_user_os.Paging.Map.{map_page, root_of, leaf_4k}
use mini_user_os.Paging.Walk.{InRange, leaf}
use mini_user_os.Paging.Create.{IsReady}
use mini_user_os.Paging.Small.{path_of, path_of-InRange, IsSmall}
use mini_user_os.Paging.Mapped.{MapResult, map_page-maps}
use mini_user_os.Paging.Kept.{leaf-cleared, IsReady-cleared}
use mathlib.Core.Path.{subst}
use mini_user_os.Pmm.Pool.{IsPool, alloc_page-pop, alloc_page-cons}
use mini_user_os.Vmm.Structs.{
  space_stack_start, space_stack_end, align_down, put, space_pml4, clear,
}
use mini_user_os.Vmm.Heap.{add_stack_page, expand_stack, handle_page_fault, stack_page}
use mini_user_os.Vmm.Align.{align_down-page}

-- The fault lies below the stack, and no more than 8 MB, the largest stack, below the stack's end.
abbrev pub InWindow : Memory → ℕ → ℕ → Type 0
InWindow m space fault_addr =
    (fault_addr < m (space_stack_start space))
    × (sub64 (m (space_stack_end space)) (2 ^ 23) ≤ fault_addr)
    × (0 < m (space_stack_end space))
    × (sub64 (m (space_stack_end space)) fault_addr ≤ 2 ^ 23)

-- The state in which the first free page `x` has been taken and cleared.
abbrev pub taken : ℕ → Machine → Machine
taken x s = clear 512 x (pop_page s)

-- The start of the stack is no higher than `new_page` and nothing else is changed.
abbrev pub Lowered : ℕ → ℕ → Machine → Machine → Type 0
Lowered space new_page s s' =
    (s' ≡ put (space_stack_start space) new_page s)
    ⊎ (s' ≡ s) × (s.mem (space_stack_start space) ≤ new_page)

-- The outcome for a fault in the page at `new_page`, with the free pages `xs`. The fault lay in the window,
-- the first free page has been given to `map_page` with the rights of a stack, present, writable, for
-- users and not executable, and behind that the stack reaches down to the page; or nothing has changed,
-- since the fault lay elsewhere or no page was free.
abbrev pub FaultResult : ℕ → ℕ → ℕ → ℕ → Machine → List ℕ → Bool × Machine → Type 0
FaultResult space fault_addr root new_page s xs (true, s') =
    InWindow s.mem space fault_addr
    × (x : ℕ) × (ys : List ℕ) × (xs ≡ x ∷ ys)
    × (ok : Bool) × (mapped : Machine) × MapResult s root (path_of new_page)
        (leaf_4k x (2 ^ 63 + 7)) ys (ok, mapped)
    × Lowered space new_page mapped s'
FaultResult space fault_addr root new_page s xs (false, s') =
    (s' ≡ s) × ((¬ (InWindow s.mem space fault_addr)) ⊎ (xs ≡ []))

MapResult-since :
    (s t : Machine) (root : ℕ) (path : List ℕ) (entry : ℕ) (xs : List ℕ) (r : Bool × Machine)
    → ((q : List ℕ) → length q ≡ 4 → InRange q → leaf t.mem root q ≡ leaf s.mem root q)
    → MapResult t root path entry xs r
    → MapResult s root path entry xs r
MapResult-since s t root path entry xs (ok, s') same (inl (e, ys, m)) = inl (
  e,
  ys,
  record {
    ready = m.ready;
    mapped = m.mapped;
    others = λ q four r ne. m.others q four r ne ∙ same q four r;
    left = m.left;
  },
)
MapResult-since s t root path entry xs (ok, s') same (inr (e, few, ready, leaves)) =
    inr (e, few, ready, λ q four r. leaves q four r ∙ same q four r)

-- The first free page is taken and mapped.
pub map_taken :
    (s : Machine) (pml4 virt flags x : ℕ) (xs : List ℕ)
    → IsReady s (root_of pml4 s) (x ∷ xs)
    → IsSmall s.mem (root_of pml4 s) (path_of virt)
    → MapResult s
        (root_of pml4 s)
        (path_of virt)
        (leaf_4k x flags)
        xs
        (map_page pml4 virt x flags (taken x s))
unfolding pop_page
map_taken s pml4 virt flags x xs ready small =
    MapResult-since s (taken x s) (root_of pml4 s) (path_of virt) (leaf_4k x flags) xs _
      (leaf-cleared ready)
      (map_page-maps (taken x s) pml4 virt x flags xs (ready.tree.frame [] _ (omega arith) refl).0
        (IsReady-cleared ready (pop_page s) popped refl)
        (λ e k h.
          small e k (sym (leaf-cleared ready (path_of virt) refl (path_of-InRange virt)) ∙ h)))
  where
    popped : IsPool (pop_page s) xs
    popped =
        let got = alloc_page-cons ready.pool in
        let left : s.pmm.free_list ≢ null = rw ready.pool.chain.0 ready.frames.0.0 in
        subst (λ r. IsPool r.1 xs) (alloc_page-pop s left) got.1

alloc_page-null : (s : Machine) → s.pmm.free_list ≡ null → alloc_page s ≡ (null, s)
unfolding alloc_page
alloc_page-null s h = ground arith

-- The stack's start after a new page.
abbrev lowered : ℕ → ℕ → Machine → Bool × Machine
lowered space new_page s =
    if ltb new_page (s.mem (space_stack_start space))
    then (true, put (space_stack_start space) new_page s)
    else (true, s)

lowered-Lowered :
    (space new_page : ℕ) (s : Machine)
    → (s' : Machine) × (lowered space new_page s ≡ (true, s')) × Lowered space new_page s s'
lowered-Lowered space new_page s = elim (dec_lt new_page (s.mem (space_stack_start space))) [
  | yes lower ↦
      let test : ltb new_page (s.mem (space_stack_start space)) ≡ true = ground arith in
      (put (space_stack_start space) new_page s, (rw test refl), (inl refl))
  | no not_lower ↦
      let test : ltb new_page (s.mem (space_stack_start space)) ≡ false = ground arith in
      (s, (rw test refl), (inr (refl, omega arith)))
]

add_stack_page-left :
    (space new_page x : ℕ) (s : Machine)
    → s.pmm.free_list ≡ x
    → x ≢ null
    → add_stack_page space new_page s
      ≡ lowered space new_page
          (map_page (s.mem (space_pml4 space)) new_page x stack_page (taken x s)).1
unfolding add_stack_page
add_stack_page-left space new_page x s e left = rw (alloc_page-pop s (rw e left), e, test) refl
  where
    test : (x == null) ≡ false
    test = ground arith

add_stack_page-empty :
    (space new_page : ℕ) (s : Machine)
    → s.pmm.free_list ≡ null
    → add_stack_page space new_page s ≡ (false, s)
unfolding add_stack_page
add_stack_page-empty space new_page s empty = rw (alloc_page-null s empty) refl

add_stack_page-FaultResult :
    (space new_page fault_addr : ℕ) (s : Machine) (xs : List ℕ)
    → InWindow s.mem space fault_addr
    → IsReady s (root_of (s.mem (space_pml4 space)) s) xs
    → IsSmall s.mem (root_of (s.mem (space_pml4 space)) s) (path_of new_page)
    → FaultResult space fault_addr
        (root_of (s.mem (space_pml4 space)) s)
        new_page
        s
        xs
        (add_stack_page space new_page s)
add_stack_page-FaultResult space new_page fault_addr s [] w ready small =
    rw (add_stack_page-empty space new_page s ready.pool.chain) (refl, inr refl)
add_stack_page-FaultResult space new_page fault_addr s (x ∷ xs) w ready small =
    let pml4 = s.mem (space_pml4 space) in
    let r = map_page pml4 new_page x stack_page (taken x s) in
    let low = lowered-Lowered space new_page r.1 in
    rw (add_stack_page-left space new_page x s ready.pool.chain.0 ready.frames.0.0, low.1)
      (w, x, xs, refl, r.0, r.1, map_taken s pml4 new_page stack_page x xs ready small, low.2)

handle_page_fault-in :
    (space fault_addr : ℕ) (s : Machine)
    → space ≢ null
    → InWindow s.mem space fault_addr
    → handle_page_fault space fault_addr s ≡ add_stack_page space (align_down fault_addr 4096) s
unfolding handle_page_fault expand_stack
handle_page_fault-in space fault_addr s ne w = ground arith

handle_page_fault-out :
    (space fault_addr : ℕ) (s : Machine)
    → space ≢ null
    → ¬ (InWindow s.mem space fault_addr)
    → handle_page_fault space fault_addr s ≡ (false, s)
unfolding handle_page_fault expand_stack
handle_page_fault-out space fault_addr s ne w = ground arith

dec-InWindow :
    (m : Memory) (space fault_addr : ℕ)
    → InWindow m space fault_addr ⊎ ¬ (InWindow m space fault_addr)
dec-InWindow m space fault_addr = ground arith

-- For an address space with tables and free pages in order and no large page at the fault,
-- `vmm_handle_page_fault` either returns 0, and the fault lay below the stack, no further than the largest
-- stack from its end: then it has mapped the fault's page to the first free page, with the rights of a
-- stack, and kept every other page's mapping, unless fewer than three more pages were free and it has mapped
-- nothing; and behind that it has only lowered the stack's start to the page. Or it returns -1 with nothing
-- changed, since the fault lay elsewhere or no page was free.
pub handle_page_fault-FaultResult :
    (space fault_addr : ℕ) (s : Machine) (xs : List ℕ)
    → space ≢ null
    → fault_addr < word
    → IsReady s (root_of (s.mem (space_pml4 space)) s) xs
    → IsSmall s.mem (root_of (s.mem (space_pml4 space)) s) (path_of (4096 * (fault_addr / 4096)))
    → FaultResult space fault_addr
        (root_of (s.mem (space_pml4 space)) s)
        (4096 * (fault_addr / 4096))
        s
        xs
        (handle_page_fault space fault_addr s)
handle_page_fault-FaultResult space fault_addr s xs ne h ready small =
    elim (dec-InWindow s.mem space fault_addr) [
      | inl inside ↦
          rw (handle_page_fault-in space fault_addr s ne inside, page)
            (add_stack_page-FaultResult space (4096 * (fault_addr / 4096)) fault_addr s xs inside
              ready small)
      | inr outside ↦ rw (handle_page_fault-out space fault_addr s ne outside) (refl, inl outside)
    ]
  where
    page : align_down fault_addr 4096 ≡ 4096 * (fault_addr / 4096)
    page = align_down-page fault_addr h
