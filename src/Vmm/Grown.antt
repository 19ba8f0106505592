-- ===== src/Vmm/Grown.antt =====
-- The loop that extends the heap, in `vmm_brk` of src/MemoryManager/vmm.c: which pages it maps.
use mini_user_os.Prelude.{
  ℕ, zero, suc, ◌+◌, ◌-◌, ◌*◌, ◌/◌, ◌^◌, ◌<◌, ◌≤◌, ◌≡◌, ◌≢◌, inl, inr, refl, sym, ap, ◌∙◌, Bool,
  true, false, ◌==◌, List, [], ◌∷◌, length, arith, some, ℕ_discrete, ltb,
}
use mathlib.Core.Path.{subst}
use mini_user_os.Machine.{Machine, null}
use mini_user_os.Pmm.{pop_page}
use mini_user_os.Paging.Map.{map_page, root_of, leaf_4k}
use mini_user_os.Paging.Walk.{InRange, leaf}
use mini_user_os.Paging.Create.{IsReady}
use mini_user_os.Paging.Small.{path_of, path_of-InRange, IsSmall}
use mini_user_os.Paging.Mapped.{MapResult, Maps}
use mini_user_os.Vmm.Structs.{clear, put, space_pml4, space_heap_start, space_heap_end}
use mini_user_os.Vmm.Heap.{grow_from, user_page, brk}
use mini_user_os.Vmm.Pages.{page_at}
use mini_user_os.Vmm.Break.{grown, grow_from-left, grow_from-done, extended, resize-grow}
use mini_user_os.Vmm.Fit.{round_up}
use mini_user_os.Vmm.Align.{align_up-page}
use mini_user_os.Paging.Bits.{IsFrame}
use mini_user_os.Paging.Paths.{path_of-apart}
use mini_user_os.Vmm.Stack.{map_taken, taken}

-- Every page from the `i`-th to before the `n`-th behind `start` is mapped to some page frame, for users and
-- writable; every other page is mapped as it was. Tables and free pages are in order.
pub record Grows (s s' : Machine) (root start i n : ℕ) : Type 0 where
  pub ready : (xs : List ℕ) × IsReady s' root xs
  pub mapped :
      (k : ℕ)
      → i ≤ k
      → k < n
      → (x : ℕ) × IsFrame x
        × (leaf s'.mem root (path_of (start + k * 4096)) ≡ some (leaf_4k x 7, 0))
  pub others :
      (q : List ℕ)
      → length q ≡ 4
      → InRange q
      → ((k : ℕ) → i ≤ k → k < n → q ≢ path_of (start + k * 4096))
      → leaf s'.mem root q ≡ leaf s.mem root q

Grows-none :
    (s : Machine) (root start i : ℕ) (xs : List ℕ) → IsReady s root xs → Grows s s root start i i
Grows-none s root start i xs ready = record {
  ready = (xs, ready);
  mapped = λ k low high. absurd (omega arith);
  others = λ q four r apart. refl;
}

-- One page more before those of the loop's rest.
Grows-more :
    (s s1 s' : Machine) (root start i n x : ℕ) (ys zs : List ℕ)
    → i < n
    → start + n * 4096 ≤ 2 ^ 48
    → IsFrame x
    → Maps s s1 root (path_of (start + i * 4096)) (leaf_4k x 7) ys zs
    → Grows s1 s' root start (i + 1) n
    → Grows s s' root start i n
Grows-more s s1 s' root start i n x ys zs more half f m g = record {
  ready = g.ready;
  mapped = λ k low high. elim (ℕ_discrete k i) [
    | yes here ↦
        subst
          (λ j.
            (y : ℕ) × IsFrame y
            × (leaf s'.mem root (path_of (start + j * 4096)) ≡ some (leaf_4k y 7, 0)))
          (sym here)
          (x, f, g.others (path_of (start + i * 4096)) refl (path_of-InRange _) apart ∙ m.mapped)
    | no later ↦ g.mapped k (omega arith) high
  ];
  others = λ q four r ne.
      g.others q four r (λ k low high. ne k (omega arith) high)
      ∙ m.others q four r (ne i (omega arith) more);
}
  where
    apart : (k : ℕ) → i + 1 ≤ k → k < n → path_of (start + i * 4096) ≢ path_of (start + k * 4096)
    apart k low high = path_of-apart start i k (omega arith) (omega arith) (omega arith)

-- The map of the first free page succeeds when three more are free.
Maps-enough :
    (s : Machine) (root : ℕ) (path : List ℕ) (entry : ℕ) (ys : List ℕ) (r : Bool × Machine)
    → 3 ≤ length ys
    → MapResult s root path entry ys r
    → (zs : List ℕ) × Maps s r.1 root path entry ys zs
Maps-enough s root path entry ys (ok, s1) h (inl (e, zs, m)) = (zs, m)
Maps-enough s root path entry ys (ok, s1) h (inr (e, few, ready, same)) = absurd (omega arith)

-- A round of the loop.
map_first :
    (s : Machine) (root start i x : ℕ) (ys : List ℕ)
    → root ≢ null
    → IsReady s root (x ∷ ys)
    → start + i * 4096 < 2 ^ 48
    → IsSmall s.mem root (path_of (start + i * 4096))
    → MapResult s root (path_of (start + i * 4096)) (leaf_4k x 7) ys (
        map_page root
          (page_at start i)
          s.pmm.free_list
          user_page
          (clear 512 s.pmm.free_list (pop_page s)))
map_first s root start i x ys ne ready half small =
    subst
      (λ f.
        MapResult s root (path_of (start + i * 4096)) (leaf_4k x 7) ys
          (map_page root (page_at start i) f user_page (clear 512 f (pop_page s))))
      (sym ready.pool.chain.0)
      (subst
        (λ v.
          MapResult s root (path_of (start + i * 4096)) (leaf_4k x 7) ys
            (map_page root v x user_page (taken x s)))
        (sym at)
        (subst
          (λ r.
            MapResult s r (path_of (start + i * 4096)) (leaf_4k x 7) ys
              (map_page root (start + i * 4096) x user_page (taken x s)))
          own
          (map_taken s root (start + i * 4096) user_page x ys
            (subst (λ r. IsReady s r (x ∷ ys)) (sym own) ready)
            (subst (λ r. IsSmall s.mem r (path_of (start + i * 4096))) (sym own) small))))
  where
    own : root_of root s ≡ root
    own = ground arith

    at : page_at start i ≡ start + i * 4096
    at = omega arith

-- The loop maps its pages if the free pages are enough.
pub grow_from-Grows :
    (left i start root : ℕ) (s : Machine) (xs : List ℕ)
    → root ≢ null
    → IsReady s root xs
    → 4 * left ≤ length xs
    → start + (i + left) * 4096 ≤ 2 ^ 48
    → ((k : ℕ) → i ≤ k → k < i + left → IsSmall s.mem root (path_of (start + k * 4096)))
    → (s' : Machine) × (grow_from left i start root s ≡ (true, s'))
      × Grows s s' root start i (i + left)
grow_from-Grows zero i start root s xs ne ready few half small = (
  s,
  grow_from-done i start root s,
  subst (Grows s s root start i) (omega arith) (Grows-none s root start i xs ready),
)
grow_from-Grows (suc left) i start root s [] ne ready few half small = absurd (omega (arith, few))
grow_from-Grows (suc left) i start root s (x ∷ ys) ne ready few half small =
    let (zs, m) =
      Maps-enough s root (path_of (start + i * 4096)) (leaf_4k x 7) ys _ (omega (arith, few))
        (map_first s root start i x ys ne ready here (small i (omega arith) (omega arith))) in
    let s1 = grown i start root s in
    let (s', e, g) =
      grow_from-Grows left (i + 1) start root s1 zs ne m.ready (omega (arith, few, m.left))
        (omega arith) (later zs m) in
    (
      s',
      grow_from-left left i start root s (rw ready.pool.chain.0 ready.frames.0.0) ∙ e,
      Grows-more s s1 s' root start i (i + suc left) x ys zs (omega arith) (omega arith)
          ready.frames.0 m (subst (Grows s1 s' root start (i + 1)) (omega arith) g),
    )
  where
    here : start + i * 4096 < 2 ^ 48
    here = omega arith

    later :
        (zs : List ℕ)
        → Maps s (grown i start root s) root (path_of (start + i * 4096)) (leaf_4k x 7) ys zs
        → (k : ℕ) → i + 1 ≤ k
        → k < i + 1 + left
        → IsSmall (grown i start root s).mem root (path_of (start + k * 4096))
    later zs m k low high e j h = small k (omega arith) (omega arith) e j (
        sym (
          m.others (path_of (start + k * 4096)) refl (path_of-InRange _)
            (path_of-apart start k i (omega arith) here (omega arith)))
        ∙ h)

-- For an address space with its own tables, which are in order with the free pages, and a new end, rounded up
-- to a page's start, that lies behind the heap's end and below 2 ^ 47: if none of the whole pages from the
-- heap's end to it lies in a large page, and four pages are free for each of them, `vmm_brk` returns 0; it has
-- mapped each of them to a page frame, for users and writable, has kept every other page's mapping, and has
-- behind that only set the heap's end to the rounded end.
pub brk-Grows :
    (space new_end : ℕ) (s : Machine) (xs : List ℕ)
    → space ≢ null
    → s.mem (space_pml4 space) ≢ null
    → IsReady s (s.mem (space_pml4 space)) xs
    → s.mem (space_heap_start space) ≤ s.mem (space_heap_end space)
    → s.mem (space_heap_end space) < round_up new_end
    → round_up new_end ≤ 2 ^ 47
    → 4 * ((round_up new_end - s.mem (space_heap_end space)) / 4096) ≤ length xs
    → ((k : ℕ)
        → k < (round_up new_end - s.mem (space_heap_end space)) / 4096
        → IsSmall s.mem
            (s.mem (space_pml4 space))
            (path_of (s.mem (space_heap_end space) + k * 4096)))
    → (s' : Machine) × (brk space new_end s
        ≡ (true, put (space_heap_end space) (round_up new_end) s'))
      × Grows s s'
          (s.mem (space_pml4 space))
          (s.mem (space_heap_end space))
          0
          ((round_up new_end - s.mem (space_heap_end space)) / 4096)
unfolding brk
brk-Grows space new_end s xs ne own ready heap above half few small =
    let (s', e, g) =
      grow_from-Grows ((round_up new_end - s.mem (space_heap_end space)) / 4096) 0
        (s.mem (space_heap_end space)) (s.mem (space_pml4 space)) s xs own ready few (omega arith)
        (λ k low high. small k (omega arith)) in
    (
      s',
      rw (align_up-page new_end (omega arith), test, below)
          (resize-grow space (round_up new_end) s above ∙ ap (extended space (round_up new_end)) e),
      subst (Grows s s' (s.mem (space_pml4 space)) (s.mem (space_heap_end space)) 0) (omega arith)
          g,
    )
  where
    test : (space == null) ≡ false
    test = ground arith

    below : ltb (round_up new_end) (s.mem (space_heap_start space)) ≡ false
    below = ground arith
