-- ===== src/Pmm/Clients.antt =====
-- Every history of calls to the page allocator of src/MemoryManager/pmm.c: clients allocate, write
-- to the pages that they hold, and free them.
use mini_user_os.Prelude.{
  ℕ, suc, ◌+◌, ◌%◌, ◌<◌, ◌≡◌, ◌≢◌, ◌↔◌, inl, refl, sym, ap, List, [], ◌∷◌, ◌++◌, arith, length,
  length-append,
}
use mathlib.Core.Path.{subst}
use mathlib.Core.List.{append_assoc}
use mini_user_os.Machine.{Machine, word, null, write}
use mini_user_os.Pmm.{alloc_page, free_page}
use mini_user_os.Pmm.Pool.{
  IsPool, Outside, Chain-write, alloc_page-cons, alloc_page-nil, alloc_page-ne_null,
  free_page-IsPool,
}
use mini_user_os.Pmm.Pages.{In}
use mini_user_os.Pmm.Distinct.{
  Distinct, In-append-cons, Distinct-append-cons, length-append-cons, Outside-append,
  In-append_left, In-append_right, Distinct-append, Outside-of_all,
}

-- The machine, and the pages that clients hold.
pub record System : Type 0 where
  pub machine : Machine
  pub held : List ℕ

-- One call of the allocator, or one store of a client into a page that it holds.
pub data Step : System → System → Type 0 where
  alloc :
      (s : System)
      → (alloc_page s.machine).0 ≢ null
      → Step s
          (record { machine = (alloc_page s.machine).1; held = (alloc_page s.machine).0 ∷ s.held })
  fail :
      (s : System)
      → (alloc_page s.machine).0 ≡ null
      → Step s (record s { machine = (alloc_page s.machine).1 })
  store :
      (s : System) (page offset v : ℕ)
      → In page s.held
      → offset < 4096
      → Step s (record s {
        machine = record (s.machine) { mem = write s.machine.mem (page + offset) v };
      })
  free :
      (s : System) (before after : List ℕ) (page : ℕ)
      → s.held ≡ before ++ (page ∷ after)
      → Step s (record { machine = free_page page s.machine; held = before ++ after })

pub data Reach (s : System) : System → Type 0 where
  here : Reach s s
  next : {t u : System} → Reach s t → Step t u → Reach s u

-- The pages that are held, followed by the free ones, are distinct and are exactly `frames`.
pub record IsSafe (frames : List ℕ) (s : System) : Type 0 where
  pub free : List ℕ
  pub pool : IsPool s.machine free
  pub distinct : Distinct (s.held ++ free)
  pub same : (y : ℕ) → In y frames ↔ In y (s.held ++ free)
  pub size : length (s.held ++ free) ≡ length frames
  pub aligned : (y : ℕ) → In y frames → (y ≢ null) × (y % 4096 ≡ 0)
  pub few : length frames < word

module _ {frames : List ℕ} where
  -- Moving the first free page to the held ones.
  alloc-IsSafe :
      (s : System)
      → IsSafe frames s
      → (alloc_page s.machine).0 ≢ null
      → IsSafe frames
          (record { machine = (alloc_page s.machine).1; held = (alloc_page s.machine).0 ∷ s.held })
  alloc-IsSafe s safe ne = go safe.free safe.pool safe.distinct safe.same safe.size
    where
      go :
          (free : List ℕ)
          → IsPool s.machine free
          → Distinct (s.held ++ free)
          → ((y : ℕ) → In y frames ↔ In y (s.held ++ free))
          → length (s.held ++ free) ≡ length frames
          → IsSafe frames (record {
            machine = (alloc_page s.machine).1;
            held = (alloc_page s.machine).0 ∷ s.held;
          })
      go [] pool d same size = absurd (ne (ap (λ (r : ℕ × Machine). r.0) (alloc_page-nil pool)))
      go (x ∷ xs) pool d same size =
          let got = alloc_page-cons pool in
          rw got.0 (record {
            free = xs;
            pool = got.1;
            distinct = (Distinct-append-cons x s.held xs).0 d;
            same = λ y. (
              λ i. (In-append-cons y x s.held xs).0 ((same y).0 i),
              λ i. (same y).1 ((In-append-cons y x s.held xs).1 i),
            );
            size = omega (arith, size, length-append-cons x s.held xs);
            aligned = safe.aligned;
            few = safe.few;
          })

  -- With no page left nothing changes.
  fail-IsSafe :
      (s : System)
      → IsSafe frames s
      → (alloc_page s.machine).0 ≡ null
      → IsSafe frames (record s { machine = (alloc_page s.machine).1 })
  fail-IsSafe s safe e = subst (λ m. IsSafe frames (record s { machine = m })) (sym unchanged) safe
    where
      none_left : IsPool s.machine []
      none_left = subst (IsPool s.machine) (alloc_page-ne_null safe.free safe.pool e) safe.pool

      unchanged : (alloc_page s.machine).1 ≡ s.machine
      unchanged = ap (λ (r : ℕ × Machine). r.1) (alloc_page-nil none_left)

  -- A store into a held page misses every free page's first word.
  store-IsSafe :
      (s : System) (page offset v : ℕ)
      → IsSafe frames s
      → In page s.held
      → offset < 4096
      → IsSafe frames (record s {
        machine = record (s.machine) { mem = write s.machine.mem (page + offset) v };
      })
  store-IsSafe s page offset v safe held small = record {
    free = free;
    pool = record {
      chain = Chain-write s.machine.mem (page + offset) v _ free missed pool.chain;
      counted = pool.counted;
      small = pool.small;
    };
    distinct = distinct;
    same = same;
    size = size;
    aligned = aligned;
    few = few;
  }
    where
      open safe use {free, pool, distinct, same, size, aligned, few}

      differs : (y : ℕ) → In y free → y ≢ page + offset
      differs y i e =
          Distinct-append page s.held free distinct held (subst (λ z. In z free) equal i)
        where
          whole : y % 4096 ≡ 0
          whole = (aligned y ((same y).1 (In-append_right y s.held free i))).1

          start : page % 4096 ≡ 0
          start = (aligned page ((same page).1 (In-append_left page s.held free held))).1

          equal : y ≡ page
          equal = omega (arith, whole, start)

      missed : Outside (page + offset) free
      missed = Outside-of_all (page + offset) free differs

  -- Freeing moves a held page to the front of the free ones.
  free-IsSafe :
      (s : System) (before after : List ℕ) (page : ℕ)
      → IsSafe frames s
      → s.held ≡ before ++ (page ∷ after)
      → IsSafe frames (record { machine = free_page page s.machine; held = before ++ after })
  free-IsSafe s before after page safe e = record {
    free = page ∷ free;
    pool = free_page-IsPool page pool (aligned page known).0 apart room;
    distinct = (Distinct-append-cons page (before ++ after) free).1 moved;
    same = λ y. (
      λ i. (In-append-cons y page (before ++ after) free).1 (
          subst (λ l. In y (page ∷ l)) (sym assoc)
            ((In-append-cons y page before (after ++ free)).0 (subst (In y) shape ((same y).0 i)))),
      λ i. (same y).1 (
          subst (In y) (sym shape) (
            (In-append-cons y page before (after ++ free)).1 (
              subst (λ l. In y (page ∷ l)) assoc
                ((In-append-cons y page (before ++ after) free).0 i)))),
    );
    size = total;
    aligned = aligned;
    few = few;
  }
    where
      open safe use {free, pool, distinct, same, size, aligned, few}

      assoc : (before ++ after) ++ free ≡ before ++ (after ++ free)
      assoc = append_assoc before after free

      shape : s.held ++ free ≡ before ++ (page ∷ (after ++ free))
      shape = rw e (append_assoc before (page ∷ after) free)

      moved : Distinct (page ∷ ((before ++ after) ++ free))
      moved =
          rw assoc
            ((Distinct-append-cons page before (after ++ free)).0 (subst Distinct shape distinct))

      known : In page frames
      known = (same page).1 (
          subst (In page) (sym shape)
            ((In-append-cons page page before (after ++ free)).1 (inl refl)))

      apart : Outside page free
      apart = Outside-append page (before ++ after) free moved.0

      total : length ((before ++ after) ++ (page ∷ free)) ≡ length frames
      total = omega (
        arith,
        length-append-cons page (before ++ after) free,
        ap length assoc,
        ap length shape,
        length-append-cons page before (after ++ free),
        size,
      )

      room : suc (length free) < word
      room = omega (
        arith,
        total,
        length-append-cons page (before ++ after) free,
        length-append (before ++ after) free,
        few,
      )

  Step-IsSafe : {s t : System} → Step s t → IsSafe frames s → IsSafe frames t
  Step-IsSafe (alloc s ne) safe = alloc-IsSafe s safe ne
  Step-IsSafe (fail s e) safe = fail-IsSafe s safe e
  Step-IsSafe (store s page offset v held small) safe = store-IsSafe s page offset v safe held small
  Step-IsSafe (free s before after page e) safe = free-IsSafe s before after page safe e

  -- From a safe state every history of allocations, failed allocations, stores into held pages and
  -- frees of held pages keeps the free list intact: the held and the free pages stay distinct and
  -- together remain exactly the frames of the start, so no page is handed out twice and none is lost.
  pub Reach-IsSafe : {s t : System} → IsSafe frames s → Reach s t → IsSafe frames t
  Reach-IsSafe safe here = safe
  Reach-IsSafe safe (next r st) = Step-IsSafe st (Reach-IsSafe safe r)
