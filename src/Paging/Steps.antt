-- ===== src/Paging/Steps.antt =====
-- Single steps of a walk through the tables (src/MemoryManager/paging.c).
use mini_user_os.Prelude.{
  ℕ, ◌<◌, ◌≡◌, ◌≢◌, true, false, none, List, [], ◌∷◌, ◌++◌, arith, length, length-append,
}
use mathlib.Core.Path.{subst}
use mini_user_os.Machine.{Memory, null}
use mini_user_os.Paging.Entry.{get_table_ptr, is_present, is_large_page, slot}
use mini_user_os.Paging.Table.{get_table}
use mini_user_os.Paging.Walk.{Leads, InRange, leaf}

-- A path goes to its end through its beginning.
pub Leads-rest :
    (m : Memory) (t : ℕ) (p q : List ℕ) (u v : ℕ)
    → Leads m t p u
    → Leads m t (p ++ q) v
    → Leads m u q v
Leads-rest m t [] q u v e l = subst (λ w. Leads m w q v) e l
Leads-rest m t (i ∷ p) q u v k l = Leads-rest m (get_table t i m) p q u v k.2 l.2

-- An entry that is not present leads nowhere.
pub get_table-absent :
    (m : Memory) (t i : ℕ) → is_present (m (slot t i)) ≡ false → get_table t i m ≡ null
unfolding get_table
get_table-absent m t i h = rw h

get_table-entry :
    (m : Memory) (t i : ℕ)
    → get_table t i m ≢ null
    → (is_present (m (slot t i)) ≡ true)
      × (is_large_page (m (slot t i)) ≡ false)
      × (get_table t i m ≡ get_table_ptr (m (slot t i)))
unfolding get_table
get_table-entry m t i ne = ground arith

-- The walk along a path of tables is the walk from its end.
pub leaf-Leads :
    (m : Memory) (t : ℕ) (p q : List ℕ) (u : ℕ)
    → Leads m t p u
    → length q ≢ 0
    → leaf m t (p ++ q) ≡ leaf m u q
unfolding leaf
leaf-Leads m t [] q u e ne = rw e
leaf-Leads m t (i ∷ p) q u l ne =
    let entry = get_table-entry m t i l.1 in
    let more : length (p ++ q) ≢ 0 = omega (arith, length-append p q) in
    ground (
      arith,
      entry,
      leaf-Leads m (get_table_ptr (m (slot t i))) p q u (subst (λ v. Leads m v p u) entry.2 l.2) ne,
    )

pub leaf-absent :
    (m : Memory) (t i : ℕ) (q : List ℕ)
    → is_present (m (slot t i)) ≡ false
    → leaf m t (i ∷ q) ≡ none
unfolding leaf
leaf-absent m t i q h = rw h

pub in_range : (p : List ℕ) (i : ℕ) (q : List ℕ) → InRange (p ++ (i ∷ q)) → i < 512
in_range [] i q r = r.0
in_range (j ∷ p) i q r = in_range p i q r.1
