-- ===== src/Paging/Fresh.antt =====
-- A new table (src/MemoryManager/paging.c, `zero_page` and `get_or_create_table`): the memory after it
-- is cleared and entered.
use mini_user_os.Prelude.{
  ℕ, zero, suc, ◌+◌, ◌<◌, ◌≤◌, ◌≡◌, ◌≢◌, ◌⊎◌, inl, inr, refl, sym, ◌∙◌, List, [], ◌∷◌, ◌++◌, arith,
  ℕ_discrete,
}
use mathlib.Core.Path.{subst}
use mini_user_os.Machine.{Memory, write, write_self, write_ne}
use mini_user_os.Pmm.Pool.{Chain}
use mini_user_os.Pmm.Pages.{In}
use mini_user_os.Paging.Entry.{slot}
use mini_user_os.Paging.Table.{zero_from}
use mini_user_os.Paging.Bits.{IsFrame, table_entry}
use mini_user_os.Paging.Walk.{slots-apart}
use mini_user_os.Paging.Frame.{Avoids}

abbrev pub Frames : List ℕ → Type 0
Frames [] = Unit {0}
Frames (x ∷ xs) = IsFrame x × Frames xs

pub Frames-In : (x : ℕ) (xs : List ℕ) → Frames xs → In x xs → IsFrame x
Frames-In x (y ∷ xs) f (inl e) = subst IsFrame e f.0
Frames-In x (y ∷ xs) f (inr i) = Frames-In x xs f.1 i
Frames-In x [] f i = absurd i

pub Chain-agree :
    (m n : Memory) (p : ℕ) (xs : List ℕ)
    → ((x : ℕ) → In x xs → n x ≡ m x)
    → Chain m p xs
    → Chain n p xs
Chain-agree m n p [] same c = c
Chain-agree m n p (x ∷ xs) same c =
    (c.0, c.1, c.2, rw (same x (inl refl)) (Chain-agree m n (m x) xs (λ y i. same y (inr i)) c.3))

pub zero_from-out :
    (left page i : ℕ) (m : Memory) (q : ℕ)
    → ((k : ℕ) → k < i + left → q ≢ slot page k)
    → zero_from left page i m q ≡ m q
unfolding zero_from
zero_from-out zero page i m q h = refl
zero_from-out (suc left) page i m q h =
    zero_from-out left page (i + 1) (write m (slot page i) 0) q (λ k lt. h k (omega arith))
    ∙ write_ne m (slot page i) 0 q (h i (omega arith))

zero_from-done :
    (left page i : ℕ) (m : Memory) (k : ℕ)
    → k < i
    → m (slot page k) ≡ 0
    → zero_from left page i m (slot page k) ≡ 0
unfolding zero_from
zero_from-done zero page i m k lt e = e
zero_from-done (suc left) page i m k lt e =
    zero_from-done left page (i + 1) (write m (slot page i) 0) k (omega arith)
      (write_ne m (slot page i) 0 (slot page k) (omega arith) ∙ e)

pub zero_from-in :
    (left page i : ℕ) (m : Memory) (k : ℕ)
    → i ≤ k
    → k < i + left
    → zero_from left page i m (slot page k) ≡ 0
unfolding zero_from
zero_from-in zero page i m k lo hi = absurd (omega arith)
zero_from-in (suc left) page i m k lo hi = elim (ℕ_discrete k i) [
  | yes e ↦ zero_from-done left page (i + 1) (write m (slot page i) 0) k (omega arith) (
      subst (λ j. write m (slot page i) 0 (slot page j) ≡ 0) (sym e) (write_self m (slot page i) 0))
  | no ne ↦ zero_from-in left page (i + 1) (write m (slot page i) 0) k (omega arith) hi'
]
  where
    hi' : k < i + 1 + left
    hi' = omega arith

-- Every list either passes through `target` or avoids it.
pub through :
    (target path : List ℕ) → ((rest : List ℕ) × (path ≡ target ++ rest)) ⊎ Avoids path target
through [] path = inl (path, refl)
through (i ∷ target) [] = inr (λ rest e. cc)
through (i ∷ target) (j ∷ path) = elim (ℕ_discrete j i) [
  | yes same ↦ elim (through target path) [
    | inl (rest, e) ↦ inl (rest, cc)
    | inr a ↦ inr (λ rest e. a rest (cc))
  ]
  | no other ↦ inr (λ rest e. other (cc))
]

-- The memory after the new table `t` was cleared and entered at index `j` of the table `u`.
abbrev pub with_table : Memory → (u j t flags : ℕ) → Memory
with_table m u j t flags = write (zero_from 512 t 0 m) (slot u j) (table_entry t flags)

module _ (m : Memory) (u j t flags : ℕ) where
  pub with_table-entry : with_table m u j t flags (slot u j) ≡ table_entry t flags
  with_table-entry = write_self (zero_from 512 t 0 m) (slot u j) (table_entry t flags)

  pub with_table-out :
      (q : ℕ) → q ≢ slot u j → ((k : ℕ) → k < 512 → q ≢ slot t k) → with_table m u j t flags q ≡ m q
  with_table-out q ne out =
      write_ne (zero_from 512 t 0 m) (slot u j) (table_entry t flags) q ne
      ∙ zero_from-out 512 t 0 m q (λ k lt. out k (omega arith))

  pub with_table-zero :
      (i : ℕ) → i < 512 → slot t i ≢ slot u j → with_table m u j t flags (slot t i) ≡ 0
  with_table-zero i lt ne =
      write_ne (zero_from 512 t 0 m) (slot u j) (table_entry t flags) (slot t i) ne
      ∙ zero_from-in 512 t 0 m i (omega arith) (omega arith)

-- Slots of different tables differ.
pub slots-ne :
    (t u i j : ℕ) → IsFrame t → IsFrame u → i < 512 → j < 512 → t ≢ u → slot t i ≢ slot u j
slots-ne t u i j a b h k ne e = ne (slots-apart t u i j a b h k e).0
