-- ===== src/Vmm/Sorted.antt =====
-- The sorted list of cells that src/MemoryManager/vmm.c keeps, and the place of a new one.
use mini_user_os.Prelude.{
  ℕ, ◌%◌, ◌<◌, ◌≤◌, ◌≡◌, ◌≢◌, sym, true, false, ltb, List, [], ◌∷◌, arith, dec_lt,
}
use mini_user_os.Vmm.Cells.{Cell, Fresh, Separate}
use mini_user_os.Vmm.Insert.{insert}

-- No cell starts below `k`.
abbrev pub AtLeast : ℕ → List Cell → Type 0
AtLeast k [] = Unit {0}
AtLeast k (c ∷ cs) = (k ≤ c.start) × AtLeast k cs

abbrev pub Sorted : List Cell → Type 0
Sorted [] = Unit {0}
Sorted (c ∷ cs) = AtLeast c.start cs × Sorted cs

AtLeast-mono : (j k : ℕ) (cs : List Cell) → j ≤ k → AtLeast k cs → AtLeast j cs
AtLeast-mono j k [] h a = a
AtLeast-mono j k (c ∷ cs) h a = (omega (arith, a.0), AtLeast-mono j k cs h a.1)

-- A property of lists holds of the insertion, whichever way it goes.
insert-cases :
    (P : List Cell → Type 0) (n c : Cell) (cs : List Cell)
    → (c.start < n.start → P (c ∷ insert n cs))
    → (n.start ≤ c.start → P (n ∷ c ∷ cs))
    → P (insert n (c ∷ cs))
insert-cases P n c cs below above = elim (dec_lt c.start n.start) [
  | yes h ↦ let test : ltb c.start n.start ≡ true = ground arith in rw test (below h)
  | no h ↦ let test : ltb c.start n.start ≡ false = ground arith in rw test (above (omega arith))
]

pub Fresh-insert :
    (p : ℕ) (n : Cell) (cs : List Cell) → n.page ≢ p → Fresh p cs → Fresh p (insert n cs)
Fresh-insert p n [] h f = (h, tt)
Fresh-insert p n (c ∷ cs) h f =
    insert-cases (Fresh p) n c cs (λ b. (f.0, Fresh-insert p n cs h f.1)) (λ a. (h, f))

pub Separate-insert :
    (n : Cell) (cs : List Cell)
    → n.page % 4096 ≡ 0
    → Fresh n.page cs
    → Separate cs
    → Separate (insert n cs)
Separate-insert n [] a f s = (a, tt, tt)
Separate-insert n (c ∷ cs) a f s =
    insert-cases Separate n c cs
      (λ b. (s.0, Fresh-insert c.page n cs (λ e. f.0 (sym e)) s.1, Separate-insert n cs a f.1 s.2))
      (λ h. (a, f, s))

AtLeast-insert :
    (k : ℕ) (n : Cell) (cs : List Cell) → k ≤ n.start → AtLeast k cs → AtLeast k (insert n cs)
AtLeast-insert k n [] h a = (h, tt)
AtLeast-insert k n (c ∷ cs) h a =
    insert-cases (AtLeast k) n c cs (λ b. (a.0, AtLeast-insert k n cs h a.1)) (λ b. (h, a))

pub Sorted-insert : (n : Cell) (cs : List Cell) → Sorted cs → Sorted (insert n cs)
Sorted-insert n [] s = (tt, tt)
Sorted-insert n (c ∷ cs) s =
    insert-cases Sorted n c cs
      (λ b. (AtLeast-insert c.start n cs (omega arith) s.0, Sorted-insert n cs s.1))
      (λ h. ((h, AtLeast-mono n.start c.start cs h s.0), s))
