-- ===== src/Paging/Paths.antt =====
-- The paths of indices that virtual addresses select in the tables of src/MemoryManager/paging.c: pages of
-- the lower half have different ones.
use mini_user_os.Prelude.{
  ℕ, zero, suc, ◌+◌, ◌*◌, ◌/◌, ◌%◌, ◌^◌, ◌<◌, ◌≡◌, ◌≢◌, sym, ap, ◌∙◌, List, [], ◌∷◌, arith,
}
use mini_user_os.Bits.{bit_and_low}
use mini_user_os.Paging.Entry.{get_pml4_index, get_pdpt_index, get_pd_index, get_pt_index}
use mini_user_os.Paging.Small.{path_of}

nth : ℕ → List ℕ → ℕ
nth n [] = 0
nth zero (x ∷ xs) = x
nth (suc n) (x ∷ xs) = nth n xs

pt_index : (v : ℕ) → get_pt_index v ≡ v / 2 ^ 12 % 512
unfolding get_pt_index
pt_index v = bit_and_low 9 (v / 2 ^ 12)

pd_index : (v : ℕ) → get_pd_index v ≡ v / 2 ^ 21 % 512
unfolding get_pd_index
pd_index v = bit_and_low 9 (v / 2 ^ 21)

pdpt_index : (v : ℕ) → get_pdpt_index v ≡ v / 2 ^ 30 % 512
unfolding get_pdpt_index
pdpt_index v = bit_and_low 9 (v / 2 ^ 30)

pml4_index : (v : ℕ) → get_pml4_index v ≡ v / 2 ^ 39 % 512
unfolding get_pml4_index
pml4_index v = bit_and_low 9 (v / 2 ^ 39)

digits-eq :
    (v w : ℕ)
    → v < 2 ^ 48
    → w < 2 ^ 48
    → v / 2 ^ 39 % 512 ≡ w / 2 ^ 39 % 512
    → v / 2 ^ 30 % 512 ≡ w / 2 ^ 30 % 512
    → v / 2 ^ 21 % 512 ≡ w / 2 ^ 21 % 512
    → v / 2 ^ 12 % 512 ≡ w / 2 ^ 12 % 512
    → v / 2 ^ 12 ≡ w / 2 ^ 12
digits-eq v w hv hw a b c d = omega arith

-- Different pages of the lower half have different paths.
path_of-page : (v w : ℕ) → v < 2 ^ 48 → w < 2 ^ 48 → path_of v ≡ path_of w → v / 2 ^ 12 ≡ w / 2 ^ 12
unfolding nth
path_of-page v w hv hw e =
    digits-eq v w hv hw (sym (pml4_index v) ∙ ap (nth 0) e ∙ pml4_index w)
      (sym (pdpt_index v) ∙ ap (nth 1) e ∙ pdpt_index w)
      (sym (pd_index v) ∙ ap (nth 2) e ∙ pd_index w) (sym (pt_index v) ∙ ap (nth 3) e ∙ pt_index w)

pub path_of-apart :
    (start k l : ℕ)
    → start + k * 4096 < 2 ^ 48
    → start + l * 4096 < 2 ^ 48
    → k ≢ l
    → path_of (start + k * 4096) ≢ path_of (start + l * 4096)
path_of-apart start k l hk hl ne e =
    ne (omega (arith, path_of-page (start + k * 4096) (start + l * 4096) hk hl e))
