-- ===== src/Vmm/Access.antt =====
-- What `vmm_check_access` of src/MemoryManager/vmm.c allows.
use mini_user_os.Prelude.{
  ℕ, ◌/◌, ◌*◌, ◌%◌, ◌<◌, ◌≤◌, ◌≡◌, ◌≢◌, ◌⊎◌, inl, inr, sym, ap, ◌∙◌, List, [], ◌∷◌, length, arith,
  bit_and,
}
use mini_user_os.Bits.{bit_and_low, bit_and_high}
use mini_user_os.Machine.{Memory, null}
use mini_user_os.Vmm.Structs.{
  space_regions, region_free, region_read, region_write, region_exec, flags_of,
}
use mini_user_os.Vmm.Regions.{find_region, check_access}
use mini_user_os.Vmm.Cells.{Cell, Linked, Holds, Found}
use mini_user_os.Vmm.Search.{find_region-Found}

-- Every one of the rights to read (bit 1), write (2) and execute (3) that is asked for is there.
abbrev pub Permits : ℕ → ℕ → Type 0
Permits asked has =
    (has ≢ region_free)
    × (asked / 2 % 2 ≤ has / 2 % 2)
    × (asked / 4 % 2 ≤ has / 4 % 2)
    × (asked / 8 % 2 ≤ has / 8 % 2)

-- The first region that holds the address decides; without one there is no access.
abbrev pub Granted : ℕ → ℕ → List Cell → ℕ → Type 0
Granted addr asked [] v = v ≡ 0
Granted addr asked (c ∷ cs) v =
    (Holds c addr × ((Permits asked c.flags × (v ≡ 1)) ⊎ ((¬ (Permits asked c.flags)) × (v ≡ 0))))
    ⊎ ((¬ (Holds c addr)) × Granted addr asked cs v)

read_bit : (x : ℕ) → bit_and x region_read ≡ 2 * (x / 2 % 2)
read_bit x = omega (arith, bit_and_high 1 x 1, bit_and_low 1 (x / 2))

write_bit : (x : ℕ) → bit_and x region_write ≡ 4 * (x / 4 % 2)
write_bit x = omega (arith, bit_and_high 2 x 1, bit_and_low 1 (x / 4))

exec_bit : (x : ℕ) → bit_and x region_exec ≡ 8 * (x / 8 % 2)
exec_bit x = omega (arith, bit_and_high 3 x 1, bit_and_low 1 (x / 8))

dec-Permits : (asked has : ℕ) → Permits asked has ⊎ ¬ (Permits asked has)
dec-Permits asked has = ground arith

module _ (fuel space addr asked : ℕ) (m : Memory) where
  check_access-permitted :
      find_region fuel space addr m ≢ null
      → Permits asked (flags_of m (find_region fuel space addr m))
      → check_access fuel space addr asked m ≡ 1
  unfolding check_access
  check_access-permitted ne p =
      let has = flags_of m (find_region fuel space addr m) in
      rw
        (read_bit asked, write_bit asked, exec_bit asked, read_bit has, write_bit has, exec_bit has)
        (ground arith)

  check_access-refused :
      find_region fuel space addr m ≢ null
      → ¬ (Permits asked (flags_of m (find_region fuel space addr m)))
      → check_access fuel space addr asked m ≡ 0
  unfolding check_access
  check_access-refused ne p =
      let has = flags_of m (find_region fuel space addr m) in
      rw
        (read_bit asked, write_bit asked, exec_bit asked, read_bit has, write_bit has, exec_bit has)
        (ground arith)

  check_access-none :
      find_region fuel space addr m ≡ null → check_access fuel space addr asked m ≡ 0
  unfolding check_access
  check_access-none e = ground arith

  Found-Granted :
      (prev r : ℕ) (cs : List Cell)
      → Linked m prev r cs
      → Found addr cs (find_region fuel space addr m)
      → Granted addr asked cs (check_access fuel space addr asked m)
  Found-Granted prev r [] l f = check_access-none f
  Found-Granted prev r (c ∷ cs) l (inl f) =
      let flags : flags_of m (find_region fuel space addr m) ≡ c.flags =
        ap (λ q. flags_of m q) (f.1 ∙ sym l.0.here) ∙ l.0.flags in
      let ne : find_region fuel space addr m ≢ null = λ e. l.0.ne_null (l.0.here ∙ sym f.1 ∙ e) in
      inl (
        f.0,
        elim (dec-Permits asked c.flags) [
          | inl p ↦ inl (p, check_access-permitted ne (rw flags p))
          | inr p ↦ inr (p, check_access-refused ne (rw flags p))
        ],
      )
  Found-Granted prev r (c ∷ cs) l (inr f) = inr (f.0, Found-Granted r _ cs l.1 f.1)

-- In the regions of an address space, `vmm_check_access` is 1 just when the first region that holds the
-- address is not free and has every right that is asked for, and 0 otherwise.
pub check_access-Granted :
    (fuel space addr asked : ℕ) (m : Memory) (cs : List Cell)
    → space ≢ null
    → Linked m null (m (space_regions space)) cs
    → length cs < fuel
    → Granted addr asked cs (check_access fuel space addr asked m)
check_access-Granted fuel space addr asked m cs ne l h =
    Found-Granted fuel space addr asked m null _ cs l
      (find_region-Found fuel space addr m cs ne l h)
