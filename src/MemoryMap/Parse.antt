-- ===== src/MemoryMap/Parse.antt =====
-- What `ParseMemoryMap`, src/MemoryManager/uefiMapParser.c, records of the firmware's descriptors.
use mini_user_os.Prelude.{
  ℕ, zero, suc, ◌+◌, ◌*◌, ◌/◌, ◌%◌, ◌<◌, ◌≤◌, ◌≡◌, ◌≢◌, refl, none, some, true, arith, ◌∙◌, lt→ltb,
  dec_lt, length, length-set, get_or, get_or-set_self, get_or-set_ne, ◌==◌, if◌then◌else◌,
}
use native.Mathlib.Nat.{add-zero}
use mathlib.Core.Path.{subst₂}
use mini_user_os.Machine.{word}
use mini_user_os.MemoryMap.{
  MemoryMap, Descriptor, RawMap, max_memory_regions, no_region, region_of, record_descriptor,
  add_descriptor, parse_from, parse_memory_map,
}

module _ (conventional : ℕ) (descriptor_at : ℕ → Descriptor) where
  -- The pages of the descriptors `i`, …, `i + left - 1`, and of the conventional ones among them.
  pub sum_from : (desc_size left i : ℕ) → ℕ
  sum_from desc_size zero i = 0
  sum_from desc_size (suc left) i =
      (descriptor_at (i * desc_size)).number_of_pages + sum_from desc_size left (i + 1)

  pub free_from : (desc_size left i : ℕ) → ℕ
  free_from desc_size zero i = 0
  free_from desc_size (suc left) i =
      (if (descriptor_at (i * desc_size)).type == conventional
        then (descriptor_at (i * desc_size)).number_of_pages
        else 0)
      + free_from desc_size left (i + 1)

  -- `m'` is `m` with the descriptors `i`, …, `i + left - 1` recorded behind it.
  pub record Recorded (desc_size left i : ℕ) (m m' : MemoryMap) : Type 0 where
    pub count : m'.count ≡ m.count + left
    pub size : length m'.regions ≡ length m.regions
    pub new :
        (j : ℕ)
        → j < left
        → get_or m'.regions (m.count + j) no_region
          ≡ region_of (descriptor_at ((i + j) * desc_size))
    pub old : (j : ℕ) → j < m.count → get_or m'.regions j no_region ≡ get_or m.regions j no_region
    pub total : m'.total_memory ≡ (m.total_memory + sum_from desc_size left i * 4096) % word
    pub free : m'.free_memory ≡ (m.free_memory + free_from desc_size left i * 4096) % word

  -- A table with room takes one more descriptor.
  add_descriptor-some :
      (d : Descriptor) (m : MemoryMap)
      → m.count < max_memory_regions
      → add_descriptor conventional d m ≡ some (record_descriptor conventional d m)
  unfolding add_descriptor
  add_descriptor-some d m h = rw (lt→ltb _ _ h)

  add_descriptor-none :
      (d : Descriptor) (m : MemoryMap)
      → ¬ (m.count < max_memory_regions)
      → add_descriptor conventional d m ≡ none
  unfolding add_descriptor
  add_descriptor-none d m h = ground arith

  -- One recorded descriptor, then the others.
  Recorded-cons :
      (desc_size left i : ℕ) (m m' : MemoryMap)
      → length m.regions ≡ max_memory_regions
      → m.count + suc left ≤ max_memory_regions
      → Recorded desc_size left
          (i + 1)
          (record_descriptor conventional (descriptor_at (i * desc_size)) m)
          m'
      → Recorded desc_size (suc left) i m m'
  unfolding record_descriptor sum_from free_from
  Recorded-cons desc_size left i m m' size room r = record {
    count = omega (arith, r.count);
    size = rw (r.size) (length-set m.regions m.count _);
    new = new_at;
    old =
        λ j h. r.old j (omega arith) ∙ get_or-set_ne m.regions m.count j _ no_region (omega arith);
    total = omega (arith, r.total);
    free = ground (arith, r.free);
  }
    where
      new_at :
          (j : ℕ)
          → j < suc left
          → get_or m'.regions (m.count + j) no_region
            ≡ region_of (descriptor_at ((i + j) * desc_size))
      new_at zero h =
          rw (add-zero m.count, add-zero i)
            (r.old m.count (omega arith)
              ∙ get_or-set_self m.regions m.count _ no_region (omega (arith, size, room)))
      new_at (suc j) h =
          subst₂ (λ a b. get_or m'.regions a no_region ≡ region_of (descriptor_at (b * desc_size)))
            (omega arith) (omega arith) (r.new j (omega arith))

  record_descriptor-bounds :
      (d : Descriptor) (m : MemoryMap)
      → m.free_memory < word
      → ((record_descriptor conventional d m).total_memory < word)
        × ((record_descriptor conventional d m).free_memory < word)
        × (length (record_descriptor conventional d m).regions ≡ length m.regions)
        × ((record_descriptor conventional d m).count ≡ m.count + 1)
  unfolding record_descriptor
  record_descriptor-bounds d m f =
      (omega arith, ground arith, length-set m.regions m.count (region_of d), refl)

  -- A round with room.
  parse_from-suc :
      (desc_size left i : ℕ) (m : MemoryMap)
      → m.count < max_memory_regions
      → parse_from conventional descriptor_at desc_size (suc left) i m
        ≡ parse_from conventional descriptor_at desc_size left
            (i + 1)
            (record_descriptor conventional (descriptor_at (i * desc_size)) m)
  unfolding parse_from
  parse_from-suc desc_size left i m h =
      rw (add_descriptor-some (descriptor_at (i * desc_size)) m h, parse_from)

  parse_from-stop :
      (desc_size left i : ℕ) (m : MemoryMap)
      → ¬ (m.count < max_memory_regions)
      → parse_from conventional descriptor_at desc_size (suc left) i m ≡ none
  unfolding parse_from
  parse_from-stop desc_size left i m h =
      rw (add_descriptor-none (descriptor_at (i * desc_size)) m h, parse_from)

  parse_from-Recorded :
      (desc_size left i : ℕ) (m : MemoryMap)
      → length m.regions ≡ max_memory_regions
      → m.count + left ≤ max_memory_regions
      → m.total_memory < word
      → m.free_memory < word
      → (m' : MemoryMap) × (parse_from conventional descriptor_at desc_size left i m ≡ some m')
        × Recorded desc_size left i m m'
  unfolding parse_from sum_from free_from
  parse_from-Recorded desc_size zero i m size room t f = (
    m,
    refl,
    record {
      count = omega arith;
      size = refl;
      new = λ j h. absurd (omega arith);
      old = λ j h. refl;
      total = omega arith;
      free = omega arith;
    },
  )
  parse_from-Recorded desc_size (suc left) i m size room t f =
      let d = descriptor_at (i * desc_size) in
      let b = record_descriptor-bounds d m f in
      let rest =
        parse_from-Recorded desc_size left (i + 1) (record_descriptor conventional d m)
          (omega (arith, b.2)) (omega (arith, b.3)) b.0 b.1 in
      (
        rest.0,
        parse_from-suc desc_size left i m (omega arith) ∙ rest.1,
        Recorded-cons desc_size left i m rest.0 size room rest.2,
      )

  parse_from-none :
      (desc_size left i : ℕ) (m : MemoryMap)
      → m.count ≤ max_memory_regions
      → max_memory_regions < m.count + left
      → parse_from conventional descriptor_at desc_size left i m ≡ none
  unfolding parse_from record_descriptor
  parse_from-none desc_size zero i m room over = absurd (omega arith)
  parse_from-none desc_size (suc left) i m room over = elim (dec_lt m.count max_memory_regions) [
    | yes h ↦
        parse_from-suc desc_size left i m h
        ∙ parse_from-none desc_size left (i + 1)
            (record_descriptor conventional (descriptor_at (i * desc_size)) m) (omega arith)
            (omega arith)
    | no h ↦ parse_from-stop desc_size left i m h
  ]

  -- A map that the parser accepts: it is there, has entries, and each is at least a whole descriptor.
  pub record IsReadable (struct_size : ℕ) (mmp : RawMap) : Type 0 where
    pub present : mmp.present ≡ true
    pub filled : mmp.map_size ≢ 0
    pub whole : struct_size ≤ mmp.desc_size

  parse_memory_map-readable :
      (struct_size : ℕ) (mmp : RawMap) (m : MemoryMap)
      → IsReadable struct_size mmp
      → parse_memory_map conventional descriptor_at struct_size mmp m
        ≡ parse_from conventional descriptor_at mmp.desc_size (mmp.map_size / mmp.desc_size) 0 m
  unfolding parse_memory_map
  parse_memory_map-readable struct_size mmp m r = ground (arith, r.present, r.filled, r.whole)

  -- A readable map with no more descriptors than the table has room for is recorded completely and in
  -- order behind the old entries, and the byte counts grow by its pages, modulo 2 ^ 64.
  pub parse_memory_map-Recorded :
      (struct_size : ℕ) (mmp : RawMap) (m : MemoryMap)
      → IsReadable struct_size mmp
      → length m.regions ≡ max_memory_regions
      → m.count + mmp.map_size / mmp.desc_size ≤ max_memory_regions
      → m.total_memory < word
      → m.free_memory < word
      → (m' : MemoryMap) × (parse_memory_map conventional descriptor_at struct_size mmp m ≡ some m')
        × Recorded mmp.desc_size (mmp.map_size / mmp.desc_size) 0 m m'
  parse_memory_map-Recorded struct_size mmp m r size room t f =
      rw (parse_memory_map-readable struct_size mmp m r)
        (parse_from-Recorded mmp.desc_size (mmp.map_size / mmp.desc_size) 0 m size room t f)

  -- A readable map with more descriptors than there is room for makes the parser write behind the end
  -- of `regions`.
  pub parse_memory_map-overflow :
      (struct_size : ℕ) (mmp : RawMap) (m : MemoryMap)
      → IsReadable struct_size mmp
      → m.count ≤ max_memory_regions
      → max_memory_regions < m.count + mmp.map_size / mmp.desc_size
      → parse_memory_map conventional descriptor_at struct_size mmp m ≡ none
  parse_memory_map-overflow struct_size mmp m r room over =
      rw (parse_memory_map-readable struct_size mmp m r)
        (parse_from-none mmp.desc_size (mmp.map_size / mmp.desc_size) 0 m room over)
