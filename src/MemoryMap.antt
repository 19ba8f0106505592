-- ===== src/MemoryMap.antt =====
-- The parsed memory map, src/MemoryManager/uefiMapParser.c and its header.
pub mod Parse
mod Tests
use mini_user_os.Prelude.{
  ℕ, zero, suc, ◌+◌, ◌*◌, ◌/◌, ◌%◌, List, [], ◌∷◌, Option, none, some, Bool, not, ◌==◌, ltb,
  if◌then◌else◌, replicate, set,
}
use mini_user_os.Machine.{add64}

-- `memory_region_t`
pub record MemoryRegion : Type 0 where
  pub base : ℕ
  pub pages : ℕ
  pub type : ℕ
  pub reserved : ℕ

-- `memory_map_t`; `regions` is an array of `max_memory_regions` entries
pub record MemoryMap : Type 0 where
  pub regions : List MemoryRegion
  pub count : ℕ
  pub total_memory : ℕ
  pub free_memory : ℕ

abbrev pub max_memory_regions : ℕ
max_memory_regions = 128

abbrev pub no_region : MemoryRegion
no_region = record { base = 0; pages = 0; type = 0; reserved = 0 }

-- `memory_map_t g_memory_map = {0}`
abbrev pub empty_map : MemoryMap
empty_map = record {
  regions = replicate max_memory_regions no_region;
  count = 0;
  total_memory = 0;
  free_memory = 0;
}

-- The fields of `EFI_MEMORY_DESCRIPTOR` that the code reads.
pub record Descriptor : Type 0 where
  pub type : ℕ
  pub physical_start : ℕ
  pub number_of_pages : ℕ

-- The fields of `MemoryMap mmp` that the parser reads: whether `map` is set, and the sizes.
pub record RawMap : Type 0 where
  pub present : Bool
  pub map_size : ℕ
  pub desc_size : ℕ

abbrev pub region_of : Descriptor → MemoryRegion
region_of d = record {
  base = d.physical_start;
  pages = d.number_of_pages;
  type = d.type;
  reserved = 0;
}

-- The writes of one round of the loop.
pub record_descriptor : ℕ → Descriptor → MemoryMap → MemoryMap
record_descriptor conventional d m = record {
  regions = set m.regions m.count (region_of d);
  count = m.count + 1;
  total_memory = add64 m.total_memory (d.number_of_pages * 4096);
  free_memory =
      if d.type == conventional
      then add64 m.free_memory (d.number_of_pages * 4096)
      else m.free_memory;
}

-- The code does not test `count`; `none` is the write `regions[count]` behind the end of the array.
pub add_descriptor : ℕ → Descriptor → MemoryMap → Option MemoryMap
add_descriptor conventional d m =
    if ltb m.count max_memory_regions then some (record_descriptor conventional d m) else none

-- `descriptor_at o` is the descriptor at byte `o` of the firmware's buffer.
module _ (conventional : ℕ) (descriptor_at : ℕ → Descriptor) where
  pub parse_from : ℕ → ℕ → ℕ → MemoryMap → Option MemoryMap
  parse_from desc_size zero i m = some m
  parse_from desc_size (suc left) i m =
      elim (add_descriptor conventional (descriptor_at (i * desc_size)) m) [
        | none ↦ none
        | some m' ↦ parse_from desc_size left (i + 1) m'
      ]

  -- `struct_size` is `sizeof(EFI_MEMORY_DESCRIPTOR)`.
  pub parse_memory_map : (struct_size : ℕ) → RawMap → MemoryMap → Option MemoryMap
  unfolding parse_from add_descriptor record_descriptor
  parse_memory_map struct_size mmp m =
      if not mmp.present
      then some m
      else if mmp.map_size == 0
      then some m
      else if ltb mmp.desc_size struct_size
      then some m
      else parse_from mmp.desc_size (mmp.map_size / mmp.desc_size) 0 m
