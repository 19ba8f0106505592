-- ===== src/MemoryMap/Tests.antt =====
-- The memory map's parser at concrete inputs.
use mini_user_os.Prelude.{ℕ, ◌/◌, ◌≡◌, refl, true, none, some, arith}
use mini_user_os.MemoryMap.{MemoryMap, Descriptor, RawMap, empty_map, parse_memory_map}
use mini_user_os.MemoryMap.Parse.{
  Recorded, IsReadable, parse_memory_map-Recorded, parse_memory_map-overflow,
}

-- Every descriptor is of one free page, at 16 times its offset.
abbrev pages_at : ℕ → Descriptor
pages_at o = record { type = 7; physical_start = o; number_of_pages = 1 }

abbrev three : RawMap
three = record { present = true; map_size = 144; desc_size = 48 }

abbrev many : RawMap
many = record { present = true; map_size = 9600; desc_size = 48 }

three-IsReadable : IsReadable 7 pages_at 40 three
three-IsReadable = record { present = refl; filled = omega arith; whole = omega arith }

many-IsReadable : IsReadable 7 pages_at 40 many
many-IsReadable = record { present = refl; filled = omega arith; whole = omega arith }

parse_memory_map-Recorded_example :
    (m' : MemoryMap) × (parse_memory_map 7 pages_at 40 three empty_map ≡ some m')
    × Recorded 7 pages_at 48 (144 / 48) 0 empty_map m'
parse_memory_map-Recorded_example =
    parse_memory_map-Recorded 7 pages_at 40 three empty_map three-IsReadable refl (omega arith)
      (omega arith) (omega arith)

parse_memory_map-overflow_example : parse_memory_map 7 pages_at 40 many empty_map ≡ none
parse_memory_map-overflow_example =
    parse_memory_map-overflow 7 pages_at 40 many empty_map many-IsReadable (omega arith)
      (omega arith)
