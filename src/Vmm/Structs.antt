-- ===== src/Vmm/Structs.antt =====
-- The structures of include/MemoryManager/vmm.h in memory, and the alignment functions of
-- src/MemoryManager/vmm.c.
use mini_user_os.Prelude.{ℕ, ◌+◌, ◌*◌, ◌-◌, ◌/◌, ◌%◌, ◌^◌, bit_and}
use mini_user_os.Machine.{Machine, Memory, add64, sub64, word, write}
use mini_user_os.Paging.Table.{zero_from}

abbrev pub user_space_start : ℕ
user_space_start = 0x400000

abbrev pub user_space_end : ℕ
user_space_end = 0x00007FFFFFFFFFFF

abbrev pub kernel_heap_start : ℕ
kernel_heap_start = 0xFFFF800100000000

abbrev pub kernel_heap_end : ℕ
kernel_heap_end = 0xFFFF800200000000

abbrev pub region_free : ℕ
region_free = 0x00

abbrev pub region_used : ℕ
region_used = 0x01

abbrev pub region_read : ℕ
region_read = 0x02

abbrev pub region_write : ℕ
region_write = 0x04

abbrev pub region_exec : ℕ
region_exec = 0x08

abbrev pub region_user : ℕ
region_user = 0x10

abbrev pub region_stack : ℕ
region_stack = 0x20

abbrev pub region_mmap : ℕ
region_mmap = 0x80

abbrev pub page_no_execute : ℕ
page_no_execute = 2 ^ 63

-- The addresses of the fields of `struct vm_region`. `flags` is the low half of its word, `type` the
-- high half.
abbrev pub region_start : ℕ → ℕ
region_start r = r

abbrev pub region_end : ℕ → ℕ
region_end r = r + 8

abbrev pub region_flags : ℕ → ℕ
region_flags r = r + 16

abbrev pub region_next : ℕ → ℕ
region_next r = r + 24

abbrev pub region_prev : ℕ → ℕ
region_prev r = r + 32

-- `sizeof(struct vm_region)` in words
abbrev pub region_words : ℕ
region_words = 5

-- The addresses of the fields of `struct address_space`. `ref_count` is the low half of its word.
abbrev pub space_pml4 : ℕ → ℕ
space_pml4 a = a

abbrev pub space_regions : ℕ → ℕ
space_regions a = a + 8

abbrev pub space_heap_start : ℕ → ℕ
space_heap_start a = a + 16

abbrev pub space_heap_end : ℕ → ℕ
space_heap_end a = a + 24

abbrev pub space_stack_start : ℕ → ℕ
space_stack_start a = a + 32

abbrev pub space_stack_end : ℕ → ℕ
space_stack_end a = a + 40

abbrev pub space_mmap_base : ℕ → ℕ
space_mmap_base a = a + 48

abbrev pub space_ref_count : ℕ → ℕ
space_ref_count a = a + 56

abbrev pub space_next : ℕ → ℕ
space_next a = a + 64

-- `uint32_t` fields
abbrev pub low_half : ℕ → ℕ
low_half w = w % 2 ^ 32

abbrev pub with_low_half : ℕ → ℕ → ℕ
with_low_half w v = w / 2 ^ 32 * 2 ^ 32 + v % 2 ^ 32

abbrev pub flags_of : Memory → ℕ → ℕ
flags_of m r = low_half (m (region_flags r))

abbrev pub put : ℕ → ℕ → Machine → Machine
put p v s = record s { mem = write s.mem p v }

abbrev pub put_flags : ℕ → ℕ → Machine → Machine
put_flags r v s = put (region_flags r) (with_low_half (s.mem (region_flags r)) v) s

-- `~x`
abbrev pub not64 : ℕ → ℕ
not64 x = word - 1 - x

unfoldable pub align_up : ℕ → ℕ → ℕ
align_up addr align = bit_and (sub64 (add64 addr align) 1) (not64 (sub64 align 1))

unfoldable pub align_down : ℕ → ℕ → ℕ
align_down addr align = bit_and addr (not64 (sub64 align 1))

-- `memset(p, 0, 8 * words)`
abbrev pub clear : ℕ → ℕ → Machine → Machine
clear words p s = record s { mem = zero_from words p 0 s.mem }
