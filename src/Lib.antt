-- ===== src/Lib.antt =====
-- Mini-User-OS: a model of the kernel's memory managers and device tables.
--
-- The kernel is one thread of C code that runs over identity-mapped physical memory. The
-- firmware's memory map is parsed into a table of regions; the page allocator threads a free list
-- through the pages of the conventional ones; the page tables are built from its pages; the heap
-- maps pages of both behind a fixed virtual address; address spaces keep sorted lists of regions
-- in such pages. The firmware's tables are searched for processors; the screen is drawn in a frame
-- buffer. The keyboard's interrupt handler fills a ring buffer that the shell empties, behind
-- interrupt controllers and descriptor tables that are set up once.
--
--   MemoryMap   src/MemoryManager/uefiMapParser.c: `ParseMemoryMap` is `parse_memory_map`
--   Machine     the state shared by the memory managers: memory as a function from addresses to
--               64-bit words, `g_pmm`, `g_kernel_paging`, CR3 and the flushed addresses
--   Pmm         src/MemoryManager/pmm.c: `pmm_init`, `pmm_alloc_page`, `pmm_free_page`
--   Paging      src/MemoryManager/paging.c: tables, mapping, unmapping, queries, ranges, address
--               spaces and `paging_init`
--   Vmm         src/MemoryManager/vmm.c: the sorted list of regions, allocation, break, stack, page
--               faults, mapping, protection and the life of address spaces
--   Heap        src/MemoryManager/heap.c: `kmalloc`, `kfree`, `kcalloc`, `krealloc`
--   Keyboard    src/Drivers/keyboard.c: modifiers, character tables, ring buffer, handler
--   Console     src/Initialize/baseConsole.c: cursor, control characters, printing of numbers
--   Gdt         src/Tables/gdt.c: segment and task state descriptors
--   Idt         src/Tables/idt.c: gates, handlers and the dispatch of interrupts
--   SystemTables    src/Initialize/systemTables.c: the firmware's ACPI and SMBIOS tables as bytes
--   Ioapic      src/Root/apic.c: the I/O APIC's redirection table
--   Lapic       src/Root/apic.c: the local APIC, the old interrupt controller, the PS/2 controller
--   Timer       src/Drivers/timer.c: calibration, the timer's count, the clock
--   Graphics    src/Initialize/baseGraphic.c: pixels, rectangles, buffers, bitmap files
--   Prelude, Bits    shared names, lists by native index, laws of the bitwise operations
--
-- A `uint64_t` is a native number below 2 ^ 64, and its additions and subtractions wrap. A function
-- that changes memory takes the state last and returns the new state beside its result; NULL is 0.
-- Bounded loops count the rounds that are left. Loops that follow pointers or compare addresses run
-- on fuel: the heap's lists need one step more than there are blocks, those of regions one more than
-- there are regions, `kmalloc` calls itself at most once more after it has added pages, a range of
-- pages needs a step for each page and one to stop, and the walks over the firmware's tables need a
-- step for each entry. Results that depend on fuel say how much is enough.
--
-- The firmware's constants, descriptors and configuration table, and the hardware behind ports, APIC
-- registers and special instructions, are parameters, with the documented behaviour of the I/O APIC's
-- register window as a record of laws. Messages, the dump functions, the statistics of paging and of
-- the heap, inline assembly beyond CR3 and `invlpg`, and the fields that only the firmware reads are
-- left out. Lines, scaled images, text and video modes of the frame buffer and the assembly stubs of
-- interrupts are not modelled.
pub mod Prelude
pub mod Bits
pub mod Machine
pub mod MemoryMap
pub mod Pmm
pub mod Paging
pub mod Heap
pub mod Keyboard
pub mod Gdt
pub mod Ioapic
pub mod Console
pub mod Vmm
pub mod Idt
pub mod SystemTables
pub mod Lapic
pub mod Timer
pub mod Graphics
