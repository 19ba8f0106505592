-- ===== src/Vmm.antt =====
-- Virtual address spaces, src/MemoryManager/vmm.c and include/MemoryManager/vmm.h: their regions, their
-- pages and their page tables. The structures lie in pages of the allocator, field by field.
pub mod Structs
pub mod Regions
pub mod Phys
pub mod Pages
pub mod Heap
pub mod Mmap
pub mod Spaces
pub mod Cells
pub mod Align
pub mod Search
pub mod Fit
pub mod Stats
pub mod Refuse
pub mod Stack
pub mod Break
pub mod Grown
pub mod Access
pub mod Link
pub mod Insert
pub mod Place
pub mod Fill
pub mod Sorted
pub mod Create
pub mod Walked
mod Tests
