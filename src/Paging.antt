-- ===== src/Paging.antt =====
-- Four-level page tables, src/MemoryManager/paging.c: the definitions by topic, and below them what
-- mapping, unmapping and the queries do to a tree of tables. Console output is left out.
pub mod Entry
pub mod Table
pub mod Map
pub mod Range
pub mod Query
pub mod Space
pub mod Boot
pub mod Bits
pub mod Walk
pub mod Frame
pub mod Fresh
pub mod Steps
pub mod Grow
pub mod Create
pub mod Kept
pub mod Empty
pub mod Small
pub mod Paths
pub mod Tabled
pub mod Written
pub mod Mapped
pub mod Unmapped
mod Tests
