-- ===== src/Bits.antt =====
-- Bits of machine words: `&` and `|` bit by bit, masks as arithmetic.
mod Step
mod Masks
pub use Step.*
pub use Masks.*
