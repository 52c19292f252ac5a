-- ===== src/Hash.antt =====
-- src/rculfhash.c: the resizable hash table over split-ordered lists.
pub mod Reverse
pub mod Order
mod Tests
mod Walk
mod Update
pub mod Resize
pub mod Tables
