-- ===== src/Radix.antt =====
-- src/kv_aware_router/radix.py: the prefix tree.
pub mod Node
pub mod Match
pub mod Insert
pub mod Touch
pub mod Evict
pub mod Tree
pub mod Unit
pub mod Over
pub mod Held
pub mod Queries
pub mod Answers
pub mod Invariant
pub mod InsertHeld
pub mod InsertKeeps
pub mod InsertLoad
pub mod EvictScan
pub mod EvictDrop
pub mod TouchHeld
pub mod Upkeep
pub mod Capacity
pub mod Evictions
pub mod Effects
pub mod EvictLru
pub mod Sessions
pub mod Refinement
