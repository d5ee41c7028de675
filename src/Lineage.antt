-- ===== src/Lineage.antt =====
-- The supersession lineage of memora/storage.py: links, chain walks, latest versions, retirement.
pub mod Store
pub mod Walk
pub mod View
pub mod Latest
pub mod Retire
pub mod Follow
pub mod Reachable
pub mod Sets
pub mod Healing
mod Tests
pub mod Versions
pub mod Links
pub mod Retired
pub mod Reaches
pub mod Resolve
pub mod ViewLaws
pub mod Batched
pub mod Levels
pub mod Agree
pub mod Complete
pub mod WalkLaws
