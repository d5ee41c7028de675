-- ===== src/LocalWrites.antt =====
-- The local writer connection of memora/backends.py and its one transaction: statements take the
-- write gate, and store_write makes one transaction of whatever its body does.
pub mod Engine
pub mod Connection
pub mod StoreWrite
pub mod Atomic
pub mod Bodies
pub mod Begins
pub mod Promises
pub mod Refines
pub mod Covered
pub mod Tokens
mod Tests
