-- ===== src/IntentJournal.antt =====
-- memora/intent_journal.py: the write-ahead journal of mutating D1 requests. The journal file is a
-- list of bytes; what each system call answers is an argument of the operation that makes it.
pub mod Record
pub mod Lines
pub mod Ops
pub mod Replay
pub mod Covers
pub mod Memories
pub mod Compaction
pub mod Opening
pub mod Frames
pub mod Unsynced
pub mod Safety
pub mod Sample
mod Tests
