-- ===== src/RemoteWrites.antt =====
-- The D1 connection of memora/backends.py: a statement is classified, admitted by the write gate,
-- journaled and sent over one kept HTTP connection. Replies and failures are arguments.
pub mod Transport
pub mod Connection
pub mod Sends
pub mod Refusals
pub mod Others
pub mod Unknown
pub mod Balance
mod Tests
