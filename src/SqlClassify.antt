-- ===== src/SqlClassify.antt =====
-- The statement classifier of memora/sql_classify.py: tokens, statements, kinds, and the effect that an
-- intent records.
pub mod Tokens
pub mod Statements
pub mod Classify
pub mod Effect
pub mod Updates
pub mod Comments
pub mod Sample
mod Tests
pub mod Rounds
