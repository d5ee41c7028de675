-- ===== src/Lib.antt =====
-- memora is a server that keeps memories in SQLite or Cloudflare D1 stores. This library models
-- the parts that decide what is written, what is admitted and what is answered.
--
-- The parts and their files. WriteGate is memora/write_gate.py: the gate that admits writes to a
-- store, with its freeze, its registry of stores and the alias check; enter, leave, freeze_round,
-- freeze_begin and thaw carry the names of the code, and its lock makes each of them one step.
-- IntentJournal is memora/intent_journal.py: the write-ahead journal of remote writes, by the
-- bytes of its file and the memory of open intents; append_intent, resolve, abandon, compact and
-- open take what each system call answers as an argument. SqlClassify is memora/sql_classify.py:
-- the tokenizer, the classifier and the effect that an intent records; the gate and the journal
-- act on what it answers. Lineage is the supersession graph of memora/storage.py (add_link to
-- apply_follow): chain walks, the prefetched view, latest versions, forks, retirement and the
-- follow modes. SessionGuard is memora/session_guard.py: the window and the ceiling for new
-- sessions. ImportLease is the lease of imports and the sweep of import markers of
-- memora/storage.py. DbRouting is memora/db_routing.py: which database a path names. Hierarchy is
-- memora/hierarchy.py: the trees of memories and tags. ReadLedger is memora/read_ledger.py: the
-- capped file of telemetry. Prelude has what they share: Boolean tests on native numbers, dicts
-- as association lists, texts as lists of code points.
--
-- How they meet in memora/backends.py. RemoteWrites is the D1 connection
-- (D1Connection._execute_api, _send, _D1Transport): it asks the classifier, enters the gate,
-- appends the intent, checks the journal again, sends over the kept connection, and resolves the
-- intent by what came back; other threads act on the journal between these steps
-- (RemoteWrites/Others). LocalWrites is the local writer connection (_GatedCursor,
-- _LockedWriterConnection) and store_write: the classifier tells which statement needs a token of
-- the gate, the token lives as long as the transaction, and a body of helpers is one transaction;
-- LocalWrites/Atomic is the abstract transaction that LocalWrites/Refines compares it with.
-- StoreLock is _StoreRWLock, the readers and the writer of a local file.
--
-- Parameters. SQLite, as LocalWrites/Engine states it: BEGIN IMMEDIATE, COMMIT and ROLLBACK as
-- documented, statements that leave a transaction open, and statements that open none; errors on
-- which SQLite rolls back by itself are left out there. The JSON codec of the journal, with the
-- laws that reading undoes writing and that a record has no newline; Python's tables of Unicode
-- classes and cases; the answers of system calls; what other writers do between two steps of a
-- retirement; which forks may collapse.
--
-- Bounds. Chain walks keep the code's 200 levels, and a longer chain is cut there as it is in the
-- code; the view keeps its 400 levels and 1000 nodes and falls back past them as the code does;
-- healing keeps 8 rounds and a retirement 8 reads. The rounds of skip_with are one more than the
-- tokens, and each round takes a token. The clock of the session guard counts whole ticks, the
-- transport's milliseconds, the lease's whole seconds. A fence has the attempts that the list of
-- its answers has; the code gives it 3. store_write and its bodies need no fuel: they recur on
-- the body.
--
-- Not modelled: what SQL text does, HTTP below one attempt, the way through a proxy, the waits
-- for locks, JSON parsing of crossref blobs, the fsync timer thread, environment settings, and
-- the files that the components of the manifest leave out.
pub mod DbRouting
pub mod Hierarchy
pub mod ImportLease
pub mod IntentJournal
pub mod Lineage
pub mod LocalWrites
pub mod Prelude
pub mod ReadLedger
pub mod RemoteWrites
pub mod SessionGuard
pub mod SqlClassify
pub mod StoreLock
pub mod WriteGate
