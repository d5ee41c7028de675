-- ===== src/LocalWrites/Tests.antt =====
-- Transactions of memora/backends.py on a small engine, and the theorems applied to them.
use memora.Prelude.{
  ℕ, ◌+◌, String, Bool, true, false, not, none, [], ◌≡◌, refl, if◌then◌else◌, text_beq, Bool-cases,
  inl, inr,
}
use memora.Prelude.Text.{Text, codes}
use memora.WriteGate.{new_gate}
use memora.SqlClassify.Sample.{ascii}
use memora.SqlClassify.Tokens.{lex, tokens_from, tokenize, take_while}
use memora.SqlClassify.Statements.{split_token, split_tokens, split_statements, note_body, drop}
use memora.SqlClassify.Classify.{
  classify_statement, classify_main, classify_one, classify_other, classify_statements,
  classify_tokens, target_after,
}
use memora.LocalWrites.Engine.{Engine, IsTransactional, begin_immediate}
use memora.LocalWrites.Connection.{Connection, passes_freely, execute, idle}
use memora.LocalWrites.StoreWrite.{
  run, rolls_back, after_commit, nested, Body, done, and_then, Thread, store_write,
}
use memora.LocalWrites.Atomic.{draft_body}
use memora.LocalWrites.Promises.{Promise, draft_of, IsOut}
use memora.LocalWrites.Refines.{store_write-Promise}

-- A file with a number, which every statement but BEGIN and `fail` increments.
record File : Type 0 where
  shown : ℕ
  seen : ℕ
  busy : Bool

abbrev is_begin : Text → Bool
is_begin sql = text_beq sql begin_immediate

abbrev fails : Text → Bool
fails sql = text_beq sql (codes "fail")

abbrev increment : File → File
increment f =
    if f.busy
    then record f { seen = f.seen + 1 }
    else record f { shown = f.seen + 1; seen = f.seen + 1 }

abbrev execute_file : Text → File → Bool × File
execute_file sql f =
    if is_begin sql
    then (not f.busy, record f { busy = true })
    else if fails sql
    then (false, f)
    else (true, increment f)

abbrev commit_file : File → Bool × File
commit_file f = (true, record { shown = f.seen; seen = f.seen; busy = false })

abbrev rollback_file : File → Bool × File
rollback_file f = (true, record { shown = f.shown; seen = f.shown; busy = false })

abbrev counter : Engine
counter = record {
  S = File;
  C = ℕ;
  committed = λ f. f.shown;
  pending = λ f. f.seen;
  in_transaction = λ f. f.busy;
  execute = execute_file;
  commit = commit_file;
  rollback = rollback_file;
  exit = λ failed f. if failed then rollback_file f else commit_file f;
  meaning = λ sql n. if fails sql then (false, n) else (true, n + 1);
  ordinary = λ sql. not (is_begin sql);
}

begins : (f : File) → f.busy ≡ false → (execute_file begin_immediate f).1.busy ≡ true
unfolding text_beq
begins f h = refl

counter-IsTransactional : IsTransactional counter
unfolding text_beq
counter-IsTransactional = record {
  begins = λ f idle ok. (refl, refl);
  begin_commits_nothing = λ f. refl;
  runs = λ sql f busy plain. elim (Bool-cases (is_begin sql)) [
    | inl b ↦ cc
    | inr b ↦ elim (Bool-cases (fails sql)) [
      | inl bad ↦ simp (b, bad) (refl, refl, refl, busy)
      | inr good ↦ simp (b, good, busy) (refl, refl, refl, refl)
    ]
  ];
  commits = λ f ok. (refl, refl, refl);
  commit_fails = λ f bad. cc bad;
  rollback_commits_nothing = λ f. refl;
}

begin_gated : passes_freely ascii begin_immediate ≡ false
unfolding passes_freely classify_statement lex tokens_from tokenize take_while split_token
    split_tokens split_statements note_body drop classify_main classify_one classify_other
    classify_statements classify_tokens target_after text_beq
begin_gated = refl

abbrev spell : Text → String
spell t = "statement"

abbrev writer : Connection counter ascii spell
writer = record {
  engine = record { shown = 7; seen = 8; busy = true };
  gate = new_gate none none;
  token = none;
  replicator = false;
  closed = false;
  open_writers = 1;
  depth = 0;
  poisoned = false;
  notified = 0;
}

abbrev thread : Thread counter ascii spell
thread = record { conn = writer; locked = false; after = none; ran = [] }

-- A statement, a nested block with a caught rollback, and a callback.
abbrev block : Body
block =
    and_then (run (codes "one")) false (
      and_then (nested (and_then rolls_back true done)) false
        (and_then (after_commit 3) false done))

store_write-Promise_example :
    Promise counter ascii spell thread
      (draft_body counter block (draft_of counter ascii spell 8))
      (store_write counter ascii spell block thread)
    × IsOut counter ascii spell (store_write counter ascii spell block thread).1
unfolding text_beq
store_write-Promise_example =
    store_write-Promise counter ascii spell counter-IsTransactional begin_gated block thread
      (refl, ((tt, tt), (tt, tt))) refl

abbrev idle_writer : Connection counter ascii spell
idle_writer = record writer { engine = record { shown = 7; seen = 7; busy = false } }

-- It runs a statement, another thread freezes the gate.
abbrev after_statement : Connection counter ascii spell
after_statement = (execute counter ascii spell (codes "select 1") idle_writer).1

abbrev frozen_writer : Connection counter ascii spell
frozen_writer = record after_statement { gate = record (after_statement.gate) { frozen = true } }
