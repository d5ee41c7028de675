-- ===== src/LocalWrites/Connection.antt =====
-- `_GatedCursor` and `_LockedWriterConnection` of memora/backends.py.
use memora.Prelude.{
  ℕ, ◌+◌, ◌-◌, String, Bool, true, false, not, ◌&&◌, ◌||◌, Option, none, some, [], ◌∷◌,
  if◌then◌else◌, ltb,
}
use memora.Prelude.Text.{Text, codes}
use memora.WriteGate.{WriteGate, Entered, admitted, refused, enter, leave}
use memora.SqlClassify.Tokens.{CharTables}
use memora.SqlClassify.Classify.{
  StatementKind, read, mutation, ddl, txn, unknown, classify_statement, is_read,
}
use memora.LocalWrites.Engine.{Engine}

abbrev pub is_txn : StatementKind → Bool
is_txn txn = true
is_txn k = false

-- The statement runs without a token: a read, or the end of a transaction.
unfoldable pub passes_freely : CharTables → Text → Bool
passes_freely u sql =
    let c = classify_statement u sql in is_read c.kind || is_txn c.kind && c.txn_end

-- `c.main or c.kind`
abbrev pub kind_name : StatementKind → Text
kind_name read = codes "read"
kind_name mutation = codes "mutation"
kind_name ddl = codes "ddl"
kind_name txn = codes "txn"
kind_name unknown = codes "unknown"

abbrev pub or_kind : Text → StatementKind → Text
or_kind [] k = kind_name k
or_kind (c ∷ t) k = c ∷ t

abbrev pub holds : Option ℕ → Bool
holds none = false
holds (some t) = true

module _ (e : Engine) (u : CharTables) (spell : Text → String) where
  -- A writer connection whose gate is armed; `token` is the identity of `_memora_token`, `replicator`
  -- marks a `_ReplicatorConnection`, `notified` counts the commits told to `_notify_commit`.
  pub record Connection : Type 0 where
    pub engine : e.S
    pub gate : WriteGate
    pub token : Option ℕ
    pub replicator : Bool
    pub closed : Bool
    pub open_writers : ℕ
    pub depth : ℕ
    pub poisoned : Bool
    pub notified : ℕ

  abbrev pub admit_statement : Connection → Entered → Bool × Connection
  admit_statement c (refused why) = (false, c)
  admit_statement c (admitted t g) = (true, record c { gate = g; token = some t.id })

  -- `_memora_gate_before`; `false` is the refusal of the gate.
  unfoldable pub gate_before : Text → Connection → Bool × Connection
  gate_before sql c =
      if c.replicator || holds c.token || passes_freely u sql
      then (true, c)
      else (let k = classify_statement u sql in
          admit_statement c (enter (spell (or_kind k.main k.kind)) false "memora.backends" c.gate))

  -- `in_transaction` of a closed connection raises, which counts as idle.
  abbrev pub idle : Connection → Bool
  idle c = c.closed || not (e.in_transaction c.engine)

  abbrev pub give_back : Option ℕ → Connection → Connection
  give_back none c = c
  give_back (some t) c = record c { token = none; gate = leave t c.gate }

  -- `_memora_gate_after`
  unfoldable pub gate_after : Connection → Connection
  gate_after c = if idle c then give_back c.token c else c

  abbrev pub on_engine : Bool × e.S → Connection → Bool × Connection
  on_engine (ok, s) c = (ok, gate_after (record c { engine = s }))

  abbrev pub statement : Text → Bool × Connection → Bool × Connection
  statement sql (true, c) = on_engine (e.execute sql c.engine) c
  statement sql (false, c) = (false, c)

  -- `execute`, and alike `executemany` and `executescript`, of a cursor.
  unfoldable pub execute : Text → Connection → Bool × Connection
  execute sql c = statement sql (gate_before sql c)

  abbrev pub tell : Bool × Connection → Bool × Connection
  tell (true, c) = (true, record c { notified = c.notified + 1 })
  tell (false, c) = (false, c)

  -- `_memora_commit_now`
  unfoldable pub commit_now : Connection → Bool × Connection
  commit_now c = tell (on_engine (e.commit c.engine) c)

  unfoldable pub commit : Connection → Bool × Connection
  commit c = if ltb 0 c.depth then (true, c) else commit_now c

  -- `_memora_rollback_now`
  unfoldable pub rollback_now : Connection → Bool × Connection
  rollback_now c = on_engine (e.rollback c.engine) c

  unfoldable pub rollback : Connection → Bool × Connection
  rollback c = if ltb 0 c.depth then (false, record c { poisoned = true }) else rollback_now c

  -- `__exit__`; `failed` says that the block raised.
  unfoldable pub exit : Bool → Connection → Bool × Connection
  exit failed c =
      if ltb 0 c.depth
      then (true, c)
      else (let after = on_engine (e.exit failed c.engine) c in
          if failed then after else tell after)

  abbrev pub shut_down : Bool → Bool → Connection → Bool × Connection
  shut_down true closes c = (true, c)
  shut_down false false c = (false, c)
  shut_down false true c =
      (true, give_back c.token (record c { closed = true; open_writers = c.open_writers - 1 }))

  -- `_memora_close_locked`; `closes` says whether SQLite closes the connection.
  unfoldable pub close_locked : Bool → Connection → Bool × Connection
  close_locked closes c = shut_down c.closed closes c
