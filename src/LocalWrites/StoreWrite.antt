-- ===== src/LocalWrites/StoreWrite.antt =====
-- `store_write` and `after_store_write` of memora/backends.py.
use memora.Prelude.{
  ℕ, ◌+◌, ◌-◌, String, Bool, true, false, Option, none, some, List, [], ◌∷◌, ◌++◌, if◌then◌else◌,
}
use memora.Prelude.Text.{Text}
use memora.SqlClassify.Tokens.{CharTables}
use memora.LocalWrites.Engine.{Engine, begin_immediate}
use memora.LocalWrites.Connection.{
  Connection, execute, commit, commit_now, rollback, rollback_now, exit,
}

-- What a caller does inside a `with store_write(conn)` block. `and_then action caught rest` goes on
-- with `rest` when the action returns, or when it raises and the caller catches that.
mutual
  pub data Action : Type 0 where
    run : Text → Action
    commits rolls_back : Action
    leaves_with : Bool → Action
    after_commit : ℕ → Action
    raises : Action
    nested : Body → Action

  pub data Body : Type 0 where
    done : Body
    and_then : Action → Bool → Body → Body

-- The rest of a block after an action, which returned, or raised what the caller may catch.
abbrev pub proceed : {T : Type 0} → Bool → (T → Bool × T) → Bool × T → Bool × T
proceed caught rest (true, t) = rest t
proceed caught rest (false, t) = if caught then rest t else (false, t)

-- How a block ends: it is committed, or raises what the body or the commit raised, or raises
-- StoreWriteAborted, or was not begun.
pub data Ended : Type 0 where
  committed : Ended
  body_raised : Ended
  aborted : Ended
  commit_raised : Ended
  not_begun : Ended

-- The thread: its connection, whether it holds the store's write lock, the callbacks that are
-- registered in the block it is in, and those that ran.
module _ (e : Engine) (u : CharTables) (spell : Text → String) where
  pub record Thread : Type 0 where
    pub conn : Connection e u spell
    pub locked : Bool
    pub after : Option (List ℕ)
    pub ran : List ℕ

  abbrev pub on_conn : Bool × Connection e u spell → Thread → Bool × Thread
  on_conn (ok, c) t = (ok, record t { conn = c })

  -- `after_store_write`
  abbrev pub register : ℕ → Option (List ℕ) → Option (List ℕ)
  register n none = none
  register n (some ns) = some (ns ++ n ∷ [])

  abbrev pub is_inside : Option (List ℕ) → Bool
  is_inside none = false
  is_inside (some ns) = true

  unfoldable pub after_store_write : ℕ → Thread → Bool × Thread
  after_store_write n t = (is_inside t.after, record t { after = register n t.after })

  abbrev pub set_depth : ℕ → Thread → Thread
  set_depth n t = record t { conn = record (t.conn) { depth = n } }

  -- `finally: conn._memora_store_write_depth -= 1`
  abbrev pub rise : Bool × Thread → Bool × Thread
  rise (ok, t) = (ok, set_depth (t.conn.depth - 1) t)

  unfoldable mutual
    pub run_action : Action → Thread → Bool × Thread
    run_action (run sql) t = on_conn (execute e u spell sql t.conn) t
    run_action commits t = on_conn (commit e u spell t.conn) t
    run_action rolls_back t = on_conn (rollback e u spell t.conn) t
    run_action (leaves_with failed) t = on_conn (exit e u spell failed t.conn) t
    run_action (after_commit n) t = after_store_write n t
    run_action raises t = (false, t)
    run_action (nested b) t = rise (run_body b (set_depth (t.conn.depth + 1) t))

    pub run_body : Body → Thread → Bool × Thread
    run_body done t = (true, t)
    run_body (and_then a caught rest) t = proceed caught (run_body rest) (run_action a t)

  -- The outer `finally`: the depth, the callbacks' stack and the lock.
  abbrev pub finish : Ended × Thread → Ended × Thread
  finish (o, t) = (o, record (set_depth 0 t) { after = none; locked = false })

  -- The callbacks run after the commit, outside the lock.
  abbrev pub call_back : List ℕ → Ended × Thread → Ended × Thread
  call_back ns (committed, t) = (committed, record t { ran = t.ran ++ ns })
  call_back ns (o, t) = (o, t)

  -- What follows the last commit: a failure rolls back.
  abbrev pub concluded : Bool × Connection e u spell → Thread → Ended × Thread
  concluded (true, c) t = (committed, record t { conn = c })
  concluded (false, c) t = (commit_raised, record t { conn = (rollback_now e u spell c).1 })

  -- A poisoned transaction is rolled back, any other is committed.
  abbrev pub verdict : Bool → Thread → Ended × Thread
  verdict true t = (
    aborted,
    record t { conn = (rollback_now e u spell (record (t.conn) { poisoned = false })).1 },
  )
  verdict false t = concluded (commit_now e u spell t.conn) t

  -- What follows the body.
  unfoldable pub conclude_body : Bool × Thread → Ended × Thread
  conclude_body (false, t) =
      let t' = set_depth 0 t in
      (body_raised, record t' { conn = (rollback_now e u spell t'.conn).1 })
  conclude_body (true, t) = verdict t.conn.poisoned (set_depth 0 t)

  abbrev pub registered : Option (List ℕ) → List ℕ
  registered none = []
  registered (some ns) = ns

  abbrev pub begun : Body → Bool × Connection e u spell → Thread → Ended × Thread
  begun b (false, c) t = finish (not_begun, record t { conn = c })
  begun b (true, c) t =
      let t' = record t { conn = record c { poisoned = false; depth = 1 }; after = some [] } in
      let after_body = run_body b t' in
      call_back (registered after_body.1.after) (finish (conclude_body after_body))

  abbrev pub settled : Body → Bool × Connection e u spell → Thread → Ended × Thread
  settled b (false, c) t = finish (not_begun, record t { conn = c })
  settled b (true, c) t = begun b (execute e u spell begin_immediate c) t

  -- `store_write` around a body, on a thread that is in no other block; the lock is got.
  unfoldable pub store_write : Body → Thread → Ended × Thread
  unfolding conclude_body
  store_write b t =
      let locked = record t { locked = true } in
      settled b
        (if e.in_transaction t.conn.engine then commit_now e u spell t.conn else (true, t.conn))
        locked
