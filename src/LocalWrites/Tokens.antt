-- ===== src/LocalWrites/Tokens.antt =====
-- The gate token of a writer connection of memora/backends.py, over whatever is done to it.
use memora.Prelude.{ℕ, String, ◌≡◌, Bool, true, false, some}
use memora.Prelude.Text.{Text}
use memora.WriteGate.{WriteGate}
use memora.SqlClassify.Tokens.{CharTables}
use memora.LocalWrites.Engine.{Engine}
use memora.LocalWrites.Connection.{
  Connection, execute, commit, commit_now, rollback, rollback_now, exit, close_locked,
}
use memora.LocalWrites.Covered.{flies, Covered}

module _ (e : Engine) (u : CharTables) (spell : Text → String) where
  -- What is done to a connection that is not the replicator's, by its owner or elsewhere: other threads enter and leave the gate, and
  -- do not give back this connection's token.
  pub data Step : Connection e u spell → Connection e u spell → Type 0 where
    executing :
        (sql : Text) (c : Connection e u spell)
        → c.replicator ≡ false
        → Step c (execute e u spell sql c).1
    committing : (c : Connection e u spell) → Step c (commit e u spell c).1
    committing_now : (c : Connection e u spell) → Step c (commit_now e u spell c).1
    rolling_back : (c : Connection e u spell) → Step c (rollback e u spell c).1
    rolling_back_now : (c : Connection e u spell) → Step c (rollback_now e u spell c).1
    exiting : (failed : Bool) (c : Connection e u spell) → Step c (exit e u spell failed c).1
    closing :
        (closes : Bool) (c : Connection e u spell) → Step c (close_locked e u spell closes c).1
    bookkeeping :
        (depth : ℕ) (poisoned : Bool) (c : Connection e u spell)
        → Step c (record c { depth = depth; poisoned = poisoned })
    elsewhere :
        (g : WriteGate) (c : Connection e u spell)
        → ((i : ℕ) → c.token ≡ some i → flies i c.gate ≡ true → flies i g ≡ true)
        → Step c (record c { gate = g })

  pub data Run (s : Connection e u spell) : Connection e u spell → Type 0 where
    start : Run s s
    then_step : {c d : Connection e u spell} → Run s c → Step c d → Run s d
