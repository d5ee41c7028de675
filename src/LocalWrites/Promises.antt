-- ===== src/LocalWrites/Promises.antt =====
-- What store_write of memora/backends.py promises.
use memora.Prelude.{ℕ, String, ◌≡◌, refl, ◌⊎◌, Bool, true, false, some, none, List, [], ◌++◌}
use memora.Prelude.Text.{Text}
use memora.SqlClassify.Tokens.{CharTables}
use memora.LocalWrites.Engine.{Engine, begin_immediate}
use memora.LocalWrites.Connection.{Connection, execute}
use memora.LocalWrites.StoreWrite.{
  Body, Thread, run_body, Ended, committed, body_raised, aborted, commit_raised, not_begun, finish,
  call_back, conclude_body, registered, begun, settled,
}
use memora.LocalWrites.Atomic.{Draft}

module _ (e : Engine) (u : CharTables) (spell : Text → String) where
  -- What store_write promises of a block whose body means `q` from the contents that the caller saw.
  -- A block that is not committed leaves the file as it was, or as the caller had left it: writes
  -- before the block are committed first.
  abbrev pub Undone : Thread e u spell → Thread e u spell → Type 0
  Undone t t' =
      ((e.committed t'.conn.engine ≡ e.committed t.conn.engine)
        ⊎ (e.committed t'.conn.engine ≡ e.pending t.conn.engine))
      × (t'.ran ≡ t.ran)

  abbrev pub Promise : Thread e u spell → Bool × Draft e → Ended × Thread e u spell → Type 0
  Promise t q (committed, t') =
      (q.0 ≡ true)
      × (q.1.rolled_back ≡ false)
      × (e.committed t'.conn.engine ≡ q.1.contents)
      × (t'.ran ≡ t.ran ++ q.1.callbacks)
  Promise t q (body_raised, t') = (q.0 ≡ false) × Undone t t'
  Promise t q (aborted, t') = (q.0 ≡ true) × (q.1.rolled_back ≡ true) × Undone t t'
  Promise t q (commit_raised, t') = (q.0 ≡ true) × (q.1.rolled_back ≡ false) × Undone t t'
  Promise t q (not_begun, t') = Undone t t'

  -- The draft of a body starts from what the caller sees.
  abbrev pub draft_of : e.C → Draft e
  draft_of c = record { contents = c; rolled_back = false; callbacks = [] }

  -- The thread is out of the block: it has given back the store's lock, and the connection and the
  -- thread are in no block any more.
  pub record IsOut (t : Thread e u spell) : Type 0 where
    pub unlocked : t.locked ≡ false
    pub outside : t.after ≡ none
    pub ground_level : t.conn.depth ≡ 0

  finish-IsOut :
      (ns : List ℕ) (r : Ended × Thread e u spell)
      → IsOut (call_back e u spell ns (finish e u spell r)).1
  finish-IsOut ns (committed, t) = record { unlocked = refl; outside = refl; ground_level = refl }
  finish-IsOut ns (body_raised, t) = record { unlocked = refl; outside = refl; ground_level = refl }
  finish-IsOut ns (aborted, t) = record { unlocked = refl; outside = refl; ground_level = refl }
  finish-IsOut ns (commit_raised, t) = record {
    unlocked = refl;
    outside = refl;
    ground_level = refl;
  }
  finish-IsOut ns (not_begun, t) = record { unlocked = refl; outside = refl; ground_level = refl }

  pub begun-IsOut :
      (b : Body) (r : Bool × Connection e u spell) (t : Thread e u spell)
      → IsOut (begun e u spell b r t).1
  begun-IsOut b (false, c) t = record { unlocked = refl; outside = refl; ground_level = refl }
  begun-IsOut b (true, c) t =
      let t' = record t { conn = record c { poisoned = false; depth = 1 }; after = some [] } in
      let r = run_body e u spell b t' in
      finish-IsOut (registered e u spell r.1.after) (conclude_body e u spell r)

  pub settled-IsOut :
      (b : Body) (r : Bool × Connection e u spell) (t : Thread e u spell)
      → IsOut (settled e u spell b r t).1
  settled-IsOut b (false, c) t = record { unlocked = refl; outside = refl; ground_level = refl }
  settled-IsOut b (true, c) t = begun-IsOut b (execute e u spell begin_immediate c) t
