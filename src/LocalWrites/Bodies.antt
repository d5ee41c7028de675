-- ===== src/LocalWrites/Bodies.antt =====
-- The body of a store_write of memora/backends.py against the draft of a transaction.
use memora.Prelude.{
  ℕ, ◌+◌, ◌<◌, String, ◌≡◌, refl, ap, ◌∙◌, Bool, true, false, ◌||◌, some, List, arith, ltb,
}
use memora.Prelude.Text.{Text}
use memora.SqlClassify.Tokens.{CharTables}
use memora.LocalWrites.Engine.{Engine, IsTransactional}
use memora.LocalWrites.Connection.{
  Connection, execute, gate_before, gate_after, holds, commit, rollback, exit,
}
use memora.LocalWrites.StoreWrite.{
  Action, run, commits, rolls_back, leaves_with, after_commit, raises, nested, Body, done, and_then,
  proceed, Thread, run_action, run_body, set_depth, after_store_write, rise,
}
use memora.LocalWrites.Atomic.{Draft, draft_action, draft_body}

module _ (e : Engine) where
  -- Every statement of the body leaves the transaction open.
  abbrev mutual
    pub IsOrdinary : Action → Type 0
    IsOrdinary (run sql) = e.ordinary sql ≡ true
    IsOrdinary (nested b) = IsOrdinaryBody b
    IsOrdinary a = Unit

    pub IsOrdinaryBody : Body → Type 0
    IsOrdinaryBody done = Unit
    IsOrdinaryBody (and_then a caught rest) = IsOrdinary a × IsOrdinaryBody rest

ltb_positive : {m n : ℕ} → m ≡ n → 0 < n → ltb 0 m ≡ true
ltb_positive h p = ground arith

module _ (e : Engine) (u : CharTables) (spell : Text → String) where
  -- Inside the block at depth `n`: the transaction is open, what the connection sees is the draft, and
  -- the file and the callbacks that ran are what they were, `base`.
  pub record Follows (base : e.C × List ℕ) (n : ℕ) (t : Thread e u spell) (d : Draft e)
      : Type 0 where
    pub depth : t.conn.depth ≡ n
    pub inside : 0 < n
    pub opened : e.in_transaction t.conn.engine ≡ true
    pub alive : t.conn.closed ≡ false
    pub held : (t.conn.replicator || holds t.conn.token) ≡ true
    pub contents : e.pending t.conn.engine ≡ d.contents
    pub visible : e.committed t.conn.engine ≡ base.0
    pub quiet : t.ran ≡ base.1
    pub poisoned : t.conn.poisoned ≡ d.rolled_back
    pub callbacks : t.after ≡ some d.callbacks

  pub record Agree (base : e.C × List ℕ) (n : ℕ) (r : Bool × Thread e u spell) (q : Bool × Draft e)
      : Type 0 where
    pub same : r.0 ≡ q.0
    pub follows : Follows base n r.1 q.1

  proceed-Agree :
      (base : e.C × List ℕ) (n : ℕ) (caught : Bool) (k : Thread e u spell → Bool × Thread e u spell)
      (k' : Draft e → Bool × Draft e) (r : Bool × Thread e u spell) (q : Bool × Draft e)
      → ((t : Thread e u spell) (d : Draft e) → Follows base n t d → Agree base n (k t) (k' d))
      → Agree base n r q
      → Agree base n (proceed caught k r) (proceed caught k' q)
  proceed-Agree base n caught k k' (true, t) (true, d) step a = step t d a.follows
  proceed-Agree base n true k k' (false, t) (false, d) step a = step t d a.follows
  proceed-Agree base n false k k' (false, t) (false, d) step a = a
  proceed-Agree base n caught k k' (true, t) (false, d) step a = cc (a.same)
  proceed-Agree base n caught k k' (false, t) (true, d) step a = cc (a.same)

  -- A connection that holds the token, or needs none, is not stopped by the gate.
  gate_before-held :
      (sql : Text) (c : Connection e u spell)
      → (c.replicator || holds c.token) ≡ true
      → gate_before e u spell sql c ≡ (true, c)
  unfolding gate_before
  gate_before-held sql c h = ground arith

  -- While the transaction is open the token is kept.
  pub gate_after-open :
      (c : Connection e u spell)
      → c.closed ≡ false
      → e.in_transaction c.engine ≡ true
      → gate_after e u spell c ≡ c
  unfolding gate_after
  gate_after-open c alive opened = ground arith

  module _ (law : IsTransactional e) where
    run-Agree :
        (base : e.C × List ℕ) (n : ℕ) (sql : Text) (t : Thread e u spell) (d : Draft e)
        → e.ordinary sql ≡ true
        → Follows base n t d
        → Agree base n (run_action e u spell (run sql) t) (draft_action e (run sql) d)
    unfolding run_action draft_action execute
    run-Agree base n sql t d plain f =
        let ran = law.runs sql t.conn.engine f.opened plain in
        let ends : Connection e u spell = record (t.conn) {
          engine = (e.execute sql t.conn.engine).1;
        } in
        simp (gate_before-held sql t.conn f.held, gate_after-open ends f.alive ran.3)
          (record {
            same = ran.0 ∙ ap (λ x. (e.meaning sql x).0) f.contents;
            follows = record {
              depth = f.depth;
              inside = f.inside;
              opened = ran.3;
              alive = f.alive;
              held = f.held;
              contents = ran.1 ∙ ap (λ x. (e.meaning sql x).1) f.contents;
              visible = ran.2 ∙ f.visible;
              quiet = f.quiet;
              poisoned = f.poisoned;
              callbacks = f.callbacks;
            };
          })

    deeper :
        (base : e.C × List ℕ) (n : ℕ) (t : Thread e u spell) (d : Draft e)
        → Follows base n t d
        → Follows base (n + 1) (set_depth e u spell (t.conn.depth + 1) t) d
    deeper base n t d f = record {
      depth = let h = f.depth in omega arith;
      inside = omega arith;
      opened = f.opened;
      alive = f.alive;
      held = f.held;
      contents = f.contents;
      visible = f.visible;
      quiet = f.quiet;
      poisoned = f.poisoned;
      callbacks = f.callbacks;
    }

    shallower :
        (base : e.C × List ℕ) (n : ℕ) (r : Bool × Thread e u spell) (q : Bool × Draft e)
        → 0 < n
        → Agree base (n + 1) r q
        → Agree base n (rise e u spell r) q
    shallower base n (ok, t) (ok', d) pos a =
        let f = a.follows in
        record {
          same = a.same;
          follows = record {
            depth = let h = f.depth in omega arith;
            inside = pos;
            opened = f.opened;
            alive = f.alive;
            held = f.held;
            contents = f.contents;
            visible = f.visible;
            quiet = f.quiet;
            poisoned = f.poisoned;
            callbacks = f.callbacks;
          };
        }

    -- The actions that leave the database alone.
    commits-Agree :
        (base : e.C × List ℕ) (n : ℕ) (t : Thread e u spell) (d : Draft e)
        → Follows base n t d
        → Agree base n (run_action e u spell commits t) (draft_action e commits d)
    unfolding run_action draft_action commit
    commits-Agree base n t d f =
        simp (ltb_positive f.depth f.inside) (record { same = refl; follows = f })

    rolls_back-Agree :
        (base : e.C × List ℕ) (n : ℕ) (t : Thread e u spell) (d : Draft e)
        → Follows base n t d
        → Agree base n (run_action e u spell rolls_back t) (draft_action e rolls_back d)
    unfolding run_action draft_action rollback
    rolls_back-Agree base n t d f = simp (ltb_positive f.depth f.inside) (record {
      same = refl;
      follows = record {
        depth = f.depth;
        inside = f.inside;
        opened = f.opened;
        alive = f.alive;
        held = f.held;
        contents = f.contents;
        visible = f.visible;
        quiet = f.quiet;
        poisoned = refl;
        callbacks = f.callbacks;
      };
    })

    leaves_with-Agree :
        (base : e.C × List ℕ) (n : ℕ) (failed : Bool) (t : Thread e u spell) (d : Draft e)
        → Follows base n t d
        → Agree base n
            (run_action e u spell (leaves_with failed) t)
            (draft_action e (leaves_with failed) d)
    unfolding run_action draft_action exit
    leaves_with-Agree base n failed t d f =
        simp (ltb_positive f.depth f.inside) (record { same = refl; follows = f })

    after_commit-Agree :
        (base : e.C × List ℕ) (n k : ℕ) (t : Thread e u spell) (d : Draft e)
        → Follows base n t d
        → Agree base n (run_action e u spell (after_commit k) t) (draft_action e (after_commit k) d)
    unfolding run_action draft_action after_store_write
    after_commit-Agree base n k t d f = simp (f.callbacks) (record {
      same = refl;
      follows = record {
        depth = f.depth;
        inside = f.inside;
        opened = f.opened;
        alive = f.alive;
        held = f.held;
        contents = f.contents;
        visible = f.visible;
        quiet = f.quiet;
        poisoned = f.poisoned;
        callbacks = refl;
      };
    })

    -- A body inside the block does to the transaction what it means to the draft, returns and raises
    -- alike, and shows nothing outside.
    mutual
      unfolding run_action draft_action run_body draft_body

      run_action-Agree :
          (base : e.C × List ℕ) (n : ℕ) (a : Action) (t : Thread e u spell) (d : Draft e)
          → IsOrdinary e a
          → Follows base n t d
          → Agree base n (run_action e u spell a t) (draft_action e a d)
      run_action-Agree base n (run sql) t d o f = run-Agree base n sql t d o f
      run_action-Agree base n commits t d o f = commits-Agree base n t d f
      run_action-Agree base n rolls_back t d o f = rolls_back-Agree base n t d f
      run_action-Agree base n (leaves_with failed) t d o f = leaves_with-Agree base n failed t d f
      run_action-Agree base n (after_commit k) t d o f = after_commit-Agree base n k t d f
      run_action-Agree base n raises t d o f = record { same = refl; follows = f }
      run_action-Agree base n (nested b) t d o f = shallower base n _ _ f.inside (
          run_body-Agree base (n + 1) b (set_depth e u spell (t.conn.depth + 1) t) d o
            (deeper base n t d f))

      pub run_body-Agree :
          (base : e.C × List ℕ) (n : ℕ) (b : Body) (t : Thread e u spell) (d : Draft e)
          → IsOrdinaryBody e b
          → Follows base n t d
          → Agree base n (run_body e u spell b t) (draft_body e b d)
      run_body-Agree base n done t d o f = record { same = refl; follows = f }
      run_body-Agree base n (and_then a caught rest) t d o f =
          proceed-Agree base n caught (run_body e u spell rest) (draft_body e rest) _ _
            (λ t' d' f'. run_body-Agree base n rest t' d' o.1 f')
            (run_action-Agree base n a t d o.0 f)
