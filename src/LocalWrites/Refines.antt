-- ===== src/LocalWrites/Refines.antt =====
-- store_write of memora/backends.py against the all-or-nothing transaction.
use memora.Prelude.{
  ℕ, String, ◌≡◌, refl, sym, ap, ◌∙◌, ◌⊎◌, inl, inr, Bool, true, false, some, List, [], ◌++◌, arith,
  Bool-cases,
}
use memora.Prelude.Text.{Text}
use memora.SqlClassify.Tokens.{CharTables}
use memora.LocalWrites.Engine.{Engine, IsTransactional, begin_immediate}
use memora.LocalWrites.Connection.{Connection, execute, idle, commit_now, passes_freely}
use memora.LocalWrites.StoreWrite.{
  Body, Thread, run_body, set_depth, Ended, committed, body_raised, aborted, commit_raised,
  not_begun, finish, call_back, concluded, conclude_body, verdict, registered, begun, settled,
  store_write,
}
use memora.LocalWrites.Atomic.{Draft, draft_body}
use memora.LocalWrites.Bodies.{IsOrdinaryBody, Agree, run_body-Agree}
use memora.LocalWrites.Begins.{
  Begins, Begun, rollback_now-committed, commit_now_lem, commit_now-closed, execute-Begins,
}
use memora.LocalWrites.Promises.{Promise, draft_of, IsOut, begun-IsOut, settled-IsOut}

module _ (e : Engine) (u : CharTables) (spell : Text → String) where
  module _ (law : IsTransactional e) (begin_gated : passes_freely u begin_immediate ≡ false) where
    -- The end of a block against the draft of its body.
    abbrev Ends : e.C × List ℕ → Bool × Draft e → Ended × Thread e u spell → Type 0
    Ends base q (committed, t) =
        (q.0 ≡ true)
        × (q.1.rolled_back ≡ false)
        × (e.committed t.conn.engine ≡ q.1.contents)
        × (t.ran ≡ base.1)
    Ends base q (body_raised, t) =
        (q.0 ≡ false) × (e.committed t.conn.engine ≡ base.0) × (t.ran ≡ base.1)
    Ends base q (aborted, t) =
        (q.0 ≡ true)
        × (q.1.rolled_back ≡ true)
        × (e.committed t.conn.engine ≡ base.0)
        × (t.ran ≡ base.1)
    Ends base q (commit_raised, t) =
        (q.0 ≡ true)
        × (q.1.rolled_back ≡ false)
        × (e.committed t.conn.engine ≡ base.0)
        × (t.ran ≡ base.1)
    Ends base q (not_begun, t) = (e.committed t.conn.engine ≡ base.0) × (t.ran ≡ base.1)

    concluded-Ends :
        (base : e.C × List ℕ) (q : Bool × Draft e) (t : Thread e u spell)
        → q.0 ≡ true
        → q.1.rolled_back ≡ false
        → e.pending t.conn.engine ≡ q.1.contents
        → e.committed t.conn.engine ≡ base.0
        → t.ran ≡ base.1
        → Ends base q (concluded e u spell (commit_now e u spell t.conn) t)
    concluded-Ends base q t fine plain contents visible quiet =
        let (same, engine) = commit_now_lem e u spell t.conn in
        elim (Bool-cases (e.commit t.conn.engine).0) [
          | inl ok ↦
              go _ (same ∙ ok) (ap e.committed engine ∙ (law.commits t.conn.engine ok).0 ∙ contents)
          | inr bad ↦
              stop _ (same ∙ bad)
                (ap e.committed engine ∙ law.commit_fails t.conn.engine bad ∙ visible)
        ]
      where
        go :
            (r : Bool × Connection e u spell)
            → r.0 ≡ true
            → e.committed r.1.engine ≡ q.1.contents
            → Ends base q (concluded e u spell r t)
        go (true, c) h shown = (fine, plain, shown, quiet)
        go (false, c) h shown = cc h

        stop :
            (r : Bool × Connection e u spell)
            → r.0 ≡ false
            → e.committed r.1.engine ≡ base.0
            → Ends base q (concluded e u spell r t)
        stop (false, c) h shown =
            (fine, plain, rollback_now-committed e u spell law c ∙ shown, quiet)
        stop (true, c) h shown = cc h

    conclude_body-Ends :
        (base : e.C × List ℕ) (n : ℕ) (r : Bool × Thread e u spell) (q : Bool × Draft e)
        → Agree e u spell base n r q
        → Ends base q (conclude_body e u spell r)
    unfolding conclude_body
    conclude_body-Ends base n (false, t) q a = (
      sym a.same,
      rollback_now-committed e u spell law (record (t.conn) { depth = 0 }) ∙ a.follows.visible,
      a.follows.quiet,
    )
    conclude_body-Ends base n (true, t) q a = judged t.conn.poisoned a.follows.poisoned
      where
        judged :
            (b : Bool)
            → b ≡ q.1.rolled_back
            → Ends base q (verdict e u spell b (set_depth e u spell 0 t))
        judged true bad = (
          sym a.same,
          sym bad,
          rollback_now-committed e u spell law (record (t.conn) { depth = 0; poisoned = false })
              ∙ a.follows.visible,
          a.follows.quiet,
        )
        judged false good =
            concluded-Ends base q (set_depth e u spell 0 t) (sym a.same) (sym good)
              a.follows.contents a.follows.visible a.follows.quiet

    side_of : {c b d d' : e.C} → c ≡ b → (b ≡ d) ⊎ (b ≡ d') → (c ≡ d) ⊎ (c ≡ d')
    side_of v (inl l) = inl (v ∙ l)
    side_of v (inr l) = inr (v ∙ l)

    Ends-Promise :
        (t : Thread e u spell) (base : e.C × List ℕ) (q : Bool × Draft e) (ns : List ℕ)
        (r : Ended × Thread e u spell)
        → ((base.0 ≡ e.committed t.conn.engine) ⊎ (base.0 ≡ e.pending t.conn.engine))
        → base.1 ≡ t.ran
        → ns ≡ q.1.callbacks
        → Ends base q r
        → Promise e u spell t q (call_back e u spell ns (finish e u spell r))
    Ends-Promise t base q ns (committed, t') side quiet same x =
        (x.0, x.1, x.2, ap (λ l. l ++ ns) (x.3 ∙ quiet) ∙ ap (λ l. t.ran ++ l) same)
    Ends-Promise t base q ns (body_raised, t') side quiet same x =
        (x.0, (side_of x.1 side, x.2 ∙ quiet))
    Ends-Promise t base q ns (aborted, t') side quiet same x =
        (x.0, x.1, (side_of x.2 side, x.3 ∙ quiet))
    Ends-Promise t base q ns (commit_raised, t') side quiet same x =
        (x.0, x.1, (side_of x.2 side, x.3 ∙ quiet))
    Ends-Promise t base q ns (not_begun, t') side quiet same x = (side_of x.0 side, x.1 ∙ quiet)

    -- A body from the moment that the transaction is open.
    begun-Promise :
        (t : Thread e u spell) (b : Body) (c c' : Connection e u spell)
        → IsOrdinaryBody e b
        → Begun e u spell c c'
        → ((e.committed c.engine ≡ e.committed t.conn.engine)
            ⊎ (e.committed c.engine ≡ e.pending t.conn.engine))
        → e.pending c.engine ≡ e.pending t.conn.engine
        → Promise e u spell t
            (draft_body e b (draft_of e u spell (e.pending t.conn.engine)))
            (begun e u spell b (true, c') (record t { locked = true }))
    begun-Promise t b c c' plain start side same =
        let d = draft_of e u spell (e.pending t.conn.engine) in
        let t' : Thread e u spell = record t {
          conn = record c' { poisoned = false; depth = 1 };
          locked = true;
          after = some [];
        } in
        let base : e.C × List ℕ = (e.committed c.engine, t.ran) in
        let a = run_body-Agree e u spell law base 1 b t' d plain (record {
          depth = refl;
          inside = omega arith;
          opened = start.opened;
          alive = start.alive;
          held = start.held;
          contents = start.contents ∙ same;
          visible = start.visible;
          quiet = refl;
          poisoned = refl;
          callbacks = refl;
        }) in
        Ends-Promise t base (draft_body e b d) _ _ side refl
          (ap (registered e u spell) a.follows.callbacks)
          (conclude_body-Ends base 1 (run_body e u spell b t') (draft_body e b d) a)

    settled-Promise :
        (t : Thread e u spell) (b : Body) (c : Connection e u spell)
        (r : Bool × Connection e u spell)
        → IsOrdinaryBody e b
        → Begins e u spell c r
        → ((e.committed c.engine ≡ e.committed t.conn.engine)
            ⊎ (e.committed c.engine ≡ e.pending t.conn.engine))
        → e.pending c.engine ≡ e.pending t.conn.engine
        → Promise e u spell t
            (draft_body e b (draft_of e u spell (e.pending t.conn.engine)))
            (begun e u spell b r (record t { locked = true }))
    settled-Promise t b c (true, c') plain start side same =
        begun-Promise t b c c' plain start side same
    settled-Promise t b c (false, c') plain start side same = (side_of start side, refl)

-- store_write makes its body all or nothing. On an open connection, whose engine has SQLite's
-- transactions, and for a body of statements that leave the transaction open, however its actions
-- commit, roll back, raise, catch and nest: when the block is committed, the body returned and asked
-- for no rollback, the file has exactly what the body means from what the caller saw, and exactly its
-- callbacks have run; when the body raises, when it asked for a rollback and caught the error, when the
-- commit raises, or when the block is not begun, the file has what it had or what the caller had
-- written before, and no callback has run. In every case the lock is given back.
pub store_write-Promise :
    (e : Engine) (u : CharTables) (spell : Text → String) (law : IsTransactional e)
    (begin_gated : passes_freely u begin_immediate ≡ false) (b : Body) (t : Thread e u spell)
    → IsOrdinaryBody e b
    → t.conn.closed ≡ false
    → Promise e u spell t
        (draft_body e b (draft_of e u spell (e.pending t.conn.engine)))
        (store_write e u spell b t)
      × IsOut e u spell (store_write e u spell b t).1
unfolding store_write
store_write-Promise e u spell law begin_gated b t plain alive =
    elim (Bool-cases (e.in_transaction t.conn.engine)) [
      | inr idle ↦ simp idle (
        settled-Promise e u spell law begin_gated t b t.conn
            (execute e u spell begin_immediate t.conn) plain
            (execute-Begins e u spell law begin_gated t.conn alive idle) (inl refl) refl,
        begun-IsOut e u spell b (execute e u spell begin_immediate t.conn)
            (record t { locked = true }),
      )
      | inl open_transaction ↦ simp open_transaction (
        from_commit (commit_now e u spell t.conn) (commit_now_lem e u spell t.conn)
            (commit_now-closed e u spell t.conn ∙ alive),
        settled-IsOut e u spell b (commit_now e u spell t.conn) (record t { locked = true }),
      )
    ]
  where
    from_commit :
        (r : Bool × Connection e u spell)
        → (r.0 ≡ (e.commit t.conn.engine).0) × (r.1.engine ≡ (e.commit t.conn.engine).1)
        → r.1.closed ≡ false
        → Promise e u spell t
            (draft_body e b (draft_of e u spell (e.pending t.conn.engine)))
            (settled e u spell b r (record t { locked = true }))
    from_commit (false, c) h live =
        (inl (ap e.committed h.1 ∙ law.commit_fails t.conn.engine (sym h.0)), refl)
    from_commit (true, c) h live =
        let did = law.commits t.conn.engine (sym h.0) in
        settled-Promise e u spell law begin_gated t b c (execute e u spell begin_immediate c) plain
          (execute-Begins e u spell law begin_gated c live (ap e.in_transaction h.1 ∙ did.2))
          (inr (ap e.committed h.1 ∙ did.0)) (ap e.pending h.1 ∙ did.1)
