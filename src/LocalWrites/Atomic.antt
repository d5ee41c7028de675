-- ===== src/LocalWrites/Atomic.antt =====
-- An all-or-nothing transaction over the contents of a store: what store_write of memora/backends.py
-- promises of its body.
use memora.Prelude.{ℕ, Bool, true, false, List, [], ◌∷◌, ◌++◌}
use memora.LocalWrites.Engine.{Engine}
use memora.LocalWrites.StoreWrite.{
  Action, run, commits, rolls_back, leaves_with, after_commit, raises, nested, Body, done, and_then,
  proceed,
}

module _ (e : Engine) where
  -- The draft of a transaction: its contents, whether something asked to roll it back, and what is to
  -- run when it is there.
  pub record Draft : Type 0 where
    pub contents : e.C
    pub rolled_back : Bool
    pub callbacks : List ℕ

  abbrev meant : Bool × e.C → Draft → Bool × Draft
  meant (ok, c) d = (ok, record d { contents = c })

  unfoldable mutual
    pub draft_action : Action → Draft → Bool × Draft
    draft_action (run sql) d = meant (e.meaning sql d.contents) d
    draft_action commits d = (true, d)
    draft_action rolls_back d = (false, record d { rolled_back = true })
    draft_action (leaves_with failed) d = (true, d)
    draft_action (after_commit n) d = (true, record d { callbacks = d.callbacks ++ n ∷ [] })
    draft_action raises d = (false, d)
    draft_action (nested b) d = draft_body b d

    pub draft_body : Body → Draft → Bool × Draft
    draft_body done d = (true, d)
    draft_body (and_then a caught rest) d = proceed caught (draft_body rest) (draft_action a d)
