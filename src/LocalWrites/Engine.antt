-- ===== src/LocalWrites/Engine.antt =====
-- What memora/backends.py uses of an SQLite connection, as a parameter.
use memora.Prelude.{Bool, true, false, ◌≡◌}
use memora.Prelude.Text.{Text, codes}

-- A connection of the sqlite3 module: what is committed in the file, what the connection sees, and
-- whether a transaction is open. An operation answers whether it returned or raised.
pub record Engine : Type 1 where
  pub S : Type 0
  pub C : Type 0
  pub committed : S → C
  pub pending : S → C
  pub in_transaction : S → Bool
  pub execute : Text → S → Bool × S
  pub commit : S → Bool × S
  pub rollback : S → Bool × S
  pub exit : Bool → S → Bool × S
  -- What a statement does to the contents.
  pub meaning : Text → C → Bool × C
  -- No statement that ends a transaction, nor one with an error on which SQLite rolls back by itself.
  pub ordinary : Text → Bool

abbrev pub begin_immediate : Text
begin_immediate = codes "BEGIN IMMEDIATE"

-- What is documented of a transaction of SQLite, where the file is not shared with a writer that holds
-- no lock.
pub record IsTransactional (e : Engine) : Type 0 where
  pub begins :
      (s : e.S)
      → e.in_transaction s ≡ false
      → (e.execute begin_immediate s).0 ≡ true
      → (e.in_transaction (e.execute begin_immediate s).1 ≡ true)
        × (e.pending (e.execute begin_immediate s).1 ≡ e.pending s)
  pub begin_commits_nothing :
      (s : e.S) → e.committed (e.execute begin_immediate s).1 ≡ e.committed s
  pub runs :
      (sql : Text) (s : e.S)
      → e.in_transaction s ≡ true
      → e.ordinary sql ≡ true
      → ((e.execute sql s).0 ≡ (e.meaning sql (e.pending s)).0)
        × (e.pending (e.execute sql s).1 ≡ (e.meaning sql (e.pending s)).1)
        × (e.committed (e.execute sql s).1 ≡ e.committed s)
        × (e.in_transaction (e.execute sql s).1 ≡ true)
  pub commits :
      (s : e.S)
      → (e.commit s).0 ≡ true
      → (e.committed (e.commit s).1 ≡ e.pending s)
        × (e.pending (e.commit s).1 ≡ e.pending s)
        × (e.in_transaction (e.commit s).1 ≡ false)
  pub commit_fails : (s : e.S) → (e.commit s).0 ≡ false → e.committed (e.commit s).1 ≡ e.committed s
  pub rollback_commits_nothing : (s : e.S) → e.committed (e.rollback s).1 ≡ e.committed s
