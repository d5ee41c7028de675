-- ===== src/Lineage/Reaches.antt =====
-- The ids that `_walk_chain` of memora/storage.py answers, against those that its start leads to.
use memora.Prelude.{ℕ, ◌<◌, true, List, [], ◌∷◌, ◌≡◌, sym, subst, arith, contains, length, Memᴰ}
use memora.Lineage.Store.{Edge}
use memora.Lineage.Walk.{Readers, Direction, follows, walk_chain, max_chain_depth}
use memora.Lineage.Reachable.{LeadsTo, start, hop}
use memora.Lineage.Complete.{closed_in, distinct, walk_from-IsWalk}
use memora.Lineage.WalkLaws.{walk_from_start}
use memora.Lineage.Levels.{walk_from_finishes}

closed_in-Mem :
    (r : Readers) (d : Direction) (seen : List ℕ) (refs : List Edge) (ref : Edge)
    → Memᴰ ref refs
    → closed_in r d seen refs ≡ true
    → follows d ref.kind ≡ true
    → r.exists ref.peer ≡ true
    → contains seen ref.peer ≡ true
closed_in-Mem r d seen [] ref m h f y = elim m [ ]
closed_in-Mem r d seen (x ∷ refs) ref (Memᴰ.head e) h f y =
    subst
      (λ (u : Edge). follows d u.kind ≡ true → r.exists u.peer ≡ true → contains seen u.peer ≡ true)
      (sym e) (λ g z. ground (arith, h, g, z)) f y
closed_in-Mem r d seen (x ∷ refs) ref (Memᴰ.tail m) h f y =
    closed_in-Mem r d seen refs ref m (ground (arith, h)) f y

module _ (r : Readers) (d : Direction) (rows : List ℕ)
    (listed : (i : ℕ) → r.exists i ≡ true → contains rows i ≡ true) (few : length rows < 200)
    (i : ℕ) where
  chain_closed :
      (j : ℕ)
      → contains (walk_chain r d i) j ≡ true
      → closed_in r d (walk_chain r d i) (r.crossrefs j) ≡ true
  unfolding walk_chain
  chain_closed j c =
      let w = walk_from-IsWalk r d max_chain_depth i in
      let seen = w.seen_chain in
      let settled = w.settled j (rw seen c) in
      let done = walk_from_finishes r d rows listed max_chain_depth i few in
      let settled' = rw done at settled in rw seen at settled'

  -- With fewer existing rows than the depth bound, the walk answers each id that the start leads to.
  pub walk_chain_complete : (j : ℕ) → LeadsTo r d i j → contains (walk_chain r d i) j ≡ true
  unfolding walk_chain
  walk_chain_complete j start = walk_from_start r d max_chain_depth i
  walk_chain_complete j (hop {j = k} {ref} led m f y) =
      closed_in-Mem r d _ (r.crossrefs k) ref m (chain_closed k (walk_chain_complete k led)) f y

-- No id stands twice in what the walk answers.
pub walk_chain-distinct : (r : Readers) (d : Direction) (i : ℕ) → distinct (walk_chain r d i) ≡ true
unfolding walk_chain
walk_chain-distinct r d i =
    let w = walk_from-IsWalk r d max_chain_depth i in rw w.seen_chain at w.once
