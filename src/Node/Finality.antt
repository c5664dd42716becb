-- ===== src/Node/Finality.antt =====
-- The consensus engine as the tasks of src/main.rs drive it, through every run of a node.
use mathlib.Core.Path.{subst}
use vela_network.Common.{
  ℕ, ◌+◌, ◌≤◌, ◌≡◌, ◌⊎◌, inl, inr, refl, sym, ap, ◌∙◌, none, some, List, [], ◌∷◌, push, length,
  length-append, arith, Bool-cases,
}
use vela_network.Types.{Crates, Vote, Block, genesis, verify_vote, address_of_key}
use vela_network.Consensus.{
  HotStuffNode, decide, new_node, handle_vote, handle_propose, count_vote, extends_lock, new_config,
}
use vela_network.Consensus.Safety.{IsSound}
use vela_network.Consensus.Finality.{handle_vote-Commits, handle_vote-round}
use vela_network.Consensus.Runs
use vela_network.Storage.{Sled}
use vela_network.Node.Defs.{Node}
use vela_network.Node.Startup.{start, boot, validators_from, validator_keys}
use vela_network.Node.Consistency.{start_parts}
use vela_network.Node.Steps.{Run, here, next}
use vela_network.Node.Engine.{Drives, rests, votes, proposes, Step-Drives}

length-push : (bs : List Block) (b : Block) → length (push bs b) ≡ length bs + 1
length-push bs b = length-append bs (b ∷ [])

module _ {Db Val : Type 0} (x : Crates) (s : Sled Db Val) where
  Drives-Run : {g h h' : HotStuffNode} → Runs.Run x g h → Drives x s h h' → Runs.Run x g h'
  Drives-Run {g} r (rests e) = rw e r
  Drives-Run r (votes order v any e) = Runs.Run.next r (Runs.Step.gets_vote order v any e)
  Drives-Run r (proposes b e) = Runs.Run.next r (Runs.Step.gets_proposal b none e)

  -- A run of a node is a run of its engine.
  Run-Runs : {n n' : Node Db} → Run x s n n' → Runs.Run x n.hotstuff n'.hotstuff
  Run-Runs here = Runs.Run.here
  Run-Runs (next r st) = Drives-Run (Run-Runs r) (Step-Drives x s st)

  -- In round 0, with the genesis block alone, or past the one commit.
  abbrev Early : HotStuffNode → Type 0
  Early h =
      (h.round ≡ 0)
      × ((h.committed_blocks ≡ genesis ∷ [])
          ⊎ ((h.phase ≡ decide) × (length h.committed_blocks ≡ 2)))

  handle_vote_of_decide :
      (order : List Vote → List Vote) (h : HotStuffNode) (v : Vote)
      → h.phase ≡ decide
      → handle_vote x order h v ≡ (h, none)
  unfolding handle_vote count_vote
  handle_vote_of_decide order h v e = elim (Bool-cases (verify_vote x v)) [
    | inl q ↦ rw q (ap (λ phase. count_vote x order phase h v) e)
    | inr q ↦ rw q refl
  ]

  handle_propose_of :
      (h : HotStuffNode) (b : Block)
      → (handle_propose x h b none).0
        ≡ record h { pending_block = (handle_propose x h b none).0.pending_block }
  unfolding handle_propose
  handle_propose_of h b = elim (Bool-cases (extends_lock x h.locked_qc b)) [
    | inl e ↦ rw e refl
    | inr e ↦ rw e refl
  ]

  Drives-Early : {h h' : HotStuffNode} → Drives x s h h' → Early h → Early h'
  Drives-Early (rests e) k = rw e k
  Drives-Early {h} (votes order v any e) (at_zero, inl alone) =
      let round = handle_vote-round x order h v ∙ at_zero in
      elim (handle_vote-Commits x order h v) [
        | inl same ↦ rw e (round, inl (same ∙ alone))
        | inr c ↦
            let grown = ap length c.appended in
            rw e (round, inr (c.phase_after, omega (arith, grown, ap length alone, length-push)))
      ]
  Drives-Early {h} (votes order v any e) (at_zero, inr (decided, two)) =
      rw (e, handle_vote_of_decide order h v decided) (at_zero, inr (decided, two))
  Drives-Early {h} (proposes b e) k = rw (e, handle_propose_of h b) k

  Run-Early : {n n' : Node Db} → Run x s n n' → Early n.hotstuff → Early n'.hotstuff
  Run-Early here k = k
  Run-Early (next r st) k = Drives-Early (Step-Drives x s st) (Run-Early r k)

  -- In every run of a node from its start, on any database, the chain of its consensus engine is
  -- the genesis block and blocks with certificates, the engine stays in round 0, and it commits one
  -- block at most: `main` hands it votes and proposals, and never a new view.
  pub Run-commits_once :
      (validator_index : ℕ) (db : Db) {n n' : Node Db}
      → start x s validator_index db ≡ some n
      → Run x s n n'
      → IsSound x (new_config (validators_from x 0 validator_keys)) n'.hotstuff
        × (n'.hotstuff.round ≡ 0)
        × (length n'.hotstuff.committed_blocks ≤ 2)
  unfolding boot new_node
  Run-commits_once validator_index db {n} {n'} e r =
      let (key, loaded, db', bs, k, l, g, booted) = start_parts x s validator_index db e in
      let config = new_config (validators_from x 0 validator_keys) in
      let fresh : new_node (address_of_key x key) key config ≡ n.hotstuff =
        ap (λ (m : Node Db). m.hotstuff) booted in
      let early : Early n.hotstuff = subst Early fresh (refl, inl refl) in
      let sound =
        Runs.Run-IsSound x (address_of_key x key) key config
          (subst (λ h. Runs.Run x h n'.hotstuff) (sym fresh) (Run-Runs r)) in
      let (at_zero, at_most) = Run-Early r early in
      (
        sound,
        at_zero,
        elim at_most [ inl alone ↦ omega (arith, ap length alone) | inr (_, two) ↦ omega arith ],
      )

  Drives-decided :
      (h g g' : HotStuffNode)
      → h.phase ≡ decide
      → g ≡ record h { pending_block = g.pending_block }
      → Drives x s g g'
      → g' ≡ record h { pending_block = g'.pending_block }
  Drives-decided h g g' decided same (rests e) = rw e same
  Drives-decided h g g' decided same (votes order v any e) =
      let at_g : g.phase ≡ decide = ap (λ (k : HotStuffNode). k.phase) same ∙ decided in
      rw (e, handle_vote_of_decide order g v at_g) same
  Drives-decided h g g' decided same (proposes b e) = rw e (
      handle_propose_of g b
      ∙ ap
          (λ (k : HotStuffNode). record k {
            pending_block = (handle_propose x g b none).0.pending_block;
          })
          same)

  -- Once the engine of a node has decided, nothing that the node receives or does changes more of
  -- it than the pending block: no vote is counted again, and no other block is committed.
  Run-decided :
      {n n' : Node Db}
      → n.hotstuff.phase ≡ decide
      → Run x s n n'
      → n'.hotstuff ≡ record n.hotstuff { pending_block = n'.hotstuff.pending_block }
  Run-decided decided here = refl
  Run-decided {n} decided (next {m} {k} r st) =
      Drives-decided n.hotstuff m.hotstuff k.hotstuff decided (Run-decided decided r)
        (Step-Drives x s st)
