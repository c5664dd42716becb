-- ===== src/Consensus/Runs.antt =====
-- Runs of a consensus node: any sequence of proposals, votes and new views, from any peer, with any
-- iteration order of the maps (src/consensus/hotstuff.rs).
use mathlib.Core.List.{append_assoc, append-nil}
use vela_network.Consensus.Config.{ConsensusConfig}
use vela_network.Consensus.Node.{prepare, HotStuffMsg, HotStuffNode, new_node}
use vela_network.Consensus.Handlers.{propose, handle_propose, handle_vote, handle_new_view}
use vela_network.Consensus.Certificates.{IsOrder}
use vela_network.Consensus.Safety.{
  IsSound, IsSound-same, new_node-IsSound, handle_propose-IsSound, handle_new_view-IsSound,
}
use vela_network.Consensus.Safety.Votes.{handle_vote-IsSound}
use vela_network.Consensus.Proposals.{propose_lem}
use vela_network.Consensus.Finality.{
  handle_vote-Commits, handle_vote-round, handle_propose_keeps, handle_new_view_lem,
}
use vela_network.Common.{
  ℕ, ◌≤◌, ◌≡◌, sym, ap, ◌∙◌, Option, some, List, [], ◌++◌, Bytes, arith, inl, inr,
}
use vela_network.Types.{Crates, Address, Vote, QuorumCert, Block, Transaction}

module _ (x : Crates) where
  -- One call of a handler.
  pub data Step (n n' : HotStuffNode) : Type 0 where
    proposes :
        (now : ℕ) (txs : List Transaction) (m : HotStuffMsg)
        → propose x now n txs ≡ some (n', m)
        → Step n n'
    gets_proposal :
        (b : Block) (qc : Option QuorumCert) → n' ≡ (handle_propose x n b qc).0 → Step n n'
    gets_vote :
        (order : List Vote → List Vote) (v : Vote)
        → IsOrder order
        → n' ≡ (handle_vote x order n v).0
        → Step n n'
    gets_view : (round : ℕ) (qc : QuorumCert) → n' ≡ (handle_new_view x n round qc).0 → Step n n'

  pub data Run (n : HotStuffNode) : HotStuffNode → Type 0 where
    here : Run n n
    next : {m k : HotStuffNode} → Run n m → Step m k → Run n k

  Step-IsSound :
      (c : ConsensusConfig) {n n' : HotStuffNode} → Step n n' → IsSound x c n → IsSound x c n'
  Step-IsSound c {n} (proposes now txs m e) h =
      let (_, b, _, _, _, changed, _) = propose_lem x now n txs e in
      rw changed (IsSound-same x c n prepare (some b) n.high_qc h)
  Step-IsSound c {n} (gets_proposal b qc e) h = rw e (handle_propose-IsSound x c n b qc h)
  Step-IsSound c {n} (gets_vote order v any e) h = rw e (handle_vote-IsSound x order c n v any h)
  Step-IsSound c {n} (gets_view round qc e) h = rw e (handle_new_view-IsSound x c n round qc h)

  Run-keeps :
      (c : ConsensusConfig) {n n' : HotStuffNode} → Run n n' → IsSound x c n → IsSound x c n'
  Run-keeps c here h = h
  Run-keeps c (next r s) h = Step-IsSound c s (Run-keeps c r h)

  -- Whatever a new node is sent in a run, in any order, every block of its chain after the genesis
  -- block carries a certificate: at least 2 f + 1 votes that verify, by voters that differ; and so
  -- does its lock, if it has one.
  pub Run-IsSound :
      (a : Address) (key : Bytes) (c : ConsensusConfig) {n : HotStuffNode}
      → Run (new_node a key c) n
      → IsSound x c n
  Run-IsSound a key c r = Run-keeps c r (new_node-IsSound x a key c)

  -- The chain of `n'` continues that of `n`, and the round is no lower.
  abbrev pub Continues : HotStuffNode → HotStuffNode → Type 0
  Continues n n' =
      ((bs : List Block) × (n'.committed_blocks ≡ n.committed_blocks ++ bs)) × (n.round ≤ n'.round)

  Step-Continues : {n n' : HotStuffNode} → Step n n' → Continues n n'
  Step-Continues {n} (proposes now txs m e) =
      let (_, b, _, _, _, changed, _) = propose_lem x now n txs e in
      rw changed (([], sym (append-nil n.committed_blocks)), omega arith)
  Step-Continues {n} (gets_proposal b qc e) =
      let (chain, round) = handle_propose_keeps x n b qc in
      rw e (([], chain ∙ sym (append-nil n.committed_blocks)), omega arith)
  Step-Continues {n} (gets_vote order v any e) = rw e (
    elim (handle_vote-Commits x order n v) [
      | inl chain ↦ ([], chain ∙ sym (append-nil n.committed_blocks))
      | inr c ↦ (_, c.appended)
    ],
    omega (arith, handle_vote-round x order n v),
  )
  Step-Continues {n} (gets_view round qc e) =
      let (chain, at_round, _, _, _) = handle_new_view_lem x n round qc in
      rw e (([], chain ∙ sym (append-nil n.committed_blocks)), omega arith)

  -- Finality: through any run the blocks that are committed stay, in their places, and the round
  -- never falls.
  pub Run-Continues : {n n' : HotStuffNode} → Run n n' → Continues n n'
  Run-Continues {n} here = (([], sym (append-nil n.committed_blocks)), omega arith)
  Run-Continues {n} (next r s) =
      let ((bs, e), p) = Run-Continues r in
      let ((cs, d), q) = Step-Continues s in
      ((bs ++ cs, d ∙ ap (λ l. l ++ cs) e ∙ append_assoc n.committed_blocks bs cs), omega arith)
