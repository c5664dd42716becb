-- ===== src/Consensus/Phases.antt =====
-- The phases of a consensus node: a block is committed on three quorums of votes, but not always the
-- block for which the first two were cast (src/consensus/hotstuff.rs).
use vela_network.Consensus.Config.{ConsensusConfig, quorum_size}
use vela_network.Consensus.Node.{
  Phase, prepare, pre_commit, commit, decide, HotStuffNode, new_node, form_qc, commit_block,
  advance_round,
}
use vela_network.Consensus.Handlers.{
  handle_propose, handle_vote, handle_new_view, count_vote, count_prepare, count_precommit,
  count_commit, raise_high_qc, extends_lock, same_hash,
}
use vela_network.Consensus.Certificates.{IsTally, insert-IsTally}
use vela_network.Consensus.Proposals.{propose_lem}
use vela_network.Consensus.Finality.{commit_tally, handle_vote-Commits, handle_vote-commits}
use vela_network.Consensus.Runs.{
  Step, proposes, gets_proposal, gets_vote, gets_view, Run, here, next, Run-IsSound,
}
use vela_network.Common.{
  ℕ, ◌≤◌, ◌≡◌, ◌≢◌, refl, ap, true, Option, some, List, Bytes, arith, inl, inr, Bool-cases, length,
  push,
}
use vela_network.Common.Dict.{Dict}
use vela_network.Types.{Crates, Hash, Address, Vote, QuorumCert, Block, verify_vote}

-- What the phase says of the tallies: those of the phases before it have reached a quorum.
record IsPaced (n : HotStuffNode) : Type 0 where
  prepared : n.phase ≡ pre_commit → quorum_size n.config ≤ length n.prepare_votes
  locked :
      n.phase ≡ commit
      → (quorum_size n.config ≤ length n.prepare_votes)
        × (quorum_size n.config ≤ length n.precommit_votes)

module _ (x : Crates) where
  module _ (order : List Vote → List Vote) (n : HotStuffNode) (v : Vote) (h : IsPaced n) where
    count_prepare-IsPaced : n.phase ≡ prepare → IsPaced (count_prepare x order n v).0
    unfolding count_prepare
    count_prepare-IsPaced e = ground arith

    count_precommit-IsPaced : n.phase ≡ pre_commit → IsPaced (count_precommit x order n v).0
    unfolding count_precommit
    count_precommit-IsPaced e = ground arith

    count_commit-IsPaced : n.phase ≡ commit → IsPaced (count_commit x order n v).0
    unfolding count_commit commit_block
    count_commit-IsPaced e = ground arith

    count_vote-IsPaced :
        (phase : Phase) → n.phase ≡ phase → IsPaced (count_vote x order phase n v).0
    unfolding count_vote
    count_vote-IsPaced prepare e = count_prepare-IsPaced e
    count_vote-IsPaced pre_commit e = count_precommit-IsPaced e
    count_vote-IsPaced commit e = count_commit-IsPaced e
    count_vote-IsPaced decide e = h

    handle_vote-IsPaced : IsPaced (handle_vote x order n v).0
    unfolding handle_vote
    handle_vote-IsPaced = elim (Bool-cases (verify_vote x v)) [
      | inl e ↦ rw e (count_vote-IsPaced n.phase refl)
      | inr e ↦ rw e h
    ]

  handle_propose-IsPaced :
      (n : HotStuffNode) (b : Block) (q : Option QuorumCert)
      → IsPaced n
      → IsPaced (handle_propose x n b q).0
  unfolding handle_propose
  handle_propose-IsPaced n b q h = ground (arith, h.prepared, h.locked)

  handle_new_view-IsPaced :
      (n : HotStuffNode) (round : ℕ) (qc : QuorumCert)
      → IsPaced n
      → IsPaced (handle_new_view x n round qc).0
  unfolding handle_new_view raise_high_qc advance_round
  handle_new_view-IsPaced n round qc h = ground (arith, h.prepared, h.locked)

  Step-IsPaced : {n n' : HotStuffNode} → Step x n n' → IsPaced n → IsPaced n'
  Step-IsPaced {n} (proposes now txs m e) h =
      let (_, b, _, _, _, changed, _) = propose_lem x now n txs e in ground arith
  Step-IsPaced {n} (gets_proposal b qc e) h = rw e (handle_propose-IsPaced n b qc h)
  Step-IsPaced {n} (gets_vote order v any e) h = rw e (handle_vote-IsPaced order n v h)
  Step-IsPaced {n} (gets_view round qc e) h = rw e (handle_new_view-IsPaced n round qc h)

  Run-IsPaced : {n n' : HotStuffNode} → Run x n n' → IsPaced n → IsPaced n'
  Run-IsPaced here h = h
  Run-IsPaced (next r s) h = Step-IsPaced s (Run-IsPaced r h)

  new_node-IsPaced : (a : Address) (key : Bytes) (c : ConsensusConfig) → IsPaced (new_node a key c)
  unfolding new_node
  new_node-IsPaced a key c = ground arith

  -- A quorum of votes that verify, by voters that differ.
  abbrev pub HasQuorum : ConsensusConfig → Dict Vote → Type 0
  HasQuorum c m = IsTally x m × (quorum_size c ≤ length m)

  -- In every run of a new node, a vote that changes the chain does so on three quorums: those of
  -- the prepare and of the pre-commit phase, which the node holds already, and that of the commit
  -- phase with this vote. Each consists of votes that verify, by voters that differ.
  pub handle_vote-HasQuorum :
      (a : Address) (key : Bytes) (c : ConsensusConfig) {n : HotStuffNode}
      (order : List Vote → List Vote) (v : Vote)
      → Run x (new_node a key c) n
      → (handle_vote x order n v).0.committed_blocks ≢ n.committed_blocks
      → HasQuorum c n.prepare_votes
        × HasQuorum c n.precommit_votes
        × HasQuorum c (commit_tally x n v)
  handle_vote-HasQuorum a key c {n} order v r changed = elim (handle_vote-Commits x order n v) [
    | inl same ↦ absurd (changed same)
    | inr k ↦
        let h = Run-IsSound x a key c r in
        let paced = (Run-IsPaced r (new_node-IsPaced a key c)).locked k.phase_before in
        let size : quorum_size n.config ≡ quorum_size c = ap quorum_size h.configured in
        (
          (h.prepare_tally, omega (arith, paced.0, size)),
          (h.precommit_tally, omega (arith, paced.1, size)),
          (
            insert-IsTally x v n.commit_votes k.verified h.commit_tally,
            omega (arith, k.quorum, size),
          ),
        )
  ]

  same_hash_self : (h : Hash) → same_hash h h ≡ true
  unfolding same_hash
  same_hash_self h = ground arith

  handle_propose_accepts :
      (n : HotStuffNode) (q : QuorumCert) (b : Block) (high : Option QuorumCert)
      → n.locked_qc ≡ some q
      → b.header.parent_hash ≡ q.block_hash
      → (handle_propose x n b high).0 ≡ record n { pending_block = some b }
  unfolding handle_propose extends_lock
  handle_propose_accepts n q b high lock child = rw (lock, child, same_hash_self q.block_hash) refl

  -- Let a node be in the commit phase, with a lock on a block. A proposal of a child of that block
  -- replaces the pending block, whatever that is, and keeps the phase and the votes: the next vote
  -- that verifies and completes the quorum puts the child on the chain, on whatever its tip is.
  pub handle_vote-handle_propose :
      (order : List Vote → List Vote) (n : HotStuffNode) (q : QuorumCert) (b : Block)
      (high : Option QuorumCert) (v : Vote)
      → n.phase ≡ commit
      → n.locked_qc ≡ some q
      → b.header.parent_hash ≡ q.block_hash
      → verify_vote x v ≡ true
      → quorum_size n.config ≤ length (commit_tally x n v)
      → (handle_vote x order (handle_propose x n b high).0 v).0.committed_blocks
        ≡ push n.committed_blocks (record b {
          qc = some (form_qc order (record n { commit_votes = commit_tally x n v }) commit);
        })
  unfolding form_qc
  handle_vote-handle_propose order n q b high v at_commit lock child verified quorum =
      let n' : HotStuffNode = record n { pending_block = some b } in
      rw (handle_propose_accepts n q b high lock child)
        (handle_vote-commits x order n' v b at_commit verified quorum refl).0
