-- ===== src/Consensus/Finality.antt =====
-- How the handlers of src/consensus/hotstuff.rs change the phase, the round and the chain.
use Prim.Native.Nat.{max}
use vela_network.Consensus.Config.{quorum_size}
use vela_network.Consensus.Node.{
  Phase, prepare, pre_commit, commit, decide, HotStuffMsg, HotStuffNode, form_qc, commit_block,
}
use vela_network.Consensus.Handlers.{
  handle_propose, handle_vote, handle_new_view, count_vote, count_prepare, count_precommit,
  count_commit, qc_round, voter_key,
}
use vela_network.Common.{
  ℕ, ◌≤◌, ◌<◌, ◌≡◌, refl, ap, true, Option, none, some, List, [], arith, length, leb, leb→le,
  le→leb, ◌∙◌, inl, inr, ◌⊎◌, Bool-cases, Option-cases, push,
}
use vela_network.Common.Dict.{Dict, insert}
use vela_network.Types.{Crates, Vote, QuorumCert, Block, verify_vote}

commit_block-cases :
    (n : HotStuffNode) (qc : QuorumCert)
    → (commit_block n qc ≡ n)
      ⊎ ((b : Block) × (n.pending_block ≡ some b)
          × ((commit_block n qc).committed_blocks
              ≡ push n.committed_blocks (record b { qc = some qc }))
          × ((commit_block n qc).phase ≡ n.phase))
unfolding commit_block
commit_block-cases n qc = elim (Option-cases n.pending_block) [
  | inl e ↦ inl (ground arith)
  | inr (b, e) ↦ inr (b, e, ground arith, ground arith)
]

module _ (x : Crates) where
  -- The votes of the commit phase with one more counted.
  abbrev pub commit_tally : HotStuffNode → Vote → Dict Vote
  commit_tally n v = insert (voter_key x v) v n.commit_votes

  module _ (order : List Vote → List Vote) (n : HotStuffNode) (v : Vote) where
    -- A commit: the node is in the commit phase, the vote verifies and completes a quorum, and the
    -- pending block is appended with the certificate of those votes.
    pub record Commits (n' : HotStuffNode) : Type 0 where
      pub block : Block
      pub phase_before : n.phase ≡ commit
      pub phase_after : n'.phase ≡ decide
      pub verified : verify_vote x v ≡ true
      pub quorum : quorum_size n.config ≤ length (commit_tally n v)
      pub pending : n.pending_block ≡ some block
      pub appended :
          n'.committed_blocks
          ≡ push n.committed_blocks (record block {
            qc = some (form_qc order (record n { commit_votes = commit_tally n v }) commit);
          })

    count_prepare_keeps :
        ((count_prepare x order n v).0.committed_blocks ≡ n.committed_blocks)
        × ((count_prepare x order n v).0.round ≡ n.round)
    unfolding count_prepare
    count_prepare_keeps = ground arith

    count_precommit_keeps :
        ((count_precommit x order n v).0.committed_blocks ≡ n.committed_blocks)
        × ((count_precommit x order n v).0.round ≡ n.round)
    unfolding count_precommit
    count_precommit_keeps = ground arith

    count_commit-round : (count_commit x order n v).0.round ≡ n.round
    unfolding count_commit
    count_commit-round = ground arith

    count_commit-Commits :
        n.phase ≡ commit
        → verify_vote x v ≡ true
        → ((count_commit x order n v).0.committed_blocks ≡ n.committed_blocks)
          ⊎ Commits (count_commit x order n v).0
    unfolding count_commit
    count_commit-Commits in_commit e =
        elim (Bool-cases (leb (quorum_size n.config) (length (commit_tally n v)))) [
          | inr q ↦ rw q (inl refl)
          | inl q ↦
              let counted : HotStuffNode = record n { commit_votes = commit_tally n v } in
              let r =
                commit_block-cases (record counted { phase = decide })
                  (form_qc order counted commit) in
              rw q (elim r [
                | inl same ↦ inl (ap (λ (m : HotStuffNode). m.committed_blocks) same)
                | inr (b, pending, appended, after) ↦ inr (record {
                  block = b;
                  phase_before = in_commit;
                  phase_after = after;
                  verified = e;
                  quorum = leb→le _ _ q;
                  pending = pending;
                  appended = appended;
                })
              ])
        ]

    count_vote-Commits :
        (phase : Phase)
        → n.phase ≡ phase
        → verify_vote x v ≡ true
        → ((count_vote x order phase n v).0.committed_blocks ≡ n.committed_blocks)
          ⊎ Commits (count_vote x order phase n v).0
    unfolding count_vote
    count_vote-Commits prepare p e = inl count_prepare_keeps.0
    count_vote-Commits pre_commit p e = inl count_precommit_keeps.0
    count_vote-Commits commit p e = count_commit-Commits p e
    count_vote-Commits decide p e = inl refl

    -- A vote leaves the chain as it is, or commits the pending block as `Commits` says.
    pub handle_vote-Commits :
        ((handle_vote x order n v).0.committed_blocks ≡ n.committed_blocks)
        ⊎ Commits (handle_vote x order n v).0
    unfolding handle_vote
    handle_vote-Commits = elim (Bool-cases (verify_vote x v)) [
      | inl e ↦ rw e (count_vote-Commits n.phase refl e)
      | inr e ↦ rw e (inl refl)
    ]

    count_commit-commits :
        (b : Block)
        → leb (quorum_size n.config) (length (commit_tally n v)) ≡ true
        → n.pending_block ≡ some b
        → ((count_commit x order n v).0.committed_blocks
            ≡ push n.committed_blocks (record b {
              qc = some (form_qc order (record n { commit_votes = commit_tally n v }) commit);
            }))
          × ((count_commit x order n v).0.phase ≡ decide)
          × ((count_commit x order n v).0.pending_block ≡ none)
    unfolding count_commit commit_block
    count_commit-commits b q pending = (ground arith, ground arith, ground arith)

    -- Whatever block and round the vote names, and whoever cast it: if it verifies and completes a
    -- quorum in the commit phase, the pending block is appended to the chain with the certificate of
    -- the votes, the phase is decided and nothing is pending.
    pub handle_vote-commits :
        (b : Block)
        → n.phase ≡ commit
        → verify_vote x v ≡ true
        → quorum_size n.config ≤ length (commit_tally n v)
        → n.pending_block ≡ some b
        → ((handle_vote x order n v).0.committed_blocks
            ≡ push n.committed_blocks (record b {
              qc = some (form_qc order (record n { commit_votes = commit_tally n v }) commit);
            }))
          × ((handle_vote x order n v).0.phase ≡ decide)
          × ((handle_vote x order n v).0.pending_block ≡ none)
    unfolding handle_vote count_vote
    handle_vote-commits b in_commit e quorum pending =
        let r = count_commit-commits b (le→leb _ _ quorum) pending in
        let same : handle_vote x order n v ≡ count_commit x order n v =
          rw e (ap (λ phase. count_vote x order phase n v) in_commit) in
        (
          ap (λ (m : HotStuffNode × Option HotStuffMsg). m.0.committed_blocks) same ∙ r.0,
          ap (λ (m : HotStuffNode × Option HotStuffMsg). m.0.phase) same ∙ r.1,
          ap (λ (m : HotStuffNode × Option HotStuffMsg). m.0.pending_block) same ∙ r.2,
        )

    count_vote-round : (phase : Phase) → (count_vote x order phase n v).0.round ≡ n.round
    unfolding count_vote
    count_vote-round prepare = count_prepare_keeps.1
    count_vote-round pre_commit = count_precommit_keeps.1
    count_vote-round commit = count_commit-round
    count_vote-round decide = refl

    pub handle_vote-round : (handle_vote x order n v).0.round ≡ n.round
    unfolding handle_vote
    handle_vote-round = ground (arith, count_vote-round n.phase)

  pub handle_propose_keeps :
      (n : HotStuffNode) (b : Block) (q : Option QuorumCert)
      → ((handle_propose x n b q).0.committed_blocks ≡ n.committed_blocks)
        × ((handle_propose x n b q).0.round ≡ n.round)
  unfolding handle_propose
  handle_propose_keeps n b q = ground arith

  -- A new view commits nothing; the node's round becomes the greater of its own and the announced
  -- one, the round of its highest certificate is no lower than before nor than the announced
  -- one's, and if the node's round rises it starts that round afresh.
  pub handle_new_view_lem :
      (n : HotStuffNode) (round : ℕ) (qc : QuorumCert)
      → let n' = (handle_new_view x n round qc).0 in
        (n'.committed_blocks ≡ n.committed_blocks)
        × (n'.round ≡ max n.round round)
        × (qc_round n.high_qc ≤ qc_round n'.high_qc)
        × (qc.round ≤ qc_round n'.high_qc)
        × (((n.round < round)
              × (n'.phase ≡ prepare)
              × (n'.pending_block ≡ none)
              × (n'.commit_votes ≡ []))
            ⊎ ((round ≤ n.round) × (n'.phase ≡ n.phase) × (n'.pending_block ≡ n.pending_block)))
  unfolding handle_new_view
  handle_new_view_lem n round qc =
      (ground arith, ground arith, ground arith, ground arith, ground arith)
