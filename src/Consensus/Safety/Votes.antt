-- ===== src/Consensus/Safety/Votes.antt =====
-- Counting a vote keeps the invariant of a consensus node (`handle_vote` of
-- src/consensus/hotstuff.rs).
use mathlib.Core.Path.{subst}
use vela_network.Consensus.Config.{ConsensusConfig, quorum_size}
use vela_network.Consensus.Node.{
  Phase, prepare, pre_commit, commit, decide, HotStuffNode, form_qc, votes_of,
}
use vela_network.Consensus.Handlers.{
  handle_vote, count_vote, count_prepare, count_precommit, count_commit, voter_key,
}
use vela_network.Consensus.Certificates.{
  IsOrder, insert-IsTally, IsCertificate, form_qc-IsCertificate,
}
use vela_network.Common.{◌≡◌, true, List, length, leb, leb→le, inl, inr, Bool-cases}
use vela_network.Common.Dict.{insert}
use vela_network.Types.{Crates, Vote, verify_vote}
use vela_network.Consensus.Safety.{IsSound, IsSound-same, IsSound-tallies, commit_block-IsSound}

module _ (x : Crates) where
  module _ (order : List Vote → List Vote) (any : IsOrder order) (c : ConsensusConfig)
      (n : HotStuffNode) (v : Vote) (verified : verify_vote x v ≡ true) (h : IsSound x c n) where
    -- The node with one more vote in a tally.
    counted_prepare : HotStuffNode
    counted_prepare = record n { prepare_votes = insert (voter_key x v) v n.prepare_votes }

    counted_precommit : HotStuffNode
    counted_precommit = record n { precommit_votes = insert (voter_key x v) v n.precommit_votes }

    counted_commit : HotStuffNode
    counted_commit = record n { commit_votes = insert (voter_key x v) v n.commit_votes }

    count_prepare-IsSound : IsSound x c (count_prepare x order n v).0
    unfolding count_prepare counted_prepare
    count_prepare-IsSound =
        let tally = insert-IsTally x v n.prepare_votes verified h.prepare_tally in
        let sound = IsSound-tallies x c n _ _ _ h tally h.precommit_tally h.commit_tally in
        elim (Bool-cases (leb (quorum_size n.config) (length counted_prepare.prepare_votes))) [
          | inl q ↦ rw q (IsSound-same x c counted_prepare pre_commit n.pending_block _ sound)
          | inr q ↦ rw q sound
        ]

    count_precommit-IsSound : IsSound x c (count_precommit x order n v).0
    unfolding count_precommit counted_precommit
    count_precommit-IsSound =
        let tally = insert-IsTally x v n.precommit_votes verified h.precommit_tally in
        let sound = IsSound-tallies x c n _ _ _ h h.prepare_tally tally h.commit_tally in
        elim (Bool-cases (leb (quorum_size n.config) (length counted_precommit.precommit_votes))) [
          | inl q ↦ rw q (record {
            configured = h.configured;
            prepare_tally = h.prepare_tally;
            precommit_tally = tally;
            commit_tally = h.commit_tally;
            locked =
                subst (λ d. IsCertificate x d (form_qc order counted_precommit pre_commit))
                  h.configured
                  (unfold votes_of in
                    form_qc-IsCertificate x order counted_precommit pre_commit any tally
                      (leb→le _ _ q));
            certified = h.certified;
          })
          | inr q ↦ rw q sound
        ]

    count_commit-IsSound : IsSound x c (count_commit x order n v).0
    unfolding count_commit counted_commit
    count_commit-IsSound =
        let tally = insert-IsTally x v n.commit_votes verified h.commit_tally in
        let sound = IsSound-tallies x c n _ _ _ h h.prepare_tally h.precommit_tally tally in
        elim (Bool-cases (leb (quorum_size n.config) (length counted_commit.commit_votes))) [
          | inl q ↦ rw q (
              commit_block-IsSound x c (record counted_commit { phase = decide })
                (form_qc order counted_commit commit)
                (IsSound-same x c counted_commit decide n.pending_block n.high_qc sound)
                (subst (λ d. IsCertificate x d (form_qc order counted_commit commit)) h.configured
                  (unfold votes_of in
                    form_qc-IsCertificate x order counted_commit commit any tally (leb→le _ _ q))))
          | inr q ↦ rw q sound
        ]

    count_vote-IsSound : (phase : Phase) → IsSound x c (count_vote x order phase n v).0
    unfolding count_vote
    count_vote-IsSound prepare = count_prepare-IsSound
    count_vote-IsSound pre_commit = count_precommit-IsSound
    count_vote-IsSound commit = count_commit-IsSound
    count_vote-IsSound decide = h

  pub handle_vote-IsSound :
      (order : List Vote → List Vote) (c : ConsensusConfig) (n : HotStuffNode) (v : Vote)
      → IsOrder order
      → IsSound x c n
      → IsSound x c (handle_vote x order n v).0
  unfolding handle_vote
  handle_vote-IsSound order c n v any h = elim (Bool-cases (verify_vote x v)) [
    | inl e ↦ rw e (count_vote-IsSound order any c n v e h n.phase)
    | inr e ↦ rw e h
  ]
