-- ===== src/Examples/Votes/Phases.antt =====
-- The votes of a node on three quorums, and a proposal between two of them.
unfoldable use native.Mathlib.Decide.{ℕ_discrete}
use vela_network.Examples.Setup.{crates, crates-IsLawful}
use vela_network.Examples.Votes.{
  secret, validator, alone, proposal, own_vote, as_given, as_given-IsOrder, proposed, voted,
}
use vela_network.Common.{
  ◌+◌, ◌≤◌, ◌≡◌, refl, ap, true, none, some, List, [], ◌∷◌, length, push, arith, sub64,
}
use vela_network.Common.Dict.{insert, text_discrete}
use vela_network.Types.{hash_zero, QuorumCert, Block, block_hash, sign_vote, verify_vote}
use vela_network.Types.Laws.{verify_vote-sign_vote}
use vela_network.Consensus.{
  new_config, quorum_size, commit, HotStuffNode, new_node, form_qc, handle_propose, handle_vote,
}
use vela_network.Consensus.Finality.{commit_tally}
use vela_network.Consensus.Runs.{Run, here, next, gets_proposal, gets_vote}
use vela_network.Consensus.Phases.{HasQuorum, handle_vote-HasQuorum, handle_vote-handle_propose}

-- A node that has voted twice is in the commit phase, with a lock on `proposal`.
abbrev committing_node : HotStuffNode
committing_node = voted (voted proposed)

abbrev lock : QuorumCert
lock = record { block_hash = block_hash crates proposal; round = 0; votes = own_vote ∷ [] }

abbrev grandchild : Block
grandchild = record proposal {
  header = record {
    height = 2;
    parent_hash = block_hash crates proposal;
    tx_root = hash_zero;
    state_root = hash_zero;
    timestamp = 10;
    proposer = validator.address;
    round = 0;
  };
}

before_last : Run crates alone committing_node
before_last =
    next
      (next (next here (gets_proposal proposal none refl))
        (gets_vote as_given own_vote as_given-IsOrder refl))
      (gets_vote as_given own_vote as_given-IsOrder refl)

before_last_state :
    (committing_node.phase ≡ commit)
    × (committing_node.locked_qc ≡ some lock)
    × (length (voted committing_node).committed_blocks
        ≡ length committing_node.committed_blocks + 1)
    × (quorum_size committing_node.config ≤ length (commit_tally crates committing_node own_vote))
unfolding handle_vote handle_propose verify_vote crates sign_vote block_hash new_node text_discrete
    ℕ_discrete insert new_config quorum_size sub64
before_last_state = (refl, refl, refl, omega arith)

handle_vote-HasQuorum_example :
    HasQuorum crates (new_config (validator ∷ [])) committing_node.prepare_votes
    × HasQuorum crates (new_config (validator ∷ [])) committing_node.precommit_votes
    × HasQuorum crates (new_config (validator ∷ [])) (commit_tally crates committing_node own_vote)
handle_vote-HasQuorum_example =
    handle_vote-HasQuorum crates validator.address secret (new_config (validator ∷ [])) as_given
      own_vote before_last
      (λ e.
        let lengths = ap (λ (bs : List Block). length bs) e in
        omega (arith, before_last_state, lengths))

own_vote_verifies : verify_vote crates own_vote ≡ true
own_vote_verifies =
    verify_vote-sign_vote crates crates-IsLawful (block_hash crates proposal) 0 secret

handle_vote-handle_propose_example :
    (handle_vote crates as_given
      (handle_propose crates committing_node grandchild none).0
      own_vote).0.committed_blocks
    ≡ push committing_node.committed_blocks (record grandchild {
      qc = some (
          form_qc as_given
            (record committing_node { commit_votes = commit_tally crates committing_node own_vote })
            commit);
    })
handle_vote-handle_propose_example =
    handle_vote-handle_propose crates as_given committing_node lock grandchild none own_vote
      before_last_state.0 before_last_state.1 refl own_vote_verifies before_last_state.3
