-- ===== src/Examples/Chains/Outcomes.antt =====
-- What becomes of the node's engine, accounts and chain in small runs.
use mathlib.Core.List.Perm
use vela_network.Examples.Setup.{crates, crates-IsLawful, sled}
use vela_network.Common.{ℕ, ◌≡◌, refl, some, List, [], ◌∷◌, length, Bytes, arith}
use vela_network.Types.{Vote, Block, genesis}
use vela_network.Node.{Node, new_block_msg, receive}
use vela_network.Node.{boot, validator_seed}
use vela_network.Node.Steps.{here, next, receives}
use vela_network.Node.Production.{lead_round_lem}
use vela_network.Types.{block_hash}
use vela_network.Node.{consensus_propose, consensus_vote, vote_for, lead_round}
use vela_network.Common.{◌≢◌, ◌≤◌, Option, none, true}
use vela_network.Consensus.{decide, new_config}
use vela_network.Consensus.Safety.{IsSound}
use vela_network.Node.{validators_from, validator_keys}
use vela_network.Node.Finality.{Run-commits_once}
use vela_network.Node.Decision.{Decided, receive_all, receive_all-Decided}
use vela_network.Types.{verify_vote}
use vela_network.Types.Laws.{verify_vote-sign_vote}
use vela_network.Node.Agreement.{Run-agrees}
use vela_network.Node.{replay_from}
use vela_network.Rpc.Queries.{get_balance}
use vela_network.Common.{Text}
use vela_network.Node.Accounts.{Run-IsWorld}
use vela_network.State.Words.{IsWorld}
use vela_network.Node.Forks.{lead_round-forks}
use vela_network.Examples.Chains.{
  as_given, first, second, empty_db, started, starts, started-IsConsistent, after_sync, run, grown,
}

Run-commits_once_example :
    IsSound crates (new_config (validators_from crates 0 validator_keys)) after_sync.hotstuff
    × (after_sync.hotstuff.round ≡ 0)
    × (length after_sync.hotstuff.committed_blocks ≤ 2)
Run-commits_once_example = Run-commits_once crates sled 1 empty_db starts run

-- The node, had its engine decided, and after the vote of another validator.
abbrev decided : Node (List (Bytes × Block))
decided = record started { hotstuff = record started.hotstuff { phase = decide } }

abbrev ballot : Vote
ballot = vote_for crates sled (boot crates sled (validator_seed 2) [] []) genesis

abbrev after_vote : Node (List (Bytes × Block))
after_vote = receive crates sled as_given decided (consensus_vote ballot)

node_or :
    Node (List (Bytes × Block)) → Option (Node (List (Bytes × Block))) → Node (List (Bytes × Block))
node_or m none = m
node_or m (some n) = n

is_some :
    (o : Option (Node (List (Bytes × Block)))) (m n : Node (List (Bytes × Block)))
    → o ≡ some n
    → o ≡ some (node_or m o)
unfolding node_or
is_some o m n e = rw e refl

-- The node after it led a round at a time.
abbrev led : ℕ → Node (List (Bytes × Block))
led now = node_or started (lead_round crates sled now started)

led_lem : (now : ℕ) → lead_round crates sled now started ≡ some (led now)
led_lem now =
    let chain = started-IsConsistent.chain in
    is_some (lead_round crates sled now started) started _
      (lead_round_lem crates sled now started chain).4

abbrev after_fork : Node (List (Bytes × Block))
after_fork = receive crates sled as_given (led 12) (new_block_msg second)

lead_round-forks_example : after_fork.blocks ≢ (led 13).blocks
lead_round-forks_example =
    lead_round-forks crates sled 12 13 started started refl (λ e. omega (arith, e)) (led_lem 12)
      (led_lem 13) (next here (receives as_given (new_block_msg second) (λ vs. Perm.refl vs) refl))
      here

Run-IsWorld_example : IsWorld crates after_sync.world_state
Run-IsWorld_example = Run-IsWorld crates sled 1 empty_db starts run

-- A vote of the node for the first block, which it is sent three times.
abbrev own_vote : Vote
own_vote = vote_for crates sled started first

own_vote-verifies : verify_vote crates own_vote ≡ true
unfolding vote_for
own_vote-verifies =
    verify_vote-sign_vote crates crates-IsLawful (block_hash crates first) first.header.round
      started.hotstuff.signing_key

receive_all-Decided_example :
    Decided crates as_given
      (receive_all crates sled as_given started (
        consensus_propose first
        ∷ consensus_vote own_vote
        ∷ consensus_vote own_vote
        ∷ consensus_vote own_vote
        ∷ [])).hotstuff
      first
      own_vote
receive_all-Decided_example =
    receive_all-Decided crates sled as_given 1 empty_db first own_vote own_vote own_vote starts
      own_vote-verifies own_vote-verifies own_vote-verifies

Run-agrees_example :
    (after_sync.world_state
      ≡ record (replay_from crates started.world_state (first ∷ second ∷ [])) {
        faucet_last = after_sync.world_state.faucet_last;
      })
    × (first ∷ second ∷ [] ≡ []
        → (address : Text)
        → get_balance crates after_sync.world_state address
          ≡ get_balance crates started.world_state address)
Run-agrees_example =
    Run-agrees crates sled (first ∷ second ∷ []) started-IsConsistent started-IsConsistent here run
      grown
