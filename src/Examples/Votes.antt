-- ===== src/Examples/Votes.antt =====
-- Consensus nodes on small inputs: one validator, whose own vote is a quorum, and four.
mod Phases
mod Locks
mod Liveness
unfoldable use native.Mathlib.Decide.{ℕ_discrete}
use mathlib.Core.List.{Perm}
use mathlib.Core.List.Perm
use vela_network.Examples.Setup.{crates}
use vela_network.Common.{
  ◌+◌, ◌*◌, ◌%◌, ◌<◌, ◌≡◌, ◌↔◌, refl, none, List, [], ◌∷◌, replicate, Bytes, length, arith,
}
use vela_network.Common.Dict.{insert, text_discrete}
use vela_network.Types.{
  hash_zero, Validator, Vote, Block, genesis, block_hash, sign_vote, verify_vote,
}
use vela_network.Consensus.{
  new_config, quorum_size, HotStuffNode, new_node, handle_propose, handle_vote,
}
use vela_network.Consensus.Quorum.{quorums_intersect_iff}
use vela_network.Consensus.Certificates.{IsOrder}
use vela_network.Consensus.Safety.{IsSound}
use vela_network.Consensus.Runs.{
  Run, here, next, gets_proposal, gets_vote, Continues, Run-IsSound, Run-Continues,
}

abbrev secret : Bytes
secret = replicate 32 5

abbrev validator : Validator
validator = record { address = record { bytes = secret }; stake = 1000; index = 0 }

abbrev four : List Validator
four =
    validator
    ∷ record validator { index = 1; address = record { bytes = replicate 32 6 } }
    ∷ record validator { index = 2; address = record { bytes = replicate 32 7 } }
    ∷ record validator { index = 3; address = record { bytes = replicate 32 8 } }
    ∷ []

abbrev alone : HotStuffNode
alone = new_node validator.address secret (new_config (validator ∷ []))

-- The block that `alone` proposes at the time 9.
abbrev proposal : Block
proposal = record genesis {
  header = record {
    height = 1;
    parent_hash = block_hash crates genesis;
    tx_root = hash_zero;
    state_root = hash_zero;
    timestamp = 9;
    proposer = validator.address;
    round = 0;
  };
}

abbrev own_vote : Vote
own_vote = sign_vote crates (block_hash crates proposal) 0 secret

abbrev as_given : List Vote → List Vote
as_given vs = vs

as_given-IsOrder : IsOrder as_given
as_given-IsOrder vs = Perm.refl vs

abbrev proposed : HotStuffNode
proposed = (handle_propose crates alone proposal none).0

abbrev voted : HotStuffNode → HotStuffNode
voted n = (handle_vote crates as_given n own_vote).0

-- A proposal and the three votes that commit it.
run : Run crates alone (voted (voted (voted proposed)))
run =
    next
      (next
        (next (next here (gets_proposal proposal none refl))
          (gets_vote as_given own_vote as_given-IsOrder refl))
        (gets_vote as_given own_vote as_given-IsOrder refl))
      (gets_vote as_given own_vote as_given-IsOrder refl)

Run-IsSound_example : IsSound crates (new_config (validator ∷ [])) (voted (voted (voted proposed)))
Run-IsSound_example = Run-IsSound crates validator.address secret (new_config (validator ∷ [])) run

Run-Continues_example : Continues crates alone (voted (voted (voted proposed)))
Run-Continues_example = Run-Continues crates run

run_test : length (voted (voted (voted proposed))).committed_blocks ≡ 2
unfolding handle_vote handle_propose verify_vote crates sign_vote block_hash new_node text_discrete
    ℕ_discrete insert new_config
run_test = refl

quorums_intersect_iff_example :
    (length four + (new_config four).f < 2 * quorum_size (new_config four)) ↔ (length four % 3 ≡ 1)
quorums_intersect_iff_example = quorums_intersect_iff four (omega arith) (omega arith)
