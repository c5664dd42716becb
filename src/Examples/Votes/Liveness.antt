-- ===== src/Examples/Votes/Liveness.antt =====
-- A node of four validators, three of which vote in each phase.
unfoldable use native.Mathlib.Decide.{ℕ_discrete}
use vela_network.Examples.Setup.{crates, crates-IsLawful}
use vela_network.Examples.Votes.{secret, validator, four, proposal, as_given}
use vela_network.Common.{
  ℕ, ◌≡◌, refl, true, none, some, List, [], ◌∷◌, ◌++◌, push, replicate, sub64,
}
use vela_network.Common.Dict.{text_discrete}
use vela_network.Common.Pigeonhole.{is_in}
use vela_network.Types.{Vote, QuorumCert, block_hash, sign_vote, verify_vote}
use vela_network.Types.Laws.{verify_vote-sign_vote}
use vela_network.Consensus.{new_config, quorum_size, decide, HotStuffNode, new_node}
use vela_network.Consensus.Filing.{IsQuorum, handle_all}
use vela_network.Consensus.Liveness.{handle_all-commits}

abbrev waiting : HotStuffNode
waiting = record (new_node validator.address secret (new_config four)) {
  pending_block = some proposal;
}

abbrev by : ℕ → Vote
by k = sign_vote crates (block_hash crates proposal) 0 (replicate 32 k)

abbrev three : List Vote
three = by 5 ∷ by 7 ∷ by 8 ∷ []

by-verifies : (k : ℕ) → verify_vote crates (by k) ≡ true
by-verifies k =
    verify_vote-sign_vote crates crates-IsLawful (block_hash crates proposal) 0 (replicate 32 k)

three-IsQuorum : IsQuorum crates as_given (quorum_size waiting.config) three
unfolding crates sign_vote is_in text_discrete ℕ_discrete new_node new_config quorum_size sub64
three-IsQuorum = record {
  verified = (by-verifies 5, (by-verifies 7, (by-verifies 8, tt)));
  apart = (refl, (refl, (refl, tt)));
  size = refl;
}

handle_all-commits_example :
    let n' = handle_all crates as_given waiting (three ++ (three ++ three)) in
    (qc lock : QuorumCert) × (n'.committed_blocks
      ≡ push waiting.committed_blocks (record proposal { qc = some qc }))
    × (n'.phase ≡ decide)
    × (n'.locked_qc ≡ some lock)
    × (n'.pending_block ≡ none)
    × (qc.round ≡ waiting.round)
    × (lock.round ≡ waiting.round)
unfolding new_node
handle_all-commits_example =
    handle_all-commits crates as_given waiting proposal three three three refl refl refl refl refl
      three-IsQuorum three-IsQuorum three-IsQuorum
