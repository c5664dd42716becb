-- ===== src/Consensus/Node.antt =====
-- The state of a consensus node, its messages and its internal steps
-- (src/consensus/hotstuff.rs).
use vela_network.Consensus.Config.{ConsensusConfig, is_leader}
use vela_network.Common.{
  ℕ, Bool, Option, none, some, List, [], ◌∷◌, Bytes, length, last?, push, sub64,
}
use vela_network.Common.Dict.{Dict, values}
use vela_network.Types.{Hash, hash_zero, Address, Vote, QuorumCert, Block, genesis}

pub data Phase : Type 0 where
  prepare pre_commit commit decide : Phase

pub data HotStuffMsg : Type 0 where
  propose_msg : Block → Option QuorumCert → HotStuffMsg
  vote_msg : Vote → HotStuffMsg
  new_view : ℕ → QuorumCert → HotStuffMsg
  timeout : ℕ → Address → HotStuffMsg

pub record HotStuffNode : Type 0 where
  pub address : Address
  pub signing_key : Bytes
  pub config : ConsensusConfig
  pub round : ℕ
  pub phase : Phase
  pub locked_qc : Option QuorumCert
  pub high_qc : Option QuorumCert
  pub prepare_votes : Dict Vote
  pub precommit_votes : Dict Vote
  pub commit_votes : Dict Vote
  pub committed_blocks : List Block
  pub pending_block : Option Block

-- `HotStuffNode::new`
unfoldable pub new_node : Address → Bytes → ConsensusConfig → HotStuffNode
unfolding genesis
new_node address signing_key config = record {
  address = address;
  signing_key = signing_key;
  config = config;
  round = 0;
  phase = prepare;
  locked_qc = none;
  high_qc = none;
  prepare_votes = [];
  precommit_votes = [];
  commit_votes = [];
  committed_blocks = genesis ∷ [];
  pending_block = none;
}

-- `HotStuffNode::is_leader`; `none` where the configuration's `is_leader` panics
unfoldable pub node_is_leader : HotStuffNode → Option Bool
unfolding is_leader
node_is_leader n = is_leader n.config n.round n.address

-- `HotStuffNode::chain_height`
unfoldable pub chain_height : HotStuffNode → ℕ
unfolding sub64
chain_height n = sub64 (length n.committed_blocks) 1

-- `HotStuffNode::tip`; `none` is the panic of `unwrap`
unfoldable pub tip : HotStuffNode → Option Block
tip n = last? n.committed_blocks

-- The votes of a phase: those that `form_qc` reads.
unfoldable pub votes_of : HotStuffNode → Phase → Dict Vote
votes_of n prepare = n.prepare_votes
votes_of n pre_commit = n.precommit_votes
votes_of n commit = n.commit_votes
votes_of n decide = []

unfoldable pub first_block_hash : List Vote → Hash
first_block_hash [] = hash_zero
first_block_hash (v ∷ vs) = v.block_hash

-- `HotStuffNode::form_qc`. The order in which a `HashMap` gives its values is unspecified: it is
-- the argument `order`.
unfoldable pub form_qc : (List Vote → List Vote) → HotStuffNode → Phase → QuorumCert
unfolding votes_of first_block_hash
form_qc order n phase =
    let votes = order (values (votes_of n phase)) in
    record { block_hash = first_block_hash votes; round = n.round; votes = votes }

-- `HotStuffNode::commit_block`
unfoldable pub commit_block : HotStuffNode → QuorumCert → HotStuffNode
commit_block n qc = elim n.pending_block [
  | none ↦ n
  | some block ↦ record n {
    pending_block = none;
    committed_blocks = push n.committed_blocks (record block { qc = some qc });
    prepare_votes = [];
    precommit_votes = [];
    commit_votes = [];
  }
]

-- `HotStuffNode::advance_round`
unfoldable pub advance_round : HotStuffNode → ℕ → HotStuffNode
advance_round n new_round = record n {
  round = new_round;
  phase = prepare;
  pending_block = none;
  prepare_votes = [];
  precommit_votes = [];
  commit_votes = [];
}
