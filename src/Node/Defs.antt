-- ===== src/Node/Defs.antt =====
-- The state of a node and the steps of its tasks (src/main.rs, src/network/mod.rs).
use vela_network.Common.{
  ℕ, ◌%◌, Option, none, some, List, [], ◌∷◌, push, take, last?, Bool, ltb, ◌==◌, if◌then◌else◌,
  add64, replicate, ◌>>=◌,
}
use vela_network.Types.{
  Crates, Hash, hash_zero, Transaction, Vote, Block, genesis, merkle_root, block_hash, sign_vote,
}
use vela_network.State.{WorldState, apply_block}
use vela_network.Consensus.{HotStuffNode, handle_vote, handle_propose}
use vela_network.Storage.{Sled, save_block}

-- `NetworkMessage` of src/network/mod.rs
pub data NetworkMessage : Type 0 where
  new_block_msg : Block → NetworkMessage
  new_transaction : Transaction → NetworkMessage
  consensus_vote : Vote → NetworkMessage
  consensus_propose : Block → NetworkMessage
  sync_request : ℕ → NetworkMessage
  sync_response : List Block → NetworkMessage

-- The three topics of src/network/mod.rs.
pub data Topic : Type 0 where
  vela_blocks vela_transactions vela_consensus : Topic

-- the topic on which `P2PNode::run` publishes a message
unfoldable pub topic_of : NetworkMessage → Topic
topic_of (new_block_msg b) = vela_blocks
topic_of (new_transaction tx) = vela_transactions
topic_of (consensus_vote v) = vela_consensus
topic_of (consensus_propose b) = vela_consensus
topic_of (sync_request h) = vela_blocks
topic_of (sync_response bs) = vela_blocks

-- What the tasks share. `outbox` is what was sent to the network, the oldest first; `round` is the
-- counter of the task that produces blocks.
pub record Node (Db : Type 0) : Type 0 where
  pub blocks : List Block
  pub mempool : List Transaction
  pub world_state : WorldState
  pub hotstuff : HotStuffNode
  pub db : Db
  pub outbox : List NetworkMessage
  pub round : ℕ

-- `blocks.last().map(|b| b.header.height).unwrap_or(0)`
unfoldable pub tip_height : List Block → ℕ
tip_height blocks = elim (last? blocks) [ none ↦ 0 | some b ↦ b.header.height ]

-- `blocks.iter().filter(|b| b.header.height > from_height)`
unfoldable pub blocks_above : ℕ → List Block → List Block
blocks_above h [] = []
blocks_above h (b ∷ bs) = if ltb h b.header.height then b ∷ blocks_above h bs else blocks_above h bs

module _ {Db Val : Type 0} (x : Crates) (s : Sled Db Val) where
  -- `db.save_block(&block).ok()`: an error is dropped.
  unfoldable pub try_save : Db → Block → Db
  unfolding save_block
  try_save db b = elim (save_block s db b) [ none ↦ db | some db' ↦ db' ]

  unfoldable pub send : Node Db → NetworkMessage → Node Db
  send n m = record n { outbox = push n.outbox m }

  -- `apply_block`, `save_block` and `push` of a block, in turn
  unfoldable pub append_block : Node Db → Block → Node Db
  unfolding apply_block try_save
  append_block n b = record n {
    world_state = apply_block x n.world_state b;
    db = try_save n.db b;
    blocks = push n.blocks b;
  }

  -- the test `block.header.height == tip + 1`
  unfoldable pub is_next : List Block → Block → Bool
  unfolding tip_height
  is_next blocks b = b.header.height == add64 (tip_height blocks) 1

  -- `Vote::sign(block.hash(), block.header.round, &hs.signing_key)`
  unfoldable pub vote_for : Node Db → Block → Vote
  unfolding sign_vote block_hash
  vote_for n b = sign_vote x (block_hash x b) b.header.round n.hotstuff.signing_key

  -- `NetworkMessage::NewBlock`
  unfoldable pub on_new_block : Node Db → Block → Node Db
  unfolding append_block is_next vote_for send
  on_new_block n b =
      if is_next n.blocks b then send (append_block n b) (consensus_vote (vote_for n b)) else n

  -- `NetworkMessage::NewTransaction`
  unfoldable pub on_new_transaction : Node Db → Transaction → Node Db
  on_new_transaction n tx = record n { mempool = push n.mempool tx }

  -- `NetworkMessage::ConsensusVote`; the answer is the placeholder that the source sends.
  unfoldable pub on_vote : (List Vote → List Vote) → Node Db → Vote → Node Db
  unfolding handle_vote send genesis
  on_vote order n v =
      let (hs, answer) = handle_vote x order n.hotstuff v in
      let n' : Node Db = record n { hotstuff = hs } in
      elim answer [ none ↦ n' | some m ↦ send n' (new_block_msg genesis) ]

  -- `NetworkMessage::ConsensusPropose`
  unfoldable pub on_propose : Node Db → Block → Node Db
  unfolding handle_propose send vote_for
  on_propose n b =
      let (hs, answer) = handle_propose x n.hotstuff b none in
      let n' : Node Db = record n { hotstuff = hs } in
      elim answer [ none ↦ n' | some m ↦ send n' (consensus_vote (vote_for n' b)) ]

  -- `NetworkMessage::SyncRequest`
  unfoldable pub on_sync_request : Node Db → ℕ → Node Db
  unfolding blocks_above send
  on_sync_request n h = elim (blocks_above h n.blocks) [
    | [] ↦ n
    | b ∷ bs ↦ send n (sync_response (b ∷ bs))
  ]

  -- `NetworkMessage::SyncResponse`: the loop over the blocks
  unfoldable pub on_sync_response : Node Db → List Block → Node Db
  unfolding append_block is_next
  on_sync_response n [] = n
  on_sync_response n (b ∷ bs) =
      on_sync_response (if is_next n.blocks b then append_block n b else n) bs

  -- the `match` on a message from the network
  unfoldable pub receive : (List Vote → List Vote) → Node Db → NetworkMessage → Node Db
  unfolding on_new_block on_new_transaction on_vote on_propose on_sync_request on_sync_response
  receive order n (new_block_msg b) = on_new_block n b
  receive order n (new_transaction tx) = on_new_transaction n tx
  receive order n (consensus_vote v) = on_vote order n v
  receive order n (consensus_propose b) = on_propose n b
  receive order n (sync_request h) = on_sync_request n h
  receive order n (sync_response bs) = on_sync_response n bs

  -- the request that a node sends two seconds after its start
  unfoldable pub request_sync : Node Db → Node Db
  unfolding send tip_height
  request_sync n = send n (sync_request (tip_height n.blocks))

  -- the block that the leader makes on `tip`, at the time `now`, of transactions with the root given
  unfoldable pub next_block : ℕ → ℕ → Block → List Transaction → Hash → Block
  unfolding block_hash
  next_block now round tip txs tx_root = record {
    header = record {
      height = add64 tip.header.height 1;
      parent_hash = block_hash x tip;
      tx_root = tx_root;
      state_root = hash_zero;
      timestamp = now;
      proposer = record { bytes = replicate 32 0 };
      round = round;
    };
    transactions = txs;
    qc = none;
  }

  -- What the leader does with its block, once the pool is drained.
  unfoldable pub release : Node Db → Block → Node Db
  unfolding append_block send
  release n block =
      let n' : Node Db = append_block (record n { mempool = [] }) block in
      send (send n' (consensus_propose block)) (new_block_msg block)

  -- The leader's part of a round of block production, at the time `now`. `drain(..).take(100)`
  -- takes the first hundred transactions and, when it is dropped, removes the rest. `none` is the
  -- panic of `unwrap` on an empty chain, or of the Merkle root.
  unfoldable pub lead_round : ℕ → Node Db → Option (Node Db)
  unfolding merkle_root next_block release
  lead_round now n = do
    tip ← last? n.blocks
    let txs = take 100 n.mempool
    tx_root ← merkle_root x txs
    some (release n (next_block now n.round tip txs tx_root))

  -- One round of the task that produces blocks.
  unfoldable pub produce : ℕ → ℕ → Node Db → Option (Node Db)
  unfolding lead_round
  produce validator_index now n = do
    n' ← (if n.round % 3 == validator_index then lead_round now n else some n)
    some (record n' { round = add64 n'.round 1 })

  -- A transaction that the RPC server hands over is sent to the network.
  unfoldable pub broadcast : Node Db → Transaction → Node Db
  unfolding send
  broadcast n tx = send n (new_transaction tx)
