-- ===== src/System.antt =====
-- Several nodes of src/main.rs on one network, which delivers to a node any message that a node has
-- sent, at any time, as often as it likes or never.
pub mod Soundness
pub mod Own
pub mod Moves
use vela_network.Common.{ℕ, ◌≡◌, List, [], ◌∷◌, All, length, ◌≤◌, some, none, ◌⊎◌, true}
use vela_network.Types.{Crates, Transaction, Block, merkle_root, verify_tx}
use vela_network.Node.{
  Node, NetworkMessage, new_block_msg, new_transaction, consensus_vote, consensus_propose,
  sync_request, sync_response,
}

module _ (x : Crates) where
  -- A transaction between two addresses of 32 bytes, with no signature or one that verifies.
  pub record IsSoundTx (tx : Transaction) : Type 0 where
    pub from : length tx.from.bytes ≡ 32
    pub to : length tx.to.bytes ≡ 32
    pub signed : (tx.signature ≡ none) ⊎ (verify_tx x tx ≡ true)

  -- A block of a hundred such transactions at most, with their Merkle root.
  pub record IsSoundBlock (b : Block) : Type 0 where
    pub root : merkle_root x b.transactions ≡ some b.header.tx_root
    pub size : length b.transactions ≤ 100
    pub transactions : All IsSoundTx b.transactions

  -- What a message carries.
  abbrev pub IsSoundMessage : NetworkMessage → Type 0
  IsSoundMessage (new_block_msg b) = IsSoundBlock b
  IsSoundMessage (new_transaction tx) = IsSoundTx tx
  IsSoundMessage (consensus_vote v) = Unit
  IsSoundMessage (consensus_propose b) = IsSoundBlock b
  IsSoundMessage (sync_request h) = Unit
  IsSoundMessage (sync_response bs) = All IsSoundBlock bs

  -- A node of which chain, pool and sent messages are sound.
  pub record IsSoundNode {Db : Type 0} (n : Node Db) : Type 0 where
    pub blocks : All IsSoundBlock n.blocks
    pub mempool : All IsSoundTx n.mempool
    pub outbox : All IsSoundMessage n.outbox
