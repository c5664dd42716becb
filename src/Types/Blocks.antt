-- ===== src/Types/Blocks.antt =====
-- Block headers and blocks (src/types.rs).
use vela_network.Types.Data.{Hash, hash_zero, Address, Transaction, BlockHeader, Block}
use vela_network.Types.External.{Crates}
use vela_network.Types.Signing.{hash_of}
use vela_network.Types.Merkle.{merkle_root}
use vela_network.Common.{ℕ, List, [], Option, none, some, Bytes, replicate}

-- `unwrap_or_default()`
abbrev bytes_or_default : Option Bytes → Bytes
bytes_or_default none = []
bytes_or_default (some b) = b

module _ (x : Crates) where
  -- `BlockHeader::hash`
  unfoldable pub header_hash : BlockHeader → Hash
  unfolding hash_of
  header_hash h = hash_of x (bytes_or_default (x.serialize_header h))

  -- `Block::hash`
  unfoldable pub block_hash : Block → Hash
  unfolding header_hash
  block_hash b = header_hash b.header

  -- `Block::new`, at the time `now`; `none` where `merkle_root` gives none.
  unfoldable pub new_block : ℕ → Hash → List Transaction → Address → ℕ → ℕ → Option Block
  unfolding merkle_root
  new_block height parent_hash transactions proposer round now = elim (merkle_root x transactions) [
    | none ↦ none
    | some tx_root ↦ some (record {
      header = record {
        height = height;
        parent_hash = parent_hash;
        tx_root = tx_root;
        state_root = hash_zero;
        timestamp = now;
        proposer = proposer;
        round = round;
      };
      transactions = transactions;
      qc = none;
    })
  ]

-- `Block::genesis`
unfoldable pub genesis : Block
genesis = record {
  header = record {
    height = 0;
    parent_hash = hash_zero;
    tx_root = hash_zero;
    state_root = hash_zero;
    timestamp = 1_700_000_000_000;
    proposer = record { bytes = replicate 32 0 };
    round = 0;
  };
  transactions = [];
  qc = none;
}
