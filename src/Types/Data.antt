-- ===== src/Types/Data.antt =====
-- The structs of src/types.rs. `Hash` and `Address` wrap a `[u8; 32]`, given by its bytes.
use vela_network.Common.{ℕ, List, Option, Bytes, replicate}

pub record Hash : Type 0 where
  pub bytes : Bytes

pub record Address : Type 0 where
  pub bytes : Bytes

-- `Hash::ZERO`
abbrev pub hash_zero : Hash
hash_zero = record { bytes = replicate 32 0 }

-- Amounts, fees and nonces are u64; the timestamp is an i64.
pub record Transaction : Type 0 where
  pub from : Address
  pub to : Address
  pub amount : ℕ
  pub fee : ℕ
  pub nonce : ℕ
  pub timestamp : ℕ
  pub payload : Bytes  -- the field `data`
  pub signature : Option Bytes

pub record Vote : Type 0 where
  pub block_hash : Hash
  pub round : ℕ
  pub voter : Address
  pub signature : Bytes

pub record QuorumCert : Type 0 where
  pub block_hash : Hash
  pub round : ℕ
  pub votes : List Vote

pub record BlockHeader : Type 0 where
  pub height : ℕ
  pub parent_hash : Hash
  pub tx_root : Hash
  pub state_root : Hash
  pub timestamp : ℕ
  pub proposer : Address
  pub round : ℕ

pub record Block : Type 0 where
  pub header : BlockHeader
  pub transactions : List Transaction
  pub qc : Option QuorumCert

pub record Account : Type 0 where
  pub address : Address
  pub balance : ℕ
  pub nonce : ℕ

-- `Account::new`
unfoldable pub new_account : Address → Account
new_account address = record { address = address; balance = 0; nonce = 0 }

pub record Validator : Type 0 where
  pub address : Address
  pub stake : ℕ
  pub index : ℕ
