-- ===== src/Crypto.antt =====
-- src/crypto/mod.rs: a key with its address.
use vela_network.Common.{Bytes}
use vela_network.Types.{Crates, Address, address_of_key}

pub record Keypair : Type 0 where
  pub signing_key : Bytes
  pub address : Address

-- `Keypair::generate`, of the 32 bytes that the generator of the system draws
unfoldable pub generate : Crates → Bytes → Keypair
unfolding address_of_key
generate x secret = record { signing_key = secret; address = address_of_key x secret }
