-- ===== src/Types/Signing.antt =====
-- Hashing, signing and verifying of transactions and votes, and the hexadecimal forms of hashes
-- and addresses (src/types.rs).
use vela_network.Types.Data.{Hash, Address, Transaction, Vote}
use vela_network.Types.External.{Crates}
use vela_network.Common.{
  ℕ, Bool, false, [], ◌∷◌, ◌++◌, Option, none, some, Bytes, Text, length, take, to_le_bytes,
  le_bytes, ◌==◌, if◌then◌else◌,
}

-- "vela:"
abbrev pub vela_prefix : Text
vela_prefix = b'v' ∷ b'e' ∷ b'l' ∷ b'a' ∷ b':' ∷ []

-- `Hash::as_bytes` and `Address::as_bytes`
unfoldable pub hash_as_bytes : Hash → Bytes
hash_as_bytes h = h.bytes

unfoldable pub address_as_bytes : Address → Bytes
address_as_bytes a = a.bytes

module _ (x : Crates) where
  -- `Hash::of`
  unfoldable pub hash_of : Bytes → Hash
  hash_of m = record { bytes = x.blake3 m }

  -- `Hash::to_hex`
  unfoldable pub hash_to_hex : Hash → Text
  hash_to_hex h = x.hex_encode h.bytes

  -- `Hash::from_hex`; `none` is either of its errors.
  unfoldable pub hash_from_hex : Text → Option Hash
  hash_from_hex s = elim (x.hex_decode s) [
    | none ↦ none
    | some bytes ↦ if length bytes == 32 then some (record { bytes = bytes }) else none
  ]

  -- `impl Display for Hash`
  unfoldable pub hash_display : Hash → Text
  unfolding hash_to_hex
  hash_display h = take 16 (hash_to_hex h)

  -- `impl Debug for Hash`
  unfoldable pub hash_debug : Hash → Text
  unfolding hash_display
  hash_debug h = b'H' ∷ b'a' ∷ b's' ∷ b'h' ∷ b'(' ∷ (hash_display h ++ b')' ∷ [])

  -- `Address::from_pubkey`, of the verifying key of a signing key
  unfoldable pub address_of_key : Bytes → Address
  address_of_key k = record { bytes = x.verifying_key k }

  -- `Address::to_hex`
  unfoldable pub address_to_hex : Address → Text
  address_to_hex a = vela_prefix ++ x.hex_encode a.bytes

  -- `impl Display for Address`
  unfoldable pub address_display : Address → Text
  address_display a = vela_prefix ++ take 16 (x.hex_encode a.bytes)

  -- `impl Debug for Address`
  unfoldable pub address_debug : Address → Text
  unfolding address_display
  address_debug a = address_display a

  -- `Transaction::signing_bytes`
  unfoldable pub signing_bytes : Transaction → Bytes
  unfolding le_bytes
  signing_bytes tx = x.blake3 (
      tx.from.bytes
      ++ (tx.to.bytes
          ++ (to_le_bytes tx.amount
              ++ (to_le_bytes tx.fee
                  ++ (to_le_bytes tx.nonce ++ (to_le_bytes tx.timestamp ++ tx.payload))))))

  -- `Transaction::sign`
  unfoldable pub sign_tx : Transaction → Bytes → Transaction
  unfolding signing_bytes
  sign_tx tx key = record tx { signature = some (x.sign_message key (signing_bytes tx)) }

  -- The checks that both `verify` methods make of a signature, a key and the signed bytes.
  unfoldable pub verify_with : Bytes → Bytes → Bytes → Bool
  verify_with sig_bytes key_bytes message = elim (x.signature_from_slice sig_bytes) [
    | none ↦ false
    | some sig ↦ elim (x.key_from_bytes key_bytes) [
      | none ↦ false
      | some pk ↦ x.verify_signature pk message sig
    ]
  ]

  -- `Transaction::verify`
  unfoldable pub verify_tx : Transaction → Bool
  unfolding verify_with signing_bytes
  verify_tx tx = elim tx.signature [
    | none ↦ false
    | some sig_bytes ↦ verify_with sig_bytes tx.from.bytes (signing_bytes tx)
  ]

  -- `Transaction::hash`
  unfoldable pub tx_hash : Transaction → Hash
  unfolding hash_of signing_bytes
  tx_hash tx = hash_of (signing_bytes tx)

  -- `Vote::signing_bytes`
  unfoldable pub vote_bytes : Hash → ℕ → Bytes
  unfolding le_bytes
  vote_bytes block_hash round = x.blake3 (block_hash.bytes ++ to_le_bytes round)

  -- `Vote::sign`
  unfoldable pub sign_vote : Hash → ℕ → Bytes → Vote
  unfolding vote_bytes address_of_key
  sign_vote block_hash round key = record {
    block_hash = block_hash;
    round = round;
    voter = address_of_key key;
    signature = x.sign_message key (vote_bytes block_hash round);
  }

  -- `Vote::verify`
  unfoldable pub verify_vote : Vote → Bool
  unfolding verify_with vote_bytes
  verify_vote v = verify_with v.signature v.voter.bytes (vote_bytes v.block_hash v.round)

-- `Transaction::new`, at the time `now`
unfoldable pub new_tx : Address → Address → ℕ → ℕ → ℕ → ℕ → Transaction
new_tx from to amount fee nonce now = record {
  from = from;
  to = to;
  amount = amount;
  fee = fee;
  nonce = nonce;
  timestamp = now;
  payload = [];
  signature = none;
}
