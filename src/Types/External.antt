-- ===== src/Types/External.antt =====
-- The third-party crates that the node calls (blake3, hex, ed25519-dalek, bincode), as a parameter.
-- Keys and signatures stand for their byte encodings; feeding a Blake3 hasher in pieces is hashing
-- the concatenation of the pieces.
use vela_network.Types.Data.{BlockHeader}
use vela_network.Common.{Bytes, Text, Bool, true, ◌≡◌, Option, some, All, IsByte, IsArray32}

pub record Crates : Type 0 where
  pub blake3 : Bytes → Bytes
  pub hex_encode : Bytes → Text
  pub hex_decode : Text → Option Bytes
  -- `SigningKey::verifying_key().to_bytes()`, from the 32 secret bytes
  pub verifying_key : Bytes → Bytes
  -- `key.sign(message).to_bytes()`
  pub sign_message : Bytes → Bytes → Bytes
  -- `Signature::from_slice` and `VerifyingKey::from_bytes`
  pub signature_from_slice : Bytes → Option Bytes
  pub key_from_bytes : Bytes → Option Bytes
  -- `pk.verify(message, signature).is_ok()`
  pub verify_signature : Bytes → Bytes → Bytes → Bool
  -- `bincode::serialize` of a block header
  pub serialize_header : BlockHeader → Option Bytes

-- What the crates document.
pub record IsLawful (x : Crates) : Type 0 where
  pub blake3-IsArray32 : (m : Bytes) → IsArray32 (x.blake3 m)
  -- decoding undoes encoding
  pub hex_decode-hex_encode : (b : Bytes) → All IsByte b → x.hex_decode (x.hex_encode b) ≡ some b
  -- the bytes of a key and of a signature that were made from a key are accepted when read back
  pub key_from_bytes-verifying_key :
      (k : Bytes) → x.key_from_bytes (x.verifying_key k) ≡ some (x.verifying_key k)
  pub signature_from_slice-sign_message :
      (k m : Bytes) → x.signature_from_slice (x.sign_message k m) ≡ some (x.sign_message k m)
  -- a signature verifies under the key that made it, for the message that was signed
  pub verify_signature-sign_message :
      (k m : Bytes) → x.verify_signature (x.verifying_key k) m (x.sign_message k m) ≡ true
