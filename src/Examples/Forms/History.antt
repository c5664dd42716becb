-- ===== src/Examples/Forms/History.antt =====
-- Two linked blocks, under a code of headers that can be read back.
use vela_network.Examples.Setup.{crates, crates-IsLawful}
use vela_network.Examples.Forms.{payment}
use vela_network.Common.{
  ℕ, zero, suc, ◌≡◌, ◌⊎◌, refl, ap, Option, none, some, [], ◌∷◌, ◌++◌, Bytes, arith, length, take,
}
use vela_network.Types.{
  Crates, IsLawful, BlockHeader, Block, genesis, hash_zero, header_hash, block_hash, hash_of,
  merkle_root, tx_hash, signing_bytes,
}
use vela_network.Types.Binding.{Collision}
use vela_network.Types.History.{
  IsHeader, IsHeaderCode, IsFilled, IsLinked, AllSame, chain_messages, block_hash-AllSame,
}

abbrev drop : ℕ → Bytes → Bytes
drop zero bs = bs
drop (suc n) [] = []
drop (suc n) (b ∷ bs) = drop n bs

take_append : (n : ℕ) (a b : Bytes) → length a ≡ n → take n (a ++ b) ≡ a
take_append zero [] b e = refl
take_append zero (x ∷ a) b e = absurd (omega arith)
take_append (suc n) [] b e = absurd (omega arith)
take_append (suc n) (x ∷ a) b e = ap (λ l. x ∷ l) (take_append n a b (omega arith))

drop_append : (n : ℕ) (a b : Bytes) → length a ≡ n → drop n (a ++ b) ≡ b
drop_append zero [] b e = refl
drop_append zero (x ∷ a) b e = absurd (omega arith)
drop_append (suc n) [] b e = absurd (omega arith)
drop_append (suc n) (x ∷ a) b e = drop_append n a b (omega arith)

-- The numbers of a header, and then its four arrays of 32 bytes.
unfoldable write : BlockHeader → Bytes
write h =
    h.height
    ∷ h.timestamp
    ∷ h.round
    ∷ (h.parent_hash.bytes ++ (h.tx_root.bytes ++ (h.state_root.bytes ++ h.proposer.bytes)))

unfoldable read : Bytes → Option BlockHeader
read (height ∷ timestamp ∷ round ∷ rest) = some (record {
  height = height;
  parent_hash = record { bytes = take 32 rest };
  tx_root = record { bytes = take 32 (drop 32 rest) };
  state_root = record { bytes = take 32 (drop 32 (drop 32 rest)) };
  timestamp = timestamp;
  proposer = record { bytes = drop 32 (drop 32 (drop 32 rest)) };
  round = round;
})
read bs = none

read-write : (h : BlockHeader) → IsHeader h → read (write h) ≡ some h
unfolding read write
read-write h w =
    let p : Bytes = h.parent_hash.bytes in
    let t : Bytes = h.tx_root.bytes in
    let r : Bytes = h.state_root.bytes in
    let q : Bytes = h.proposer.bytes in
    rw
      (
        take_append 32 p (t ++ (r ++ q)) w.parent_hash,
        drop_append 32 p (t ++ (r ++ q)) w.parent_hash,
        take_append 32 t (r ++ q) w.tx_root,
        drop_append 32 t (r ++ q) w.tx_root,
        take_append 32 r q w.state_root,
        drop_append 32 r q w.state_root,
      )
      refl

unfoldable coded : Crates
unfolding crates write
coded = record crates { serialize_header = λ h. some (write h) }

coded-IsLawful : IsLawful coded
unfolding coded
coded-IsLawful = record {
  blake3-IsArray32 = crates-IsLawful.blake3-IsArray32;
  hex_decode-hex_encode = crates-IsLawful.hex_decode-hex_encode;
  key_from_bytes-verifying_key = crates-IsLawful.key_from_bytes-verifying_key;
  signature_from_slice-sign_message = crates-IsLawful.signature_from_slice-sign_message;
  verify_signature-sign_message = crates-IsLawful.verify_signature-sign_message;
}

code : IsHeaderCode coded
unfolding coded
code = record {
  deserialize = read;
  serialize_header = write;
  serializes = λ h w. refl;
  deserializes = read-write;
}

-- Two blocks of the height 1, with the same transfer, which is signed in one of them.
abbrev second : Block
second = record genesis {
  header = record {
    height = 1;
    parent_hash = block_hash coded genesis;
    tx_root = tx_hash coded payment;
    state_root = hash_zero;
    timestamp = 9;
    proposer = record { bytes = hash_zero.bytes };
    round = 0;
  };
  transactions = payment ∷ [];
}

abbrev signed_second : Block
signed_second = record second { transactions = record payment { signature = some [] } ∷ [] }

width : (m : Bytes) → length (coded.blake3 m) ≡ 32
width m = (coded-IsLawful.blake3-IsArray32 m).0

second-IsHeader : IsHeader second.header
unfolding block_hash header_hash hash_of genesis tx_hash
second-IsHeader = record {
  height = omega arith;
  timestamp = omega arith;
  round = omega arith;
  parent_hash = width _;
  tx_root = width _;
  state_root = refl;
  proposer = refl;
}

genesis-IsFilled : IsFilled coded genesis
unfolding genesis merkle_root
genesis-IsFilled = record { header = ground arith; root = refl }

linked : IsLinked coded (genesis ∷ second ∷ [])
unfolding merkle_root
linked = (genesis-IsFilled, refl, record { header = second-IsHeader; root = refl })

signed-IsLinked : IsLinked coded (genesis ∷ signed_second ∷ [])
unfolding merkle_root tx_hash signing_bytes payment
signed-IsLinked = (genesis-IsFilled, refl, record { header = second-IsHeader; root = refl })

block_hash-AllSame_example :
    AllSame coded (genesis ∷ second ∷ []) (genesis ∷ signed_second ∷ [])
    ⊎ Collision coded
        (chain_messages coded (genesis ∷ second ∷ []))
        (chain_messages coded (genesis ∷ signed_second ∷ []))
unfolding block_hash
block_hash-AllSame_example =
    block_hash-AllSame coded coded-IsLawful code genesis genesis (second ∷ []) (signed_second ∷ [])
      second signed_second linked signed-IsLinked refl refl refl refl
