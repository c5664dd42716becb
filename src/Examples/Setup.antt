-- ===== src/Examples/Setup.antt =====
-- Concrete stand-ins for the third-party code, which satisfy what it documents.
use vela_network.Types.{Crates, IsLawful, Block}
use vela_network.Storage.{Sled, IsLawfulSled}
use vela_network.Common.{
  arith, ℕ, ◌+◌, ◌*◌, ◌%◌, ◌^◌, ◌≡◌, refl, Bool, true, false, List, [], ◌∷◌, ◌++◌, some, Bytes,
  le_bytes, length-le_bytes, le_bytes-IsByte, to_le_bytes, push, length,
}
use vela_network.Common.Dict.{text_discrete}

-- The bytes read as digits, to the base 257.
unfoldable pub digest : Bytes → ℕ
digest [] = 0
digest (b ∷ bs) = (b + 1 + 257 * digest bs) % 2 ^ 256

unfoldable pub is_same : Bytes → Bytes → Bool
is_same a b = elim (text_discrete a b) [ yes _ ↦ true | no _ ↦ false ]

is_same_self : (a : Bytes) → is_same a a ≡ true
unfolding is_same
is_same_self a = ground arith

-- The code of a text as bytes and back is the identity; keys are their own verifying keys, and a
-- signature is the key before the message.
unfoldable pub crates : Crates
unfolding le_bytes digest is_same
crates = record {
  blake3 = λ m. le_bytes 32 (digest m);
  hex_encode = λ b. b;
  hex_decode = λ t. some t;
  verifying_key = λ k. k;
  sign_message = λ k m. k ++ m;
  signature_from_slice = λ s. some s;
  key_from_bytes = λ k. some k;
  verify_signature = λ k m s. is_same (k ++ m) s;
  serialize_header =
      λ h. some (to_le_bytes h.height ++ (to_le_bytes h.round ++ h.parent_hash.bytes));
}

pub crates-IsLawful : IsLawful crates
unfolding crates
crates-IsLawful = record {
  blake3-IsArray32 = λ m. (length-le_bytes 32 (digest m), le_bytes-IsByte 32 (digest m));
  hex_decode-hex_encode = λ b h. refl;
  key_from_bytes-verifying_key = λ k. refl;
  signature_from_slice-sign_message = λ k m. refl;
  verify_signature-sign_message = λ k m. is_same_self (k ++ m);
}

-- The tree as its list of entries, with blocks as values, to which entries are added at the end.
abbrev pub sled : Sled (List (Bytes × Block)) Block
sled = record {
  insert_entry = λ db k v. some (push db (k, v));
  iter = λ db. some db;
  len = λ db. length db;
  serialize_block = λ b. some b;
  deserialize_block = λ b. some b;
}

pub sled-IsLawful : IsLawfulSled sled
sled-IsLawful = record {
  iter-insert_entry = λ db db' k v l inserted listed under. cc;
  deserialize-serialize = λ b v e. cc;
}
