-- ===== src/Types/Laws.antt =====
-- What signing, verifying and the hexadecimal forms of src/types.rs guarantee together.
use mathlib.Core.Path.{subst}
use vela_network.Types.Data.{Hash, Address, Transaction}
use vela_network.Types.External.{Crates, IsLawful}
use vela_network.Types.Signing.{
  hash_to_hex, hash_from_hex, address_of_key, sign_tx, verify_tx, verify_with, tx_hash, sign_vote,
  verify_vote, signing_bytes, vote_bytes,
}
use vela_network.Common.{
  ℕ, ◌≡◌, ◌↔◌, refl, true, none, some, Bytes, Text, length, IsArray32, arith, inl, inr, ap, sym,
  ◌≢◌, Option, Option-cases, Bool-cases, ◌==◌,
}

module _ (x : Crates) where
  -- What `verify_with` checks, as a statement.
  abbrev pub Verifies : Bytes → Bytes → Bytes → Type 0
  Verifies sig_bytes key_bytes message =
      (sig : Bytes) × (pk : Bytes) × (x.signature_from_slice sig_bytes ≡ some sig)
      × (x.key_from_bytes key_bytes ≡ some pk)
      × (x.verify_signature pk message sig ≡ true)

  verify_with-Verifies : (s k m : Bytes) → verify_with x s k m ≡ true → Verifies s k m
  unfolding verify_with
  verify_with-Verifies s k m h = elim (Option-cases (x.signature_from_slice s)) [
    | inl e ↦ ground arith
    | inr (sig, e) ↦ elim (Option-cases (x.key_from_bytes k)) [
      | inl e' ↦ ground arith
      | inr (pk, e') ↦ (sig, pk, e, e', ground arith)
    ]
  ]

  -- A transaction verifies exactly when it carries a signature and that signature, the sender's
  -- key and the signing bytes pass ed25519.
  verify_tx_iff :
      (tx : Transaction)
      → (verify_tx x tx ≡ true)
        ↔ ((s : Bytes) × (tx.signature ≡ some s) × Verifies s tx.from.bytes (signing_bytes x tx))
  unfolding verify_tx verify_with
  verify_tx_iff tx = (
    λ h. elim (Option-cases tx.signature) [
      | inl e ↦ ground arith
      | inr (s, e) ↦
          (s, e, verify_with-Verifies s tx.from.bytes (signing_bytes x tx) (ground arith))
    ],
    λ h. ground arith,
  )

  -- What a text that decodes to the given bytes, or to none, reads as.
  abbrev ReadsAs : Option Bytes → Option Hash → Type 0
  ReadsAs decoded (some h) = (decoded ≡ some h.bytes) × (length h.bytes ≡ 32)
  ReadsAs decoded none = (b : Bytes) → decoded ≡ some b → length b ≢ 32

  -- `from_hex` reads exactly the texts that decode to 32 bytes, and wraps those bytes.
  hash_from_hex-ReadsAs : (s : Text) → ReadsAs (x.hex_decode s) (hash_from_hex x s)
  unfolding hash_from_hex
  hash_from_hex-ReadsAs s = elim (Option-cases (x.hex_decode s)) [
    | inl e ↦ rw (e, hash_from_hex) (λ b h. cc)
    | inr (b, e) ↦ elim (Bool-cases (length b == 32)) [
      | inl t ↦ rw (e, hash_from_hex) (rw t (refl, ground arith))
      | inr t ↦ rw (e, hash_from_hex) (rw t (λ c h. ground arith))
    ]
  ]

  module _ (laws : IsLawful x) where
    verify_with-sign_message :
        (k m : Bytes) → verify_with x (x.sign_message k m) (x.verifying_key k) m ≡ true
    unfolding verify_with
    verify_with-sign_message k m = ground (
      arith,
      laws.signature_from_slice-sign_message k m,
      laws.key_from_bytes-verifying_key k,
      laws.verify_signature-sign_message k m,
    )

    -- With third-party code as documented, a transaction signed with the key of its sender
    -- verifies, and signing keeps its hash.
    pub verify_tx-sign_tx :
        (tx : Transaction) (key : Bytes)
        → tx.from ≡ address_of_key x key
        → (verify_tx x (sign_tx x tx key) ≡ true) × (tx_hash x (sign_tx x tx key) ≡ tx_hash x tx)
    unfolding verify_tx sign_tx tx_hash address_of_key signing_bytes
    verify_tx-sign_tx tx key e = (
      subst
          (λ k.
            verify_with x (x.sign_message key (signing_bytes x tx)) k (signing_bytes x tx) ≡ true)
          (sym (ap (λ (a : Address). a.bytes) e))
          (verify_with-sign_message key (signing_bytes x tx)),
      refl,
    )

    -- With third-party code as documented, a vote that `Vote::sign` makes verifies.
    pub verify_vote-sign_vote :
        (h : Hash) (round : ℕ) (key : Bytes) → verify_vote x (sign_vote x h round key) ≡ true
    unfolding verify_vote sign_vote
    verify_vote-sign_vote h round key = verify_with-sign_message key (vote_bytes x h round)

    -- With third-party code as documented, a hash of 32 bytes that is printed in hexadecimal is
    -- read back.
    hash_from_hex-hash_to_hex :
        (h : Hash) → IsArray32 h.bytes → hash_from_hex x (hash_to_hex x h) ≡ some h
    unfolding hash_from_hex hash_to_hex
    hash_from_hex-hash_to_hex h a = ground (arith, laws.hex_decode-hex_encode h.bytes)
