-- ===== src/Types/Merkle.antt =====
-- `merkle_root` of src/types.rs.
use vela_network.Types.Data.{Hash, Transaction, hash_zero}
use vela_network.Types.External.{Crates}
use vela_network.Types.Signing.{tx_hash}
use vela_network.Common.{
  ℕ, zero, suc, ◌%◌, ◌++◌, List, [], ◌∷◌, map, Option, none, some, length, last?, push, ◌==◌,
  if◌then◌else◌,
}

-- `hashes.push(*hashes.last().unwrap())` if their number is odd; `none` is the panic of `unwrap`.
unfoldable pub duplicate_last : List Hash → Option (List Hash)
duplicate_last hashes =
    if length hashes % 2 == 1
    then elim (last? hashes) [ none ↦ none | some h ↦ some (push hashes h) ]
    else some hashes

module _ (x : Crates) where
  -- the closure of the `map`: Blake3 of the two hashes in turn
  unfoldable pub hash_pair : Hash → Hash → Hash
  hash_pair a b = record { bytes = x.blake3 (a.bytes ++ b.bytes) }

  -- `hashes.chunks(2).map(…).collect()`; `none` is the panic of `pair[1]` at a chunk of one hash.
  unfoldable pub combine_pairs : List Hash → Option (List Hash)
  unfolding hash_pair
  combine_pairs [] = some []
  combine_pairs (a ∷ []) = none
  combine_pairs (a ∷ b ∷ rest) = elim (combine_pairs rest) [
    | none ↦ none
    | some hs ↦ some (hash_pair a b ∷ hs)
  ]

  -- the body of the `while` loop
  unfoldable pub next_layer : List Hash → Option (List Hash)
  unfolding duplicate_last combine_pairs
  next_layer hashes = elim (duplicate_last hashes) [ none ↦ none | some hs ↦ combine_pairs hs ]

  -- The loop and `hashes[0]`. The fuel bounds the rounds; `none` is a panic, or fuel that ran out.
  unfoldable pub fold_layers : ℕ → List Hash → Option Hash
  unfolding next_layer
  fold_layers zero hashes = none
  fold_layers (suc fuel) [] = none
  fold_layers (suc fuel) (h ∷ []) = some h
  fold_layers (suc fuel) (g ∷ h ∷ rest) = elim (next_layer (g ∷ h ∷ rest)) [
    | none ↦ none
    | some hs ↦ fold_layers fuel hs
  ]

  -- As many rounds of fuel as there are hashes.
  unfoldable pub merkle_root : List Transaction → Option Hash
  unfolding fold_layers
  merkle_root [] = some hash_zero
  merkle_root (tx ∷ txs) =
      let hashes = map (tx_hash x) (tx ∷ txs) in fold_layers (length hashes) hashes
