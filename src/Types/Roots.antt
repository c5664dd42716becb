-- ===== src/Types/Roots.antt =====
-- The Merkle root (`merkle_root` of src/types.rs) as a fold of layers.
use mathlib.Core.List.{map-append}
use vela_network.Types.Data.{Hash, hash_zero, Transaction}
use vela_network.Types.External.{Crates}
use vela_network.Types.Signing.{tx_hash}
use vela_network.Types.Merkle.{
  duplicate_last, hash_pair, combine_pairs, next_layer, fold_layers, merkle_root,
}
use vela_network.Common.{
  ℕ, zero, suc, ◌+◌, ◌/◌, ◌%◌, ◌≤◌, ◌≡◌, inl, inr, refl, ap, List, [], ◌∷◌, map, Option, some,
  arith, length, length-append, length-map, last?, push, Bool-cases, ◌==◌,
}

module _ (x : Crates) where
  -- A layer from the one below: pairs are hashed, an odd last hash with itself.
  unfoldable pub layer : List Hash → List Hash
  layer [] = []
  layer (a ∷ []) = hash_pair x a a ∷ []
  layer (a ∷ b ∷ rest) = hash_pair x a b ∷ layer rest

  even_pairs : (hs : List Hash) → length hs % 2 ≡ 0 → combine_pairs x hs ≡ some (layer hs)
  unfolding combine_pairs layer
  even_pairs [] e = refl
  even_pairs (a ∷ []) e = absurd (omega arith)
  even_pairs (a ∷ b ∷ rest) e = rw (even_pairs rest (omega arith)) refl

  odd_pairs :
      (hs : List Hash) (h : Hash)
      → length hs % 2 ≡ 1
      → last? hs ≡ some h
      → combine_pairs x (push hs h) ≡ some (layer hs)
  unfolding combine_pairs layer
  odd_pairs [] h e l = cc
  odd_pairs (a ∷ []) h e l = ground arith
  odd_pairs (a ∷ b ∷ []) h e l = absurd (omega arith)
  odd_pairs (a ∷ b ∷ c ∷ rest) h e l = rw (odd_pairs (c ∷ rest) h (omega arith) l) refl

  last_of_cons : (a : Hash) (hs : List Hash) → (h : Hash) × (last? (a ∷ hs) ≡ some h)
  last_of_cons a [] = (a, refl)
  last_of_cons a (b ∷ hs) = last_of_cons b hs

  -- The body of the loop never panics: it computes the next layer.
  pub next_layer-eq-layer :
      (a : Hash) (hs : List Hash) → next_layer x (a ∷ hs) ≡ some (layer (a ∷ hs))
  unfolding next_layer duplicate_last
  next_layer-eq-layer a hs = elim (Bool-cases (length (a ∷ hs) % 2 == 1)) [
    | inl odd ↦
        let (h, l) = last_of_cons a hs in
        rw (odd, next_layer) (rw (l, next_layer) (odd_pairs (a ∷ hs) h (ground arith) l))
    | inr even ↦ rw (even, next_layer) (even_pairs (a ∷ hs) (ground arith))
  ]

  pub length-layer : (hs : List Hash) → length (layer hs) ≡ (length hs + 1) / 2
  unfolding layer
  length-layer [] = omega arith
  length-layer (a ∷ []) = omega arith
  length-layer (a ∷ b ∷ rest) = omega (arith, length-layer rest)

  -- With as much fuel as there are hashes the loop ends, and more fuel changes nothing.
  fold_layers-fuel :
      (f g : ℕ) (hs : List Hash)
      → length hs ≤ f
      → length hs ≤ g
      → fold_layers x f hs ≡ fold_layers x g hs
  unfolding fold_layers
  fold_layers-fuel zero zero hs p q = refl
  fold_layers-fuel zero (suc g) [] p q = refl
  fold_layers-fuel (suc f) zero [] p q = refl
  fold_layers-fuel (suc f) (suc g) [] p q = refl
  fold_layers-fuel (suc f) (suc g) (a ∷ []) p q = refl
  fold_layers-fuel (suc f) (suc g) (a ∷ b ∷ rest) p q =
      rw (next_layer-eq-layer a (b ∷ rest), fold_layers)
        (fold_layers-fuel f g (layer (a ∷ b ∷ rest)) (omega (arith, length-layer (a ∷ b ∷ rest)))
          (omega (arith, length-layer (a ∷ b ∷ rest))))
  fold_layers-fuel zero g (a ∷ hs) p q = absurd (omega arith)
  fold_layers-fuel (suc f) zero (a ∷ hs) p q = absurd (omega arith)

  -- The root of a list of hashes, described by its layers.
  pub data IsRoot : List Hash → Hash → Type 0 where
    alone : (h : Hash) → IsRoot (h ∷ []) h
    above :
        (a b : Hash) (rest : List Hash) {r : Hash}
        → IsRoot (layer (a ∷ b ∷ rest)) r
        → IsRoot (a ∷ b ∷ rest) r

  abbrev pub HasRoot : List Hash → Option Hash → Type 0
  HasRoot hs o = (r : Hash) × (o ≡ some r) × IsRoot hs r

  fold_layers-HasRoot :
      (f : ℕ) (a : Hash) (hs : List Hash)
      → length (a ∷ hs) ≤ f
      → HasRoot (a ∷ hs) (fold_layers x f (a ∷ hs))
  unfolding fold_layers layer
  fold_layers-HasRoot zero a hs p = absurd (omega arith)
  fold_layers-HasRoot (suc f) a [] p = (a, refl, alone a)
  fold_layers-HasRoot (suc f) a (b ∷ rest) p =
      let (r, e, t) =
        fold_layers-HasRoot f (hash_pair x a b) (layer rest) (omega (arith, length-layer rest)) in
      (r, rw (next_layer-eq-layer a (b ∷ rest), fold_layers) e, above a b rest t)

  -- The loop of `merkle_root` ends without a panic, and gives the root that the layers describe.
  pub merkle_root-HasRoot :
      (tx : Transaction) (txs : List Transaction)
      → HasRoot (map (tx_hash x) (tx ∷ txs)) (merkle_root x (tx ∷ txs))
  unfolding merkle_root
  merkle_root-HasRoot tx txs =
      fold_layers-HasRoot (length (map (tx_hash x) (tx ∷ txs))) (tx_hash x tx) (map (tx_hash x) txs)
        (omega arith)

  pub merkle_root-total : (txs : List Transaction) → (r : Hash) × (merkle_root x txs ≡ some r)
  unfolding merkle_root
  merkle_root-total [] = (hash_zero, refl)
  merkle_root-total (tx ∷ txs) = let (r, e, t) = merkle_root-HasRoot tx txs in (r, e)

  -- From an odd number of hashes, three or more, repeating the last changes no layer above.
  layer-push_last :
      (hs : List Hash) (h : Hash)
      → length hs % 2 ≡ 1
      → last? hs ≡ some h
      → layer (push hs h) ≡ layer hs
  unfolding layer
  layer-push_last [] h e l = cc
  layer-push_last (a ∷ []) h e l = ground arith
  layer-push_last (a ∷ b ∷ []) h e l = absurd (omega arith)
  layer-push_last (a ∷ b ∷ c ∷ rest) h e l =
      ap (◌∷◌ (hash_pair x a b)) (layer-push_last (c ∷ rest) h (omega arith) l)

  fold_layers-push_last :
      (f g : ℕ) (a b : Hash) (hs : List Hash) (h : Hash)
      → length (a ∷ b ∷ hs) % 2 ≡ 1
      → last? (a ∷ b ∷ hs) ≡ some h
      → length (a ∷ b ∷ hs) ≤ f
      → length (push (a ∷ b ∷ hs) h) ≤ g
      → fold_layers x g (push (a ∷ b ∷ hs) h) ≡ fold_layers x f (a ∷ b ∷ hs)
  unfolding fold_layers
  fold_layers-push_last zero g a b hs h e l p q = absurd (omega arith)
  fold_layers-push_last (suc f) zero a b hs h e l p q = absurd (omega arith)
  fold_layers-push_last (suc f) (suc g) a b hs h e l p q =
      rw (next_layer-eq-layer a (b ∷ push hs h), fold_layers)
        (rw (next_layer-eq-layer a (b ∷ hs), fold_layers)
          (rw (layer-push_last (a ∷ b ∷ hs) h e l) (
            fold_layers-fuel g f (layer (a ∷ b ∷ hs))
              (omega (arith, length-layer (a ∷ b ∷ hs), length-append (a ∷ b ∷ hs) (h ∷ [])))
              (omega (arith, length-layer (a ∷ b ∷ hs))))))

  last?-map :
      (f : Transaction → Hash) (txs : List Transaction) (t : Transaction)
      → last? txs ≡ some t
      → last? (map f txs) ≡ some (f t)
  last?-map f [] t e = cc
  last?-map f (u ∷ []) t e = ground arith
  last?-map f (u ∷ v ∷ txs) t e = last?-map f (v ∷ txs) t e

  -- A block body of odd length, three or more, has the same root as that body with its last
  -- transaction repeated: the root does not determine the number of transactions.
  merkle_root-push_last :
      (t u : Transaction) (txs : List Transaction) (last : Transaction)
      → length (t ∷ u ∷ txs) % 2 ≡ 1
      → last? (t ∷ u ∷ txs) ≡ some last
      → merkle_root x (push (t ∷ u ∷ txs) last) ≡ merkle_root x (t ∷ u ∷ txs)
  unfolding merkle_root
  merkle_root-push_last t u txs last e l = rw (map-append (tx_hash x) txs (last ∷ [])) (
      let hs = map (tx_hash x) txs in
      let h = tx_hash x last in
      fold_layers-push_last (length (tx_hash x t ∷ tx_hash x u ∷ hs))
        (length (push (tx_hash x t ∷ tx_hash x u ∷ hs) h)) (tx_hash x t) (tx_hash x u) hs h
        (omega (arith, length-map (tx_hash x) txs)) (last?-map (tx_hash x) (t ∷ u ∷ txs) last l)
        (omega arith) (omega arith))
