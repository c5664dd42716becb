-- ===== src/Types/Binding.antt =====
-- The Merkle root binds the transactions of a block body of known length: two bodies with one
-- root have the same transaction hashes, or Blake3 collides on what is hashed for the two roots.
use mathlib.Core.List.{Mem, mem-cons_self, mem-cons_of_mem, mem-append_left, mem-append_right}
use mathlib.Core.Path.{subst}
use vela_network.Types.Data.{Hash, Transaction}
use vela_network.Types.External.{Crates, IsLawful}
use vela_network.Types.Signing.{tx_hash, signing_bytes, hash_of}
use vela_network.Types.Merkle.{hash_pair, fold_layers, merkle_root}
use vela_network.Types.Roots.{merkle_root-HasRoot, layer, next_layer-eq-layer, length-layer}
use vela_network.Common.Dict.{text_discrete}
use vela_network.Common.{
  ℕ, zero, suc, ◌≡◌, ◌≢◌, ◌⊎◌, inl, inr, refl, ap, sym, ◌∙◌, List, [], ◌∷◌, ◌++◌, map, some, Bytes,
  arith, length, length-map, All,
}

pub append-cancel : (a b c d : Bytes) → length a ≡ length c → a ++ b ≡ c ++ d → (a ≡ c) × (b ≡ d)
append-cancel [] b [] d e h = (refl, h)
append-cancel [] b (y ∷ c) d e h = absurd (omega arith)
append-cancel (x ∷ a) b [] d e h = absurd (omega arith)
append-cancel (x ∷ a) b (y ∷ c) d e h = ground (arith, append-cancel a b c d)

abbrev pub Subset : List Bytes → List Bytes → Type 0
Subset ms ns = (m : Bytes) → Mem m ms → Mem m ns

module _ (x : Crates) where
  -- A message of the first list and a different one of the second have one Blake3 hash.
  abbrev pub Collision : List Bytes → List Bytes → Type 0
  Collision ms ns =
      (m : Bytes) × (n : Bytes) × Mem m ms × Mem n ns × (m ≢ n) × (x.blake3 m ≡ x.blake3 n)

  pub Collision-Subset :
      {ms ns ms' ns' : List Bytes}
      → Subset ms ms'
      → Subset ns ns'
      → Collision ms ns
      → Collision ms' ns'
  Collision-Subset p q (m, n, in_m, in_n, differ, same) = (m, n, p m in_m, q n in_n, differ, same)

  -- What is hashed for the layer above the given one: its hashes by twos, the last one twice if it
  -- is left alone.
  abbrev layer_messages : List Hash → List Bytes
  layer_messages [] = []
  layer_messages (a ∷ []) = (a.bytes ++ a.bytes) ∷ []
  layer_messages (a ∷ b ∷ hs) = (a.bytes ++ b.bytes) ∷ layer_messages hs

  -- What is hashed for the root of the given layer, through as many layers at most.
  abbrev root_messages : ℕ → List Hash → List Bytes
  root_messages zero hs = []
  root_messages (suc f) [] = []
  root_messages (suc f) (h ∷ []) = []
  root_messages (suc f) (h ∷ h' ∷ hs) =
      layer_messages (h ∷ h' ∷ hs) ++ root_messages f (layer x (h ∷ h' ∷ hs))

  -- What is hashed for the Merkle root of a body, from the hashes of its transactions on.
  abbrev pub body_messages : List Transaction → List Bytes
  body_messages txs = root_messages (length txs) (map (tx_hash x) txs)

  abbrev Wide : Hash → Type 0
  Wide h = length h.bytes ≡ 32

  hash_pair-binds :
      (a b c d : Hash)
      → Wide a
      → Wide c
      → hash_pair x a b ≡ hash_pair x c d
      → ((a ≡ c) × (b ≡ d)) ⊎ Collision ((a.bytes ++ b.bytes) ∷ []) ((c.bytes ++ d.bytes) ∷ [])
  unfolding hash_pair
  hash_pair-binds a b c d wa wc e = elim (text_discrete (a.bytes ++ b.bytes) (c.bytes ++ d.bytes)) [
    | yes same ↦
        let (p, q) = append-cancel a.bytes b.bytes c.bytes d.bytes (omega arith) same in
        inl (λ i. record { bytes = p i }, λ i. record { bytes = q i })
    | no differ ↦ inr (
      a.bytes ++ b.bytes,
      c.bytes ++ d.bytes,
      mem-cons_self,
      mem-cons_self,
      differ,
      ap (λ (h : Hash). h.bytes) e,
    )
  ]

  first_of : (m : Bytes) (ms : List Bytes) → Subset (m ∷ []) (m ∷ ms)
  first_of m [] n found = found
  first_of m (k ∷ ms) n found = mem-append_left (k ∷ ms) found

  pair-binds :
      (a b c d : Hash) (hs ks : List Hash) (m n : Bytes) (ms ns : List Bytes)
      → ((a ≡ c) × (b ≡ d)) ⊎ Collision (m ∷ []) (n ∷ [])
      → (hs ≡ ks) ⊎ Collision ms ns
      → (a ∷ b ∷ hs ≡ c ∷ d ∷ ks) ⊎ Collision (m ∷ ms) (n ∷ ns)
  pair-binds a b c d hs ks m n ms ns (inr found) rest =
      inr (Collision-Subset (first_of m ms) (first_of n ns) found)
  pair-binds a b c d hs ks m n ms ns (inl same) (inr found) =
      inr (Collision-Subset (λ k. mem-cons_of_mem m) (λ k. mem-cons_of_mem n) found)
  pair-binds a b c d hs ks m n ms ns (inl same) (inl rest) = inl (cc (same.0, same.1, rest))

  layer-binds :
      (hs ks : List Hash)
      → length hs ≡ length ks
      → All Wide hs
      → All Wide ks
      → layer x hs ≡ layer x ks
      → (hs ≡ ks) ⊎ Collision (layer_messages hs) (layer_messages ks)
  unfolding layer
  layer-binds [] [] n u v e = inl refl
  layer-binds [] (k ∷ ks) n u v e = absurd (omega arith)
  layer-binds (h ∷ hs) [] n u v e = absurd (omega arith)
  layer-binds (a ∷ []) (c ∷ []) n u v e = elim (hash_pair-binds a a c c u.0 v.0 (cc)) [
    | inl (p, q) ↦ inl (cc)
    | inr c' ↦ inr c'
  ]
  layer-binds (a ∷ []) (c ∷ d ∷ ks) n u v e = absurd (omega arith)
  layer-binds (a ∷ b ∷ hs) (c ∷ []) n u v e = absurd (omega arith)
  layer-binds (a ∷ b ∷ hs) (c ∷ d ∷ ks) n u v e =
      pair-binds a b c d hs ks (a.bytes ++ b.bytes) (c.bytes ++ d.bytes) (layer_messages hs)
        (layer_messages ks) (hash_pair-binds a b c d u.0 v.0 (cc))
        (layer-binds hs ks (omega arith) u.1.1 v.1.1 (cc))

  module _ (laws : IsLawful x) where
    layer-Wide : (hs : List Hash) → All Wide (layer x hs)
    unfolding layer hash_pair
    layer-Wide [] = tt
    layer-Wide (a ∷ []) = ((laws.blake3-IsArray32 (a.bytes ++ a.bytes)).0, tt)
    layer-Wide (a ∷ b ∷ hs) = ((laws.blake3-IsArray32 (a.bytes ++ b.bytes)).0, layer-Wide hs)

    tx_hashes-Wide : (txs : List Transaction) → All Wide (map (tx_hash x) txs)
    unfolding tx_hash hash_of
    tx_hashes-Wide [] = tt
    tx_hashes-Wide (tx ∷ txs) = ((laws.blake3-IsArray32 (signing_bytes x tx)).0, tx_hashes-Wide txs)

    fold_layers-binds :
        (f : ℕ) (hs ks : List Hash) (r : Hash)
        → length hs ≡ length ks
        → All Wide hs
        → All Wide ks
        → fold_layers x f hs ≡ some r
        → fold_layers x f ks ≡ some r
        → (hs ≡ ks) ⊎ Collision (root_messages f hs) (root_messages f ks)
    unfolding fold_layers
    fold_layers-binds zero hs ks r n u v e d = cc
    fold_layers-binds (suc f) [] ks r n u v e d = cc
    fold_layers-binds (suc f) (h ∷ hs) [] r n u v e d = cc
    fold_layers-binds (suc f) (h ∷ []) (k ∷ []) r n u v e d = inl (cc)
    fold_layers-binds (suc f) (h ∷ []) (k ∷ k' ∷ ks) r n u v e d = absurd (omega arith)
    fold_layers-binds (suc f) (h ∷ h' ∷ hs) (k ∷ []) r n u v e d = absurd (omega arith)
    fold_layers-binds (suc f) (h ∷ h' ∷ hs) (k ∷ k' ∷ ks) r n u v e d =
        elim (fold_layers-binds f (layer x (h ∷ h' ∷ hs)) (layer x (k ∷ k' ∷ ks)) r
          (omega (arith, length-layer x (h ∷ h' ∷ hs), length-layer x (k ∷ k' ∷ ks)))
          (layer-Wide (h ∷ h' ∷ hs)) (layer-Wide (k ∷ k' ∷ ks))
          (rw (next_layer-eq-layer x h (h' ∷ hs), fold_layers) at e)
          (rw (next_layer-eq-layer x k (k' ∷ ks), fold_layers) at d)) [
            | inl same ↦ elim (layer-binds (h ∷ h' ∷ hs) (k ∷ k' ∷ ks) n u v same) [
              | inl equal ↦ inl equal
              | inr found ↦
                  inr (Collision-Subset (λ m. mem-append_left _) (λ m. mem-append_left _) found)
            ]
            | inr found ↦ inr (
                Collision-Subset (λ m. mem-append_right (layer_messages (h ∷ h' ∷ hs)))
                  (λ m. mem-append_right (layer_messages (k ∷ k' ∷ ks))) found)
          ]

    -- With third-party code as documented, two block bodies of one length with one Merkle root
    -- hold transactions of the same hashes, in the same order, or Blake3 collides on what is hashed
    -- for the two roots.
    pub merkle_root-binds :
        (ts us : List Transaction)
        → length ts ≡ length us
        → merkle_root x ts ≡ merkle_root x us
        → (map (tx_hash x) ts ≡ map (tx_hash x) us)
          ⊎ Collision (body_messages ts) (body_messages us)
    unfolding merkle_root
    merkle_root-binds [] [] n e = inl refl
    merkle_root-binds [] (u ∷ us) n e = absurd (omega arith)
    merkle_root-binds (t ∷ ts) [] n e = absurd (omega arith)
    merkle_root-binds (t ∷ ts) (u ∷ us) n e =
        let (r, er, _) = merkle_root-HasRoot x t ts in
        let hs = map (tx_hash x) (t ∷ ts) in
        let ks = map (tx_hash x) (u ∷ us) in
        let same_length : length hs ≡ length ks =
          omega (arith, length-map (tx_hash x) ts, length-map (tx_hash x) us) in
        let count : length hs ≡ length (t ∷ ts) = omega (arith, length-map (tx_hash x) ts) in
        subst (λ f. (hs ≡ ks) ⊎ Collision (root_messages (length (t ∷ ts)) hs) (root_messages f ks))
          n
          (subst (λ f. (hs ≡ ks) ⊎ Collision (root_messages f hs) (root_messages f ks)) count
            (fold_layers-binds (length hs) hs ks r same_length (tx_hashes-Wide (t ∷ ts))
              (tx_hashes-Wide (u ∷ us)) er
              (subst (λ f. fold_layers x f ks ≡ some r) (sym same_length) (sym e ∙ er))))
