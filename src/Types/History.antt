-- ===== src/Types/History.antt =====
-- What the hash of a block binds: its header, and with that its body and all blocks before it
-- (src/types.rs).
use vela_network.Types.Data.{Hash, BlockHeader, Block}
use vela_network.Types.External.{Crates, IsLawful}
use vela_network.Types.Signing.{tx_hash, hash_of}
use vela_network.Types.Merkle.{merkle_root}
use vela_network.Types.Blocks.{header_hash, block_hash}
use vela_network.Types.Binding.{
  Subset, Collision, Collision-Subset, body_messages, merkle_root-binds,
}
use mathlib.Core.List.{mem-cons_self, mem-append_left, mem-append_right}
use vela_network.Common.Dict.{text_discrete}
use vela_network.Common.{
  ◌^◌, ◌<◌, ◌≡◌, ◌⊎◌, inl, inr, ap, sym, ◌∙◌, Option, none, some, List, [], ◌∷◌, ◌++◌, map, Bytes,
  arith, length, last?,
}

-- A header whose numbers have 64 bits and whose hashes and proposer have 32 bytes.
pub record IsHeader (h : BlockHeader) : Type 0 where
  pub height : h.height < 2 ^ 64
  pub timestamp : h.timestamp < 2 ^ 64
  pub round : h.round < 2 ^ 64
  pub parent_hash : length h.parent_hash.bytes ≡ 32
  pub tx_root : length h.tx_root.bytes ≡ 32
  pub state_root : length h.state_root.bytes ≡ 32
  pub proposer : length h.proposer.bytes ≡ 32

-- What bincode documents: a header has a code, and can be read back from it.
pub record IsHeaderCode (x : Crates) : Type 0 where
  pub deserialize : Bytes → Option BlockHeader
  pub serialize_header : BlockHeader → Bytes
  pub serializes : (h : BlockHeader) → IsHeader h → x.serialize_header h ≡ some (serialize_header h)
  pub deserializes : (h : BlockHeader) → IsHeader h → deserialize (serialize_header h) ≡ some h

module _ (x : Crates) where
  -- The hashes of a block have 32 bytes, its numbers 64 bits, and its header names the Merkle root
  -- of its body.
  pub record IsFilled (b : Block) : Type 0 where
    pub header : IsHeader b.header
    pub root : merkle_root x b.transactions ≡ some b.header.tx_root

  -- Blocks of which each names the hash of the one before.
  abbrev pub IsLinked : List Block → Type 0
  IsLinked [] = Unit {0}
  IsLinked (b ∷ []) = IsFilled b
  IsLinked (b ∷ c ∷ bs) = IsFilled b × (c.header.parent_hash ≡ block_hash x b) × IsLinked (c ∷ bs)

  -- Blocks with one header, which hold transactions of the same hashes if they hold equally many,
  -- unless Blake3 collides on what is hashed for their Merkle roots.
  abbrev pub Same : Block → Block → Type 0
  Same b c =
      (b.header ≡ c.header)
      × (length b.transactions ≡ length c.transactions
          → (map (tx_hash x) b.transactions ≡ map (tx_hash x) c.transactions)
            ⊎ Collision x (body_messages x b.transactions) (body_messages x c.transactions))

  abbrev pub AllSame : List Block → List Block → Type 0
  AllSame [] [] = Unit {0}
  AllSame [] (c ∷ cs) = ⊥
  AllSame (b ∷ bs) [] = ⊥
  AllSame (b ∷ bs) (c ∷ cs) = Same b c × AllSame bs cs

  -- What is hashed for the hash of a block and for its Merkle root, from the hashes of its
  -- transactions on; and for the blocks of a chain.
  abbrev header_messages : Block → List Bytes
  header_messages b = elim (x.serialize_header b.header) [ none ↦ [] | some code ↦ code ∷ [] ]

  abbrev pub chain_messages : List Block → List Bytes
  chain_messages [] = []
  chain_messages (b ∷ bs) =
      header_messages b ++ (body_messages x b.transactions ++ chain_messages bs)

  later : (b : Block) (bs : List Block) → Subset (chain_messages bs) (chain_messages (b ∷ bs))
  later b bs m found =
      mem-append_right (header_messages b) (mem-append_right (body_messages x b.transactions) found)

  module _ (laws : IsLawful x) (code : IsHeaderCode x) where
    block_hash-binds :
        (b c : Block)
        → IsFilled b
        → IsFilled c
        → block_hash x b ≡ block_hash x c
        → Same b c ⊎ Collision x (header_messages b) (header_messages c)
    unfolding block_hash header_hash hash_of
    block_hash-binds b c p q e =
        let m = code.serialize_header b.header in
        let n = code.serialize_header c.header in
        let code_b = code.serializes b.header p.header in
        let code_c = code.serializes c.header q.header in
        elim (text_discrete m n) [
          | yes same ↦
              let headers : b.header ≡ c.header =
                cc (code.deserializes b.header p.header, code.deserializes c.header q.header) in
              inl (
                headers,
                λ k.
                    merkle_root-binds x laws b.transactions c.transactions k
                      (p.root ∙ ap (λ (h : BlockHeader). some h.tx_root) headers ∙ sym q.root),
              )
          | no differ ↦ inr (
            m,
            n,
            rw (code_b, header_messages) mem-cons_self,
            rw (code_c, header_messages) mem-cons_self,
            differ,
            ap (λ (r : Hash). r.bytes) (rw (code_b, code_c) at e),
          )
        ]

    -- What is found for two blocks and for those after them is found for the chains.
    AllSame-cons :
        (b c : Block) (bs cs : List Block)
        → Same b c ⊎ Collision x (header_messages b) (header_messages c)
        → AllSame bs cs
        → AllSame (b ∷ bs) (c ∷ cs)
          ⊎ Collision x (chain_messages (b ∷ bs)) (chain_messages (c ∷ cs))
    AllSame-cons b c bs cs (inl same) rest = inl (same, rest)
    AllSame-cons b c bs cs (inr found) rest =
        inr (Collision-Subset x (λ m. mem-append_left _) (λ m. mem-append_left _) found)

    -- With third-party code as documented, let two chains of one length be linked, each block naming the hash of the one before and the
    -- Merkle root of its body, and let their last blocks have one hash. Then the chains have the same
    -- headers throughout, and the same transactions, by hash, wherever two bodies are equally long;
    -- unless Blake3 collides on two of the messages that are hashed for the blocks and Merkle roots
    -- of the two chains.
    pub block_hash-AllSame :
        (b c : Block) (bs cs : List Block) (s t : Block)
        → IsLinked (b ∷ bs)
        → IsLinked (c ∷ cs)
        → length bs ≡ length cs
        → last? (b ∷ bs) ≡ some s
        → last? (c ∷ cs) ≡ some t
        → block_hash x s ≡ block_hash x t
        → AllSame (b ∷ bs) (c ∷ cs)
          ⊎ Collision x (chain_messages (b ∷ bs)) (chain_messages (c ∷ cs))
    block_hash-AllSame b c [] [] s t p q n u v e =
        AllSame-cons b c [] [] (block_hash-binds b c p q (cc)) tt
    block_hash-AllSame b c [] (c' ∷ cs) s t p q n u v e = absurd (omega arith)
    block_hash-AllSame b c (b' ∷ bs) [] s t p q n u v e = absurd (omega arith)
    block_hash-AllSame b c (b' ∷ bs) (c' ∷ cs) s t p q n u v e =
        elim (block_hash-AllSame b' c' bs cs s t p.2 q.2 (omega arith) u v e) [
          | inr found ↦ inr (
              Collision-Subset x (λ m h. later b (b' ∷ bs) m h) (λ m h. later c (c' ∷ cs) m h)
                found)
          | inl rest ↦
              let parents = ap (λ (h : BlockHeader). h.parent_hash) rest.0.0 in
              AllSame-cons b c (b' ∷ bs) (c' ∷ cs)
                (block_hash-binds b c p.0 q.0 (sym p.1 ∙ parents ∙ q.1)) rest
        ]
