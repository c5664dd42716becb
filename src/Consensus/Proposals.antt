-- ===== src/Consensus/Proposals.antt =====
-- Proposals: what the leader makes and what a replica answers (`propose` and `handle_propose` of
-- src/consensus/hotstuff.rs).
use vela_network.Consensus.Node.{
  prepare, HotStuffMsg, propose_msg, vote_msg, HotStuffNode, node_is_leader, tip,
}
use vela_network.Consensus.Handlers.{propose, handle_propose, extends_lock, same_hash}
use vela_network.Common.{
  ℕ, ◌≡◌, refl, ap, true, false, Option, none, some, List, arith, inl, inr, add64, >>=-eq-some,
  require, some_pair-injective, ◌⊎◌,
}
use vela_network.Common.Dict.{text_discrete}
use vela_network.Types.{
  Crates, IsLawful, Hash, Vote, QuorumCert, Block, Transaction, new_block, block_hash, sign_vote,
  verify_vote, address_of_key,
}
use vela_network.Types.Laws.{verify_vote-sign_vote}

module _ (x : Crates) where
  -- A proposal that does not panic is made by the leader, extends the tip, is pending from then
  -- on, and changes nothing else of the node but its phase.
  pub propose_lem :
      (now : ℕ) (n : HotStuffNode) (txs : List Transaction) {n' : HotStuffNode} {m : HotStuffMsg}
      → propose x now n txs ≡ some (n', m)
      → (parent : Block) × (b : Block) × (node_is_leader n ≡ some true)
        × (tip n ≡ some parent)
        × (new_block x
              (add64 parent.header.height 1)
              (block_hash x parent)
              txs
              n.address
              n.round
              now
            ≡ some b)
        × (n' ≡ record n { pending_block = some b; phase = prepare })
        × (m ≡ propose_msg b n.high_qc)
  unfolding propose
  propose_lem now n txs e =
      let (leads, l, e₁) = >>=-eq-some (node_is_leader n) _ e in
      let (_, r, e₂) = >>=-eq-some (require leads) _ e₁ in
      let (parent, t, e₃) = >>=-eq-some (tip n) _ e₂ in
      let (b, nb, e₄) = >>=-eq-some _ _ e₃ in
      let same = some_pair-injective e₄ in (parent, b, ground arith, t, nb, same.0, same.1)

  -- The lock, if there is one, is on the parent of the block.
  abbrev pub ExtendsLock : Option QuorumCert → Block → Type 0
  ExtendsLock none b = Unit {0}
  ExtendsLock (some q) b = b.header.parent_hash ≡ q.block_hash

  extends_lock-cases :
      (lock : Option QuorumCert) (b : Block)
      → ((extends_lock x lock b ≡ true) × ExtendsLock lock b)
        ⊎ ((extends_lock x lock b ≡ false) × (¬ ExtendsLock lock b))
  unfolding extends_lock same_hash
  extends_lock-cases none b = inl (refl, tt)
  extends_lock-cases (some q) b =
      elim (text_discrete b.header.parent_hash.bytes q.block_hash.bytes) [
        | yes e ↦ inl (ground arith, λ i. record { bytes = e i })
        | no d ↦ inr (ground arith, λ same. d (ap (λ (h : Hash). h.bytes) same))
      ]

  -- A vote for the block in the node's round, under the node's key, that verifies; and the block is
  -- pending.
  abbrev pub VotesFor : HotStuffNode → Block → HotStuffNode × Option HotStuffMsg → Type 0
  VotesFor n b r =
      (v : Vote) × (r ≡ (record n { pending_block = some b }, some (vote_msg v)))
      × (v.block_hash ≡ block_hash x b)
      × (v.round ≡ n.round)
      × (v.voter ≡ address_of_key x n.signing_key)
      × (verify_vote x v ≡ true)

  -- With third-party code as documented: a node votes for a proposal whose parent is the block on
  -- which it is locked, or any if it is not locked. The vote is for that block in the node's
  -- round, is signed by the node's key and verifies. It answers every other proposal with nothing,
  -- and does not change.
  handle_propose_lem :
      (n : HotStuffNode) (b : Block) (q : Option QuorumCert)
      → IsLawful x
      → (ExtendsLock n.locked_qc b × VotesFor n b (handle_propose x n b q))
        ⊎ ((¬ ExtendsLock n.locked_qc b) × (handle_propose x n b q ≡ (n, none)))
  unfolding handle_propose sign_vote
  handle_propose_lem n b q laws = elim (extends_lock-cases n.locked_qc b) [
    | inl (e, lock) ↦ inl (
      lock,
      rw (e, handle_propose)
          (
            sign_vote x (block_hash x b) n.round n.signing_key,
            refl,
            refl,
            refl,
            refl,
            verify_vote-sign_vote x laws (block_hash x b) n.round n.signing_key,
          ),
    )
    | inr (e, lock) ↦ inr (lock, rw (e, handle_propose) refl)
  ]
