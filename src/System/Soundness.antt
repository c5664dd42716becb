-- ===== src/System/Soundness.antt =====
-- Each step of a node (src/main.rs, src/rpc/mod.rs) keeps it sound, if what it receives is.
use mathlib.Core.Path.{subst}
use vela_network.Common.{
  ℕ, zero, suc, ◌≡◌, ◌⊎◌, refl, if◌then◌else◌, List, [], ◌∷◌, push, take, All, All-append, none,
  inl, inr, Bool-cases, Option-cases, arith, ltb,
}
use vela_network.Types.{Crates, Block, Vote, genesis, merkle_root}
use vela_network.Consensus.{handle_vote, handle_propose}
use vela_network.Storage.{Sled}
use vela_network.Node.{
  Node, NetworkMessage, new_block_msg, new_transaction, consensus_vote, consensus_propose,
  sync_request, sync_response, blocks_above, is_next, append_block, vote_for, on_new_block,
  on_new_transaction, on_vote, on_propose, on_sync_request, on_sync_response, receive, send,
}
use vela_network.System.{IsSoundTx, IsSoundBlock, IsSoundMessage, IsSoundNode}

pub All-push {ℓ κ} :
    {A : Type ℓ} (P : A → Type κ) (as_ : List A) (a : A) → All P as_ → P a → All P (push as_ a)
All-push P as_ a h p = All-append P as_ (a ∷ []) h (p, tt)

pub All-take {ℓ κ} :
    {A : Type ℓ} (P : A → Type κ) (k : ℕ) (as_ : List A) → All P as_ → All P (take k as_)
All-take P zero as_ h = tt
All-take P (suc k) [] h = tt
All-take P (suc k) (a ∷ as_) h = (h.0, All-take P k as_ h.1)

List-cases {ℓ} :
    {A : Type ℓ} (as_ : List A) → (as_ ≡ []) ⊎ ((a : A) × (bs : List A) × (as_ ≡ a ∷ bs))
List-cases [] = inl refl
List-cases (a ∷ as_) = inr (a, as_, refl)

module _ {Db Val : Type 0} (x : Crates) (s : Sled Db Val) where
  pub genesis-IsSoundBlock : IsSoundBlock x genesis
  unfolding genesis merkle_root
  genesis-IsSoundBlock = record { root = refl; size = omega arith; transactions = tt }

  pub send-IsSoundNode :
      (n : Node Db) (m : NetworkMessage)
      → IsSoundMessage x m
      → IsSoundNode x n
      → IsSoundNode x (send x s n m)
  unfolding send
  send-IsSoundNode n m h k = record {
    blocks = k.blocks;
    mempool = k.mempool;
    outbox = All-push (IsSoundMessage x) n.outbox m k.outbox h;
  }

  pub append_block-IsSoundNode :
      (n : Node Db) (b : Block)
      → IsSoundBlock x b
      → IsSoundNode x n
      → IsSoundNode x (append_block x s n b)
  unfolding append_block
  append_block-IsSoundNode n b h k = record {
    blocks = All-push (IsSoundBlock x) n.blocks b k.blocks h;
    mempool = k.mempool;
    outbox = k.outbox;
  }

  on_new_block-IsSoundNode :
      (n : Node Db) (b : Block)
      → IsSoundBlock x b
      → IsSoundNode x n
      → IsSoundNode x (on_new_block x s n b)
  unfolding on_new_block
  on_new_block-IsSoundNode n b h k = elim (Bool-cases (is_next x s n.blocks b)) [
    | inl e ↦ rw e (
        send-IsSoundNode (append_block x s n b) (consensus_vote (vote_for x s n b)) tt
          (append_block-IsSoundNode n b h k))
    | inr e ↦ rw e k
  ]

  on_sync_response-IsSoundNode :
      (n : Node Db) (bs : List Block)
      → All (IsSoundBlock x) bs
      → IsSoundNode x n
      → IsSoundNode x (on_sync_response x s n bs)
  unfolding on_sync_response
  on_sync_response-IsSoundNode n [] h k = k
  on_sync_response-IsSoundNode n (b ∷ bs) h k =
      on_sync_response-IsSoundNode (if is_next x s n.blocks b then append_block x s n b else n) bs
        h.1
        (elim (Bool-cases (is_next x s n.blocks b)) [
          | inl e ↦ rw e (append_block-IsSoundNode n b h.0 k)
          | inr e ↦ rw e k
        ])

  blocks_above-All :
      (h : ℕ) (bs : List Block) → All (IsSoundBlock x) bs → All (IsSoundBlock x) (blocks_above h bs)
  unfolding blocks_above
  blocks_above-All h [] k = tt
  blocks_above-All h (b ∷ bs) k = elim (Bool-cases (ltb h b.header.height)) [
    | inl e ↦ rw e (k.0, blocks_above-All h bs k.1)
    | inr e ↦ rw e (blocks_above-All h bs k.1)
  ]

  on_sync_request-IsSoundNode :
      (n : Node Db) (h : ℕ) → IsSoundNode x n → IsSoundNode x (on_sync_request x s n h)
  unfolding on_sync_request
  on_sync_request-IsSoundNode n h k = elim (List-cases (blocks_above h n.blocks)) [
    | inl e ↦ rw (e, on_sync_request) k
    | inr (b, bs, e) ↦
        let above : All (IsSoundBlock x) (b ∷ bs) =
          subst (All (IsSoundBlock x)) e (blocks_above-All h n.blocks k.blocks) in
        rw (e, on_sync_request) (send-IsSoundNode n (sync_response (b ∷ bs)) above k)
  ]

  -- Votes and proposals leave chain and pool alone.
  on_vote-IsSoundNode :
      (order : List Vote → List Vote) (n : Node Db) (v : Vote)
      → IsSoundNode x n
      → IsSoundNode x (on_vote x s order n v)
  unfolding on_vote
  on_vote-IsSoundNode order n v k = elim (Option-cases (handle_vote x order n.hotstuff v).1) [
    | inl e ↦ rw (e, on_vote) (record { blocks = k.blocks; mempool = k.mempool; outbox = k.outbox })
    | inr (m, e) ↦
        rw (e, on_vote)
          (send-IsSoundNode _ (new_block_msg genesis) genesis-IsSoundBlock
            (record { blocks = k.blocks; mempool = k.mempool; outbox = k.outbox }))
  ]

  on_propose-IsSoundNode :
      (n : Node Db) (b : Block) → IsSoundNode x n → IsSoundNode x (on_propose x s n b)
  unfolding on_propose
  on_propose-IsSoundNode n b k = elim (Option-cases (handle_propose x n.hotstuff b none).1) [
    | inl e ↦
        rw (e, on_propose) (record { blocks = k.blocks; mempool = k.mempool; outbox = k.outbox })
    | inr (m, e) ↦
        rw (e, on_propose)
          (send-IsSoundNode _ (consensus_vote _) tt
            (record { blocks = k.blocks; mempool = k.mempool; outbox = k.outbox }))
  ]

  -- A message that is sound leaves the node sound.
  pub receive-IsSoundNode :
      (order : List Vote → List Vote) (n : Node Db) (m : NetworkMessage)
      → IsSoundMessage x m
      → IsSoundNode x n
      → IsSoundNode x (receive x s order n m)
  unfolding receive on_new_transaction
  receive-IsSoundNode order n (new_block_msg b) h k = on_new_block-IsSoundNode n b h k
  receive-IsSoundNode order n (new_transaction tx) h k = record {
    blocks = k.blocks;
    mempool = All-push (IsSoundTx x) n.mempool tx k.mempool h;
    outbox = k.outbox;
  }
  receive-IsSoundNode order n (consensus_vote v) h k = on_vote-IsSoundNode order n v k
  receive-IsSoundNode order n (consensus_propose b) h k = on_propose-IsSoundNode n b k
  receive-IsSoundNode order n (sync_request height) h k = on_sync_request-IsSoundNode n height k
  receive-IsSoundNode order n (sync_response bs) h k = on_sync_response-IsSoundNode n bs h k
