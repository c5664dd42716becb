-- ===== src/Node/Production.antt =====
-- Block production (the last task of `main` in src/main.rs) and how a peer follows it.
use vela_network.Common.{
  ℕ, ◌≡◌, refl, sym, ap, ◌∙◌, true, some, List, [], ◌∷◌, push, last?, take, arith, add64,
}
use vela_network.Types.{Crates, Vote, Block, merkle_root, block_hash}
use vela_network.Types.Roots.{merkle_root-total}
use vela_network.State.{apply_block}
use vela_network.Storage.{Sled}
use vela_network.Node.Defs.{
  Node, new_block_msg, consensus_propose, consensus_vote, tip_height, append_block, is_next, send,
  vote_for, lead_round, next_block, release, on_new_block, receive,
}
use vela_network.Node.Chain.{IsChain}
use vela_network.Node.Steps.{tip_height_of_last}

last?_of_cons : (b : Block) (bs : List Block) → (c : Block) × (last? (b ∷ bs) ≡ some c)
last?_of_cons b [] = (b, refl)
last?_of_cons b (c ∷ bs) = last?_of_cons c bs

last?_of_IsChain : (bs : List Block) → IsChain bs → (b : Block) × (last? bs ≡ some b)
last?_of_IsChain [] h = absurd h
last?_of_IsChain (b ∷ bs) h = last?_of_cons b bs

module _ {Db Val : Type 0} (x : Crates) (s : Sled Db Val) where
  -- A node that holds a chain and leads a round does not panic. It appends a block that extends
  -- its tip by hash and height (as u64), with the first hundred transactions of the pool and their
  -- Merkle root, executes it and sends it twice, as a proposal and as a block. The pool is empty
  -- after that, whatever it held beyond those hundred.
  pub lead_round_lem :
      (now : ℕ) (n : Node Db)
      → IsChain n.blocks
      → (tip : Block) × (b : Block) × (n' : Node Db) × (last? n.blocks ≡ some tip)
        × (lead_round x s now n ≡ some n')
        × (n'.blocks ≡ push n.blocks b)
        × (b.header.parent_hash ≡ block_hash x tip)
        × (b.header.height ≡ add64 tip.header.height 1)
        × (b.transactions ≡ take 100 n.mempool)
        × (merkle_root x b.transactions ≡ some b.header.tx_root)
        × (n'.world_state ≡ apply_block x n.world_state b)
        × (n'.outbox ≡ push (push n.outbox (consensus_propose b)) (new_block_msg b))
        × (n'.mempool ≡ [])
  unfolding lead_round next_block release append_block send
  lead_round_lem now n h =
      let (tip, t) = last?_of_IsChain n.blocks h in
      let txs = take 100 n.mempool in
      let (root, r) = merkle_root-total x txs in
      let b = next_block x s now n.round tip txs root in
      (tip, b, release x s n b, t, rw (t, r) refl, refl, refl, refl, refl, r, refl, refl, refl)

  is_next_of_add64 :
      (bs : List Block) (b : Block)
      → b.header.height ≡ add64 (tip_height bs) 1
      → is_next x s bs b ≡ true
  unfolding is_next
  is_next_of_add64 bs b e = ground arith

  on_new_block_of_next :
      (n : Node Db) (b : Block)
      → is_next x s n.blocks b ≡ true
      → on_new_block x s n b ≡ send x s (append_block x s n b) (consensus_vote (vote_for x s n b))
  unfolding on_new_block send
  on_new_block_of_next n b e = rw (e, on_new_block) refl

  -- A peer that holds the leader's blocks and world state appends the next block, and votes for it.
  pub on_new_block_follows :
      (order : List Vote → List Vote) (n peer : Node Db) {tip : Block} (b : Block)
      → peer.blocks ≡ n.blocks
      → peer.world_state ≡ n.world_state
      → last? n.blocks ≡ some tip
      → b.header.height ≡ add64 tip.header.height 1
      → let peer' = receive x s order peer (new_block_msg b) in
        (peer'.blocks ≡ push n.blocks b)
        × (peer'.world_state ≡ apply_block x n.world_state b)
        × (peer'.outbox ≡ push peer.outbox (consensus_vote (vote_for x s peer b)))
  unfolding receive append_block send
  on_new_block_follows order n peer b same_blocks same_state t height =
      let first = is_next_of_add64 peer.blocks b (
        height
        ∙ ap (λ k. add64 k 1) (tip_height_of_last n.blocks t ∙ sym (ap tip_height same_blocks))) in
      rw (on_new_block_of_next peer b first)
        (ap (λ l. push l b) same_blocks, ap (λ w. apply_block x w b) same_state, refl)
