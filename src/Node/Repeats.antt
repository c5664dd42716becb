-- ===== src/Node/Repeats.antt =====
-- A transaction that reaches a node twice, in its pool and in a block from a peer (src/main.rs):
-- appending the block takes nothing out of the pool.
use vela_network.Common.{
  ℕ, ◌+◌, ◌-◌, ◌*◌, ◌≤◌, ◌<◌, ◌≡◌, ◌≢◌, refl, ap, ◌∙◌, true, false, some, List, [], ◌∷◌, take,
  arith, add64, add64-exact, u64_mod, ◌==◌,
}
use vela_network.Types.{Crates, Transaction, Block}
use vela_network.State.{key_of, balance, apply_tx, apply_txs, apply_block}
use vela_network.State.Updates.{total}
use vela_network.State.Supply.{Fits, total-apply_tx, total_supply-apply_txs}
use vela_network.Storage.{Sled}
use vela_network.Node.Defs.{
  Node, new_block_msg, consensus_vote, lead_round, on_new_block, receive, append_block, vote_for,
  is_next, send,
}
use vela_network.Types.{Vote}
use vela_network.Node.Chain.{IsChain, IsChain-push}
use vela_network.Node.Steps.{is_next→eq}
use vela_network.Node.Production.{lead_round_lem}
use vela_network.Node.Payment.{apply_block_of_one, apply_tx-pays}

module _ {Db Val : Type 0} (x : Crates) (s : Sled Db Val) where
  -- Let a node hold a chain on which the supply was minted, with balances that sum to less than 2^64,
  -- and one transaction in its pool, between two different accounts, of which amount and fee sum to
  -- less than 2^64 and the sender has twice that sum. If it receives the next block of a peer with
  -- just that transaction, and then leads a round, the payment is made twice: the sender has lost
  -- amount and fee two times, and the receiver has gained two times the amount.
  pub lead_round-receive :
      (order : List Vote → List Vote) (now : ℕ) (n : Node Db) (b : Block) (tx : Transaction)
      → IsChain n.blocks
      → n.mempool ≡ tx ∷ []
      → b.transactions ≡ tx ∷ []
      → is_next x s n.blocks b ≡ true
      → (n.world_state.total_supply == 0) ≡ false
      → total n.world_state.accounts < u64_mod
      → Fits tx
      → key_of x tx.from ≢ key_of x tx.to
      → 2 * (tx.amount + tx.fee) ≤ balance x n.world_state tx.from
      → (n' : Node Db) × (lead_round x s now (receive x s order n (new_block_msg b)) ≡ some n')
        × (balance x n'.world_state tx.from
            ≡ balance x n.world_state tx.from - 2 * (tx.amount + tx.fee))
        × (balance x n'.world_state tx.to ≡ balance x n.world_state tx.to + 2 * tx.amount)
  unfolding receive append_block send apply_txs
  lead_round-receive order now n b tx chain pooled body hit minted bounded fits apart cover =
      let ws = n.world_state in
      let ws₁ = apply_tx x ws tx in
      let n₁ = send x s (append_block x s n b) (consensus_vote (vote_for x s n b)) in
      let appended : receive x s order n (new_block_msg b) ≡ n₁ = rw (hit, on_new_block) refl in
      let exact : add64 tx.amount tx.fee ≡ tx.amount + tx.fee = add64-exact tx.amount tx.fee fits in
      let (tip, c, n', last, led, grown, parent, height, body', root, after, sent, drained) =
        lead_round_lem x s now n₁ (IsChain-push n.blocks b chain (is_next→eq x s n.blocks b hit)) in
      let first : n₁.world_state ≡ ws₁ = apply_block_of_one x ws b tx minted body in
      let minted₁ : (ws₁.total_supply == 0) ≡ false =
        ap (λ t. t == 0) (total_supply-apply_txs x ws (tx ∷ [])) ∙ minted in
      let one : c.transactions ≡ tx ∷ [] = body' ∙ ap (take 100) pooled in
      let done : n'.world_state ≡ apply_tx x ws₁ tx =
        after ∙ ap (λ w. apply_block x w c) first ∙ apply_block_of_one x ws₁ c tx minted₁ one in
      let (lost, gained, _) =
        apply_tx-pays x ws tx fits bounded apart (omega (arith, exact, cover)) in
      let bounded₁ : total ws₁.accounts < u64_mod =
        omega (arith, total-apply_tx x ws tx fits bounded, bounded) in
      let (lost₁, gained₁, _) =
        apply_tx-pays x ws₁ tx fits bounded₁ apart (omega (arith, exact, cover, lost)) in
      (
        n',
        ap (lead_round x s now) appended ∙ led,
        ap (λ w. balance x w tx.from) done ∙ lost₁ ∙ omega (arith, lost),
        ap (λ w. balance x w tx.to) done ∙ gained₁ ∙ omega (arith, gained),
      )
