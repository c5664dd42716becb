-- ===== src/Node/Grants.antt =====
-- A grant of the faucet from the request (src/rpc/mod.rs) to the accounts (src/storage/state.rs), by
-- way of the pool and the next block of src/main.rs.
use vela_network.Common.{
  ℕ, ◌+◌, ◌-◌, ◌≤◌, ◌<◌, ◌≡◌, ◌≢◌, refl, ap, ◌∙◌, false, some, [], ◌∷◌, push, take, arith,
  add64-exact, u64_mod, ◌==◌, Text, Bytes, leb,
}
use vela_network.Types.{Crates, Address, Transaction, Block, new_tx, sign_tx}
use vela_network.State.{
  WorldState, key_of, balance, apply_tx, can_faucet, mark_faucet, faucet_address, faucet_amount,
  faucet_cooldown_secs,
}
use vela_network.State.Updates.{total}
use vela_network.State.Cooldown.{can_faucet-mark_faucet}
use vela_network.Storage.{Sled}
use vela_network.Rpc.{ok, check_faucet, faucet_tx, post_faucet, admit}
use vela_network.Node.Defs.{Node, lead_round, broadcast, send}
use vela_network.Node.Chain.{IsChain}
use vela_network.Node.Production.{lead_round_lem}
use vela_network.Node.Payment.{apply_block_of_one, apply_tx-pays}

module _ (x : Crates) where
  faucet_last-apply_tx :
      (ws : WorldState) (tx : Transaction) → (apply_tx x ws tx).faucet_last ≡ ws.faucet_last
  unfolding apply_tx
  faucet_last-apply_tx ws tx = ground arith

  can_faucet-same :
      (later : ℕ) (ws ws' : WorldState) (a : Text)
      → ws'.faucet_last ≡ ws.faucet_last
      → can_faucet later ws' a ≡ can_faucet later ws a
  unfolding can_faucet
  can_faucet-same later ws ws' a e = rw e refl

module _ {Db Val : Type 0} (x : Crates) (s : Sled Db Val) where
  -- What a grant changes, for the text of the request and the account that it stands for.
  pub record Granted (clock : ℕ) (n n' : Node Db) (address : Text) (to : Address) : Type 0 where
    pub faucet :
        balance x n'.world_state (faucet_address x)
        ≡ balance x n.world_state (faucet_address x) - (faucet_amount + 1)
    pub receiver : balance x n'.world_state to ≡ balance x n.world_state to + faucet_amount
    pub cooldown :
        (later : ℕ)
        → clock ≤ later
        → later < u64_mod
        → can_faucet later n'.world_state address ≡ leb (clock + faucet_cooldown_secs) later
    pub listed :
        (b : Block) × (tx : Transaction) × (n'.blocks ≡ push n.blocks b)
        × (b.transactions ≡ tx ∷ [])

  -- Let a node hold a chain on which the supply was minted, with balances that sum to less than 2^64
  -- and no transaction in its pool, and let the faucet's account hold a grant and its fee. If the
  -- node accepts a request to the faucet, for another account, and leads the next round, it does not
  -- panic, and its chain has a block more, of one transaction: the receiver has gained the grant, the
  -- faucet's account has lost the grant and the fee; and under the text of the request the faucet
  -- pays again after 24 hours, not sooner, on a clock of 64 bits that does not run backwards.
  pub lead_round-post_faucet :
      (now clock stamp : ℕ) (n : Node Db) (address : Text) (to : Bytes)
      → IsChain n.blocks
      → n.mempool ≡ []
      → (n.world_state.total_supply == 0) ≡ false
      → total n.world_state.accounts < u64_mod
      → check_faucet x s clock n.world_state address ≡ ok to
      → faucet_amount + 1 ≤ balance x n.world_state (faucet_address x)
      → key_of x (faucet_address x) ≢ key_of x (record { bytes = to })
      → (n' : Node Db) × (lead_round x s now (post_faucet x s clock stamp n address).0 ≡ some n')
        × Granted clock n n' address (record { bytes = to })
  unfolding post_faucet admit broadcast send faucet_tx new_tx sign_tx mark_faucet balance
  lead_round-post_faucet now clock stamp n address to chain idle minted bounded e rich apart =
      let ws : WorldState = mark_faucet clock n.world_state address in
      let tx = faucet_tx x s stamp n.world_state to in
      let n₁ = (admit x s (record n { world_state = ws }) tx).0 in
      let accepted : (post_faucet x s clock stamp n address).0 ≡ n₁ = rw (e, post_faucet) refl in
      let (tip, b, n', last, led, grown, parent, height, body, root, after, sent, drained) =
        lead_round_lem x s now n₁ chain in
      let one : b.transactions ≡ tx ∷ [] = body ∙ ap (λ l. take 100 (push l tx)) idle in
      let done : n'.world_state ≡ apply_tx x ws tx =
        after ∙ apply_block_of_one x ws b tx minted one in
      let (lost, gained, next) =
        apply_tx-pays x ws tx (omega arith) bounded apart
          (omega (arith, rich, add64-exact faucet_amount 1)) in
      (
        n',
        ap (lead_round x s now) accepted ∙ led,
        record {
          faucet =
              ap (λ w. balance x w tx.from) done
              ∙ lost
              ∙ ap (λ k. balance x n.world_state (faucet_address x) - k) (omega arith);
          receiver = ap (λ w. balance x w tx.to) done ∙ gained;
          cooldown = λ later order bound.
              can_faucet-same x later ws n'.world_state address
                (ap (λ (w : WorldState). w.faucet_last) done ∙ faucet_last-apply_tx x ws tx)
              ∙ can_faucet-mark_faucet n.world_state clock later address address order bound
              ∙ ground arith;
          listed = (b, tx, grown, one);
        },
      )
