-- ===== src/Node/Payment.antt =====
-- A payment from the request of a client (src/rpc/mod.rs) to the accounts (src/storage/state.rs), by
-- way of the pool and the next block of src/main.rs.
use mathlib.Core.Path.{subst}
use vela_network.Common.{
  ℕ, ◌+◌, ◌-◌, ◌≤◌, ◌<◌, ◌≡◌, ◌≢◌, refl, sym, ap, ◌∙◌, Bool, true, false, ◌&&◌, some, List, [], ◌∷◌,
  push, take, arith, add64, add64-exact, u64_mod, ◌==◌,
}
use vela_network.Types.{Crates, Transaction, Block, new_tx}
use vela_network.State.{
  WorldState, key_of, balance, nonce, is_covered, apply_tx, apply_txs, apply_block,
}
use vela_network.State.Updates.{total}
use vela_network.State.Supply.{Fits}
use vela_network.State.Ledger.{ledger_of, ledger_of-apply_tx, ledger_step_moves, nonce_of-apply_tx}
use vela_network.Storage.{Sled}
use vela_network.Rpc.{SendTxRequest, post_send_tx, tx_of_request, admit}
use vela_network.Rpc.Requests.{Admits, Admits-check_send_tx}
use vela_network.Node.Defs.{Node, lead_round, broadcast, send}
use vela_network.Node.Chain.{IsChain}
use vela_network.Node.Production.{lead_round_lem}

and_false : (b : Bool) → (b && false) ≡ false
and_false true = refl
and_false false = refl

module _ (x : Crates) where
  -- A block of one transaction, on a state on which the supply was minted.
  pub apply_block_of_one :
      (ws : WorldState) (b : Block) (tx : Transaction)
      → (ws.total_supply == 0) ≡ false
      → b.transactions ≡ tx ∷ []
      → apply_block x ws b ≡ apply_tx x ws tx
  unfolding apply_block apply_txs
  apply_block_of_one ws b tx minted one = rw (one, minted, and_false (b.header.height == 0)) refl

  -- What a covered transaction between two accounts changes for them.
  pub apply_tx-pays :
      (ws : WorldState) (tx : Transaction)
      → Fits tx
      → total ws.accounts < u64_mod
      → key_of x tx.from ≢ key_of x tx.to
      → add64 tx.amount tx.fee ≤ balance x ws tx.from
      → (balance x (apply_tx x ws tx) tx.from ≡ balance x ws tx.from - (tx.amount + tx.fee))
        × (balance x (apply_tx x ws tx) tx.to ≡ balance x ws tx.to + tx.amount)
        × (nonce x (apply_tx x ws tx) tx.from ≡ add64 (nonce x ws tx.from) 1)
  unfolding balance nonce is_covered
  apply_tx-pays ws tx fits bounded apart cover =
      let step = ledger_of-apply_tx x ws tx fits bounded in
      let (paid, got) =
        ledger_step_moves (key_of x tx.from) (key_of x tx.to) tx.amount tx.fee (ledger_of ws) apart
          (omega (arith, cover, add64-exact tx.amount tx.fee fits)) in
      (
        ap (λ l. l (key_of x tx.from)) step ∙ paid,
        ap (λ l. l (key_of x tx.to)) step ∙ got,
        nonce_of-apply_tx x ws tx (key_of x tx.from) ∙ ground (arith, cover),
      )

module _ {Db Val : Type 0} (x : Crates) (s : Sled Db Val) where
  -- What a request pays: the fields of its transaction.
  pub record Paid (n n' : Node Db) (req : SendTxRequest) (tx : Transaction) : Type 0 where
    pub sender :
        balance x n'.world_state tx.from ≡ balance x n.world_state tx.from - (req.amount + req.fee)
    pub receiver : balance x n'.world_state tx.to ≡ balance x n.world_state tx.to + req.amount
    pub nonce : nonce x n'.world_state tx.from ≡ req.nonce
    pub listed : (b : Block) × (n'.blocks ≡ push n.blocks b) × (b.transactions ≡ tx ∷ [])
    pub mempool : n'.mempool ≡ []

  -- Let a node hold a chain on which the supply was minted, with balances that sum to less than 2^64
  -- and no transaction in its pool. If it accepts a request of which amount and fee sum to less than
  -- 2^64, between two different accounts, and leads the next round, it does not panic, and its chain
  -- has a block more, of that payment: the sender has lost the amount and the fee, the receiver has
  -- gained the amount, and the sender's nonce is that of the request.
  pub lead_round-post_send_tx :
      (now stamp : ℕ) (n : Node Db) (req : SendTxRequest) (from to : List ℕ) (tx : Transaction)
      → IsChain n.blocks
      → n.mempool ≡ []
      → (n.world_state.total_supply == 0) ≡ false
      → total n.world_state.accounts < u64_mod
      → Admits x s stamp n req from to tx
      → req.amount + req.fee < u64_mod
      → key_of x tx.from ≢ key_of x tx.to
      → (n' : Node Db) × (lead_round x s now (post_send_tx x s stamp n req).0 ≡ some n')
        × Paid n n' req tx
  unfolding post_send_tx admit broadcast send tx_of_request new_tx
  lead_round-post_send_tx now stamp n req from to tx chain idle minted bounded a fits apart =
      let ws = n.world_state in
      let n₁ = (admit x s n tx).0 in
      let accepted : (post_send_tx x s stamp n req).0 ≡ n₁ =
        rw (Admits-check_send_tx x s stamp n req a, post_send_tx) refl in
      let (tip, b, n', last, led, grown, parent, height, body, root, after, sent, drained) =
        lead_round_lem x s now n₁ chain in
      let amount : tx.amount ≡ req.amount = ap (λ (t : Transaction). t.amount) a.made in
      let fee : tx.fee ≡ req.fee = ap (λ (t : Transaction). t.fee) a.made in
      let payer = ap (λ (t : Transaction). t.from) a.made in
      let fits' : Fits tx = omega (arith, amount, fee, fits) in
      let cover : add64 tx.amount tx.fee ≤ balance x ws tx.from =
        subst (λ (t : Transaction). add64 t.amount t.fee ≤ balance x ws t.from) (sym a.made)
          a.covered in
      let one : b.transactions ≡ tx ∷ [] = body ∙ ap (λ l. take 100 (push l tx)) idle in
      let done : n'.world_state ≡ apply_tx x ws tx =
        after ∙ apply_block_of_one x ws b tx minted one in
      let (lost, gained, next) = apply_tx-pays x ws tx fits' bounded apart cover in
      (
        n',
        ap (lead_round x s now) accepted ∙ led,
        record {
          sender =
              ap (λ w. balance x w tx.from) done
              ∙ lost
              ∙ ap (λ k. balance x ws tx.from - k) (omega (arith, amount, fee));
          receiver =
              ap (λ w. balance x w tx.to) done ∙ gained ∙ ap (λ k. balance x ws tx.to + k) amount;
          nonce =
              ap (λ w. nonce x w tx.from) done
              ∙ next
              ∙ ap (λ y. add64 (nonce x ws y) 1) payer
              ∙ sym a.in_turn;
          listed = (b, grown, one);
          mempool = drained;
        },
      )
