-- ===== src/Rpc/Serving.antt =====
-- What a request to the server of src/rpc/mod.rs can change.
use vela_network.Common.{ℕ, ◌≡◌, ◌⊎◌, inl, inr, refl, push, Text}
use vela_network.Types.{Crates, Transaction}
use vela_network.State.{mark_faucet}
use vela_network.Storage.{Sled}
use vela_network.Node.{Node, new_transaction, broadcast, send}
use vela_network.Rpc.{
  SendTxRequest, Outcome, check_send_tx, post_send_tx, check_faucet, post_faucet, faucet_tx, admit,
}
use vela_network.Rpc.Requests.{Outcome-cases}
use vela_network.Rpc.Server.{
  ServerState, Request, explorer, status, validators, block_at, balance_of_address, transactions_of,
  faucet, tx_by_hash, send_tx, Response, status_code, serve,
}

module _ {Db Val : Type 0} (x : Crates) (s : Sled Db Val) where
  -- The request is one of the two that write, and is answered with 200; its transaction joins the
  -- pool and goes to the network, and chain, database, accounts and engine stay.
  pub record Accepts (n : Node Db) (r : Request) (n' : Node Db) (a : Outcome Response)
      : Type 0 where
    pub tx : Transaction
    pub writes : ((address : Text) × (r ≡ faucet address)) ⊎ ((q : SendTxRequest) × (r ≡ send_tx q))
    pub answered : status_code a ≡ 200
    pub pooled : n'.mempool ≡ push n.mempool tx
    pub sent : n'.outbox ≡ push n.outbox (new_transaction tx)
    pub blocks : n'.blocks ≡ n.blocks
    pub db : n'.db ≡ n.db
    pub accounts : n'.world_state.accounts ≡ n.world_state.accounts
    pub hotstuff : n'.hotstuff ≡ n.hotstuff

  -- Every request leaves the node as it is, or is a transaction or a request to the faucet that is
  -- accepted as `Accepts` says. So what is answered with an error has changed nothing.
  pub serve_lem :
      (info : ServerState) (now stamp : ℕ) (n : Node Db) (r : Request)
      → let (n', a) = serve x s info now stamp n r in (n' ≡ n) ⊎ Accepts n r n' a
  unfolding serve post_faucet post_send_tx admit broadcast send mark_faucet status_code
  serve_lem info now stamp n explorer = inl refl
  serve_lem info now stamp n status = inl refl
  serve_lem info now stamp n (block_at h) = inl refl
  serve_lem info now stamp n (balance_of_address a) = inl refl
  serve_lem info now stamp n (transactions_of a) = inl refl
  serve_lem info now stamp n validators = inl refl
  serve_lem info now stamp n (tx_by_hash h) = inl refl
  serve_lem info now stamp n (faucet a) =
      elim (Outcome-cases (check_faucet x s now n.world_state a)) [
        | inl (to, e) ↦ inr (
            rw (e, post_faucet)
              (record {
                tx = faucet_tx x s stamp n.world_state to;
                writes = inl (a, refl);
                answered = refl;
                pooled = refl;
                sent = refl;
                blocks = refl;
                db = refl;
                accounts = refl;
                hotstuff = refl;
              }))
        | inr (r, e) ↦ inl (rw (e, post_faucet) refl)
      ]
  serve_lem info now stamp n (send_tx q) = elim (Outcome-cases (check_send_tx x s stamp n q)) [
    | inl (tx, e) ↦ inr (
        rw (e, post_send_tx)
          (record {
            tx = tx;
            writes = inr (q, refl);
            answered = refl;
            pooled = refl;
            sent = refl;
            blocks = refl;
            db = refl;
            accounts = refl;
            hotstuff = refl;
          }))
    | inr (r, e) ↦ inl (rw (e, post_send_tx) refl)
  ]
