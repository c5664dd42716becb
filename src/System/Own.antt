-- ===== src/System/Own.antt =====
-- What a node of src/main.rs does of itself, without a message from the network, keeps it sound.
use mathlib.Core.Path.{subst}
use mathlib.Core.Option.{some-injective}
unfoldable use native.Mathlib.Decide.{}
use vela_network.Common.{
  ℕ, ◌≡◌, refl, ap, ◌∙◌, ◌%◌, ◌==◌, if◌then◌else◌, Text, List, [], take, last?, length,
  length-take-le, some, inl, inr, Bool-cases, >>=-eq-some, add64,
}
use vela_network.Types.{
  Crates, IsLawful, Transaction, Block, merkle_root, address_of_key, new_tx, sign_tx,
}
use vela_network.Types.Laws.{verify_tx-sign_tx}
use vela_network.State.{
  WorldState, mark_faucet, faucet_seed, faucet_address, faucet_address, faucet_amount, nonce,
}
use vela_network.Storage.{Sled}
use vela_network.Node.{
  Node, new_block_msg, new_transaction, consensus_propose, sync_request, next_block, release,
  lead_round, produce, request_sync, broadcast, tip_height,
}
use vela_network.Rpc.{
  SendTxRequest, check_send_tx, post_send_tx, check_faucet, post_faucet, admit, faucet_tx,
  tx_of_request,
}
use vela_network.Rpc.Requests.{Outcome-cases, check_send_tx-Admits}
use vela_network.Rpc.Faucet.{check_faucet_iff}
use vela_network.System.{IsSoundTx, IsSoundBlock, IsSoundNode}
use vela_network.System.Soundness.{All-push, All-take, send-IsSoundNode, append_block-IsSoundNode}

module _ {Db Val : Type 0} (x : Crates) (s : Sled Db Val) where
  -- A step that a node takes without a message: a round of block production, the request for blocks,
  -- and requests of clients to its RPC server.
  pub data Own (n n' : Node Db) : Type 0 where
    produces : (validator_index now : ℕ) → produce x s validator_index now n ≡ some n' → Own n n'
    requests : n' ≡ request_sync x s n → Own n n'
    serves_tx : (now : ℕ) (req : SendTxRequest) → n' ≡ (post_send_tx x s now n req).0 → Own n n'
    serves_faucet :
        (now stamp : ℕ) (address : Text) → n' ≡ (post_faucet x s now stamp n address).0 → Own n n'

  module _ (laws : IsLawful x) (width : length (x.verifying_key faucet_seed) ≡ 32) where
    lead_round-IsSoundNode :
        (now : ℕ) (n : Node Db) {n' : Node Db}
        → lead_round x s now n ≡ some n'
        → IsSoundNode x n
        → IsSoundNode x n'
    unfolding lead_round release next_block
    lead_round-IsSoundNode now n e k =
        let (tip, t, e₁) = >>=-eq-some (last? n.blocks) _ e in
        let (root, r, e₂) = >>=-eq-some (merkle_root x (take 100 n.mempool)) _ e₁ in
        let b : Block = next_block x s now n.round tip (take 100 n.mempool) root in
        let made : IsSoundBlock x b = record {
          root = r;
          size = length-take-le 100 n.mempool;
          transactions = All-take (IsSoundTx x) 100 n.mempool k.mempool;
        } in
        let drained : IsSoundNode x (record n { mempool = [] }) = record {
          blocks = k.blocks;
          mempool = tt;
          outbox = k.outbox;
        } in
        subst (IsSoundNode x) (some-injective _ _ e₂) (
          send-IsSoundNode x s _ (new_block_msg b) made (
            send-IsSoundNode x s _ (consensus_propose b) made
              (append_block-IsSoundNode x s _ b made drained)))

    produce-IsSoundNode :
        (validator_index now : ℕ) (n : Node Db) {n' : Node Db}
        → produce x s validator_index now n ≡ some n'
        → IsSoundNode x n
        → IsSoundNode x n'
    unfolding produce
    produce-IsSoundNode validator_index now n e k =
        let (m, led, e₁) =
          >>=-eq-some (if n.round % 3 == validator_index then lead_round x s now n else some n) _
            e in
        let at_m : IsSoundNode x m = elim (Bool-cases (n.round % 3 == validator_index)) [
          | inl c ↦ lead_round-IsSoundNode now n (rw c at led) k
          | inr c ↦ subst (IsSoundNode x) (some-injective _ _ (rw c at led)) k
        ] in
        subst (IsSoundNode x) (some-injective _ _ e₁)
          (record { blocks = at_m.blocks; mempool = at_m.mempool; outbox = at_m.outbox })

    admit-IsSoundNode :
        (n : Node Db) (tx : Transaction)
        → IsSoundTx x tx
        → IsSoundNode x n
        → IsSoundNode x (admit x s n tx).0
    unfolding admit broadcast
    admit-IsSoundNode n tx h k = send-IsSoundNode x s _ (new_transaction tx) h (record {
      blocks = k.blocks;
      mempool = All-push (IsSoundTx x) n.mempool tx k.mempool h;
      outbox = k.outbox;
    })

    faucet_tx-IsSoundTx :
        (stamp : ℕ) (ws : WorldState) (to : List ℕ)
        → length to ≡ 32
        → IsSoundTx x (faucet_tx x s stamp ws to)
    unfolding faucet_tx address_of_key new_tx sign_tx faucet_address
    faucet_tx-IsSoundTx stamp ws to h = record {
      from = width;
      to = h;
      signed =
          let unsigned =
            new_tx (faucet_address x) (record { bytes = to }) faucet_amount 1
              (add64 (nonce x ws (faucet_address x)) 1) stamp in
          inr (verify_tx-sign_tx x laws unsigned faucet_seed refl).0;
    }

    -- A step that a node takes of itself leaves it sound.
    pub Own-IsSoundNode : {n n' : Node Db} → Own n n' → IsSoundNode x n → IsSoundNode x n'
    unfolding request_sync tx_of_request new_tx post_send_tx post_faucet
    Own-IsSoundNode {n} (produces validator_index now e) k =
        produce-IsSoundNode validator_index now n e k
    Own-IsSoundNode {n} (requests e) k =
        rw e (send-IsSoundNode x s n (sync_request (tip_height n.blocks)) tt k)
    Own-IsSoundNode {n} (serves_tx now req e) k =
        elim (Outcome-cases (check_send_tx x s now n req)) [
          | inl (tx, c) ↦
              let (from, to, a) = check_send_tx-Admits x s now n req tx c in
              let sound : IsSoundTx x tx = record {
                from = ap (λ (t : Transaction). length t.from.bytes) a.made ∙ a.from_width;
                to = ap (λ (t : Transaction). length t.to.bytes) a.made ∙ a.to_width;
                signed = a.signed;
              } in
              rw e (rw (c, post_send_tx) (admit-IsSoundNode n tx sound k))
          | inr (r, c) ↦ rw e (rw (c, post_send_tx) k)
        ]
    Own-IsSoundNode {n} (serves_faucet now stamp address e) k =
        elim (Outcome-cases (check_faucet x s now n.world_state address)) [
          | inl (to, c) ↦
              let checked = (check_faucet_iff x s now n.world_state address to).0 c in
              rw e (
                rw (c, post_faucet)
                  (admit-IsSoundNode
                    (record n { world_state = mark_faucet now n.world_state address }) _
                    (faucet_tx-IsSoundTx stamp n.world_state to checked.2)
                    (record { blocks = k.blocks; mempool = k.mempool; outbox = k.outbox })))
          | inr (r, c) ↦ rw e (rw (c, post_faucet) k)
        ]
