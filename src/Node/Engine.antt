-- ===== src/Node/Engine.antt =====
-- What the tasks of src/main.rs do to the consensus engine: they give it votes and proposals, and
-- never a new view.
use vela_network.Common.{
  Text, ℕ, ◌≡◌, inl, inr, refl, sym, ap, ◌∙◌, none, some, Option-cases, Bool-cases, List, [], ◌∷◌,
  arith, if◌then◌else◌, ◌==◌, ◌%◌, >>=-eq-some, last?, take,
}
use mathlib.Core.Option.{some-injective}
use vela_network.Types.{Crates, Vote, Block, merkle_root}
use vela_network.Consensus.{HotStuffNode, handle_vote, handle_propose}
use vela_network.Consensus.Certificates.{IsOrder}
use vela_network.Rpc.{SendTxRequest, check_send_tx, post_send_tx, check_faucet, post_faucet, admit}
use vela_network.Rpc.Requests.{Outcome-cases}
use vela_network.Storage.{Sled}
use vela_network.Node.Defs.{
  Node, NetworkMessage, new_block_msg, new_transaction, consensus_vote, consensus_propose,
  sync_request, sync_response, append_block, is_next, on_new_block, on_vote, on_propose,
  on_sync_request, on_sync_response, receive, send, release, lead_round, produce, request_sync,
  broadcast,
}
use vela_network.Node.Steps.{
  Step, receives, produces, requests, broadcasts, serves_tx, serves_faucet,
}

module _ {Db Val : Type 0} (x : Crates) (s : Sled Db Val) where
  -- One step leaves the engine alone, or gives it a vote or a proposal without a certificate.
  pub data Drives (h h' : HotStuffNode) : Type 0 where
    rests : h' ≡ h → Drives h h'
    votes :
        (order : List Vote → List Vote) (v : Vote)
        → IsOrder order
        → h' ≡ (handle_vote x order h v).0
        → Drives h h'
    proposes : (b : Block) → h' ≡ (handle_propose x h b none).0 → Drives h h'

  pub on_vote-hotstuff :
      (order : List Vote → List Vote) (n : Node Db) (v : Vote)
      → (on_vote x s order n v).hotstuff ≡ (handle_vote x order n.hotstuff v).0
  unfolding on_vote send
  on_vote-hotstuff order n v = elim (Option-cases (handle_vote x order n.hotstuff v).1) [
    | inl e ↦ rw (e, on_vote) refl
    | inr (m, e) ↦ rw (e, on_vote) refl
  ]

  pub on_propose-hotstuff :
      (n : Node Db) (b : Block)
      → (on_propose x s n b).hotstuff ≡ (handle_propose x n.hotstuff b none).0
  unfolding on_propose send
  on_propose-hotstuff n b = elim (Option-cases (handle_propose x n.hotstuff b none).1) [
    | inl e ↦ rw (e, on_propose) refl
    | inr (m, e) ↦ rw (e, on_propose) refl
  ]

  on_new_block-hotstuff : (n : Node Db) (b : Block) → (on_new_block x s n b).hotstuff ≡ n.hotstuff
  unfolding on_new_block append_block send
  on_new_block-hotstuff n b = elim (Bool-cases (is_next x s n.blocks b)) [
    | inl e ↦ rw e refl
    | inr e ↦ rw e refl
  ]

  on_sync_request-hotstuff : (n : Node Db) (h : ℕ) → (on_sync_request x s n h).hotstuff ≡ n.hotstuff
  unfolding on_sync_request send
  on_sync_request-hotstuff n h = ground arith

  on_sync_response-hotstuff :
      (n : Node Db) (bs : List Block) → (on_sync_response x s n bs).hotstuff ≡ n.hotstuff
  unfolding on_sync_response append_block
  on_sync_response-hotstuff n [] = refl
  on_sync_response-hotstuff n (b ∷ bs) =
      on_sync_response-hotstuff (if is_next x s n.blocks b then append_block x s n b else n) bs
      ∙ elim (Bool-cases (is_next x s n.blocks b)) [ inl e ↦ rw e refl | inr e ↦ rw e refl ]

  lead_round-hotstuff :
      (now : ℕ) (n : Node Db) {n' : Node Db}
      → lead_round x s now n ≡ some n'
      → n'.hotstuff ≡ n.hotstuff
  unfolding lead_round release append_block send
  lead_round-hotstuff now n e =
      let (tip, t, e₁) = >>=-eq-some (last? n.blocks) _ e in
      let (root, r, e₂) = >>=-eq-some (merkle_root x (take 100 n.mempool)) _ e₁ in
      ap (λ (m : Node Db). m.hotstuff) (sym (some-injective _ _ e₂))

  produce-hotstuff :
      (validator_index now : ℕ) (n : Node Db) {n' : Node Db}
      → produce x s validator_index now n ≡ some n'
      → n'.hotstuff ≡ n.hotstuff
  unfolding produce
  produce-hotstuff validator_index now n e =
      let (m, led, e₁) =
        >>=-eq-some (if n.round % 3 == validator_index then lead_round x s now n else some n) _ e in
      let kept : m.hotstuff ≡ n.hotstuff = elim (Bool-cases (n.round % 3 == validator_index)) [
        | inl c ↦ lead_round-hotstuff now n (rw c at led)
        | inr c ↦ ap (λ (m : Node Db). m.hotstuff) (sym (some-injective _ _ (rw c at led)))
      ] in
      ap (λ (m : Node Db). m.hotstuff) (sym (some-injective _ _ e₁)) ∙ kept

  receive-Drives :
      (order : List Vote → List Vote) (n : Node Db) (m : NetworkMessage)
      → IsOrder order
      → Drives n.hotstuff (receive x s order n m).hotstuff
  unfolding receive
  receive-Drives order n (new_block_msg b) any = rests (on_new_block-hotstuff n b)
  receive-Drives order n (new_transaction tx) any = rests (unfold receive in refl)
  receive-Drives order n (consensus_vote v) any = votes order v any (on_vote-hotstuff order n v)
  receive-Drives order n (consensus_propose b) any = proposes b (on_propose-hotstuff n b)
  receive-Drives order n (sync_request h) any = rests (on_sync_request-hotstuff n h)
  receive-Drives order n (sync_response bs) any = rests (on_sync_response-hotstuff n bs)

  post_send_tx-hotstuff :
      (now : ℕ) (n : Node Db) (req : SendTxRequest)
      → (post_send_tx x s now n req).0.hotstuff ≡ n.hotstuff
  unfolding post_send_tx admit broadcast send
  post_send_tx-hotstuff now n req = elim (Outcome-cases (check_send_tx x s now n req)) [
    | inl (tx, e) ↦ rw (e, post_send_tx) refl
    | inr (r, e) ↦ rw (e, post_send_tx) refl
  ]

  post_faucet-hotstuff :
      (now stamp : ℕ) (n : Node Db) (address : Text)
      → (post_faucet x s now stamp n address).0.hotstuff ≡ n.hotstuff
  unfolding post_faucet admit broadcast send
  post_faucet-hotstuff now stamp n address =
      elim (Outcome-cases (check_faucet x s now n.world_state address)) [
        | inl (to, e) ↦ rw (e, post_faucet) refl
        | inr (r, e) ↦ rw (e, post_faucet) refl
      ]

  pub Step-Drives : {n n' : Node Db} → Step x s n n' → Drives n.hotstuff n'.hotstuff
  unfolding request_sync broadcast send
  Step-Drives {n} (receives order m any e) = rw e (receive-Drives order n m any)
  Step-Drives {n} (produces validator_index now e) =
      rests (produce-hotstuff validator_index now n e)
  Step-Drives {n} (requests e) = rests (rw e refl)
  Step-Drives {n} (broadcasts tx e) = rests (rw e refl)
  Step-Drives {n} (serves_tx now req e) = rests (rw e (post_send_tx-hotstuff now n req))
  Step-Drives {n} (serves_faucet now stamp address e) =
      rests (rw e (post_faucet-hotstuff now stamp n address))
