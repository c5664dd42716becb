-- ===== src/Node/Steps.antt =====
-- The steps of a running node (src/main.rs), and the rule by which an invariant of them is proved:
-- each step leaves the chain, the database and (but for cooldowns) the world state alone, or appends
-- next blocks.
use mathlib.Core.Path.{subst}
use mathlib.Core.Option.{some-injective}
use vela_network.Common.{
  Text, ℕ, ◌≡◌, refl, ap, ◌%◌, true, none, some, List, [], ◌∷◌, last?, take, add64, arith, ◌==◌,
  if◌then◌else◌, inl, inr, Bool-cases, Option-cases, >>=-eq-some,
}
use vela_network.State.{mark_faucet}
use vela_network.Rpc.{SendTxRequest, check_send_tx, post_send_tx, check_faucet, post_faucet, admit}
use vela_network.Rpc.Requests.{Outcome-cases}
use vela_network.Types.{Crates, Transaction, Block, Vote, merkle_root}
use vela_network.Consensus.{handle_vote, handle_propose}
use vela_network.Consensus.Certificates.{IsOrder}
use vela_network.Storage.{Sled}
use vela_network.Node.Defs.{
  Node, NetworkMessage, new_block_msg, new_transaction, consensus_vote, consensus_propose,
  sync_request, sync_response, tip_height, is_next, append_block, on_new_block, on_vote, on_propose,
  on_sync_request, on_sync_response, receive, send, lead_round, produce, request_sync, broadcast,
}

pub tip_height_of_last :
    (bs : List Block) {tip : Block} → last? bs ≡ some tip → tip.header.height ≡ tip_height bs
unfolding tip_height
tip_height_of_last bs e = ground arith

module _ {Db Val : Type 0} (x : Crates) (s : Sled Db Val) where
  -- One step of one task.
  pub data Step (n n' : Node Db) : Type 0 where
    receives :
        (order : List Vote → List Vote) (m : NetworkMessage)
        → IsOrder order
        → n' ≡ receive x s order n m
        → Step n n'
    produces : (validator_index now : ℕ) → produce x s validator_index now n ≡ some n' → Step n n'
    requests : n' ≡ request_sync x s n → Step n n'
    broadcasts : (tx : Transaction) → n' ≡ broadcast x s n tx → Step n n'
    serves_tx : (now : ℕ) (req : SendTxRequest) → n' ≡ (post_send_tx x s now n req).0 → Step n n'
    serves_faucet :
        (now stamp : ℕ) (address : Text) → n' ≡ (post_faucet x s now stamp n address).0 → Step n n'

  pub data Run (n : Node Db) : Node Db → Type 0 where
    here : Run n n
    next : {m k : Node Db} → Run n m → Step m k → Run n k

  -- The chain, the database and, but for the faucet's cooldowns, the world state are untouched.
  pub record Keeps (n n' : Node Db) : Type 0 where
    pub blocks : n'.blocks ≡ n.blocks
    pub world_state :
        n'.world_state ≡ record n.world_state { faucet_last = n'.world_state.faucet_last }
    pub db : n'.db ≡ n.db

  post_send_tx-Keeps :
      (now : ℕ) (n : Node Db) (req : SendTxRequest) → Keeps n (post_send_tx x s now n req).0
  unfolding post_send_tx admit broadcast send
  post_send_tx-Keeps now n req = elim (Outcome-cases (check_send_tx x s now n req)) [
    | inl (tx, e) ↦ rw (e, post_send_tx) (record { blocks = refl; world_state = refl; db = refl })
    | inr (r, e) ↦ rw (e, post_send_tx) (record { blocks = refl; world_state = refl; db = refl })
  ]

  post_faucet-Keeps :
      (now stamp : ℕ) (n : Node Db) (address : Text)
      → Keeps n (post_faucet x s now stamp n address).0
  unfolding post_faucet admit broadcast send mark_faucet
  post_faucet-Keeps now stamp n address =
      elim (Outcome-cases (check_faucet x s now n.world_state address)) [
        | inl (to, e) ↦
            rw (e, post_faucet) (record { blocks = refl; world_state = refl; db = refl })
        | inr (r, e) ↦ rw (e, post_faucet) (record { blocks = refl; world_state = refl; db = refl })
      ]

  on_vote-Keeps :
      (order : List Vote → List Vote) (n : Node Db) (v : Vote) → Keeps n (on_vote x s order n v)
  unfolding on_vote
  on_vote-Keeps order n v = elim (Option-cases (handle_vote x order n.hotstuff v).1) [
    | inl e ↦ rw (e, on_vote) (record { blocks = refl; world_state = refl; db = refl })
    | inr (m, e) ↦ rw (e, on_vote) (record { blocks = refl; world_state = refl; db = refl })
  ]

  on_propose-Keeps : (n : Node Db) (b : Block) → Keeps n (on_propose x s n b)
  unfolding on_propose
  on_propose-Keeps n b = elim (Option-cases (handle_propose x n.hotstuff b none).1) [
    | inl e ↦ rw (e, on_propose) (record { blocks = refl; world_state = refl; db = refl })
    | inr (m, e) ↦ rw (e, on_propose) (record { blocks = refl; world_state = refl; db = refl })
  ]

  on_sync_request-Keeps : (n : Node Db) (h : ℕ) → Keeps n (on_sync_request x s n h)
  unfolding on_sync_request
  on_sync_request-Keeps n h = record {
    blocks = ground arith;
    world_state = ground arith;
    db = ground arith;
  }

  pub is_next→eq :
      (bs : List Block) (b : Block)
      → is_next x s bs b ≡ true
      → b.header.height ≡ add64 (tip_height bs) 1
  unfolding is_next
  is_next→eq bs b e = ground arith

  -- The rule: a property that no change elsewhere affects, and that an appended next block keeps.
  module _ {ℓ} (P : Node Db → Type ℓ) (elsewhere : (n n' : Node Db) → Keeps n n' → P n → P n')
      (grows : (n : Node Db) (b : Block)
        → b.header.height ≡ add64 (tip_height n.blocks) 1
        → P n
        → P (append_block x s n b)) where
    on_new_block_inv : (n : Node Db) (b : Block) → P n → P (on_new_block x s n b)
    unfolding on_new_block send
    on_new_block_inv n b h = elim (Bool-cases (is_next x s n.blocks b)) [
      | inl e ↦ rw e (
          elsewhere (append_block x s n b) _
            (record { blocks = refl; world_state = refl; db = refl })
            (grows n b (is_next→eq n.blocks b e) h))
      | inr e ↦ rw e h
    ]

    on_sync_response_inv : (n : Node Db) (bs : List Block) → P n → P (on_sync_response x s n bs)
    unfolding on_sync_response
    on_sync_response_inv n [] h = h
    on_sync_response_inv n (b ∷ bs) h =
        on_sync_response_inv (if is_next x s n.blocks b then append_block x s n b else n) bs
          (elim (Bool-cases (is_next x s n.blocks b)) [
            | inl e ↦ rw e (grows n b (is_next→eq n.blocks b e) h)
            | inr e ↦ rw e h
          ])

    receive_inv :
        (order : List Vote → List Vote) (n : Node Db) (m : NetworkMessage)
        → P n
        → P (receive x s order n m)
    unfolding receive
    receive_inv order n (new_block_msg b) h = on_new_block_inv n b h
    receive_inv order n (new_transaction tx) h =
        elsewhere n _ (record { blocks = refl; world_state = refl; db = refl }) h
    receive_inv order n (consensus_vote v) h = elsewhere n _ (on_vote-Keeps order n v) h
    receive_inv order n (consensus_propose b) h = elsewhere n _ (on_propose-Keeps n b) h
    receive_inv order n (sync_request k) h = elsewhere n _ (on_sync_request-Keeps n k) h
    receive_inv order n (sync_response bs) h = on_sync_response_inv n bs h

    lead_round_inv :
        (now : ℕ) (n : Node Db) {n' : Node Db} → lead_round x s now n ≡ some n' → P n → P n'
    unfolding lead_round send
    lead_round_inv now n e h =
        let (tip, t, e₁) = >>=-eq-some (last? n.blocks) _ e in
        let (root, r, e₂) = >>=-eq-some (merkle_root x (take 100 n.mempool)) _ e₁ in
        let grown =
          grows (record n { mempool = [] }) _ (ap (λ k. add64 k 1) (tip_height_of_last n.blocks t))
            (elsewhere n _ (record { blocks = refl; world_state = refl; db = refl }) h) in
        subst P (some-injective _ _ e₂)
          (elsewhere _ _ (record { blocks = refl; world_state = refl; db = refl }) grown)

    produce_inv :
        (validator_index now : ℕ) (n : Node Db) {n' : Node Db}
        → produce x s validator_index now n ≡ some n'
        → P n
        → P n'
    unfolding produce
    produce_inv validator_index now n e h =
        let (m, led, e₁) =
          >>=-eq-some (if n.round % 3 == validator_index then lead_round x s now n else some n) _
            e in
        let at_m : P m = elim (Bool-cases (n.round % 3 == validator_index)) [
          | inl c ↦ lead_round_inv now n (rw c at led) h
          | inr c ↦ subst P (some-injective _ _ (rw c at led)) h
        ] in
        subst P (some-injective _ _ e₁)
          (elsewhere m _ (record { blocks = refl; world_state = refl; db = refl }) at_m)

    Step_inv : {n n' : Node Db} → Step n n' → P n → P n'
    unfolding request_sync broadcast send
    Step_inv {n} (receives order m any e) h = rw e (receive_inv order n m h)
    Step_inv {n} (produces validator_index now e) h = produce_inv validator_index now n e h
    Step_inv {n} (requests e) h =
        rw e (elsewhere n _ (record { blocks = refl; world_state = refl; db = refl }) h)
    Step_inv {n} (broadcasts tx e) h =
        rw e (elsewhere n _ (record { blocks = refl; world_state = refl; db = refl }) h)
    Step_inv {n} (serves_tx now req e) h = rw e (elsewhere n _ (post_send_tx-Keeps now n req) h)
    Step_inv {n} (serves_faucet now stamp address e) h =
        rw e (elsewhere n _ (post_faucet-Keeps now stamp n address) h)

    pub Run_inv : {n n' : Node Db} → Run n n' → P n → P n'
    Run_inv here h = h
    Run_inv (next r st) h = Step_inv st (Run_inv r h)
