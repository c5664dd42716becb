-- ===== src/Rpc/Server.antt =====
-- The routes of src/rpc/mod.rs: the listings of status and validators, and the handler of every
-- request with the status of its answer.
use vela_network.Common.{ℕ, ◌%◌, Bool, List, [], ◌∷◌, length, Text, ◌==◌}
use vela_network.Types.{Crates, Block, Transaction, genesis, address_of_key, address_to_hex}
use vela_network.State
use vela_network.State.{WorldState}
use vela_network.Storage.{Sled}
use vela_network.Wallet.{to_decimal}
use vela_network.Node.{Node, validator_seed, tip_height}
use vela_network.Rpc.{
  RpcError, invalid_from, invalid_to, invalid_address, bad_length, invalid_signature,
  already_in_mempool, faucet_cooldown, block_not_found, tx_not_found, insufficient_balance,
  invalid_nonce, Outcome, ok, err, SendTxRequest, post_send_tx, post_faucet,
}
use vela_network.Rpc.Queries.{
  BlockResponse, TxInfo, get_block, get_balance, get_transactions, get_tx,
}

-- The fields of `NodeState` beside those that the tasks of `main` share.
pub record ServerState : Type 0 where
  pub port : ℕ
  pub peer_count : ℕ
  pub current_round : ℕ

-- the address on which `start_rpc` listens: "0.0.0.0:" and the port
unfoldable pub listen_addr : ℕ → Text
unfolding to_decimal
listen_addr rpc_port = b'0' ∷ b'.' ∷ b'0' ∷ b'.' ∷ b'0' ∷ b'.' ∷ b'0' ∷ b':' ∷ to_decimal rpc_port

-- `NodeState::new_with_state`, of these fields
unfoldable pub new_with_state : ℕ → ServerState
new_with_state port = record { port = port; peer_count = 0; current_round = 0 }

-- `NodeState::new`, with the chain, the pool and the world state that it makes beside these fields
unfoldable pub new_node_state : ℕ → ServerState × List Block × List Transaction × WorldState
unfolding genesis State.new
new_node_state port =
    (record { port = port; peer_count = 0; current_round = 0 }, genesis ∷ [], [], State.new)

-- `StatusResponse`, less the two constant texts
pub record StatusResponse : Type 0 where
  pub port : ℕ
  pub peer_count : ℕ
  pub block_height : ℕ
  pub mempool_size : ℕ
  pub total_supply : ℕ
  pub total_txs : ℕ
  pub current_leader : ℕ

-- The JSON object of a validator.
pub record ValidatorInfo : Type 0 where
  pub index : ℕ
  pub address : Text
  pub is_leader : Bool
  pub stake : ℕ

-- The routes of `make_router`, with what axum extracts from the path or the body.
pub data Request : Type 0 where
  explorer status validators : Request
  block_at : ℕ → Request
  balance_of_address transactions_of faucet tx_by_hash : Text → Request
  send_tx : SendTxRequest → Request

-- The answers in JSON, and the page of the explorer.
pub data Response : Type 0 where
  page : Response
  status_json : StatusResponse → Response
  block_json : BlockResponse → Response
  balance_json : Text → ℕ → ℕ → Response
  transactions_json : Text → List TxInfo → Response
  validators_json : List ValidatorInfo → ℕ → Response
  tx_json : TxInfo → Response
  accepted_json : Text → Response

-- The `StatusCode` of each error.
unfoldable pub status_of_error : RpcError → ℕ
status_of_error invalid_from = 400
status_of_error invalid_to = 400
status_of_error invalid_address = 400
status_of_error bad_length = 400
status_of_error invalid_signature = 400
status_of_error already_in_mempool = 400
status_of_error faucet_cooldown = 429
status_of_error (block_not_found h) = 404
status_of_error tx_not_found = 404
status_of_error (insufficient_balance have need) = 400
status_of_error (invalid_nonce expected got) = 400

unfoldable pub status_code : {A : Type 0} → Outcome A → ℕ
unfolding status_of_error
status_code (err e) = status_of_error e
status_code (ok r) = 200

-- An answer in the shape of the server's responses.
abbrev pub answer : {A : Type 0} → (A → Response) → Outcome A → Outcome Response
answer json (err e) = err e
answer json (ok a) = ok (json a)

-- `get_status`
unfoldable pub get_status : {Db : Type 0} → ServerState → Node Db → StatusResponse
unfolding tip_height
get_status info n = record {
  port = info.port;
  peer_count = info.peer_count;
  block_height = tip_height n.blocks;
  mempool_size = length n.mempool;
  total_supply = n.world_state.total_supply;
  total_txs = n.world_state.total_txs;
  current_leader = info.current_round % 3;
}

module _ (x : Crates) where
  -- the closure of the `map` in `get_validators`
  unfoldable pub validator_info : ℕ → ℕ → ValidatorInfo
  unfolding address_of_key address_to_hex
  validator_info current_leader i = record {
    index = i;
    address = address_to_hex x (address_of_key x (validator_seed i));
    is_leader = i == current_leader;
    stake = 1000;
  }

  -- `get_validators`
  unfoldable pub get_validators : ServerState → List ValidatorInfo × ℕ
  unfolding validator_info
  get_validators info =
      let leader = info.current_round % 3 in
      (validator_info leader 0 ∷ validator_info leader 1 ∷ validator_info leader 2 ∷ [], leader)

  module _ {Db Val : Type 0} (s : Sled Db Val) where
    -- The handler of each route, at the time `now` in seconds and `stamp` in milliseconds.
    unfoldable pub serve : ServerState → ℕ → ℕ → Node Db → Request → Node Db × Outcome Response
    unfolding get_status get_validators get_block get_balance get_transactions get_tx post_faucet
        post_send_tx
    serve info now stamp n explorer = (n, ok page)
    serve info now stamp n status = (n, ok (status_json (get_status info n)))
    serve info now stamp n (block_at h) = (n, answer block_json (get_block x n.blocks h))
    serve info now stamp n (balance_of_address a) =
        let (balance, nonce) = get_balance x n.world_state a in
        (n, ok (balance_json a balance nonce))
    serve info now stamp n (transactions_of a) =
        (n, ok (transactions_json a (get_transactions x n.blocks a)))
    serve info now stamp n validators =
        let (all, leader) = get_validators info in (n, ok (validators_json all leader))
    serve info now stamp n (faucet a) =
        let (n', result) = post_faucet x s now stamp n a in (n', answer accepted_json result)
    serve info now stamp n (send_tx req) =
        let (n', result) = post_send_tx x s stamp n req in (n', answer accepted_json result)
    serve info now stamp n (tx_by_hash h) = (n, answer tx_json (get_tx x n.blocks h))
