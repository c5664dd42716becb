-- ===== src/Examples/Calls.antt =====
-- Requests to the RPC server on small inputs.
mod Payments
mod Grants
mod Interleavings
mod Resubmissions
unfoldable use native.Mathlib.Decide.{ℕ_discrete}
use vela_network.Examples.Setup.{crates, sled}
use vela_network.Common.{
  ◌≡◌, ◌⊎◌, refl, false, none, List, [], ◌∷◌, ◌++◌, push, replicate, Bytes, Text, arith, add64,
}
use vela_network.Common.Dict.{lookup, text_discrete}
use vela_network.Types.{genesis, Transaction, Block, vela_prefix, verify_tx, tx_hash, hash_to_hex}
use vela_network.State.{balance, nonce, can_faucet, mark_faucet, faucet_amount}
use vela_network.Consensus.{new_config, new_node}
use vela_network.Node.{Node}
use vela_network.Rpc.{
  SendTxRequest, ok, strip_prefix, trim_rounds, trim_vela, is_pooled, tx_of_request, admit,
  post_send_tx, check_faucet, faucet_tx, post_faucet,
}
use vela_network.Rpc.Requests.{accepted, asked_tx, post_send_tx_unsigned}
use vela_network.Common.{◌+◌, ◌-◌}
use vela_network.Rpc.Lookups.{Finds, get_transactions-Finds}
use vela_network.Common.{All}
use vela_network.Rpc.Queries.{get_transactions}
use vela_network.Rpc.Faucet.{post_faucet-prefix}
use vela_network.Rpc.Server.{ServerState, faucet, serve}
use vela_network.Rpc.Serving.{Accepts, serve_lem}

abbrev info : ServerState
info = record { port = 8001; peer_count = 0; current_round = 5 }

abbrev pub alice : Bytes
alice = replicate 32 7

abbrev pub bob : Bytes
bob = replicate 32 8

abbrev pub node : Node (List (Bytes × Block))
node = record {
  blocks = [];
  mempool = [];
  world_state = record {
    accounts =
        (alice, record { address = record { bytes = alice }; balance = 100; nonce = 4 }) ∷ [];
    total_supply = 1000;
    total_txs = 0;
    faucet_last = [];
  };
  hotstuff = new_node (record { bytes = alice }) alice (new_config []);
  db = [];
  outbox = [];
  round = 1;
}

-- A request to pay from alice's account that nobody signed.
abbrev pub unsigned : SendTxRequest
unsigned = record {
  from = alice;
  to = vela_prefix ++ bob;
  amount = 60;
  fee = 1;
  nonce = 5;
  signature = none;
  timestamp = none;
}

post_send_tx_unsigned_example :
    (post_send_tx crates sled 3 node unsigned
      ≡ accepted crates sled 3 node unsigned (asked_tx crates sled 3 node unsigned alice bob))
    × (verify_tx crates (asked_tx crates sled 3 node unsigned alice bob) ≡ false)
unfolding crates trim_vela trim_rounds strip_prefix balance nonce lookup text_discrete ℕ_discrete
    is_pooled add64
post_send_tx_unsigned_example =
    post_send_tx_unsigned crates sled 3 node unsigned alice bob refl refl refl refl (omega arith)
      refl refl refl

abbrev paid : Node (List (Bytes × Block))
paid =
    (admit crates sled (record node { world_state = mark_faucet 10 node.world_state bob })
      (faucet_tx crates sled 10000 node.world_state bob)).0

granted : post_faucet crates sled 10 10000 node bob ≡ (
  paid,
  ok (hash_to_hex crates (tx_hash crates (faucet_tx crates sled 10000 node.world_state bob))),
)
unfolding post_faucet check_faucet crates trim_vela trim_rounds strip_prefix can_faucet lookup admit
granted = refl

post_faucet-prefix_example :
    (m : Node (List (Bytes × Block))) × (h' : Text) × (tx tx' : Transaction) × (post_faucet crates
        sled 10 10001 paid
        (vela_prefix ++ bob)
      ≡ (m, ok h'))
    × (m.mempool ≡ push (push node.mempool tx) tx')
    × (tx'.to ≡ tx.to)
    × (tx.amount ≡ faucet_amount)
    × (tx'.amount ≡ faucet_amount)
unfolding lookup
post_faucet-prefix_example = post_faucet-prefix crates sled 10 10000 10001 node bob granted refl

serve_lem_example :
    let (n', a) = serve crates sled info 10 10000 node (faucet bob) in
    (n' ≡ node) ⊎ Accepts crates sled node (faucet bob) n' a
serve_lem_example = serve_lem crates sled info 10 10000 node (faucet bob)

-- A chain with the unsigned payment in its only block.
abbrev chain : List Block
chain = record genesis { transactions = tx_of_request crates sled 3 alice bob unsigned ∷ [] } ∷ []

get_transactions-Finds_example :
    All (Finds crates chain) (get_transactions crates chain (vela_prefix ++ bob))
get_transactions-Finds_example = get_transactions-Finds crates chain (vela_prefix ++ bob)
