-- ===== src/Examples/Calls/Payments.antt =====
-- Payments from the request of a client, or from the pool and a block of a peer, to the accounts.
unfoldable use native.Mathlib.Decide.{ℕ_discrete}
use vela_network.Examples.Setup.{crates, sled}
use vela_network.Common.{◌≡◌, refl, List, [], ◌∷◌, Bytes, arith, add64}
use vela_network.Common.Dict.{lookup, text_discrete}
use vela_network.Types.{genesis, Transaction, Block}
use vela_network.State.{balance, nonce}
use vela_network.Node.{Node}
use vela_network.Rpc.{strip_prefix, trim_rounds, trim_vela, is_pooled, tx_of_request, post_send_tx}
use vela_network.Rpc.Requests.{Admits}
use vela_network.Common.{get_elem?}
use vela_network.Node.{lead_round}
use vela_network.Node.{receive, new_block_msg, is_next, tip_height}
use vela_network.Common.{◌+◌, ◌-◌, ◌*◌}
use vela_network.Node.Repeats.{lead_round-receive}
use vela_network.Node.Payment.{Paid, lead_round-post_send_tx}
use vela_network.State.{key_of}
use vela_network.State.Updates.{total}
use vela_network.Common.{◌≢◌, inl, ap}
use vela_network.Common.{some}
use vela_network.Examples.Calls.{alice, bob, node, unsigned}

-- The node on the genesis block.
abbrev funded : Node (List (Bytes × Block))
funded = record node { blocks = genesis ∷ [] }

abbrev payment : Transaction
payment = tx_of_request crates sled 3 alice bob unsigned

admitted : Admits crates sled 3 funded unsigned alice bob payment
unfolding crates trim_vela trim_rounds strip_prefix balance nonce lookup text_discrete ℕ_discrete
    is_pooled add64 tx_of_request
admitted = record {
  sender = refl;
  receiver = refl;
  from_width = refl;
  to_width = refl;
  covered = omega arith;
  in_turn = refl;
  made = refl;
  signed = inl refl;
  fresh = refl;
}

apart : key_of crates payment.from ≢ key_of crates payment.to
unfolding crates tx_of_request
apart e =
    let heads : get_elem? alice 0 ≡ get_elem? bob 0 = ap (λ t. get_elem? t 0) e in ground arith

lead_round-post_send_tx_example :
    (n' : Node (List (Bytes × Block))) × (lead_round crates sled 12
        (post_send_tx crates sled 3 funded unsigned).0
      ≡ some n')
    × Paid crates sled funded n' unsigned payment
unfolding genesis total
lead_round-post_send_tx_example =
    lead_round-post_send_tx crates sled 12 3 funded unsigned alice bob payment (refl, tt) refl refl
      (omega arith) admitted (omega arith) apart

-- The node with a smaller payment in its pool, and a block of a peer with the same payment.
abbrev small : Transaction
small = record payment { amount = 40 }

abbrev holding : Node (List (Bytes × Block))
holding = record funded { mempool = small ∷ [] }

abbrev next : Block
next = record genesis { header = record genesis.header { height = 1 }; transactions = small ∷ [] }

lead_round-receive_example :
    (n' : Node (List (Bytes × Block))) × (lead_round crates sled 12
        (receive crates sled (λ vs. vs) holding (new_block_msg next))
      ≡ some n')
    × (balance crates n'.world_state small.from
        ≡ balance crates holding.world_state small.from - 2 * (small.amount + small.fee))
    × (balance crates n'.world_state small.to
        ≡ balance crates holding.world_state small.to + 2 * small.amount)
unfolding genesis total crates balance lookup text_discrete ℕ_discrete is_next tip_height add64
    tx_of_request
lead_round-receive_example =
    lead_round-receive crates sled (λ vs. vs) 12 holding next small (refl, tt) refl refl refl refl
      (omega arith) (omega arith) apart (omega arith)
