-- ===== src/Network.antt =====
-- src/network/mod.rs: the task between the node and the libp2p swarm. The swarm and serde_json are
-- third-party code, and parameters.
pub mod Delivery
pub mod Topics
pub mod Exchange
use vela_network.Common.{ℕ, ◌≡◌, Option, none, some, List, [], ◌∷◌, push, Bytes, Text, ◌>>=◌}
use vela_network.Wallet.{to_decimal}
use vela_network.Node.{
  NetworkMessage, Topic, vela_blocks, vela_transactions, vela_consensus, topic_of,
}

-- The state `Sw` of the swarm, and what the source calls of it. Where the source only warns of an
-- error the operation gives the state after it; where it ends the task, `none`.
pub record Swarm (Sw Peer Addr : Type 0) : Type 0 where
  pub subscribe : Sw → Topic → Option Sw
  pub listen_on : Sw → ℕ → Option Sw
  pub dial : Sw → Addr → Sw
  pub publish : Sw → Topic → Bytes → Sw
  pub add_explicit_peer : Sw → Peer → Sw
  pub remove_explicit_peer : Sw → Peer → Sw
  -- `connected_peers().count()`
  pub connected_peers : Sw → ℕ
  -- `serde_json::to_vec` and `serde_json::from_slice`
  pub to_json : NetworkMessage → Option Bytes
  pub from_json : Bytes → Option NetworkMessage

-- What serde documents of messages that derive both ways: reading undoes writing.
pub record IsLawfulJson {Sw Peer Addr : Type 0} (w : Swarm Sw Peer Addr) : Type 0 where
  pub from_json-to_json :
      (m : NetworkMessage) (bytes : Bytes) → w.to_json m ≡ some bytes → w.from_json bytes ≡ some m

-- `P2PNode` with its swarm. `rx_out` holds what waits to be published and `tx_in` what was handed
-- to the node, the oldest first; `peer_count` is the counter that is shared with the RPC server.
pub record P2PNode (Sw Peer Addr : Type 0) : Type 0 where
  pub local_peer_id : Peer
  pub port : ℕ
  pub bootstrap_peers : List Addr
  pub rx_out : List NetworkMessage
  pub tx_in : List NetworkMessage
  pub peer_count : ℕ
  pub swarm : Sw

-- The id that the configuration of gossipsub gives a message: the value of the standard library's
-- hasher of its data alone, as a text.
unfoldable pub message_id : (Bytes → ℕ) → Bytes → Text
unfolding to_decimal
message_id default_hasher data_ = to_decimal (default_hasher data_)

-- The events of the swarm on which `run` matches.
pub data SwarmEvent (Peer Addr : Type 0) : Type 0 where
  new_listen_addr : Addr → SwarmEvent Peer Addr
  discovered expired : List (Peer × Addr) → SwarmEvent Peer Addr
  message : Bytes → SwarmEvent Peer Addr
  connection_established connection_closed : Peer → SwarmEvent Peer Addr
  outgoing_connection_error other : SwarmEvent Peer Addr

-- `P2PNode::new`, with the id of the key that it draws, and the swarm that `run` builds of another
-- key
unfoldable pub new : {Sw Peer Addr : Type 0} → Peer → ℕ → List Addr → Sw → P2PNode Sw Peer Addr
new local_peer_id port bootstrap_peers swarm = record {
  local_peer_id = local_peer_id;
  port = port;
  bootstrap_peers = bootstrap_peers;
  rx_out = [];
  tx_in = [];
  peer_count = 0;
  swarm = swarm;
}

module _ {Sw Peer Addr : Type 0} (w : Swarm Sw Peer Addr) where
  -- the loops over the bootstrap peers
  unfoldable pub dial_all : Sw → List Addr → Sw
  dial_all sw [] = sw
  dial_all sw (a ∷ as_) = dial_all (w.dial sw a) as_

  -- `run` up to its loop: the subscriptions, the listening address and the bootstrap peers
  unfoldable pub set_up : P2PNode Sw Peer Addr → Option (P2PNode Sw Peer Addr)
  unfolding dial_all
  set_up p = do
    sw₁ ← w.subscribe p.swarm vela_blocks
    sw₂ ← w.subscribe sw₁ vela_transactions
    sw₃ ← w.subscribe sw₂ vela_consensus
    sw₄ ← w.listen_on sw₃ p.port
    some (record p { swarm = dial_all sw₄ p.bootstrap_peers })

  -- the first arm of `select!`: the next message that waits is published
  unfoldable pub on_outgoing : P2PNode Sw Peer Addr → Option (P2PNode Sw Peer Addr)
  unfolding topic_of
  on_outgoing p = elim p.rx_out [
    | [] ↦ some p
    | m ∷ rest ↦ elim (w.to_json m) [
      | none ↦ none
      | some bytes ↦ some (record p { rx_out = rest; swarm = w.publish p.swarm (topic_of m) bytes })
    ]
  ]

  unfoldable pub add_all : Sw → List (Peer × Addr) → Sw
  add_all sw [] = sw
  add_all sw ((peer, addr) ∷ rest) = add_all (w.add_explicit_peer sw peer) rest

  unfoldable pub remove_all : Sw → List (Peer × Addr) → Sw
  remove_all sw [] = sw
  remove_all sw ((peer, addr) ∷ rest) = remove_all (w.remove_explicit_peer sw peer) rest

  unfoldable pub count_peers : P2PNode Sw Peer Addr → P2PNode Sw Peer Addr
  count_peers p = record p { peer_count = w.connected_peers p.swarm }

  -- a message of gossipsub: forwarded if it can be read, and dropped if not
  unfoldable pub on_message : P2PNode Sw Peer Addr → Bytes → P2PNode Sw Peer Addr
  on_message p bytes = elim (w.from_json bytes) [
    | none ↦ p
    | some m ↦ record p { tx_in = push p.tx_in m }
  ]

  -- the second arm: the `match` on an event, after which the swarm is in the state `sw`
  unfoldable pub on_event : P2PNode Sw Peer Addr → Sw → SwarmEvent Peer Addr → P2PNode Sw Peer Addr
  unfolding add_all remove_all count_peers on_message
  on_event p sw (new_listen_addr a) = record p { swarm = sw }
  on_event p sw (discovered list) = record p { swarm = add_all sw list }
  on_event p sw (expired list) = record p { swarm = remove_all sw list }
  on_event p sw (message bytes) = on_message (record p { swarm = sw }) bytes
  on_event p sw (connection_established peer) = count_peers (record p { swarm = sw })
  on_event p sw outgoing_connection_error = record p { swarm = sw }
  on_event p sw (connection_closed peer) = count_peers (record p { swarm = sw })
  on_event p sw other = record p { swarm = sw }

  -- the third arm, every 30 seconds
  unfoldable pub on_retry : P2PNode Sw Peer Addr → P2PNode Sw Peer Addr
  unfolding dial_all
  on_retry p = record p { swarm = dial_all p.swarm p.bootstrap_peers }
