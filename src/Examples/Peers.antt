-- ===== src/Examples/Peers.antt =====
-- The network task on a swarm that counts its connections, with a JSON in which requests for blocks
-- are written as their height and nothing else is written.
use mathlib.Core.Path.{subst}
use mathlib.Core.Option.{some-injective}
use vela_network.Common.{Bool, true, false, ◌||◌, ◌==◌, if◌then◌else◌, Bool-cases, inl, inr}
use vela_network.Node.{Topic, vela_blocks, vela_transactions, vela_consensus}
use vela_network.Network.Topics.{IsSubscription}
use vela_network.Common.{
  ℕ, ◌+◌, arith, ◌≡◌, refl, Option, none, some, List, [], ◌∷◌, ◌++◌, Bytes, length,
}
use vela_network.Node.{
  NetworkMessage, new_block_msg, new_transaction, consensus_vote, consensus_propose, sync_request,
  sync_response,
}
use vela_network.Network.{
  Swarm, P2PNode, SwarmEvent, message, connection_established, connection_closed, new, dial_all,
  on_retry, set_up,
}
use vela_network.Network.Delivery.{run_events, heard_all, counted_all, posts, publish_all, drain}
use vela_network.Network.Exchange.{bytes_of, gets, drain-run_events}

written : NetworkMessage → Option Bytes
written (sync_request h) = some (h ∷ [])
written (new_block_msg b) = none
written (new_transaction tx) = none
written (consensus_vote v) = none
written (consensus_propose b) = none
written (sync_response bs) = none

readable : Bytes → Option NetworkMessage
readable (h ∷ []) = some (sync_request h)
readable [] = none
readable (h ∷ k ∷ bs) = none

abbrev swarm : Swarm ℕ ℕ ℕ
swarm = record {
  subscribe = λ sw t. some sw;
  listen_on = λ sw port. some sw;
  dial = λ sw a. sw + 1;
  publish = λ sw t bytes. sw;
  add_explicit_peer = λ sw p. sw;
  remove_explicit_peer = λ sw p. sw;
  connected_peers = λ sw. sw;
  to_json = written;
  from_json = readable;
}

readable-written :
    (m : NetworkMessage) (bytes : Bytes) → written m ≡ some bytes → readable bytes ≡ some m
unfolding written readable
readable-written (sync_request h) bytes e = cc
readable-written (new_block_msg b) bytes e = ground arith
readable-written (new_transaction tx) bytes e = ground arith
readable-written (consensus_vote v) bytes e = ground arith
readable-written (consensus_propose b) bytes e = ground arith
readable-written (sync_response bs) bytes e = ground arith

abbrev sender : P2PNode ℕ ℕ ℕ
unfolding new
sender = record (new 1 8001 (5 ∷ 6 ∷ []) 0) { rx_out = sync_request 3 ∷ sync_request 4 ∷ [] }

abbrev events : List (ℕ × SwarmEvent ℕ ℕ)
events =
    (1, connection_established 1)
    ∷ (1, message (3 ∷ []))
    ∷ (1, message [])
    ∷ (0, connection_closed 1)
    ∷ []

events_test : heard_all swarm events ≡ sync_request 3 ∷ []
unfolding readable
events_test = refl

retry_test : (on_retry swarm sender).swarm ≡ 2
unfolding on_retry sender dial_all
retry_test = refl

-- A swarm that is the list of its topics, and refuses the port 0.
same_topic : Topic → Topic → Bool
same_topic vela_blocks vela_blocks = true
same_topic vela_transactions vela_transactions = true
same_topic vela_consensus vela_consensus = true
same_topic _ _ = false

subscribed : List Topic → Topic → Bool
subscribed [] u = false
subscribed (t ∷ ts) u = same_topic t u || subscribed ts u

abbrev topics : Swarm (List Topic) ℕ ℕ
topics = record {
  subscribe = λ sw t. some (t ∷ sw);
  listen_on = λ sw port. if port == 0 then none else some sw;
  dial = λ sw a. sw;
  publish = λ sw t bytes. sw;
  add_explicit_peer = λ sw p. sw;
  remove_explicit_peer = λ sw p. sw;
  connected_peers = λ sw. 0;
  to_json = written;
  from_json = readable;
}

same_topic_self : (t : Topic) → same_topic t t ≡ true
unfolding same_topic
same_topic_self vela_blocks = refl
same_topic_self vela_transactions = refl
same_topic_self vela_consensus = refl

subscribed-head : (t : Topic) (ts : List Topic) → subscribed (t ∷ ts) t ≡ true
unfolding subscribed
subscribed-head t ts = rw (same_topic_self t) refl

subscribed-tail :
    (t u : Topic) (ts : List Topic) → subscribed ts u ≡ true → subscribed (t ∷ ts) u ≡ true
unfolding subscribed
subscribed-tail t u ts h = ground (arith, h)

topics-IsSubscription : IsSubscription topics subscribed
topics-IsSubscription = record {
  subscribe-self = λ sw sw' t e.
      subst (λ ts. subscribed ts t ≡ true) (some-injective _ _ e) (subscribed-head t sw);
  subscribe-other = λ sw sw' t u e h.
      subst (λ ts. subscribed ts u ≡ true) (some-injective _ _ e) (subscribed-tail t u sw h);
  listen_on-other = λ sw sw' port u e h. elim (Bool-cases (port == 0)) [
    | inl q ↦ ground (arith, e)
    | inr q ↦ subst (λ ts. subscribed ts u ≡ true) (some-injective _ _ (rw q at e)) h
  ];
  dial-other = λ sw a u h. h;
}

abbrev idle_node : P2PNode (List Topic) ℕ ℕ
unfolding new
idle_node = new 1 8001 (5 ∷ 6 ∷ []) []

abbrev ready : P2PNode (List Topic) ℕ ℕ
ready = record idle_node { swarm = vela_consensus ∷ vela_transactions ∷ vela_blocks ∷ [] }

ready-set_up : set_up topics idle_node ≡ some ready
unfolding set_up dial_all idle_node
ready-set_up = refl

abbrev sending : P2PNode (List Topic) ℕ ℕ
unfolding new
sending = record (new 2 8002 [] []) { rx_out = sync_request 3 ∷ sync_request 4 ∷ [] }

abbrev bytes : List Bytes
bytes = (3 ∷ []) ∷ (4 ∷ []) ∷ []

-- The two messages, between a connection that is made and one that is lost.
abbrev arriving : List (List Topic × SwarmEvent ℕ ℕ)
arriving =
    (ready.swarm, connection_established 2)
    ∷ (ready.swarm, message (3 ∷ []))
    ∷ (ready.swarm, connection_closed 2)
    ∷ (ready.swarm, message (4 ∷ []))
    ∷ []

arriving-gets :
    bytes_of topics arriving
    ≡ gets topics subscribed ready.swarm (posts topics sending.rx_out bytes)
unfolding subscribed same_topic sending
arriving-gets = refl

drain-run_events_example :
    (drain topics (length sending.rx_out) sending
      ≡ some (record sending {
        rx_out = [];
        swarm = publish_all topics sending.swarm (posts topics sending.rx_out bytes);
      }))
    × ((run_events topics ready arriving).tx_in ≡ ready.tx_in ++ sending.rx_out)
    × ((run_events topics ready arriving).peer_count ≡ counted_all topics ready.peer_count arriving)
unfolding written sending
drain-run_events_example =
    drain-run_events topics subscribed sending idle_node ready bytes arriving
      (record { from_json-to_json = readable-written }) topics-IsSubscription (refl, (refl, tt))
      ready-set_up arriving-gets
