-- ===== src/Network/Delivery.antt =====
-- What the task of src/network/mod.rs hands from a node to its peers and back.
use mathlib.Core.List.{append_assoc, append-nil}
use vela_network.Common.{
  ℕ, zero, suc, length, ◌≡◌, refl, sym, ap, ◌∙◌, Option, none, some, Option-cases, inl, inr, List,
  [], ◌∷◌, ◌++◌, Bytes,
}
use vela_network.Node.{
  NetworkMessage, new_block_msg, new_transaction, consensus_vote, consensus_propose, sync_request,
  sync_response, Topic, vela_blocks, vela_transactions, vela_consensus, topic_of,
}
use vela_network.Network.{
  Swarm, P2PNode, SwarmEvent, new_listen_addr, discovered, expired, message, connection_established,
  connection_closed, outgoing_connection_error, other, on_outgoing, on_message, on_event,
  count_peers,
}

-- The topic of a message: blocks and what asks and answers for them, transactions, consensus.
abbrev pub channel : NetworkMessage → Topic
channel (new_block_msg b) = vela_blocks
channel (sync_request h) = vela_blocks
channel (sync_response bs) = vela_blocks
channel (new_transaction tx) = vela_transactions
channel (consensus_vote v) = vela_consensus
channel (consensus_propose b) = vela_consensus

pub topic_of-channel : (m : NetworkMessage) → topic_of m ≡ channel m
unfolding topic_of
topic_of-channel (new_block_msg b) = refl
topic_of-channel (sync_request h) = refl
topic_of-channel (sync_response bs) = refl
topic_of-channel (new_transaction tx) = refl
topic_of-channel (consensus_vote v) = refl
topic_of-channel (consensus_propose b) = refl

module _ {Sw Peer Addr : Type 0} (w : Swarm Sw Peer Addr) where
  -- The events of the swarm in turn, each with the state of the swarm after it.
  pub run_events : P2PNode Sw Peer Addr → List (Sw × SwarmEvent Peer Addr) → P2PNode Sw Peer Addr
  run_events p [] = p
  run_events p ((sw, e) ∷ es) = run_events (on_event w p sw e) es

  -- What the node is to be handed for a message that arrives, and for a list of events.
  abbrev pub readable : Option NetworkMessage → List NetworkMessage
  readable none = []
  readable (some m) = m ∷ []

  abbrev pub heard : SwarmEvent Peer Addr → List NetworkMessage
  heard (message bytes) = readable (w.from_json bytes)
  heard (new_listen_addr a) = []
  heard (discovered list) = []
  heard (expired list) = []
  heard (connection_established peer) = []
  heard (connection_closed peer) = []
  heard outgoing_connection_error = []
  heard other = []

  abbrev pub heard_all : List (Sw × SwarmEvent Peer Addr) → List NetworkMessage
  heard_all [] = []
  heard_all ((sw, e) ∷ es) = heard e ++ heard_all es

  -- The number of peers after an event that changes connections, and after a list of events.
  abbrev pub counted : ℕ → Sw → SwarmEvent Peer Addr → ℕ
  counted k sw (connection_established peer) = w.connected_peers sw
  counted k sw (connection_closed peer) = w.connected_peers sw
  counted k sw (new_listen_addr a) = k
  counted k sw (discovered list) = k
  counted k sw (expired list) = k
  counted k sw (message bytes) = k
  counted k sw outgoing_connection_error = k
  counted k sw other = k

  abbrev pub counted_all : ℕ → List (Sw × SwarmEvent Peer Addr) → ℕ
  counted_all k [] = k
  counted_all k ((sw, e) ∷ es) = counted_all (counted k sw e) es

  -- What one event adds to what the node is handed.
  record Adds (p p' : P2PNode Sw Peer Addr) (ms : List NetworkMessage) (k : ℕ) : Type 0 where
    handed : p'.tx_in ≡ p.tx_in ++ ms
    waiting : p'.rx_out ≡ p.rx_out
    count : p'.peer_count ≡ k

  still :
      (p p' : P2PNode Sw Peer Addr)
      → p'.tx_in ≡ p.tx_in
      → p'.rx_out ≡ p.rx_out
      → (k : ℕ) → p'.peer_count ≡ k
      → Adds p p' [] k
  still p p' i o k c = record { handed = i ∙ sym (append-nil p.tx_in); waiting = o; count = c }

  on_event-Adds :
      (p : P2PNode Sw Peer Addr) (sw : Sw) (e : SwarmEvent Peer Addr)
      → Adds p (on_event w p sw e) (heard e) (counted p.peer_count sw e)
  unfolding on_event count_peers on_message
  on_event-Adds p sw (new_listen_addr a) = still p _ refl refl _ refl
  on_event-Adds p sw (discovered list) = still p _ refl refl _ refl
  on_event-Adds p sw (expired list) = still p _ refl refl _ refl
  on_event-Adds p sw (message bytes) = elim (Option-cases (w.from_json bytes)) [
    | inl e ↦ rw (e, on_message) (still p _ refl refl _ refl)
    | inr (m, e) ↦ rw (e, on_message) (record { handed = refl; waiting = refl; count = refl })
  ]
  on_event-Adds p sw (connection_established peer) = still p _ refl refl _ refl
  on_event-Adds p sw (connection_closed peer) = still p _ refl refl _ refl
  on_event-Adds p sw outgoing_connection_error = still p _ refl refl _ refl
  on_event-Adds p sw other = still p _ refl refl _ refl

  -- Through any events of the swarm the node is handed exactly the messages that can be read, in the
  -- order of their arrival, what cannot be read being dropped; what waits to be sent stays; and the
  -- number of peers is that of the last time a connection was made or lost.
  pub run_events_lem :
      (p : P2PNode Sw Peer Addr) (es : List (Sw × SwarmEvent Peer Addr))
      → ((run_events p es).tx_in ≡ p.tx_in ++ heard_all es)
        × ((run_events p es).rx_out ≡ p.rx_out)
        × ((run_events p es).peer_count ≡ counted_all p.peer_count es)
  unfolding run_events
  run_events_lem p [] = (sym (append-nil p.tx_in), refl, refl)
  run_events_lem p ((sw, e) ∷ es) =
      let one = on_event-Adds p sw e in
      let (ms, o, c) = run_events_lem (on_event w p sw e) es in
      (
        ms ∙ ap (λ l. l ++ heard_all es) one.handed ∙ append_assoc p.tx_in (heard e) (heard_all es),
        o ∙ one.waiting,
        c ∙ ap (λ k. counted_all k es) one.count,
      )

  -- The bytes in which messages are written.
  abbrev pub WrittenAs : List NetworkMessage → List Bytes → Type 0
  WrittenAs [] [] = Unit {0}
  WrittenAs [] (b ∷ bs) = ⊥
  WrittenAs (m ∷ ms) [] = ⊥
  WrittenAs (m ∷ ms) (b ∷ bs) = (w.to_json m ≡ some b) × WrittenAs ms bs

  -- What is published for messages with these bytes.
  abbrev pub posts : List NetworkMessage → List Bytes → List (Topic × Bytes)
  posts [] bs = []
  posts (m ∷ ms) [] = []
  posts (m ∷ ms) (b ∷ bs) = (channel m, b) ∷ posts ms bs

  -- The swarm after all that was published.
  abbrev pub publish_all : Sw → List (Topic × Bytes) → Sw
  publish_all sw [] = sw
  publish_all sw ((t, b) ∷ rest) = publish_all (w.publish sw t b) rest

  -- As many turns of the arm of `select!` that publishes.
  pub drain : ℕ → P2PNode Sw Peer Addr → Option (P2PNode Sw Peer Addr)
  drain zero p = some p
  drain (suc k) p = elim (on_outgoing w p) [ none ↦ none | some p' ↦ drain k p' ]

  pub drain_lem :
      (p : P2PNode Sw Peer Addr) (ms : List NetworkMessage) (bs : List Bytes)
      → WrittenAs ms bs
      → drain (length ms) (record p { rx_out = ms })
        ≡ some (record p { rx_out = []; swarm = publish_all p.swarm (posts ms bs) })
  unfolding drain on_outgoing
  drain_lem p [] [] h = refl
  drain_lem p [] (b ∷ bs) h = absurd h
  drain_lem p (m ∷ ms) [] h = absurd h
  drain_lem p (m ∷ ms) (b ∷ bs) h =
      rw (h.0, drain, on_outgoing, topic_of-channel m)
        (drain_lem (record p { swarm = w.publish p.swarm (channel m) b }) ms bs h.1)
