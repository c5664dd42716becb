-- ===== src/Network/Exchange.antt =====
-- What a node sends reaches a peer that has set itself up (src/network/mod.rs).
use vela_network.Common.{
  length, ◌≡◌, refl, sym, ap, ◌∙◌, Bool, true, some, List, [], ◌∷◌, ◌++◌, Bytes, if◌then◌else◌,
}
use vela_network.Node.{NetworkMessage, Topic, topic_of}
use vela_network.Network.{
  Swarm, IsLawfulJson, P2PNode, SwarmEvent, new_listen_addr, discovered, expired, message,
  connection_established, connection_closed, outgoing_connection_error, other, set_up,
}
use vela_network.Network.Delivery.{
  channel, topic_of-channel, run_events, readable, heard_all, counted_all, run_events_lem,
  WrittenAs, posts, publish_all, drain, drain_lem,
}
use vela_network.Network.Topics.{IsSubscription, set_up-topic_of}

module _ {Sw Peer Addr : Type 0} (w : Swarm Sw Peer Addr) where
  -- The bytes of the messages among the events of a swarm.
  abbrev pub bytes_of : List (Sw × SwarmEvent Peer Addr) → List Bytes
  bytes_of [] = []
  bytes_of ((sw, message b) ∷ es) = b ∷ bytes_of es
  bytes_of ((sw, new_listen_addr a) ∷ es) = bytes_of es
  bytes_of ((sw, discovered list) ∷ es) = bytes_of es
  bytes_of ((sw, expired list) ∷ es) = bytes_of es
  bytes_of ((sw, connection_established peer) ∷ es) = bytes_of es
  bytes_of ((sw, connection_closed peer) ∷ es) = bytes_of es
  bytes_of ((sw, outgoing_connection_error) ∷ es) = bytes_of es
  bytes_of ((sw, other) ∷ es) = bytes_of es

  -- What a swarm gets of what is published: all on the topics to which it is subscribed.
  abbrev pub gets : (Sw → Topic → Bool) → Sw → List (Topic × Bytes) → List Bytes
  gets subscribed sw [] = []
  gets subscribed sw ((t, b) ∷ rest) =
      let later = gets subscribed sw rest in if subscribed sw t then b ∷ later else later

  read_all : List Bytes → List NetworkMessage
  read_all [] = []
  read_all (b ∷ bs) = readable w (w.from_json b) ++ read_all bs

  heard_all-bytes_of :
      (es : List (Sw × SwarmEvent Peer Addr)) → heard_all w es ≡ read_all (bytes_of es)
  unfolding read_all
  heard_all-bytes_of [] = refl
  heard_all-bytes_of ((sw, message b) ∷ es) =
      ap (λ l. readable w (w.from_json b) ++ l) (heard_all-bytes_of es)
  heard_all-bytes_of ((sw, new_listen_addr a) ∷ es) = heard_all-bytes_of es
  heard_all-bytes_of ((sw, discovered list) ∷ es) = heard_all-bytes_of es
  heard_all-bytes_of ((sw, expired list) ∷ es) = heard_all-bytes_of es
  heard_all-bytes_of ((sw, connection_established peer) ∷ es) = heard_all-bytes_of es
  heard_all-bytes_of ((sw, connection_closed peer) ∷ es) = heard_all-bytes_of es
  heard_all-bytes_of ((sw, outgoing_connection_error) ∷ es) = heard_all-bytes_of es
  heard_all-bytes_of ((sw, other) ∷ es) = heard_all-bytes_of es

  read_all-WrittenAs :
      IsLawfulJson w
      → (ms : List NetworkMessage) (bs : List Bytes) → WrittenAs w ms bs
      → read_all bs ≡ ms
  unfolding read_all
  read_all-WrittenAs laws [] [] h = refl
  read_all-WrittenAs laws [] (b ∷ bs) h = absurd h
  read_all-WrittenAs laws (m ∷ ms) [] h = absurd h
  read_all-WrittenAs laws (m ∷ ms) (b ∷ bs) h =
      rw (laws.from_json-to_json m b h.0) (ap (λ l. m ∷ l) (read_all-WrittenAs laws ms bs h.1))

  gets-posts :
      (subscribed : Sw → Topic → Bool) (sw : Sw)
      → ((m : NetworkMessage) → subscribed sw (topic_of m) ≡ true)
      → (ms : List NetworkMessage) (bs : List Bytes) → WrittenAs w ms bs
      → gets subscribed sw (posts w ms bs) ≡ bs
  gets-posts subscribed sw all [] [] h = refl
  gets-posts subscribed sw all [] (b ∷ bs) h = absurd h
  gets-posts subscribed sw all (m ∷ ms) [] h = absurd h
  gets-posts subscribed sw all (m ∷ ms) (b ∷ bs) h =
      let on : subscribed sw (channel m) ≡ true =
        ap (subscribed sw) (sym (topic_of-channel m)) ∙ all m in
      rw on (ap (λ l. b ∷ l) (gets-posts subscribed sw all ms bs h.1))

  -- Let all messages that wait at a node be writable, and serde read what it wrote, and let a peer
  -- have set itself up, on a swarm that keeps its subscriptions as gossipsub documents them. After as many turns none waits at the
  -- node, and its swarm has published them in their order: blocks and what asks and answers for
  -- them on one topic, transactions on another, votes and proposals on the third. If what the peer's
  -- swarm then gets, among any other events, are the messages published on the topics to which it is
  -- subscribed, in that order, then the peer hands its node exactly the messages of the first, with
  -- nothing added or lost; and its number of peers is that of the last time a connection was made
  -- or lost.
  pub drain-run_events :
      (subscribed : Sw → Topic → Bool) (p q q' : P2PNode Sw Peer Addr) (bs : List Bytes)
      (es : List (Sw × SwarmEvent Peer Addr))
      → IsLawfulJson w
      → IsSubscription w subscribed
      → WrittenAs w p.rx_out bs
      → set_up w q ≡ some q'
      → bytes_of es ≡ gets subscribed q'.swarm (posts w p.rx_out bs)
      → (drain w (length p.rx_out) p
          ≡ some (record p { rx_out = []; swarm = publish_all w p.swarm (posts w p.rx_out bs) }))
        × ((run_events w q' es).tx_in ≡ q'.tx_in ++ p.rx_out)
        × ((run_events w q' es).peer_count ≡ counted_all w q'.peer_count es)
  drain-run_events subscribed p q q' bs es laws keeps h up arrive =
      let (all, _) = set_up-topic_of w subscribed keeps q q' up in
      let (handed, _, count) = run_events_lem w q' es in
      let heard : heard_all w es ≡ p.rx_out =
        heard_all-bytes_of es
        ∙ ap read_all (arrive ∙ gets-posts subscribed q'.swarm all p.rx_out bs h)
        ∙ read_all-WrittenAs laws p.rx_out bs h in
      (drain_lem w p p.rx_out bs h, handed ∙ ap (λ l. q'.tx_in ++ l) heard, count)
