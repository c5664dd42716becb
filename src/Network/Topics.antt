-- ===== src/Network/Topics.antt =====
-- The topics to which the task of src/network/mod.rs subscribes, and those on which it publishes.
use mathlib.Core.Path.{subst}
use mathlib.Core.Option.{some-injective}
use vela_network.Common.{ℕ, ◌≡◌, sym, ap, Bool, true, some, List, [], ◌∷◌, >>=-eq-some}
use vela_network.Node.{
  NetworkMessage, Topic, vela_blocks, vela_transactions, vela_consensus, topic_of,
}
use vela_network.Network.{Swarm, P2PNode, dial_all, set_up}

-- What gossipsub documents of the test whether a swarm is subscribed to a topic: subscribing makes
-- it so, and it stays so when the swarm subscribes to another topic, listens or dials.
pub record IsSubscription {Sw Peer Addr : Type 0} (w : Swarm Sw Peer Addr)
    (subscribed : Sw → Topic → Bool) : Type 0 where
  pub subscribe-self :
      (sw sw' : Sw) (t : Topic) → w.subscribe sw t ≡ some sw' → subscribed sw' t ≡ true
  pub subscribe-other :
      (sw sw' : Sw) (t u : Topic)
      → w.subscribe sw t ≡ some sw'
      → subscribed sw u ≡ true
      → subscribed sw' u ≡ true
  pub listen_on-other :
      (sw sw' : Sw) (port : ℕ) (u : Topic)
      → w.listen_on sw port ≡ some sw'
      → subscribed sw u ≡ true
      → subscribed sw' u ≡ true
  pub dial-other :
      (sw : Sw) (a : Addr) (u : Topic) → subscribed sw u ≡ true → subscribed (w.dial sw a) u ≡ true

each_topic :
    (P : Topic → Type 0)
    → P vela_blocks
    → P vela_transactions
    → P vela_consensus
    → (t : Topic) → P t
each_topic P b t c vela_blocks = b
each_topic P b t c vela_transactions = t
each_topic P b t c vela_consensus = c

module _ {Sw Peer Addr : Type 0} (w : Swarm Sw Peer Addr) (subscribed : Sw → Topic → Bool)
    (laws : IsSubscription w subscribed) where
  dial_all-subscribed :
      (sw : Sw) (as_ : List Addr) (u : Topic)
      → subscribed sw u ≡ true
      → subscribed (dial_all w sw as_) u ≡ true
  unfolding dial_all
  dial_all-subscribed sw [] u h = h
  dial_all-subscribed sw (a ∷ as_) u h =
      dial_all-subscribed (w.dial sw a) as_ u (laws.dial-other sw a u h)

  -- Once the set-up of the task succeeds, on a swarm with subscriptions as gossipsub documents them,
  -- the swarm is subscribed to the topic of every message that a node can publish; what waits to be
  -- published stays.
  pub set_up-topic_of :
      (p p' : P2PNode Sw Peer Addr)
      → set_up w p ≡ some p'
      → ((m : NetworkMessage) → subscribed p'.swarm (topic_of m) ≡ true) × (p'.rx_out ≡ p.rx_out)
  unfolding set_up topic_of
  set_up-topic_of p p' e =
      let (sw₁, q₁, e₁) = >>=-eq-some (w.subscribe p.swarm vela_blocks) _ e in
      let (sw₂, q₂, e₂) = >>=-eq-some (w.subscribe sw₁ vela_transactions) _ e₁ in
      let (sw₃, q₃, e₃) = >>=-eq-some (w.subscribe sw₂ vela_consensus) _ e₂ in
      let (sw₄, q₄, e₄) = >>=-eq-some (w.listen_on sw₃ p.port) _ e₃ in
      let done = some-injective _ _ e₄ in
      let at_end : (u : Topic) → subscribed sw₃ u ≡ true → subscribed p'.swarm u ≡ true = λ u h.
        subst (λ (n : P2PNode Sw Peer Addr). subscribed n.swarm u ≡ true) done
          (dial_all-subscribed sw₄ p.bootstrap_peers u
            (laws.listen_on-other sw₃ sw₄ p.port u q₄ h)) in
      let blocks = at_end vela_blocks (
        laws.subscribe-other sw₂ sw₃ vela_consensus vela_blocks q₃ (
          laws.subscribe-other sw₁ sw₂ vela_transactions vela_blocks q₂
            (laws.subscribe-self p.swarm sw₁ vela_blocks q₁))) in
      let transactions = at_end vela_transactions (
        laws.subscribe-other sw₂ sw₃ vela_consensus vela_transactions q₃
          (laws.subscribe-self sw₁ sw₂ vela_transactions q₂)) in
      let consensus = at_end vela_consensus (laws.subscribe-self sw₂ sw₃ vela_consensus q₃) in
      (
        λ m.
            each_topic (λ t. subscribed p'.swarm t ≡ true) blocks transactions consensus
              (topic_of m),
        sym (ap (λ (n : P2PNode Sw Peer Addr). n.rx_out) done),
      )
