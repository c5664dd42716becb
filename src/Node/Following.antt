-- ===== src/Node/Following.antt =====
-- A peer that hears all that a producer of blocks sends (src/main.rs).
use mathlib.Core.List.{append_assoc, append-nil}
use vela_network.Common.{
  ℕ, ◌%◌, ◌≡◌, refl, sym, ap, ◌∙◌, Option, none, some, List, [], ◌∷◌, ◌++◌, map, add64, ◌==◌, inl,
  inr, Bool-cases, Option-cases, ◌>>=◌,
}
use vela_network.Types.{Crates, Transaction, Vote, Block}
use vela_network.Consensus.{handle_propose}
use vela_network.Storage.{Sled}
use vela_network.Node.Defs.{
  Node, NetworkMessage, new_block_msg, new_transaction, consensus_propose, receive,
  on_new_transaction, on_propose, send, lead_round, produce,
}
use vela_network.Node.Chain.{IsChain, IsChain-push}
use vela_network.Node.Steps.{tip_height_of_last}
use vela_network.Node.Production.{lead_round_lem, on_new_block_follows}
use vela_network.Node.Decision.{receive_all}

module _ {Db Val : Type 0} (x : Crates) (s : Sled Db Val) (order : List Vote → List Vote) where
  -- Rounds of the task that produces blocks, each with its time and with the transactions that the
  -- network hands over before it.
  abbrev pub produce_all : ℕ → Node Db → List (ℕ × List Transaction) → Option (Node Db)
  produce_all validator_index n [] = some n
  produce_all validator_index n ((now, txs) ∷ rounds) = do
    n' ← produce x s validator_index now (receive_all x s order n (map new_transaction txs))
    produce_all validator_index n' rounds

  -- The chain, the world state and the messages of a node that collects transactions.
  record Collects (n n' : Node Db) : Type 0 where
    blocks : n'.blocks ≡ n.blocks
    world_state : n'.world_state ≡ n.world_state
    outbox : n'.outbox ≡ n.outbox

  receive_all-Collects :
      (n : Node Db) (txs : List Transaction)
      → Collects n (receive_all x s order n (map new_transaction txs))
  unfolding receive on_new_transaction
  receive_all-Collects n [] = record { blocks = refl; world_state = refl; outbox = refl }
  receive_all-Collects n (tx ∷ txs) =
      let h = receive_all-Collects (on_new_transaction x s n tx) txs in
      record { blocks = h.blocks; world_state = h.world_state; outbox = h.outbox }

  on_propose_keeps :
      (n : Node Db) (b : Block)
      → ((on_propose x s n b).blocks ≡ n.blocks)
        × ((on_propose x s n b).world_state ≡ n.world_state)
  unfolding on_propose send
  on_propose_keeps n b = elim (Option-cases (handle_propose x n.hotstuff b none).1) [
    | inl e ↦ rw (e, on_propose) (refl, refl)
    | inr (m, e) ↦ rw (e, on_propose) (refl, refl)
  ]

  receive_all-append :
      (n : Node Db) (ms ns : List NetworkMessage)
      → receive_all x s order n (ms ++ ns) ≡ receive_all x s order (receive_all x s order n ms) ns
  receive_all-append n [] ns = refl
  receive_all-append n (m ∷ ms) ns = receive_all-append (receive x s order n m) ms ns

  -- The producer in the state `n'` has sent `sent` since `n`, and the peer that hears that has its
  -- chain and world state.
  pub record Follows (n n' peer : Node Db) (sent : List NetworkMessage) : Type 0 where
    pub chain : IsChain n'.blocks
    pub outbox : n'.outbox ≡ n.outbox ++ sent
    pub blocks : (receive_all x s order peer sent).blocks ≡ n'.blocks
    pub world_state : (receive_all x s order peer sent).world_state ≡ n'.world_state

  lead_round-Follows :
      (now : ℕ) (n peer : Node Db)
      → IsChain n.blocks
      → peer.blocks ≡ n.blocks
      → peer.world_state ≡ n.world_state
      → (n' : Node Db) × (sent : List NetworkMessage) × (lead_round x s now n ≡ some n')
        × Follows n n' peer sent
  unfolding receive
  lead_round-Follows now n peer h same_blocks same_state =
      let (tip, b, n', t, led, chain, _, height, _, _, state, sent, _) =
        lead_round_lem x s now n h in
      let (kept_blocks, kept_state) = on_propose_keeps peer b in
      let (blocks, states, _) =
        on_new_block_follows x s order n (on_propose x s peer b) b (kept_blocks ∙ same_blocks)
          (kept_state ∙ same_state) t height in
      (
        n',
        consensus_propose b ∷ new_block_msg b ∷ [],
        led,
        record {
          chain = rw chain (
              IsChain-push n.blocks b h
                (height ∙ ap (λ k. add64 k 1) (tip_height_of_last n.blocks t)));
          outbox = sent ∙ append_assoc n.outbox _ _;
          blocks = blocks ∙ sym chain;
          world_state = states ∙ sym state;
        },
      )

  produce-Follows :
      (validator_index now : ℕ) (n peer : Node Db)
      → IsChain n.blocks
      → peer.blocks ≡ n.blocks
      → peer.world_state ≡ n.world_state
      → (n' : Node Db) × (sent : List NetworkMessage) × (produce x s validator_index now n
          ≡ some n')
        × Follows n n' peer sent
  unfolding produce
  produce-Follows validator_index now n peer h same_blocks same_state =
      elim (Bool-cases (n.round % 3 == validator_index)) [
        | inl turn ↦
            let (n', sent, led, f) = lead_round-Follows now n peer h same_blocks same_state in
            (
              record n' { round = add64 n'.round 1 },
              sent,
              rw (turn, led) refl,
              record {
                chain = f.chain;
                outbox = f.outbox;
                blocks = f.blocks;
                world_state = f.world_state;
              },
            )
        | inr idle ↦ (
          record n { round = add64 n.round 1 },
          [],
          rw idle refl,
          record {
            chain = h;
            outbox = sym (append-nil n.outbox);
            blocks = same_blocks;
            world_state = same_state;
          },
        )
      ]

  -- Let a node hold a chain, and a peer the same blocks and world state. Through any rounds of block
  -- production, with any transactions before each of them, the node does not panic, and holds a chain
  -- after them; and a peer that is handed all that the node has sent meanwhile, in its order, has
  -- again the blocks and the world state of the node.
  pub produce_all-Follows :
      (validator_index : ℕ) (rounds : List (ℕ × List Transaction)) (n peer : Node Db)
      → IsChain n.blocks
      → peer.blocks ≡ n.blocks
      → peer.world_state ≡ n.world_state
      → (n' : Node Db) × (sent : List NetworkMessage) × (produce_all validator_index n rounds
          ≡ some n')
        × Follows n n' peer sent
  produce_all-Follows validator_index [] n peer h same_blocks same_state = (
    n,
    [],
    refl,
    record {
      chain = h;
      outbox = sym (append-nil n.outbox);
      blocks = same_blocks;
      world_state = same_state;
    },
  )
  produce_all-Follows validator_index ((now, txs) ∷ rounds) n peer h same_blocks same_state =
      let full = receive_all x s order n (map new_transaction txs) in
      let c = receive_all-Collects n txs in
      let (m, first, made, f) =
        produce-Follows validator_index now full peer (rw c.blocks h) (same_blocks ∙ sym c.blocks)
          (same_state ∙ sym c.world_state) in
      let (n', rest, done, g) =
        produce_all-Follows validator_index rounds m (receive_all x s order peer first) f.chain
          f.blocks f.world_state in
      let handed = receive_all-append peer first rest in
      (
        n',
        first ++ rest,
        rw made done,
        record {
          chain = g.chain;
          outbox =
              g.outbox
              ∙ ap (λ l. l ++ rest) (f.outbox ∙ ap (λ l. l ++ first) c.outbox)
              ∙ append_assoc n.outbox first rest;
          blocks = ap (λ (p : Node Db). p.blocks) handed ∙ g.blocks;
          world_state = ap (λ (p : Node Db). p.world_state) handed ∙ g.world_state;
        },
      )
