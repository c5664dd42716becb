-- ===== src/System/Moves.antt =====
-- The moves of a network of nodes (src/main.rs), each of which does what its code does: steps of one
-- node of itself, and the delivery to one node of a message that some node has sent.
use mathlib.Core.Path.{subst}
use mathlib.Core.Option.{some-injective}
unfoldable use native.Mathlib.Decide.{ℕ_discrete}
use vela_network.Common.{
  ℕ, zero, suc, ◌≡◌, sym, ◌∙◌, ite, List, [], ◌∷◌, All, get_elem?, some, length, arith,
}
use vela_network.Types.{Crates, IsLawful, Vote, genesis}
use vela_network.State.{faucet_seed}
use vela_network.Consensus.Certificates.{IsOrder}
use vela_network.Storage.{Sled, load_all_blocks}
use vela_network.Node.{Node, NetworkMessage, receive, boot, start}
use vela_network.Node.Consistency.{start_parts, with_genesis_nil}
use vela_network.System.{IsSoundMessage, IsSoundNode}
use vela_network.System.Soundness.{genesis-IsSoundBlock, receive-IsSoundNode}
use vela_network.System.Own.{Own, Own-IsSoundNode}

All-get_elem? {ℓ κ} :
    {A : Type ℓ} (P : A → Type κ) (as_ : List A) (i : ℕ) {a : A}
    → All P as_
    → get_elem? as_ i ≡ some a
    → P a
All-get_elem? P [] i h e = ground arith
All-get_elem? P (b ∷ bs) zero h e = subst P (some-injective _ _ e) h.0
All-get_elem? P (b ∷ bs) (suc i) h e = All-get_elem? P bs i h.1 e

either {ℓ κ μ} :
    {A : Type ℓ} {D : Type μ} (P : A → Type κ) (d : Dec D) {a b : A} → P a → P b → P (ite d a b)
either P (yes _) h k = h
either P (no _) h k = k

-- The nodes of a network by number.
abbrev pub Nodes : Type 0 → Type 0
Nodes Db = ℕ → Node Db

unfoldable pub put : {Db : Type 0} → Nodes Db → ℕ → Node Db → Nodes Db
put nodes i n j = ite (ℕ_discrete j i) n (nodes j)

module _ {Db Val : Type 0} (x : Crates) (s : Sled Db Val) where
  pub data Move (nodes nodes' : Nodes Db) : Type 0 where
    acts : (i : ℕ) (n : Node Db) → Own x s (nodes i) n → nodes' ≡ put nodes i n → Move nodes nodes'
    delivers :
        (i j k : ℕ) (order : List Vote → List Vote) (m : NetworkMessage)
        → IsOrder order
        → get_elem? (nodes j).outbox k ≡ some m
        → nodes' ≡ put nodes i (receive x s order (nodes i) m)
        → Move nodes nodes'

  pub data Moves (nodes : Nodes Db) : Nodes Db → Type 0 where
    still : Moves nodes nodes
    after : {m k : Nodes Db} → Moves nodes m → Move m k → Moves nodes k

  -- A node that has just started on a database without blocks.
  abbrev pub IsFresh : Node Db → Type 0
  IsFresh n =
      (index : ℕ) × (db : Db) × (load_all_blocks s db ≡ some []) × (start x s index db ≡ some n)

  module _ (laws : IsLawful x) (width : length (x.verifying_key faucet_seed) ≡ 32) where
    put-IsSoundNode :
        (nodes : Nodes Db) (i : ℕ) (n : Node Db)
        → ((j : ℕ) → IsSoundNode x (nodes j))
        → IsSoundNode x n
        → (j : ℕ) → IsSoundNode x (put nodes i n j)
    unfolding put
    put-IsSoundNode nodes i n h k j = either (IsSoundNode x) (ℕ_discrete j i) k (h j)

    Move-IsSoundNode :
        {nodes nodes' : Nodes Db}
        → Move nodes nodes'
        → ((j : ℕ) → IsSoundNode x (nodes j))
        → (j : ℕ) → IsSoundNode x (nodes' j)
    Move-IsSoundNode {nodes} (acts i n o e) h =
        rw e (put-IsSoundNode nodes i n h (Own-IsSoundNode x s laws width o (h i)))
    Move-IsSoundNode {nodes} (delivers i j k order m any at e) h =
        let carried = All-get_elem? (IsSoundMessage x) (nodes j).outbox k (h j).outbox at in
        rw e (put-IsSoundNode nodes i _ h (receive-IsSoundNode x s order (nodes i) m carried (h i)))

    run-IsSoundNode :
        {nodes nodes' : Nodes Db}
        → Moves nodes nodes'
        → ((j : ℕ) → IsSoundNode x (nodes j))
        → (j : ℕ) → IsSoundNode x (nodes' j)
    run-IsSoundNode still h = h
    run-IsSoundNode (after r m) h = Move-IsSoundNode m (run-IsSoundNode r h)

    start-IsSoundNode : (n : Node Db) → IsFresh n → IsSoundNode x n
    unfolding boot
    start-IsSoundNode n (index, db, l, e) =
        let (key, loaded, db', bs, k, l', g, booted) = start_parts x s index db e in
        let none_yet : loaded ≡ [] = some-injective _ _ (sym l' ∙ l) in
        let alone : bs ≡ genesis ∷ [] = (with_genesis_nil x s db (rw none_yet at g)).1 in
        subst (IsSoundNode x) booted
          (record { blocks = rw alone (genesis-IsSoundBlock x s, tt); mempool = tt; outbox = tt })

    -- Let third-party code do what it documents, and the key of the faucet have 32 bytes. In a network
    -- of any number of nodes that start on empty databases and all run this code, after any requests
    -- of clients and any order of steps and deliveries, every block of every chain has the Merkle
    -- root of its transactions and a hundred of them at most, and every transaction of every block
    -- and pool is between addresses of 32 bytes and has no signature or one that verifies.
    pub Moves-IsSoundNode :
        {nodes nodes' : Nodes Db}
        → ((j : ℕ) → IsFresh (nodes j))
        → Moves nodes nodes'
        → (j : ℕ) → IsSoundNode x (nodes' j)
    Moves-IsSoundNode {nodes} fresh r =
        run-IsSoundNode r (λ j. start-IsSoundNode (nodes j) (fresh j))
