-- ===== src/Launch/Options.antt =====
-- The ports and the validator's index that `main` of src/main.rs starts with, and what it hands its
-- tasks.
use vela_network.Common.{
  ℕ, zero, suc, ◌+◌, ◌*◌, ◌%◌, ◌<◌, ◌≤◌, ◌≡◌, ◌⊎◌, inl, inr, refl, Option, none, some, List, [],
  ◌∷◌, Text, Option-cases, Bool-cases, ltb, ◌==◌, arith, get_elem?, Bytes, replicate, last?, map,
  add64, sub64,
}
use vela_network.Types.{Crates, Address, Validator, Block, genesis, address_of_key}
use vela_network.Storage.{Sled, save_block, load_all_blocks}
use vela_network.Consensus.{new_node, new_config, quorum_size}
use vela_network.Network
use vela_network.Rpc.Server.{new_with_state}
use vela_network.Node.{
  boot, start, with_genesis, validator_keys, validator_seed, replay, first_round, validators_from,
}
use vela_network.Launch.{
  to_digit, parse_digits, parse_unsigned, Args, Env, option_or, port_of, rpc_port_of,
  validator_index_of, Launched, main, bootstrap_peers_of,
}

parse_digits-lt :
    (limit acc : ℕ) (t : Text) {n : ℕ} → acc < limit → parse_digits limit acc t ≡ some n → n < limit
unfolding parse_digits
parse_digits-lt limit acc [] h e = ground arith
parse_digits-lt limit acc (c ∷ cs) h e = elim (Option-cases (to_digit c)) [
  | inl q ↦ ground arith
  | inr (d, q) ↦ elim (Bool-cases (ltb (acc * 10 + d) limit)) [
    | inl l ↦ parse_digits-lt limit (acc * 10 + d) cs (ground arith) (rw (q, l, parse_digits) at e)
    | inr l ↦ ground arith
  ]
]

parse_unsigned-lt :
    (limit : ℕ) (t : Text) {n : ℕ} → 0 < limit → parse_unsigned limit t ≡ some n → n < limit
unfolding parse_unsigned
parse_unsigned-lt limit [] h e = ground arith
parse_unsigned-lt limit (c ∷ []) h e = parse_digits-lt limit 0 (c ∷ []) h e
parse_unsigned-lt limit (c ∷ d ∷ ds) h e = elim (Bool-cases (c == b'+')) [
  | inl q ↦ parse_digits-lt limit 0 (d ∷ ds) h (rw q at e)
  | inr q ↦ parse_digits-lt limit 0 (c ∷ d ∷ ds) h (rw q at e)
]

-- A number that clap accepted for the type.
abbrev pub IsBelow : ℕ → Option ℕ → Type 0
IsBelow limit none = Unit
IsBelow limit (some n) = n < limit

option_or-lt :
    (limit : ℕ) (given : Option ℕ) (variable : Option Text) (default : ℕ)
    → IsBelow limit given
    → default < limit
    → option_or limit given variable default < limit
unfolding option_or
option_or-lt limit (some n) variable default h k = h
option_or-lt limit none none default h k = k
option_or-lt limit none (some v) default h k = elim (Option-cases (parse_unsigned limit v)) [
  | inl e ↦ rw (e, option_or) k
  | inr (n, e) ↦ rw (e, option_or) (parse_unsigned-lt limit v (omega arith) e)
]

wraps :
    (p : ℕ)
    → p < 65536
    → (p < 64536 × (p + 1000) % 65536 ≡ p + 1000)
      ⊎ (64536 ≤ p × (p + 1000) % 65536 + 64536 ≡ p × (p + 1000) % 65536 < 1000)
wraps p h = ground arith

-- Both ports are numbers of 16 bits. Where neither the flag nor the variable gives a port for the
-- server it is 1000 above the port of the network, but for a port of 64536 or more, where it wraps
-- around to one below 1000.
rpc_port_lem :
    (args : Args) (env : Env)
    → IsBelow 65536 args.port
    → IsBelow 65536 args.http_port
    → (port_of args env < 65536)
      × (rpc_port_of args env < 65536)
      × (args.http_port ≡ none
          → env.http_port ≡ none
          → (port_of args env < 64536 × rpc_port_of args env ≡ port_of args env + 1000)
            ⊎ (64536 ≤ port_of args env
                × rpc_port_of args env + 64536 ≡ port_of args env
                × rpc_port_of args env < 1000))
unfolding rpc_port_of port_of
rpc_port_lem args env h k =
    let p = option_or-lt 65536 args.port env.p2p_port 8001 h (omega arith) in
    (
      p,
      option_or-lt 65536 args.http_port env.http_port ((port_of args env + 1000) % 65536) k
          (omega arith),
      λ a b. rw (a, b, option_or) (wraps (port_of args env) p),
    )

-- The key at an index.
key_at :
    (i : ℕ)
    → (i < 3 × get_elem? validator_keys i ≡ some (validator_seed i))
      ⊎ (3 ≤ i × get_elem? validator_keys i ≡ none)
key_at zero = inl (omega arith, refl)
key_at (suc zero) = inl (omega arith, refl)
key_at (suc (suc zero)) = inl (omega arith, refl)
key_at (suc (suc (suc i))) = inr (omega arith, refl)

-- The chain of a database: the genesis block alone where the database has none.
abbrev pub chain_of : List Block → List Block
chain_of [] = genesis ∷ []
chain_of (b ∷ bs) = b ∷ bs

-- The database after the start, which is the one after the genesis block was saved if it was empty.
abbrev pub db_of : {Db : Type 0} → Db → Db → List Block → Db
db_of db saved [] = saved
db_of db saved (b ∷ bs) = db

-- The 32 bytes of a validator's secret key, of which the first is one more than its index, and its
-- address.
abbrev pub seed : ℕ → Bytes
seed index = (index + 1) ∷ replicate 31 0

abbrev pub address : Crates → ℕ → Address
address x index = record { bytes = x.verifying_key (seed index) }

with_genesis-db_of :
    {Db Val : Type 0} (x : Crates) (s : Sled Db Val) (db saved : Db) (loaded : List Block)
    → save_block s db genesis ≡ some saved
    → with_genesis x s db loaded ≡ some (db_of db saved loaded, chain_of loaded)
unfolding with_genesis
with_genesis-db_of x s db saved [] e = rw e refl
with_genesis-db_of x s db saved (b ∷ bs) e = refl

module _ {Db Val Sw Peer Addr : Type 0} (x : Crates) (s : Sled Db Val)
    (parse_addr : Text → Option Addr) where
  -- What `main` hands its tasks, from the validator's index, the blocks that the database held, and
  -- the database before and after the genesis block was saved.
  pub record IsUp (args : Args) (env : Env) (index : ℕ) (loaded : List Block) (db saved : Db)
      (l : Launched Db Sw Peer Addr) : Type 0 where
    pub blocks : l.node.blocks ≡ chain_of loaded
    pub db_kept : l.node.db ≡ db_of db saved loaded
    pub world_state : l.node.world_state ≡ replay x (chain_of loaded)
    pub nothing_pooled : l.node.mempool ≡ []
    pub nothing_sent : l.node.outbox ≡ []
    pub round :
        (b : Block) → last? (chain_of loaded) ≡ some b → l.node.round ≡ add64 b.header.round 1
    pub signing_key : l.node.hotstuff.signing_key ≡ seed index
    pub own_address : l.node.hotstuff.address ≡ address x index
    pub validators :
        map (λ (v : Validator). v.address) l.node.hotstuff.config.validator_set
        ≡ address x 0 ∷ address x 1 ∷ address x 2 ∷ []
    pub quorum : quorum_size l.node.hotstuff.config ≡ 1
    pub network_port : l.network.port ≡ port_of args env
    pub shown_port : l.server.port ≡ port_of args env
    pub listens_on : l.rpc_port ≡ rpc_port_of args env
    pub peers : l.network.bootstrap_peers ≡ bootstrap_peers_of parse_addr args env
    pub nothing_heard : l.network.tx_in ≡ []
    pub nothing_waits : l.network.rx_out ≡ []

  boot-IsUp :
      (args : Args) (env : Env) (loaded : List Block) (db saved : Db) (peer : Peer) (swarm : Sw)
      (index : ℕ)
      → IsUp args env index loaded db saved (record {
        node = boot x s (validator_seed index) (db_of db saved loaded) (chain_of loaded);
        network =
            Network.new peer (port_of args env) (bootstrap_peers_of parse_addr args env) swarm;
        server = new_with_state (port_of args env);
        rpc_port = rpc_port_of args env;
      })
  unfolding boot Network.new new_with_state first_round new_node new_config validators_from
      address_of_key quorum_size sub64
  boot-IsUp args env loaded db saved peer swarm index = record {
    blocks = refl;
    db_kept = refl;
    world_state = refl;
    nothing_pooled = refl;
    nothing_sent = refl;
    round = λ b e. rw (e, first_round) refl;
    signing_key = refl;
    own_address = refl;
    validators = refl;
    quorum = refl;
    network_port = refl;
    shown_port = refl;
    listens_on = refl;
    peers = refl;
    nothing_heard = refl;
    nothing_waits = refl;
  }

  -- Let the database be readable and take the genesis block. `main` then comes up exactly when the
  -- validator's index is below three, and fails at any other. When it comes up, the node has the
  -- chain that was loaded, or the genesis block alone if none was, the state of executing that
  -- chain, the round after that of its last block, and the key of the index, with a quorum of one
  -- vote among the three validators; the server shows the port of the network; the network knows
  -- the bootstrap peers; and no task has done anything.
  pub main_lem :
      (args : Args) (env : Env) (db saved : Db) (loaded : List Block) (peer : Peer) (swarm : Sw)
      → load_all_blocks s db ≡ some loaded
      → save_block s db genesis ≡ some saved
      → let index = validator_index_of args env in
        let result = main x s parse_addr args env db peer swarm in
        (index < 3
          × ((l : Launched Db Sw Peer Addr) × (result ≡ some l)
              × IsUp args env index loaded db saved l))
        ⊎ (3 ≤ index × result ≡ none)
  unfolding main start
  main_lem args env db saved loaded peer swarm e g =
      let ready = with_genesis-db_of x s db saved loaded g in
      elim (key_at (validator_index_of args env)) [
        | inl (h, k) ↦
            let up = boot-IsUp args env loaded db saved peer swarm (validator_index_of args env) in
            inl (h, rw (k, e, ready) (_, refl, up))
        | inr (h, k) ↦ inr (h, rw k refl)
      ]
