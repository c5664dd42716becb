-- ===== src/Launch.antt =====
-- What `main` of src/main.rs makes of its arguments and of the environment, and how it brings up the
-- node, the network task and the RPC server with it. `str::parse` of numbers, `split` and `trim` are
-- those of the standard library; reading a Multiaddr is third-party code, and a parameter.
mod Texts
unfoldable pub use Texts.*
pub mod Options
pub mod Addresses
use vela_network.Common.{
  ℕ, ◌+◌, ◌%◌, ◌^◌, Bool, true, false, Option, none, some, List, [], ◌∷◌, push, Text, ◌>>=◌,
  if◌then◌else◌,
}
use vela_network.Types.{Crates}
use vela_network.Storage.{Sled}
use vela_network.Node.{Node, start}
use vela_network.Network.{P2PNode}
use vela_network.Network
use vela_network.Rpc.Server.{ServerState, new_with_state}

-- `Args`, as clap gives them.
pub record Args : Type 0 where
  pub port : Option ℕ
  pub http_port : Option ℕ
  pub bootstrap : List Text
  pub validator_index : Option ℕ

-- The variables P2P_PORT, HTTP_PORT, VALIDATOR_INDEX and BOOTSTRAP_ADDR of the environment.
pub record Env : Type 0 where
  pub p2p_port : Option Text
  pub http_port : Option Text
  pub validator_index : Option Text
  pub bootstrap_addr : Option Text

-- `BOOTSTRAP_PEERS`
abbrev pub hardcoded_peers : List Text
hardcoded_peers = []

-- `given.or_else(|| variable.and_then(|v| v.parse().ok())).unwrap_or(default)`, for numbers below
-- `limit`
unfoldable pub option_or : ℕ → Option ℕ → Option Text → ℕ → ℕ
unfolding parse_unsigned
option_or limit (some n) variable default = n
option_or limit none none default = default
option_or limit none (some v) default = elim (parse_unsigned limit v) [
  | none ↦ default
  | some n ↦ n
]

unfoldable pub port_of : Args → Env → ℕ
unfolding option_or
port_of args env = option_or (2 ^ 16) args.port env.p2p_port 8001

-- The default is the sum on u16.
unfoldable pub rpc_port_of : Args → Env → ℕ
unfolding option_or port_of
rpc_port_of args env =
    option_or (2 ^ 16) args.http_port env.http_port ((port_of args env + 1000) % 2 ^ 16)

unfoldable pub validator_index_of : Args → Env → ℕ
unfolding option_or
validator_index_of args env = option_or (2 ^ 64) args.validator_index env.validator_index 0

-- `iter().filter_map(f).collect()`
unfoldable pub filter_map : {A B : Type 0} → (A → Option B) → List A → List B
filter_map f [] = []
filter_map f (a ∷ as_) =
    let rest = filter_map f as_ in elim (f a) [ none ↦ rest | some b ↦ b ∷ rest ]

module _ {Addr : Type 0} (parse_addr : Text → Option Addr) where
  -- one turn of the loop over the entries of BOOTSTRAP_ADDR
  unfoldable pub push_entry : List Addr → Text → List Addr
  push_entry peers [] = peers
  push_entry peers (c ∷ cs) = elim (parse_addr (c ∷ cs)) [ none ↦ peers | some a ↦ push peers a ]

  unfoldable pub push_entries : List Addr → List Text → List Addr
  unfolding push_entry trim
  push_entries peers [] = peers
  push_entries peers (t ∷ ts) = push_entries (push_entry peers (trim t)) ts

  -- the loop over `BOOTSTRAP_PEERS`
  unfoldable pub push_hardcoded : List Addr → List Text → List Addr
  push_hardcoded peers [] = peers
  push_hardcoded peers (t ∷ ts) =
      push_hardcoded (elim (parse_addr t) [ none ↦ peers | some a ↦ push peers a ]) ts

  unfoldable pub push_variable : List Addr → Option Text → List Addr
  unfolding push_entries split_on
  push_variable peers none = peers
  push_variable peers (some v) = push_entries peers (split_on b',' v)

  unfoldable pub bootstrap_peers_of : Args → Env → List Addr
  unfolding filter_map push_variable push_hardcoded
  bootstrap_peers_of args env =
      push_hardcoded (push_variable (filter_map parse_addr args.bootstrap) env.bootstrap_addr)
        hardcoded_peers

-- What runs after `main` has started its tasks: the node's shared state, the network task, and the
-- server's own fields with the port that it listens on.
pub record Launched (Db Sw Peer Addr : Type 0) : Type 0 where
  pub node : Node Db
  pub network : P2PNode Sw Peer Addr
  pub server : ServerState
  pub rpc_port : ℕ

-- `main`, up to where it waits for the signal that ends it: with the database as it was opened, and
-- the peer id and the swarm that libp2p makes. `none` is an error or a panic.
unfoldable pub main :
    {Db Val Sw Peer Addr : Type 0}
    → Crates
    → Sled Db Val
    → (Text → Option Addr)
    → Args
    → Env
    → Db
    → Peer
    → Sw
    → Option (Launched Db Sw Peer Addr)
unfolding port_of rpc_port_of validator_index_of bootstrap_peers_of start Network.new new_with_state
main x s parse_addr args env db peer swarm = do
  node ← start x s (validator_index_of args env) db
  some (record {
    node = node;
    network = Network.new peer (port_of args env) (bootstrap_peers_of parse_addr args env) swarm;
    server = new_with_state (port_of args env);
    rpc_port = rpc_port_of args env;
  })
