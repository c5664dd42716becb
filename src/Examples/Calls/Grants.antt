-- ===== src/Examples/Calls/Grants.antt =====
-- A grant of the faucet to an account that does not exist yet.
unfoldable use native.Mathlib.Decide.{ℕ_discrete}
use vela_network.Examples.Setup.{crates, sled}
use vela_network.Examples.Calls.{bob, node}
use vela_network.Common.{◌≡◌, ◌≢◌, refl, ap, some, List, [], ◌∷◌, Bytes, arith, get_elem?}
use vela_network.Common.Dict.{lookup, text_discrete}
use vela_network.Types.{genesis, Block}
use vela_network.State.{balance, can_faucet, key_of, faucet_address, faucet_seed}
use vela_network.State.Updates.{total}
use vela_network.Node.{Node, lead_round}
use vela_network.Node.Grants.{Granted, lead_round-post_faucet}
use vela_network.Rpc.{ok, strip_prefix, trim_rounds, trim_vela, check_faucet, post_faucet}

abbrev giving : Node (List (Bytes × Block))
giving = record node {
  blocks = genesis ∷ [];
  world_state = record node.world_state {
    accounts =
        (faucet_seed, record { address = faucet_address crates; balance = 1000; nonce = 0 }) ∷ [];
  };
}

apart : key_of crates (faucet_address crates) ≢ key_of crates (record { bytes = bob })
unfolding crates faucet_address
apart e =
    let heads : get_elem? faucet_seed 0 ≡ get_elem? bob 0 = ap (λ t. get_elem? t 0) e in
    ground arith

allowed : check_faucet crates sled 10 giving.world_state bob ≡ ok bob
unfolding check_faucet crates trim_vela trim_rounds strip_prefix can_faucet lookup
allowed = refl

lead_round-post_faucet_example :
    (n' : Node (List (Bytes × Block))) × (lead_round crates sled 12
        (post_faucet crates sled 10 10000 giving bob).0
      ≡ some n')
    × Granted crates sled 10 giving n' bob (record { bytes = bob })
unfolding genesis total crates balance lookup text_discrete ℕ_discrete faucet_address
lead_round-post_faucet_example =
    lead_round-post_faucet crates sled 12 10 10000 giving bob bob (refl, tt) refl refl (omega arith)
      allowed (omega arith) apart
