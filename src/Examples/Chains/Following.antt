-- ===== src/Examples/Chains/Following.antt =====
-- Three rounds, of which validator 1 leads one, and another validator that hears it.
use vela_network.Examples.Setup.{crates, sled}
use vela_network.Examples.Chains.{as_given, started, started-IsConsistent}
use vela_network.Common.{ℕ, ◌≡◌, refl, none, some, List, [], ◌∷◌, Bytes, replicate}
use vela_network.Types.{Block, Transaction, genesis}
use vela_network.Storage.{to_be_bytes}
use vela_network.Node.{Node, NetworkMessage, boot, validator_seed}
use vela_network.Node.Following.{produce_all, Follows, produce_all-Follows}

abbrev listener : Node (List (Bytes × Block))
unfolding to_be_bytes genesis
listener = boot crates sled (validator_seed 2) ((to_be_bytes 0, genesis) ∷ []) (genesis ∷ [])

abbrev gift : Transaction
gift = record {
  from = record { bytes = replicate 32 1 };
  to = record { bytes = replicate 32 2 };
  amount = 5;
  fee = 1;
  nonce = 0;
  timestamp = 9;
  payload = [];
  signature = none;
}

abbrev rounds : List (ℕ × List Transaction)
rounds = (12, gift ∷ []) ∷ (13, []) ∷ (14, gift ∷ gift ∷ []) ∷ []

produce_all-Follows_example :
    (n' : Node (List (Bytes × Block))) × (sent : List NetworkMessage) × (produce_all crates sled
        as_given 1 started rounds
      ≡ some n')
    × Follows crates sled as_given started n' listener sent
unfolding started boot
produce_all-Follows_example =
    produce_all-Follows crates sled as_given 1 rounds started listener started-IsConsistent.chain
      refl refl
