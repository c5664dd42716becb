-- ===== src/Examples/Chains/Systems.antt =====
-- A network of nodes, one of which serves the faucet and another of which is handed what it pays.
use mathlib.Core.List.Perm
unfoldable use native.Mathlib.Decide.{ℕ_discrete}
use vela_network.Examples.Setup.{crates, crates-IsLawful, sled}
use vela_network.Examples.Chains.{empty_db, started, starts, loaded, as_given}
use vela_network.Common.{◌≡◌, refl, some, List, Bytes, Text, length, get_elem?, replicate}
use vela_network.Common.Dict.{lookup}
use vela_network.Types.{Block}
use vela_network.State.{faucet_seed, can_faucet}
use vela_network.Node.{
  Node, NetworkMessage, new_transaction, receive, broadcast, send, boot, replay, replay_from,
}
use vela_network.Rpc.{
  post_faucet, check_faucet, trim_vela, trim_rounds, strip_prefix, admit, faucet_tx,
}
use vela_network.System.{IsSoundNode}
use vela_network.System.Own.{serves_faucet}
use vela_network.System.Moves.{Nodes, put, Moves, still, after, acts, delivers, Moves-IsSoundNode}

abbrev bob : Text
bob = replicate 32 8

abbrev fresh : Nodes (List (Bytes × Block))
fresh i = started

abbrev paying : Node (List (Bytes × Block))
paying = (post_faucet crates sled 10 10000 started bob).0

abbrev paid : Nodes (List (Bytes × Block))
paid = put fresh 0 paying

abbrev payment : NetworkMessage
payment = new_transaction (faucet_tx crates sled 10000 started.world_state bob)

sent : get_elem? (paid 0).outbox 0 ≡ some payment
unfolding put post_faucet check_faucet crates trim_vela trim_rounds strip_prefix can_faucet lookup
    admit broadcast send started boot replay replay_from ℕ_discrete
sent = refl

abbrev told : Nodes (List (Bytes × Block))
told = put paid 1 (receive crates sled as_given (paid 1) payment)

moves : Moves crates sled fresh told
moves =
    after (after still (acts 0 paying (serves_faucet 10 10000 bob refl) refl))
      (delivers 1 0 0 as_given payment (λ vs. Perm.refl vs) sent refl)

width : length (crates.verifying_key faucet_seed) ≡ 32
unfolding crates
width = refl

Moves-IsSoundNode_example : IsSoundNode crates (told 1)
Moves-IsSoundNode_example =
    Moves-IsSoundNode crates sled crates-IsLawful width (λ i. (1, empty_db, loaded, starts)) moves 1
