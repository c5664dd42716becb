-- ===== src/Examples/Chains/Interleaved.antt =====
-- A request to the faucet, a block of a peer that comes between its sections, and a round.
use mathlib.Core.List.Perm
use vela_network.Examples.Setup.{crates, sled}
use vela_network.Examples.Chains.{as_given, first, started, started-IsConsistent}
use vela_network.Common.{List, [], ◌∷◌, Text, Bytes, refl, replicate}
use vela_network.Types.{Block}
use vela_network.Node.{Node, new_block_msg, receive}
use vela_network.Node.Steps.{receives}
use vela_network.Node.Consistency.{IsConsistent}
use vela_network.Node.Interleaved.{
  FineRun, at_start, steps, asks_faucet, advances, FineRun-IsConsistent,
}
use vela_network.Rpc.Sections.{Task, faucet_asked}
use vela_network.Rpc.Interleavings.{turn}

abbrev asker : Text
asker = replicate 32 9

-- The node after the first section of the request, and the request.
abbrev checking : Node (List (Bytes × Block))
checking = (turn crates sled 0 10 10000 started (faucet_asked asker ∷ [])).0

abbrev waiting : List Task
waiting = (turn crates sled 0 10 10000 started (faucet_asked asker ∷ [])).1

abbrev overtaken : Node (List (Bytes × Block))
overtaken = receive crates sled as_given checking (new_block_msg first)

fine_run :
    FineRun crates sled started []
      (turn crates sled 0 11 11000 overtaken waiting).0
      (turn crates sled 0 11 11000 overtaken waiting).1
fine_run = advances 0 11 11000 (
    steps (advances 0 10 10000 (asks_faucet asker at_start))
      (receives as_given (new_block_msg first) (λ vs. Perm.refl vs) refl))

FineRun-IsConsistent_example :
    IsConsistent crates sled (turn crates sled 0 11 11000 overtaken waiting).0
FineRun-IsConsistent_example = FineRun-IsConsistent crates sled fine_run started-IsConsistent
