-- ===== src/Examples/Calls/Interleavings.antt =====
-- Requests whose sections come between one another: a request to the faucet, and the same payment
-- twice.
unfoldable use native.Mathlib.Decide.{ℕ_discrete}
use vela_network.Examples.Setup.{crates, sled}
use vela_network.Examples.Calls.{alice, bob, node, unsigned}
use vela_network.Common.{ℕ, ◌≡◌, refl, List, [], ◌∷◌, push, add64}
use vela_network.Common.Dict.{lookup, text_discrete}
use vela_network.Types.{Transaction}
use vela_network.State.{balance, nonce}
use vela_network.Rpc.{
  ok, err, already_in_mempool, strip_prefix, trim_rounds, trim_vela, is_pooled, tx_of_request,
  check_send_tx, post_send_tx,
}
use vela_network.Rpc.Sections.{Task, faucet_asked, tx_asked, answered}
use vela_network.Rpc.Interleavings.{interleave, pools_all, Serves, hash_text, interleave-Serves}
use vela_network.Rpc.Races.{in_turn, interleave-post_send_tx}

abbrev paying : Transaction
paying = tx_of_request crates sled 3 alice bob unsigned

accepts : check_send_tx crates sled 3 node unsigned ≡ ok paying
unfolding check_send_tx crates trim_vela trim_rounds strip_prefix balance nonce lookup text_discrete
    ℕ_discrete is_pooled add64 tx_of_request
accepts = refl

interleave-post_send_tx_example :
    ((post_send_tx crates sled 3 (post_send_tx crates sled 3 node unsigned).0 unsigned).1
      ≡ err already_in_mempool)
    × (let (m, ts) =
          interleave crates sled
            (in_turn crates sled 1 3)
            (node, tx_asked unsigned ∷ tx_asked unsigned ∷ []) in
        (m.mempool ≡ push (push node.mempool paying) paying)
        × (ts
            ≡ answered (ok (hash_text crates sled paying))
              ∷ answered (ok (hash_text crates sled paying))
              ∷ []))
interleave-post_send_tx_example = interleave-post_send_tx crates sled 1 3 node unsigned accepts

abbrev three_tasks : List Task
three_tasks = tx_asked unsigned ∷ faucet_asked bob ∷ tx_asked unsigned ∷ []

abbrev some_turns : List (ℕ × ℕ × ℕ)
some_turns = (1, 10, 10000) ∷ (0, 11, 11000) ∷ (1, 12, 12000) ∷ (2, 12, 12001) ∷ (0, 13, 13000) ∷ []

interleave-Serves_example :
    Serves crates sled node
      (interleave crates sled some_turns (node, three_tasks)).0
      (λ h. pools_all crates sled h three_tasks)
      (λ h. pools_all crates sled h (interleave crates sled some_turns (node, three_tasks)).1)
interleave-Serves_example = interleave-Serves crates sled some_turns node three_tasks
