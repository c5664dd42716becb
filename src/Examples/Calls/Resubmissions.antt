-- ===== src/Examples/Calls/Resubmissions.antt =====
-- An unsigned payment that is sent twice, with a millisecond between.
unfoldable use native.Mathlib.Decide.{ℕ_discrete}
use mathlib.Core.Path.{subst}
use mathlib.Core.Option.{some-injective}
use vela_network.Examples.Setup.{crates, sled}
use vela_network.Examples.Calls.{alice, bob, node, unsigned}
use vela_network.Common.{◌≡◌, refl, arith, List, Bytes, Text, add64, false, push}
use vela_network.Common.Dict.{lookup, text_discrete}
use vela_network.Types.{Block, tx_hash, hash_to_hex}
use vela_network.State.{balance, nonce}
use vela_network.Node.{Node}
use vela_network.Rpc.{ok, strip_prefix, trim_rounds, trim_vela, is_pooled, post_send_tx}
use vela_network.Rpc.Requests.{asked_tx, accepted, post_send_tx_unsigned}
use vela_network.Rpc.Resubmissions.{IsFresh, Again, post_send_tx-post_send_tx}

abbrev holding : Node (List (Bytes × Block))
holding = (accepted crates sled 3 node unsigned (asked_tx crates sled 3 node unsigned alice bob)).0

abbrev answer : Text
answer = hash_to_hex crates (tx_hash crates (asked_tx crates sled 3 node unsigned alice bob))

first_time : post_send_tx crates sled 3 node unsigned ≡ (holding, ok answer)
unfolding crates trim_vela trim_rounds strip_prefix balance nonce lookup text_discrete ℕ_discrete
    is_pooled add64
first_time =
    (post_send_tx_unsigned crates sled 3 node unsigned alice bob refl refl refl refl (omega arith)
      refl refl refl).0

fresh_for :
    is_pooled crates sled
      (hash_to_hex crates (tx_hash crates (asked_tx crates sled 4 node unsigned alice bob)))
      (push node.mempool (asked_tx crates sled 3 node unsigned alice bob))
    ≡ false
unfolding crates is_pooled text_discrete ℕ_discrete tx_hash hash_to_hex
fresh_for = refl

is_fresh : IsFresh crates sled 3 4 node unsigned
unfolding crates trim_vela trim_rounds strip_prefix
is_fresh from to e d =
    let Fresh : Bytes → Bytes → Type 0 = λ a b.
      is_pooled crates sled
        (hash_to_hex crates (tx_hash crates (asked_tx crates sled 4 node unsigned a b)))
        (push node.mempool (asked_tx crates sled 3 node unsigned a b))
      ≡ false in
    subst (λ b. Fresh from b) (some-injective bob to d)
      (subst (λ a. Fresh a bob) (some-injective alice from e) fresh_for)

post_send_tx-post_send_tx_example : Again crates sled 4 node holding unsigned
post_send_tx-post_send_tx_example =
    post_send_tx-post_send_tx crates sled 3 4 node unsigned first_time refl is_fresh
