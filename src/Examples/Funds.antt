-- ===== src/Examples/Funds.antt =====
-- The world state, the faucet and the pool on small inputs.
unfoldable use native.Mathlib.Decide.{ℕ_discrete}
use vela_network.Examples.Setup.{crates}
use vela_network.Common.{◌+◌, ◌≡◌, ◌≢◌, refl, none, [], ◌∷◌, replicate, arith, add64, sub64}
use vela_network.Common.Dict.{lookup, insert, upsert, and_modify, text_discrete}
use vela_network.Types.{new_account, Address, Transaction, Block, genesis}
use vela_network.State.{
  WorldState, balance_of, faucet_seed, key_of, apply_tx, apply_txs, apply_block,
}
use vela_network.State
use vela_network.State.Updates.{total}
use vela_network.State.Supply.{IsSolvent, new-IsSolvent, apply_block-IsSolvent}
use vela_network.State.Ledger.{ledger_of, run_ledger, ledger_of-apply_txs}
use vela_network.State.Replays.{apply_tx-overflow}

abbrev alice : Address
alice = record { bytes = replicate 32 7 }

abbrev bob : Address
bob = record { bytes = replicate 32 8 }

abbrev payment : Transaction
payment = record {
  from = alice;
  to = bob;
  amount = 30;
  fee = 2;
  nonce = 0;
  timestamp = 5;
  payload = [];
  signature = none;
}

-- An amount and a fee whose sum is 2 ^ 64.
abbrev minting : Transaction
minting = record payment { amount = 18446744073709551610; fee = 6 }

abbrev funded : WorldState
funded = record {
  accounts = (alice.bytes, record { address = alice; balance = 100; nonce = 4 }) ∷ [];
  total_supply = 1000;
  total_txs = 0;
  faucet_last = [];
}

abbrev poor : WorldState
poor = record funded {
  accounts = (alice.bytes, record { address = alice; balance = 1; nonce = 0 }) ∷ [];
}

abbrev paying_block : Block
paying_block = record genesis { transactions = payment ∷ payment ∷ payment ∷ payment ∷ [] }

apply_txs_test :
    balance_of bob.bytes
      (apply_txs crates funded (payment ∷ payment ∷ payment ∷ payment ∷ [])).accounts
    ≡ 90
unfolding crates apply_txs apply_tx lookup add64 text_discrete ℕ_discrete upsert insert and_modify
    sub64 new_account
apply_txs_test = refl

ledger_of-apply_txs_example :
    ledger_of (apply_txs crates funded (payment ∷ payment ∷ []))
    ≡ run_ledger crates (payment ∷ payment ∷ []) (ledger_of funded)
unfolding total
ledger_of-apply_txs_example =
    ledger_of-apply_txs crates funded (payment ∷ payment ∷ []) (omega arith, (omega arith, tt))
      (omega arith)

apply_block-IsSolvent_example : IsSolvent crates (apply_block crates State.new paying_block)
apply_block-IsSolvent_example =
    apply_block-IsSolvent crates State.new paying_block
      (omega arith, (omega arith, (omega arith, (omega arith, tt)))) (new-IsSolvent crates)

seeds_differ : replicate 32 1 ≢ faucet_seed
seeds_differ e = ground arith

apply_tx-overflow_example :
    (total (apply_tx crates poor minting).accounts ≡ total poor.accounts + minting.amount)
    × (balance_of (key_of crates minting.from) (apply_tx crates poor minting).accounts
        ≡ balance_of (key_of crates minting.from) poor.accounts)
    × (balance_of (key_of crates minting.to) (apply_tx crates poor minting).accounts
        ≡ balance_of (key_of crates minting.to) poor.accounts + minting.amount)
unfolding crates total
apply_tx-overflow_example =
    apply_tx-overflow crates poor minting (omega arith) (omega arith) (λ e. ground arith)
