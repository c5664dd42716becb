-- ===== src/Examples/Forms.antt =====
-- Merkle roots of small lists of transactions.
mod History
use vela_network.Examples.Setup.{crates}
use vela_network.Common.{List, [], ◌∷◌, map, replicate, Bytes}
use vela_network.Types.{Address, Transaction, new_tx, address_of_key, tx_hash, merkle_root}
use vela_network.Types.Roots.{HasRoot, merkle_root-HasRoot}

abbrev secret : Bytes
secret = replicate 32 3

abbrev payee : Address
payee = record { bytes = replicate 32 4 }

abbrev pub payment : Transaction
unfolding new_tx address_of_key
payment = new_tx (address_of_key crates secret) payee 5 1 0 77

-- The same transfer later, which has another hash.
abbrev pub later : Transaction
later = record payment { timestamp = 78 }

abbrev payments : List Transaction
payments = payment ∷ later ∷ payment ∷ []

merkle_root-HasRoot_example :
    HasRoot crates (map (tx_hash crates) payments) (merkle_root crates payments)
merkle_root-HasRoot_example = merkle_root-HasRoot crates payment (later ∷ payment ∷ [])
