-- ===== src/Mempool.antt =====
-- src/mempool/mod.rs: transactions by the hexadecimal form of their hash. The order in which
-- `values()` gives them is unspecified: it is the argument `order`.
pub mod Contents
pub mod Histories
use vela_network.Common.{ℕ, List, [], ◌∷◌, ◌≡◌, take, length, Text}
use vela_network.Common.Dict.{Dict, insert, remove, values}
use vela_network.Types.{Crates, Hash, Transaction, tx_hash, hash_to_hex}

pub record Mempool : Type 0 where
  pub transactions : Dict Transaction

-- `Mempool::new`, which ignores its argument
unfoldable pub new : ℕ → Mempool
new max = record { transactions = [] }

-- `Mempool::len`
unfoldable pub len : Mempool → ℕ
len pool = length pool.transactions

-- `Mempool::take`
unfoldable pub take_some : (List Transaction → List Transaction) → Mempool → ℕ → List Transaction
take_some order pool limit = take limit (order (values pool.transactions))

module _ (x : Crates) where
  -- `tx.hash().to_hex()`
  abbrev pub hash_key : Transaction → Text
  unfolding hash_to_hex tx_hash
  hash_key tx = hash_to_hex x (tx_hash x tx)

  -- `Mempool::add`, which returns `Ok` of the hash always
  unfoldable pub add : Mempool → Transaction → Mempool × Hash
  add pool tx = (record { transactions = insert (hash_key tx) tx pool.transactions }, tx_hash x tx)

  unfoldable pub remove_all : List Transaction → Dict Transaction → Dict Transaction
  remove_all [] m = m
  remove_all (tx ∷ txs) m = remove_all txs (remove (hash_key tx) m)

  -- `Mempool::remove_committed`
  unfoldable pub remove_committed : Mempool → List Transaction → Mempool
  unfolding remove_all
  remove_committed pool txs = record { transactions = remove_all txs pool.transactions }
