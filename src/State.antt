-- ===== src/State.antt =====
-- src/storage/state.rs: the world state, the execution of blocks and the faucet's cooldown.
-- The maps are keyed by the hexadecimal form of an address; words wrap as in the release build.
pub mod Updates
pub mod Supply
pub mod Ledger
pub mod Replays
pub mod Cooldown
pub mod Words
use vela_network.Common.{
  ℕ, ◌≡◌, Bool, true, ◌&&◌, List, [], ◌∷◌, none, some, Text, Bytes, add64, sub64, leb, ◌==◌,
  if◌then◌else◌, replicate, ◌++◌,
}
use vela_network.Common.Dict.{Dict, lookup, insert, upsert, and_modify}
use vela_network.Types.{Crates, Address, Transaction, Block, Account, address_of_key, new_account}

abbrev pub total_supply_cap : ℕ  -- TOTAL_SUPPLY
total_supply_cap = 1_000_000_000

abbrev pub faucet_amount : ℕ  -- FAUCET_AMOUNT
faucet_amount = 100

abbrev pub faucet_cooldown_secs : ℕ  -- FAUCET_COOLDOWN_SECS
faucet_cooldown_secs = 86400

abbrev pub faucet_seed : Bytes  -- FAUCET_SEED
faucet_seed = 0xFA ∷ 0xCE ∷ replicate 29 0 ++ 1 ∷ []

pub record WorldState : Type 0 where
  pub accounts : Dict Account
  pub total_supply : ℕ
  pub total_txs : ℕ
  pub faucet_last : Dict ℕ

-- `WorldState::new`
unfoldable pub new : WorldState
new = record { accounts = []; total_supply = 0; total_txs = 0; faucet_last = [] }

-- `.map_or(0, |a| a.balance)` and `.map_or(0, |a| a.nonce)` of an account that is looked up
unfoldable pub balance_of : Text → Dict Account → ℕ
balance_of k m = elim (lookup k m) [ none ↦ 0 | some a ↦ a.balance ]

unfoldable pub nonce_of : Text → Dict Account → ℕ
nonce_of k m = elim (lookup k m) [ none ↦ 0 | some a ↦ a.nonce ]

-- The seconds since 1970 are the argument `now` of what reads the clock.
-- `WorldState::can_faucet`
unfoldable pub can_faucet : ℕ → WorldState → Text → Bool
can_faucet now ws addr = elim (lookup addr ws.faucet_last) [
  | none ↦ true
  | some last ↦ leb faucet_cooldown_secs (sub64 now last)
]

-- `WorldState::mark_faucet`
unfoldable pub mark_faucet : ℕ → WorldState → Text → WorldState
mark_faucet now ws addr = record ws { faucet_last = insert addr now ws.faucet_last }

module _ (x : Crates) where
  -- `hex::encode(addr.as_bytes())`
  abbrev pub key_of : Address → Text
  key_of a = x.hex_encode a.bytes

  -- `SigningKey::from_bytes(&[1u8; 32])` and `FAUCET_SEED`, as addresses
  unfoldable pub treasury_address : Address
  unfolding address_of_key
  treasury_address = address_of_key x (replicate 32 1)

  unfoldable pub faucet_address : Address
  unfolding address_of_key
  faucet_address = address_of_key x faucet_seed

  -- `WorldState::apply_genesis`
  unfoldable pub apply_genesis : WorldState → WorldState
  apply_genesis ws = record ws {
    accounts =
        insert (key_of faucet_address)
          (record { address = faucet_address; balance = 100_000_000; nonce = 0 })
          (insert (key_of treasury_address)
            (record { address = treasury_address; balance = 900_000_000; nonce = 0 }) ws.accounts);
    total_supply = total_supply_cap;
  }

  -- The three updates of an accepted transaction: `balance -=`, `nonce +=` and `balance +=`.
  unfoldable pub debit : Transaction → Dict Account → Dict Account
  debit tx =
      upsert (key_of tx.from) (new_account tx.from)
        (λ a. record a { balance = sub64 a.balance (add64 tx.amount tx.fee) })

  unfoldable pub bump_nonce : Transaction → Dict Account → Dict Account
  bump_nonce tx = and_modify (key_of tx.from) (λ a. record a { nonce = add64 a.nonce 1 })

  unfoldable pub credit : Transaction → Dict Account → Dict Account
  credit tx =
      upsert (key_of tx.to) (new_account tx.to)
        (λ a. record a { balance = add64 a.balance tx.amount })

  unfoldable pub move_funds : Transaction → Dict Account → Dict Account
  unfolding debit bump_nonce credit
  move_funds tx m = credit tx (bump_nonce tx (debit tx m))

  -- the test `from_balance >= tx.amount + tx.fee`
  unfoldable pub is_covered : Transaction → Dict Account → Bool
  unfolding balance_of
  is_covered tx m = leb (add64 tx.amount tx.fee) (balance_of (key_of tx.from) m)

  -- the body of the `for` loop of `apply_block`
  unfoldable pub apply_tx : WorldState → Transaction → WorldState
  unfolding move_funds is_covered
  apply_tx ws tx =
      if is_covered tx ws.accounts
      then record ws { accounts = move_funds tx ws.accounts; total_txs = add64 ws.total_txs 1 }
      else ws

  unfoldable pub apply_txs : WorldState → List Transaction → WorldState
  unfolding apply_tx
  apply_txs ws [] = ws
  apply_txs ws (tx ∷ txs) = apply_txs (apply_tx ws tx) txs

  -- `WorldState::apply_block`, which returns `Ok(())` always
  unfoldable pub apply_block : WorldState → Block → WorldState
  unfolding apply_txs apply_genesis
  apply_block ws block =
      apply_txs (if block.header.height == 0 && ws.total_supply == 0 then apply_genesis ws else ws)
        block.transactions

  -- `WorldState::balance` and `WorldState::nonce`
  unfoldable pub balance : WorldState → Address → ℕ
  unfolding balance_of
  balance ws addr = balance_of (key_of addr) ws.accounts

  unfoldable pub nonce : WorldState → Address → ℕ
  unfolding nonce_of
  nonce ws addr = nonce_of (key_of addr) ws.accounts
