-- ===== src/State/Supply.antt =====
-- The sum of all balances under the execution of transactions and blocks: fees are burned, nothing
-- else is lost or made, as long as no sum of an amount and a fee passes 64 bits.
use vela_network.Common.{
  ℕ, ◌+◌, ◌≤◌, ◌<◌, ◌≡◌, ◌≢◌, refl, ◌∙◌, List, [], ◌∷◌, Bool, true, ◌&&◌, arith, add64, add64-exact,
  sub64-exact, u64_mod, leb→le, if◌then◌else◌, inl, inr, Bool-cases, All, ◌==◌,
}
use vela_network.Common.Dict.{Dict, insert}
use vela_network.Types.{Crates, Transaction, Account, Block}
use vela_network.State.{
  WorldState, new, total_supply_cap, balance_of, key_of, debit, bump_nonce, move_funds, is_covered,
  apply_tx, apply_txs, apply_genesis, apply_block, treasury_address, faucet_address,
}
use vela_network.State.Updates.{
  total, total-insert, balance_of-le-total, total-debit, total-bump_nonce, total-credit,
}

-- The amount and the fee of a transaction add up within 64 bits.
abbrev pub Fits : Transaction → Type 0
Fits tx = tx.amount + tx.fee < u64_mod

module _ (x : Crates) where
  module _ (tx : Transaction) (m : Dict Account) (fits : Fits tx) (bounded : total m < u64_mod)
      (covered : is_covered x tx m ≡ true) where
    pub covers : tx.amount + tx.fee ≤ balance_of (key_of x tx.from) m
    unfolding is_covered
    covers = omega (arith, leb→le _ _ covered, add64-exact tx.amount tx.fee fits)

    total_after_debit : total (debit x tx m) + (tx.amount + tx.fee) ≡ total m
    total_after_debit = omega (
      arith,
      covers,
      total-debit x tx m,
      balance_of-le-total (key_of x tx.from) m,
      add64-exact tx.amount tx.fee fits,
      sub64-exact (balance_of (key_of x tx.from) m) (add64 tx.amount tx.fee),
    )

    -- The receiver's balance before the credit leaves room for the amount.
    pub credit_fits :
        balance_of (key_of x tx.to) (bump_nonce x tx (debit x tx m)) + tx.amount < u64_mod
    credit_fits = omega (
      arith,
      total_after_debit,
      total-bump_nonce x tx (debit x tx m),
      balance_of-le-total (key_of x tx.to) (bump_nonce x tx (debit x tx m)),
    )

    total-move_funds : total (move_funds x tx m) + tx.fee ≡ total m
    unfolding move_funds
    total-move_funds = omega (
      arith,
      total_after_debit,
      total-bump_nonce x tx (debit x tx m),
      total-credit x tx (bump_nonce x tx (debit x tx m)),
      credit_fits,
      add64-exact (balance_of (key_of x tx.to) (bump_nonce x tx (debit x tx m))) tx.amount,
    )

  -- The fee that a transaction pays when it is executed: none if it is not covered.
  pub burned_by : WorldState → Transaction → ℕ
  burned_by ws tx = if is_covered x tx ws.accounts then tx.fee else 0

  pub total-apply_tx :
      (ws : WorldState) (tx : Transaction)
      → Fits tx
      → total ws.accounts < u64_mod
      → total (apply_tx x ws tx).accounts + burned_by ws tx ≡ total ws.accounts
  unfolding apply_tx burned_by
  total-apply_tx ws tx fits bounded = elim (Bool-cases (is_covered x tx ws.accounts)) [
    | inl c ↦ rw c (total-move_funds tx ws.accounts fits bounded c)
    | inr c ↦ rw c (omega arith)
  ]

  -- The fees of the transactions that are executed, in turn.
  pub burned : WorldState → List Transaction → ℕ
  burned ws [] = 0
  burned ws (tx ∷ txs) = burned_by ws tx + burned (apply_tx x ws tx) txs

  -- Executing transactions whose amount and fee sum to less than 2 ^ 64, on balances that sum to
  -- less than that, lowers the sum of all balances by exactly the fees of those that were covered.
  pub total-apply_txs :
      (ws : WorldState) (txs : List Transaction)
      → All Fits txs
      → total ws.accounts < u64_mod
      → total (apply_txs x ws txs).accounts + burned ws txs ≡ total ws.accounts
  unfolding apply_txs burned
  total-apply_txs ws [] fits bounded = omega arith
  total-apply_txs ws (tx ∷ txs) fits bounded = omega (
    arith,
    total-apply_tx ws tx fits.0 bounded,
    total-apply_txs (apply_tx x ws tx) txs fits.1
        (omega (arith, total-apply_tx ws tx fits.0 bounded)),
  )

  -- No transaction changes the recorded supply.
  pub total_supply-apply_txs :
      (ws : WorldState) (txs : List Transaction)
      → (apply_txs x ws txs).total_supply ≡ ws.total_supply
  unfolding apply_txs apply_tx
  total_supply-apply_txs ws [] = refl
  total_supply-apply_txs ws (tx ∷ txs) =
      ground (arith, total_supply-apply_txs (apply_tx x ws tx) txs)

  -- The balances sum to at most the recorded supply, which is at most TOTAL_SUPPLY.
  pub record IsSolvent (ws : WorldState) : Type 0 where
    pub backed : total ws.accounts ≤ ws.total_supply
    pub capped : ws.total_supply ≤ total_supply_cap

  pub new-IsSolvent : IsSolvent new
  unfolding new total
  new-IsSolvent = omega arith

  apply_genesis-IsSolvent :
      (ws : WorldState) → IsSolvent ws → ws.total_supply ≡ 0 → IsSolvent (apply_genesis x ws)
  unfolding apply_genesis
  apply_genesis-IsSolvent ws s e =
      let treasury : Account = record {
        address = treasury_address x;
        balance = 900_000_000;
        nonce = 0;
      } in
      let faucet : Account = record {
        address = faucet_address x;
        balance = 100_000_000;
        nonce = 0;
      } in
      let funded = insert (key_of x (treasury_address x)) treasury ws.accounts in
      omega (
        arith,
        s.backed,
        total-insert (key_of x (treasury_address x)) treasury ws.accounts,
        total-insert (key_of x (faucet_address x)) faucet funded,
      )

  apply_txs-IsSolvent :
      (ws : WorldState) (txs : List Transaction)
      → All Fits txs
      → IsSolvent ws
      → IsSolvent (apply_txs x ws txs)
  apply_txs-IsSolvent ws txs fits s = omega (
    arith,
    s.backed,
    s.capped,
    total-apply_txs ws txs fits (omega (arith, s.backed, s.capped)),
    total_supply-apply_txs ws txs,
  )

  abbrev first_block : WorldState → Block → Bool
  first_block ws block = block.header.height == 0 && ws.total_supply == 0

  -- A block whose transactions each have an amount and a fee that sum to less than 2 ^ 64 keeps
  -- the balances backed by the supply and the supply under its cap.
  pub apply_block-IsSolvent :
      (ws : WorldState) (block : Block)
      → All Fits block.transactions
      → IsSolvent ws
      → IsSolvent (apply_block x ws block)
  unfolding apply_block
  apply_block-IsSolvent ws block fits s = elim (Bool-cases (first_block ws block)) [
    | inl c ↦ rw c (
        apply_txs-IsSolvent (apply_genesis x ws) block.transactions fits
          (apply_genesis-IsSolvent ws s (ground arith)))
    | inr c ↦ rw c (apply_txs-IsSolvent ws block.transactions fits s)
  ]

  total-apply_genesis :
      key_of x (treasury_address x) ≢ key_of x (faucet_address x)
      → total (apply_genesis x new).accounts ≡ total_supply_cap
  unfolding apply_genesis new total insert
  total-apply_genesis apart = ground arith

  -- A block of height 0 whose transactions each have an amount and a fee that sum to less than 2 ^
  -- 64, applied to a new state: the whole supply is minted, to two accounts of different keys, and
  -- what is then spent on fees is all that the balances lack of it.
  total-apply_block_genesis :
      (block : Block)
      → block.header.height ≡ 0
      → All Fits block.transactions
      → key_of x (treasury_address x) ≢ key_of x (faucet_address x)
      → total (apply_block x new block).accounts + burned (apply_genesis x new) block.transactions
        ≡ total_supply_cap
  unfolding apply_block new
  total-apply_block_genesis block first fits apart = rw first (
      total-apply_txs (apply_genesis x new) block.transactions fits
        (omega (arith, total-apply_genesis apart))
      ∙ total-apply_genesis apart)
