-- ===== src/State/Replays.antt =====
-- Where the execution of transactions falls short: it reads neither nonce nor signature, so a
-- transaction executes again, and the wrapped sum of amount and fee lets one mint coins.
use vela_network.Common.{
  ℕ, ◌+◌, ◌-◌, ◌*◌, ◌≤◌, ◌<◌, ◌≡◌, ◌≢◌, [], ◌∷◌, Text, Bytes, Option, arith, add64, sub64,
  add64-exact, add64-wraps, sub64-exact, u64_mod, le→leb, ap, ◌∙◌,
}
use vela_network.Common.Dict.{Dict}
use vela_network.Types.{Crates, Transaction, Account}
use vela_network.State.{
  WorldState, balance_of, key_of, debit, bump_nonce, move_funds, is_covered, apply_tx, apply_txs,
}
use vela_network.State.Updates.{
  total, balance_of-le-total, balance_of-debit, balance_of-bump_nonce, balance_of-credit,
  total-debit, total-bump_nonce, total-credit,
}
use vela_network.State.Supply.{Fits}
use vela_network.State.Ledger.{ledger_of-apply_txs, ledger_of, ledger_step_moves, meaning}

module _ (x : Crates) where
  -- The same transfer under another nonce, timestamp, payload or signature.
  abbrev pub reissue : Transaction → ℕ → ℕ → Bytes → Option Bytes → Transaction
  reissue tx nonce timestamp payload signature = record tx {
    nonce = nonce;
    timestamp = timestamp;
    payload = payload;
    signature = signature;
  }

  -- On balances that sum to less than 2 ^ 64, with an amount and a fee that do so too and that the
  -- sender could pay twice: a transaction to another account and then any reissue of it, unsigned
  -- or with the nonce already used, debit the sender and credit the receiver twice.
  apply_txs-reissue :
      (ws : WorldState) (tx : Transaction) (nonce timestamp : ℕ) (payload : Bytes)
      (signature : Option Bytes)
      → Fits tx
      → total ws.accounts < u64_mod
      → key_of x tx.from ≢ key_of x tx.to
      → 2 * (tx.amount + tx.fee) ≤ balance_of (key_of x tx.from) ws.accounts
      → let ws' = apply_txs x ws (tx ∷ reissue tx nonce timestamp payload signature ∷ []) in
        (balance_of (key_of x tx.from) ws'.accounts
          ≡ balance_of (key_of x tx.from) ws.accounts - 2 * (tx.amount + tx.fee))
        × (balance_of (key_of x tx.to) ws'.accounts
            ≡ balance_of (key_of x tx.to) ws.accounts + 2 * tx.amount)
  apply_txs-reissue ws tx nonce timestamp payload signature fits bounded apart rich =
      let view =
        ledger_of-apply_txs x ws (tx ∷ reissue tx nonce timestamp payload signature ∷ [])
          (fits, (fits, tt)) bounded in
      let once =
        ledger_step_moves (key_of x tx.from) (key_of x tx.to) tx.amount tx.fee (ledger_of ws) apart
          (omega arith) in
      let twice =
        ledger_step_moves (key_of x tx.from) (key_of x tx.to) tx.amount tx.fee
          (meaning x tx (ledger_of ws)) apart (omega arith) in
      (
        ap (λ (b : Text → ℕ). b (key_of x tx.from)) view ∙ omega arith,
        ap (λ (b : Text → ℕ). b (key_of x tx.to)) view ∙ omega arith,
      )

  -- Let the balances and the amount of a transaction to another account sum to less than 2 ^ 64, but
  -- its amount and fee sum to 2 ^ 64. Then every balance covers it: that of the sender stays as it
  -- is, that of the receiver grows by the amount, and so does the sum of all balances.
  pub apply_tx-overflow :
      (ws : WorldState) (tx : Transaction)
      → tx.amount + tx.fee ≡ u64_mod
      → total ws.accounts + tx.amount < u64_mod
      → key_of x tx.from ≢ key_of x tx.to
      → (total (apply_tx x ws tx).accounts ≡ total ws.accounts + tx.amount)
        × (balance_of (key_of x tx.from) (apply_tx x ws tx).accounts
            ≡ balance_of (key_of x tx.from) ws.accounts)
        × (balance_of (key_of x tx.to) (apply_tx x ws tx).accounts
            ≡ balance_of (key_of x tx.to) ws.accounts + tx.amount)
  unfolding apply_tx is_covered
  apply_tx-overflow ws tx wraps room apart =
      rw
        (le→leb (add64 tx.amount tx.fee) (balance_of (key_of x tx.from) ws.accounts)
          (omega (arith, add64-wraps tx.amount tx.fee wraps)))
        (total_moved, sender_kept, receiver_paid)
    where
      m : Dict Account
      m = ws.accounts

      paid : Dict Account
      paid = bump_nonce x tx (debit x tx m)

      free :
          sub64 (balance_of (key_of x tx.from) m) (add64 tx.amount tx.fee)
          ≡ balance_of (key_of x tx.from) m
      free = omega (
        arith,
        add64-wraps tx.amount tx.fee wraps,
        balance_of-le-total (key_of x tx.from) m,
        sub64-exact (balance_of (key_of x tx.from) m) (add64 tx.amount tx.fee),
      )

      total_moved : total (move_funds x tx m) ≡ total m + tx.amount
      total_moved = omega (
        arith,
        free,
        total-debit x tx m,
        total-bump_nonce x tx (debit x tx m),
        total-credit x tx paid,
        balance_of-le-total (key_of x tx.to) paid,
        add64-exact (balance_of (key_of x tx.to) paid) tx.amount,
      )

      sender_kept :
          balance_of (key_of x tx.from) (move_funds x tx m) ≡ balance_of (key_of x tx.from) m
      sender_kept = ground (
        arith,
        free,
        balance_of-credit x tx (key_of x tx.from) paid,
        balance_of-bump_nonce x tx (key_of x tx.from) (debit x tx m),
        balance_of-debit x tx (key_of x tx.from) m,
      )

      receiver_paid :
          balance_of (key_of x tx.to) (move_funds x tx m)
          ≡ balance_of (key_of x tx.to) m + tx.amount
      receiver_paid = ground (
        arith,
        balance_of-le-total (key_of x tx.to) m,
        add64-exact (balance_of (key_of x tx.to) m) tx.amount,
        balance_of-credit x tx (key_of x tx.to) paid,
        balance_of-bump_nonce x tx (key_of x tx.to) (debit x tx m),
        balance_of-debit x tx (key_of x tx.to) m,
      )
