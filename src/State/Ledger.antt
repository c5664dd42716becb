-- ===== src/State/Ledger.antt =====
-- The abstract ledger that block execution implements: a balance for every key, and transfers that
-- move an amount and burn a fee, on numbers that do not wrap.
use mathlib.Core.Path.{fun_ext}
use vela_network.Common.{
  ℕ, ◌+◌, ◌-◌, ◌≤◌, ◌<◌, ◌≡◌, ◌≢◌, refl, ap, ◌∙◌, List, [], ◌∷◌, true, Text, arith, add64,
  add64-exact, sub64-exact, u64_mod, leb, le→leb, if◌then◌else◌, inl, inr, Bool-cases, ite, All,
}
use vela_network.Common.Dict.{Dict, text_discrete}
use vela_network.Types.{Crates, Transaction, Account}
use vela_network.State.{
  WorldState, balance_of, nonce_of, key_of, debit, bump_nonce, move_funds, is_covered, apply_tx,
  apply_txs,
}
use vela_network.State.Updates.{
  total, balance_of-le-total, balance_of-debit, balance_of-bump_nonce, balance_of-credit,
  nonce_of-bump_nonce-debit, nonce_of-credit,
}
use vela_network.State.Supply.{Fits, covers, credit_fits, total-apply_tx}

abbrev pub Ledger : Type 0
Ledger = Text → ℕ

abbrev pub update : Ledger → Text → ℕ → Ledger
update b k v j = ite (text_discrete j k) v (b j)

-- The amount and the fee leave the payer, then the amount reaches the payee.
abbrev pub transfer : Text → Text → ℕ → ℕ → Ledger → Ledger
transfer from to amount fee b =
    let paid = update b from (b from - (amount + fee)) in update paid to (paid to + amount)

-- A ledger's step: a transfer that the payer cannot cover is skipped.
abbrev pub ledger_step : Text → Text → ℕ → ℕ → Ledger → Ledger
ledger_step from to amount fee b =
    if leb (amount + fee) (b from) then transfer from to amount fee b else b

-- A covered step between two accounts moves the amount and burns the fee.
pub ledger_step_moves :
    (from to : Text) (amount fee : ℕ) (b : Ledger)
    → from ≢ to
    → amount + fee ≤ b from
    → (ledger_step from to amount fee b from ≡ b from - (amount + fee))
      × (ledger_step from to amount fee b to ≡ b to + amount)
ledger_step_moves from to amount fee b apart cover =
    rw (le→leb (amount + fee) (b from) cover) (ground arith, ground arith)

abbrev pub ledger_of : WorldState → Ledger
ledger_of ws k = balance_of k ws.accounts

module _ (x : Crates) where
  module _ (tx : Transaction) (m : Dict Account) (fits : Fits tx) (bounded : total m < u64_mod)
      (covered : is_covered x tx m ≡ true) where
    debit-eq-update :
        (j : Text)
        → balance_of j (bump_nonce x tx (debit x tx m))
          ≡ update
              (λ k. balance_of k m)
              (key_of x tx.from)
              (balance_of (key_of x tx.from) m - (tx.amount + tx.fee))
              j
    debit-eq-update j = ground (
      arith,
      covers x tx m fits bounded covered,
      balance_of-bump_nonce x tx j (debit x tx m),
      balance_of-debit x tx j m,
      balance_of-le-total (key_of x tx.from) m,
      add64-exact tx.amount tx.fee fits,
      sub64-exact (balance_of (key_of x tx.from) m) (add64 tx.amount tx.fee),
    )

    move_funds-eq-transfer :
        (j : Text)
        → balance_of j (move_funds x tx m)
          ≡ transfer (key_of x tx.from) (key_of x tx.to) tx.amount tx.fee (λ k. balance_of k m) j
    unfolding move_funds
    move_funds-eq-transfer j =
        let paid = bump_nonce x tx (debit x tx m) in
        ground (
          arith,
          balance_of-credit x tx j paid,
          debit-eq-update j,
          debit-eq-update (key_of x tx.to),
          credit_fits x tx m fits bounded covered,
          add64-exact (balance_of (key_of x tx.to) paid) tx.amount,
        )

  -- What a transaction means on the ledger.
  abbrev pub meaning : Transaction → Ledger → Ledger
  meaning tx = ledger_step (key_of x tx.from) (key_of x tx.to) tx.amount tx.fee

  is_covered-eq-leb :
      (tx : Transaction) (m : Dict Account)
      → Fits tx
      → is_covered x tx m ≡ leb (tx.amount + tx.fee) (balance_of (key_of x tx.from) m)
  unfolding is_covered
  is_covered-eq-leb tx m fits = rw (add64-exact tx.amount tx.fee fits) refl

  pub ledger_of-apply_tx :
      (ws : WorldState) (tx : Transaction)
      → Fits tx
      → total ws.accounts < u64_mod
      → ledger_of (apply_tx x ws tx) ≡ meaning tx (ledger_of ws)
  unfolding apply_tx
  ledger_of-apply_tx ws tx fits bounded = elim (Bool-cases (is_covered x tx ws.accounts)) [
    | inl c ↦
        rw (← is_covered-eq-leb tx ws.accounts fits)
          (rw c (fun_ext (move_funds-eq-transfer tx ws.accounts fits bounded c)))
    | inr c ↦ rw (← is_covered-eq-leb tx ws.accounts fits) (rw c refl)
  ]

  abbrev pub run_ledger : List Transaction → Ledger → Ledger
  run_ledger [] b = b
  run_ledger (tx ∷ txs) b = run_ledger txs (meaning tx b)

  -- Executing transactions whose amount and fee sum to less than 2 ^ 64, on balances that sum to
  -- less than that, is running their transfers on the ledger, for every account at once: payers
  -- and payees, also where they are the same, and all others.
  pub ledger_of-apply_txs :
      (ws : WorldState) (txs : List Transaction)
      → All Fits txs
      → total ws.accounts < u64_mod
      → ledger_of (apply_txs x ws txs) ≡ run_ledger txs (ledger_of ws)
  unfolding apply_txs
  ledger_of-apply_txs ws [] fits bounded = refl
  ledger_of-apply_txs ws (tx ∷ txs) fits bounded =
      ledger_of-apply_txs (apply_tx x ws tx) txs fits.1
        (omega (arith, total-apply_tx x ws tx fits.0 bounded))
      ∙ ap (run_ledger txs) (ledger_of-apply_tx ws tx fits.0 bounded)

  nonce_of-move_funds :
      (tx : Transaction) (m : Dict Account) (j : Text)
      → nonce_of j (move_funds x tx m)
        ≡ ite (text_discrete j (key_of x tx.from)) (add64 (nonce_of j m) 1) (nonce_of j m)
  unfolding move_funds
  nonce_of-move_funds tx m j = ground (
    arith,
    nonce_of-credit x tx j (bump_nonce x tx (debit x tx m)),
    nonce_of-bump_nonce-debit x tx j m,
  )

  -- An executed transaction raises the nonce of its sender by one, modulo 2 ^ 64, and no other;
  -- one that is not covered raises none.
  pub nonce_of-apply_tx :
      (ws : WorldState) (tx : Transaction) (j : Text)
      → nonce_of j (apply_tx x ws tx).accounts ≡ (
          if is_covered x tx ws.accounts
          then ite
              (text_discrete j (key_of x tx.from))
              (add64 (nonce_of j ws.accounts) 1)
              (nonce_of j ws.accounts)
          else nonce_of j ws.accounts)
  unfolding apply_tx
  nonce_of-apply_tx ws tx j = elim (Bool-cases (is_covered x tx ws.accounts)) [
    | inl c ↦ rw c (nonce_of-move_funds tx ws.accounts j)
    | inr c ↦ rw c refl
  ]
