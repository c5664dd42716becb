-- ===== src/State/Words.antt =====
-- The types of src/storage/state.rs: balances, nonces and totals are words, no address has two
-- accounts, and each account is filed under its own address.
use vela_network.Common.{
  ◌<◌, ◌≡◌, refl, arith, List, [], ◌∷◌, All, Text, add64-lt, sub64-lt, u64_mod, Bool-cases,
  Option-cases, inl, inr, ◌==◌, ◌&&◌,
}
use vela_network.Common.Dict.{
  Dict, IsDict, lookup, insert, upsert, and_modify, insert-IsDict, insert-All, All-lookup,
}
use vela_network.Types.{Crates, Transaction, Block, Account, new_account}
use vela_network.State.{
  WorldState, new, key_of, debit, bump_nonce, credit, move_funds, is_covered, apply_tx, apply_txs,
  apply_genesis, apply_block, treasury_address, faucet_address,
}

module _ {ℓ κ} {V : Type ℓ} (P : Text × V → Type κ) where
  upsert-All :
      (k : Text) (d : V) (f : V → V) (m : Dict V)
      → P (k, f d)
      → ((v : V) → P (k, v) → P (k, f v))
      → All P m
      → All P (upsert k d f m)
  unfolding upsert
  upsert-All k d f m fresh keeps h = elim (Option-cases (lookup k m)) [
    | inl e ↦ rw e (insert-All P k (f d) m fresh h)
    | inr (v, e) ↦ rw e (insert-All P k (f v) m (keeps v (All-lookup P k v m h e)) h)
  ]

  and_modify-All :
      (k : Text) (f : V → V) (m : Dict V)
      → ((v : V) → P (k, v) → P (k, f v))
      → All P m
      → All P (and_modify k f m)
  unfolding and_modify
  and_modify-All k f m keeps h = elim (Option-cases (lookup k m)) [
    | inl e ↦ rw (e, and_modify) h
    | inr (v, e) ↦ rw (e, and_modify) (insert-All P k (f v) m (keeps v (All-lookup P k v m h e)) h)
  ]

upsert-IsDict {ℓ} :
    {V : Type ℓ} (k : Text) (d : V) (f : V → V) (m : Dict V) → IsDict m → IsDict (upsert k d f m)
unfolding upsert
upsert-IsDict k d f m h = insert-IsDict k _ m h

and_modify-IsDict {ℓ} :
    {V : Type ℓ} (k : Text) (f : V → V) (m : Dict V) → IsDict m → IsDict (and_modify k f m)
unfolding and_modify
and_modify-IsDict k f m h = elim (Option-cases (lookup k m)) [
  | inl e ↦ rw (e, and_modify) h
  | inr (v, e) ↦ rw (e, and_modify) (insert-IsDict k (f v) m h)
]

module _ (x : Crates) where
  -- An entry of the accounts: filed under its address, with a balance and a nonce of 64 bits.
  pub record IsFiled (e : Text × Account) : Type 0 where
    pub key : e.0 ≡ key_of x e.1.address
    pub balance : e.1.balance < u64_mod
    pub nonce : e.1.nonce < u64_mod

  pub record IsAccounts (m : Dict Account) : Type 0 where
    pub filed : All IsFiled m
    pub distinct : IsDict m

  pub record IsWorld (ws : WorldState) : Type 0 where
    pub accounts : IsAccounts ws.accounts
    pub total_supply : ws.total_supply < u64_mod
    pub total_txs : ws.total_txs < u64_mod

  insert-IsAccounts :
      (a : Account) (m : Dict Account)
      → a.balance < u64_mod
      → a.nonce < u64_mod
      → IsAccounts m
      → IsAccounts (insert (key_of x a.address) a m)
  insert-IsAccounts a m b n h = record {
    filed = insert-All IsFiled _ a m (record { key = refl; balance = b; nonce = n }) h.filed;
    distinct = insert-IsDict _ a m h.distinct;
  }

  move_funds-IsAccounts :
      (tx : Transaction) (m : Dict Account) → IsAccounts m → IsAccounts (move_funds x tx m)
  unfolding move_funds debit bump_nonce credit new_account
  move_funds-IsAccounts tx m h = record {
    filed =
        upsert-All IsFiled _ _ _ _
          (record { key = refl; balance = add64-lt _ _; nonce = omega arith })
          (λ a p. record { key = p.key; balance = add64-lt _ _; nonce = p.nonce })
          (and_modify-All IsFiled _ _ _
            (λ a p. record { key = p.key; balance = p.balance; nonce = add64-lt _ _ })
            (upsert-All IsFiled _ _ _ m
              (record { key = refl; balance = sub64-lt _ _; nonce = omega arith })
              (λ a p. record { key = p.key; balance = sub64-lt _ _; nonce = p.nonce }) h.filed));
    distinct = upsert-IsDict _ _ _ _ (and_modify-IsDict _ _ _ (upsert-IsDict _ _ _ m h.distinct));
  }

  apply_tx-IsWorld : (ws : WorldState) (tx : Transaction) → IsWorld ws → IsWorld (apply_tx x ws tx)
  unfolding apply_tx
  apply_tx-IsWorld ws tx h = elim (Bool-cases (is_covered x tx ws.accounts)) [
    | inl c ↦ rw c (record {
      accounts = move_funds-IsAccounts tx ws.accounts h.accounts;
      total_supply = h.total_supply;
      total_txs = add64-lt ws.total_txs 1;
    })
    | inr c ↦ rw c h
  ]

  apply_txs-IsWorld :
      (ws : WorldState) (txs : List Transaction) → IsWorld ws → IsWorld (apply_txs x ws txs)
  unfolding apply_txs
  apply_txs-IsWorld ws [] h = h
  apply_txs-IsWorld ws (tx ∷ txs) h =
      apply_txs-IsWorld (apply_tx x ws tx) txs (apply_tx-IsWorld ws tx h)

  apply_genesis-IsWorld : (ws : WorldState) → IsWorld ws → IsWorld (apply_genesis x ws)
  unfolding apply_genesis
  apply_genesis-IsWorld ws h = record {
    accounts =
        insert-IsAccounts (record { address = faucet_address x; balance = 100_000_000; nonce = 0 })
          _ (omega arith) (omega arith)
          (insert-IsAccounts
            (record { address = treasury_address x; balance = 900_000_000; nonce = 0 }) _
            (omega arith) (omega arith) h.accounts);
    total_supply = omega arith;
    total_txs = h.total_txs;
  }

  -- Executing a block keeps the types.
  pub apply_block-IsWorld :
      (ws : WorldState) (b : Block) → IsWorld ws → IsWorld (apply_block x ws b)
  unfolding apply_block
  apply_block-IsWorld ws b h = elim (Bool-cases (b.header.height == 0 && ws.total_supply == 0)) [
    | inl c ↦
        rw c (apply_txs-IsWorld (apply_genesis x ws) b.transactions (apply_genesis-IsWorld ws h))
    | inr c ↦ rw c (apply_txs-IsWorld ws b.transactions h)
  ]

  -- The empty world state.
  pub new-IsWorld : IsWorld new
  unfolding new
  new-IsWorld = record {
    accounts = record { filed = tt; distinct = tt };
    total_supply = omega arith;
    total_txs = omega arith;
  }
