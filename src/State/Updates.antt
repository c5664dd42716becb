-- ===== src/State/Updates.antt =====
-- Balances and nonces after each of the three updates that an accepted transaction makes.
use vela_network.Common.{
  ℕ, ◌+◌, ◌≤◌, ◌≡◌, refl, ap, some, Text, [], ◌∷◌, arith, add64, sub64, ite, inl, inr, Option-cases,
}
use vela_network.Common.Dict.{
  Dict, lookup, insert, upsert, and_modify, lookup-insert, lookup-insert_self, text_discrete,
}
use vela_network.Types.{Crates, Transaction, Account, new_account}
use vela_network.State.{balance_of, nonce_of, key_of, debit, bump_nonce, credit}

balance_of-insert :
    (j k : Text) (a : Account) (m : Dict Account)
    → balance_of j (insert k a m) ≡ ite (text_discrete j k) a.balance (balance_of j m)
unfolding balance_of
balance_of-insert j k a m = ground (arith, lookup-insert j k a m)

nonce_of-insert :
    (j k : Text) (a : Account) (m : Dict Account)
    → nonce_of j (insert k a m) ≡ ite (text_discrete j k) a.nonce (nonce_of j m)
unfolding nonce_of
nonce_of-insert j k a m = ground (arith, lookup-insert j k a m)

-- The sum of all balances.
unfoldable pub total : Dict Account → ℕ
total [] = 0
total ((_, a) ∷ m) = a.balance + total m

pub balance_of-le-total : (k : Text) (m : Dict Account) → balance_of k m ≤ total m
unfolding balance_of total lookup
balance_of-le-total k [] = omega arith
balance_of-le-total k ((j, a) ∷ m) = ground (arith, balance_of-le-total k m)

pub total-insert :
    (k : Text) (a : Account) (m : Dict Account)
    → total (insert k a m) + balance_of k m ≡ total m + a.balance
unfolding balance_of total lookup insert
total-insert k a [] = omega arith
total-insert k a ((j, b) ∷ m) = ground (arith, total-insert k a m)

-- An account that is updated in place, or made with nothing on it and then updated: `g` is what the
-- update does to the balance, and the nonce is left alone.
module _ (k : Text) (d : Account) (f : Account → Account) (g : ℕ → ℕ)
    (fresh : (d.balance ≡ 0) × (d.nonce ≡ 0))
    (acts : (a : Account) → ((f a).balance ≡ g a.balance) × ((f a).nonce ≡ a.nonce)) where
  balance_of-upsert :
      (j : Text) (m : Dict Account)
      → balance_of j (upsert k d f m)
        ≡ ite (text_discrete j k) (g (balance_of k m)) (balance_of j m)
  unfolding balance_of upsert
  balance_of-upsert j m = elim (Option-cases (lookup k m)) [
    | inl e ↦ ground (arith, lookup-insert j k (f d) m, acts d, ap g fresh.0)
    | inr (a, e) ↦ ground (arith, lookup-insert j k (f a) m, acts a)
  ]

  nonce_of-upsert : (j : Text) (m : Dict Account) → nonce_of j (upsert k d f m) ≡ nonce_of j m
  unfolding nonce_of upsert
  nonce_of-upsert j m = elim (Option-cases (lookup k m)) [
    | inl e ↦ ground (arith, lookup-insert j k (f d) m, acts d)
    | inr (a, e) ↦ ground (arith, lookup-insert j k (f a) m, acts a)
  ]

  total-upsert :
      (m : Dict Account) → total (upsert k d f m) + balance_of k m ≡ total m + g (balance_of k m)
  unfolding balance_of upsert
  total-upsert m = elim (Option-cases (lookup k m)) [
    | inl e ↦ ground (arith, total-insert k (f d) m, acts d, ap g fresh.0)
    | inr (a, e) ↦ ground (arith, total-insert k (f a) m, acts a)
  ]

module _ (x : Crates) (tx : Transaction) where
  -- The debit: the sender's balance, and no other, falls by the wrapped sum of amount and fee.
  pub balance_of-debit :
      (j : Text) (m : Dict Account)
      → balance_of j (debit x tx m)
        ≡ ite
            (text_discrete j (key_of x tx.from))
            (sub64 (balance_of (key_of x tx.from) m) (add64 tx.amount tx.fee))
            (balance_of j m)
  unfolding debit new_account
  balance_of-debit =
      balance_of-upsert _ _ _ (λ b. sub64 b (add64 tx.amount tx.fee)) (refl, refl)
        (λ a. (refl, refl))

  -- The credit: the receiver's balance, and no other, rises by the amount, wrapped.
  pub balance_of-credit :
      (j : Text) (m : Dict Account)
      → balance_of j (credit x tx m)
        ≡ ite
            (text_discrete j (key_of x tx.to))
            (add64 (balance_of (key_of x tx.to) m) tx.amount)
            (balance_of j m)
  unfolding credit new_account
  balance_of-credit =
      balance_of-upsert _ _ _ (λ b. add64 b tx.amount) (refl, refl) (λ a. (refl, refl))

  pub total-debit :
      (m : Dict Account)
      → total (debit x tx m) + balance_of (key_of x tx.from) m
        ≡ total m + sub64 (balance_of (key_of x tx.from) m) (add64 tx.amount tx.fee)
  unfolding debit new_account
  total-debit =
      total-upsert _ _ _ (λ b. sub64 b (add64 tx.amount tx.fee)) (refl, refl) (λ a. (refl, refl))

  pub total-credit :
      (m : Dict Account)
      → total (credit x tx m) + balance_of (key_of x tx.to) m
        ≡ total m + add64 (balance_of (key_of x tx.to) m) tx.amount
  unfolding credit new_account
  total-credit = total-upsert _ _ _ (λ b. add64 b tx.amount) (refl, refl) (λ a. (refl, refl))

  nonce_of-debit : (j : Text) (m : Dict Account) → nonce_of j (debit x tx m) ≡ nonce_of j m
  unfolding debit new_account
  nonce_of-debit =
      nonce_of-upsert _ _ _ (λ b. sub64 b (add64 tx.amount tx.fee)) (refl, refl) (λ a. (refl, refl))

  pub nonce_of-credit : (j : Text) (m : Dict Account) → nonce_of j (credit x tx m) ≡ nonce_of j m
  unfolding credit new_account
  nonce_of-credit = nonce_of-upsert _ _ _ (λ b. add64 b tx.amount) (refl, refl) (λ a. (refl, refl))

  -- The sender's nonce moves no balance.
  pub balance_of-bump_nonce :
      (j : Text) (m : Dict Account) → balance_of j (bump_nonce x tx m) ≡ balance_of j m
  unfolding balance_of bump_nonce and_modify
  balance_of-bump_nonce j m = elim (Option-cases (lookup (key_of x tx.from) m)) [
    | inl e ↦ ground arith
    | inr (a, e) ↦
        ground (arith, lookup-insert j (key_of x tx.from) (record a { nonce = add64 a.nonce 1 }) m)
  ]

  pub total-bump_nonce : (m : Dict Account) → total (bump_nonce x tx m) ≡ total m
  unfolding balance_of bump_nonce and_modify
  total-bump_nonce m = elim (Option-cases (lookup (key_of x tx.from) m)) [
    | inl e ↦ ground arith
    | inr (a, e) ↦
        ground (arith, total-insert (key_of x tx.from) (record a { nonce = add64 a.nonce 1 }) m)
  ]

  debit_leaves :
      (m : Dict Account) → (a : Account) × (lookup (key_of x tx.from) (debit x tx m) ≡ some a)
  unfolding debit upsert
  debit_leaves m = (_, lookup-insert_self (key_of x tx.from) _ m)

  -- The sender's nonce, and no other, rises by one, wrapped.
  pub nonce_of-bump_nonce-debit :
      (j : Text) (m : Dict Account)
      → nonce_of j (bump_nonce x tx (debit x tx m))
        ≡ ite
            (text_discrete j (key_of x tx.from))
            (add64 (nonce_of (key_of x tx.from) m) 1)
            (nonce_of j m)
  unfolding nonce_of bump_nonce and_modify
  nonce_of-bump_nonce-debit j m =
      let (a, e) = debit_leaves m in
      ground (
        arith,
        nonce_of-debit j m,
        nonce_of-debit (key_of x tx.from) m,
        lookup-insert j (key_of x tx.from) (record a { nonce = add64 a.nonce 1 }) (debit x tx m),
      )
