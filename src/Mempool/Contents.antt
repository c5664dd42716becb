-- ===== src/Mempool/Contents.antt =====
-- What the pool of src/mempool/mod.rs holds after each operation.
use vela_network.Common.{
  ℕ, ◌+◌, ◌≡◌, refl, List, [], ◌∷◌, none, some, Text, arith, All, ite, Bool, true, false,
  if◌then◌else◌, ◌∙◌,
}
use vela_network.Common.Dict.{
  Dict, IsDict, lookup, remove, lookup-insert, insert-IsDict, remove-IsDict, text_discrete,
  lookup-remove, length-insert, insert-All,
}
use vela_network.Types.{Crates, Transaction}
use vela_network.Mempool.{Mempool, new, len, hash_key, add, remove_all, remove_committed}

module _ (x : Crates) where
  -- Each transaction is filed under its own hash, once.
  pub record IsFiled (pool : Mempool) : Type 0 where
    pub distinct : IsDict pool.transactions
    pub filed : All (λ e. e.0 ≡ hash_key x e.1) pool.transactions

  pub new-IsFiled : (max : ℕ) → IsFiled (new max)
  unfolding new
  new-IsFiled max = record { distinct = tt; filed = tt }

  pub add-IsFiled : (pool : Mempool) (tx : Transaction) → IsFiled pool → IsFiled (add x pool tx).0
  unfolding add
  add-IsFiled pool tx h = record {
    distinct = insert-IsDict (hash_key x tx) tx pool.transactions h.distinct;
    filed =
        insert-All (λ e. e.0 ≡ hash_key x e.1) (hash_key x tx) tx pool.transactions refl h.filed;
  }

  remove-filed :
      (k : Text) (m : Dict Transaction)
      → All (λ e. e.0 ≡ hash_key x e.1) m
      → All (λ e. e.0 ≡ hash_key x e.1) (remove k m)
  unfolding remove
  remove-filed k [] h = tt
  remove-filed k ((j, tx) ∷ m) h = ground (arith, remove-filed k m h.1)

  remove_all-filed :
      (txs : List Transaction) (m : Dict Transaction)
      → IsDict m × All (λ e. e.0 ≡ hash_key x e.1) m
      → IsDict (remove_all x txs m) × All (λ e. e.0 ≡ hash_key x e.1) (remove_all x txs m)
  unfolding remove_all
  remove_all-filed [] m h = h
  remove_all-filed (tx ∷ txs) m h =
      remove_all-filed txs (remove (hash_key x tx) m)
        (remove-IsDict (hash_key x tx) m h.0, remove-filed (hash_key x tx) m h.1)

  -- Whether a key is that of one of the transactions.
  abbrev pub is_among : Text → List Transaction → Bool
  is_among k [] = false
  is_among k (tx ∷ txs) = ite (text_discrete k (hash_key x tx)) true (is_among k txs)

  lookup-remove_all :
      (k : Text) (txs : List Transaction) (m : Dict Transaction)
      → IsDict m
      → lookup k (remove_all x txs m) ≡ (if is_among k txs then none else lookup k m)
  unfolding remove_all
  lookup-remove_all k [] m d = refl
  lookup-remove_all k (tx ∷ txs) m d = ground (
    arith,
    lookup-remove_all k txs (remove (hash_key x tx) m) (remove-IsDict (hash_key x tx) m d),
    lookup-remove k (hash_key x tx) m d,
  )

  -- Once a block is committed a pool that is well filed holds what it held before, less the
  -- transactions that share a hash with one of the block, and stays well filed.
  pub remove_committed_lem :
      (pool : Mempool) (txs : List Transaction)
      → IsFiled pool
      → IsFiled (remove_committed x pool txs)
        × ((k : Text)
            → lookup k (remove_committed x pool txs).transactions
              ≡ (if is_among k txs then none else lookup k pool.transactions))
  unfolding remove_committed
  remove_committed_lem pool txs h =
      let kept = remove_all-filed txs pool.transactions (h.distinct, h.filed) in
      (
        record { distinct = kept.0; filed = kept.1 },
        λ k. lookup-remove_all k txs pool.transactions h.distinct,
      )

  -- An added transaction is found under its hash, replaces one with the same hash, and leaves all
  -- others; the pool grows by one exactly when the hash is new.
  add_lem :
      (pool : Mempool) (tx : Transaction) (k : Text)
      → (lookup k (add x pool tx).0.transactions
          ≡ ite (text_discrete k (hash_key x tx)) (some tx) (lookup k pool.transactions))
        × (len (add x pool tx).0 ≡ elim (lookup (hash_key x tx) pool.transactions) [
          | none ↦ len pool + 1
          | some _ ↦ len pool
        ])
  unfolding add len
  add_lem pool tx k = (
    lookup-insert k (hash_key x tx) tx pool.transactions,
    length-insert (hash_key x tx) tx pool.transactions ∙ ground arith,
  )
