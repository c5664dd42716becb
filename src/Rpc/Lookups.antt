-- ===== src/Rpc/Lookups.antt =====
-- The two ways to look at a transaction of the chain, get_transactions and get_tx of src/rpc/mod.rs.
use mathlib.Core.Option.{some-injective}
use vela_network.Common.{
  ◌≡◌, refl, sym, ap, ◌∙◌, inl, inr, true, Bool-cases, some, Option-cases, List, [], ◌∷◌, Text, All,
  All-append, arith, ◌||◌,
}
use vela_network.Types.{Crates, Transaction, Block, tx_hash, hash_to_hex}
use vela_network.Rpc.{ok, trim_vela}
use vela_network.Rpc.Queries.{
  TxInfo, same_text, tx_info, find_in_block, get_tx, touching, touching_blocks, get_transactions,
}

All-map {ℓ κ μ} :
    {A : Type ℓ} (P : A → Type κ) (Q : A → Type μ)
    → ((a : A) → P a → Q a)
    → (as_ : List A) → All P as_
    → All Q as_
All-map P Q f [] h = tt
All-map P Q f (a ∷ as_) h = (f a h.0, All-map P Q f as_ h.1)

same_text_iff : (a b : Text) → same_text a b ≡ true → a ≡ b
unfolding same_text
same_text_iff a b e = ground arith

same_text_self : (a : Text) → same_text a a ≡ true
unfolding same_text
same_text_self a = ground arith

module _ (x : Crates) where
  -- The transaction is found in the block under its hash.
  IsFound : Block → List Transaction → TxInfo → Type 0
  IsFound b txs info = (info' : TxInfo) × (find_in_block x info.hash b txs ≡ some info')

  find_in_block-hash :
      (h : Text) (b : Block) (txs : List Transaction) {info : TxInfo}
      → find_in_block x h b txs ≡ some info
      → info.hash ≡ h
  unfolding find_in_block tx_info
  find_in_block-hash h b [] e = ground arith
  find_in_block-hash h b (tx ∷ txs) e =
      elim (Bool-cases (same_text (hash_to_hex x (tx_hash x tx)) h)) [
        | inl q ↦
            ap (λ (i : TxInfo). i.hash) (sym (some-injective _ _ (rw (q, find_in_block) at e)))
            ∙ same_text_iff _ _ q
        | inr q ↦ find_in_block-hash h b txs (rw (q, find_in_block) at e)
      ]

  find_in_block-later :
      (b : Block) (tx : Transaction) (txs : List Transaction) (info : TxInfo)
      → IsFound b txs info
      → IsFound b (tx ∷ txs) info
  unfolding find_in_block IsFound
  find_in_block-later b tx txs info (info', e) =
      elim (Bool-cases (same_text (hash_to_hex x (tx_hash x tx)) info.hash)) [
        | inl q ↦ (tx_info x b tx, rw (q, find_in_block) refl)
        | inr q ↦ (info', rw (q, find_in_block) e)
      ]

  find_in_block-first :
      (b : Block) (tx : Transaction) (txs : List Transaction)
      → IsFound b (tx ∷ txs) (tx_info x b tx)
  unfolding find_in_block IsFound tx_info
  find_in_block-first b tx txs =
      (tx_info x b tx, rw (same_text_self (hash_to_hex x (tx_hash x tx))) refl)

  touching-IsFound :
      (addr_hex : Text) (b : Block) (txs : List Transaction)
      → All (IsFound b txs) (touching x addr_hex b txs)
  unfolding touching
  touching-IsFound addr_hex b [] = tt
  touching-IsFound addr_hex b (tx ∷ txs) =
      let rest =
        All-map (IsFound b txs) (IsFound b (tx ∷ txs)) (find_in_block-later b tx txs) _
          (touching-IsFound addr_hex b txs) in
      elim (Bool-cases (
        same_text (x.hex_encode tx.from.bytes) addr_hex
        || same_text (x.hex_encode tx.to.bytes) addr_hex)) [
          | inl q ↦ rw q (find_in_block-first b tx txs, rest)
          | inr q ↦ rw q rest
        ]

  -- What get_tx answers for the hash of a listed transaction: one of that hash.
  pub Finds : List Block → TxInfo → Type 0
  Finds blocks info =
      (info' : TxInfo) × (get_tx x blocks info.hash ≡ ok info') × (info'.hash ≡ info.hash)

  get_tx-here :
      (b : Block) (bs : List Block) (info : TxInfo)
      → IsFound b b.transactions info
      → Finds (b ∷ bs) info
  unfolding get_tx Finds IsFound
  get_tx-here b bs info (info', e) =
      (info', rw (e, get_tx) refl, find_in_block-hash info.hash b b.transactions e)

  get_tx-later : (b : Block) (bs : List Block) (info : TxInfo) → Finds bs info → Finds (b ∷ bs) info
  unfolding get_tx Finds
  get_tx-later b bs info (info', e, h) =
      elim (Option-cases (find_in_block x info.hash b b.transactions)) [
        | inl q ↦ (info', rw (q, get_tx) e, h)
        | inr (i, q) ↦ (i, rw (q, get_tx) refl, find_in_block-hash info.hash b b.transactions q)
      ]

  touching_blocks-Finds :
      (addr_hex : Text) (bs : List Block) → All (Finds bs) (touching_blocks x addr_hex bs)
  unfolding touching_blocks
  touching_blocks-Finds addr_hex [] = tt
  touching_blocks-Finds addr_hex (b ∷ bs) =
      All-append (Finds (b ∷ bs)) (touching x addr_hex b b.transactions) _
        (All-map _ _ (get_tx-here b bs) _ (touching-IsFound addr_hex b b.transactions))
        (All-map _ _ (get_tx-later b bs) _ (touching_blocks-Finds addr_hex bs))

  -- Each transaction that is listed for an address can be looked up by the hash in its entry: the
  -- answer is no error, and is a transaction of that hash.
  pub get_transactions-Finds :
      (blocks : List Block) (address : Text)
      → All (Finds blocks) (get_transactions x blocks address)
  unfolding get_transactions
  get_transactions-Finds blocks address = touching_blocks-Finds (trim_vela address) blocks
