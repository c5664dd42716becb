-- ===== src/Rpc/Queries.antt =====
-- The queries of src/rpc/mod.rs on blocks, transactions and accounts.
use vela_network.Common.{
  ℕ, zero, suc, ◌+◌, ◌≤◌, ◌<◌, ◌≡◌, refl, sym, ap, ◌∙◌, Option, none, some, List, [], ◌∷◌, ◌++◌,
  replicate, Text, Bool, true, false, length, get_elem?, add64, add64-exact, u64_mod, arith, ◌==◌,
  ◌||◌, if◌then◌else◌,
}
use vela_network.Common.Dict.{text_discrete}
use vela_network.Types.{
  Crates, Address, Transaction, Block, vela_prefix, tx_hash, hash_to_hex, block_hash,
}
use vela_network.State.{WorldState, balance, nonce}
use vela_network.Rpc.{Outcome, ok, err, block_not_found, tx_not_found, trim_vela}
use vela_network.Node.Chain.{HeightsFrom, IsChain}

pub record BlockResponse : Type 0 where
  pub height : ℕ
  pub hash : Text
  pub parent_hash : Text
  pub tx_count : ℕ
  pub timestamp : ℕ
  pub proposer : Text
  pub round : ℕ

-- The JSON object of a transaction.
pub record TxInfo : Type 0 where
  pub hash : Text
  pub from : Text
  pub to : Text
  pub amount : ℕ
  pub fee : ℕ
  pub nonce : ℕ
  pub block : ℕ
  pub timestamp : ℕ

-- `blocks.iter().find(|b| b.header.height == height)`
unfoldable pub find_block : ℕ → List Block → Option Block
find_block h [] = none
find_block h (b ∷ bs) = if b.header.height == h then some b else find_block h bs

-- `==` on texts
unfoldable pub same_text : Text → Text → Bool
same_text a b = elim (text_discrete a b) [ yes _ ↦ true | no _ ↦ false ]

module _ (x : Crates) where
  unfoldable pub block_response : Block → BlockResponse
  block_response b = record {
    height = b.header.height;
    hash = hash_to_hex x (block_hash x b);
    parent_hash = hash_to_hex x b.header.parent_hash;
    tx_count = length b.transactions;
    timestamp = b.header.timestamp;
    proposer = x.hex_encode b.header.proposer.bytes;
    round = b.header.round;
  }

  -- the `match` of `get_block`
  unfoldable pub block_answer : ℕ → Option Block → Outcome BlockResponse
  unfolding block_response
  block_answer height none = err (block_not_found height)
  block_answer height (some b) = ok (block_response b)

  -- `get_block`
  unfoldable pub get_block : List Block → ℕ → Outcome BlockResponse
  unfolding find_block block_answer
  get_block blocks height = block_answer height (find_block height blocks)

  unfoldable pub tx_info : Block → Transaction → TxInfo
  tx_info b tx = record {
    hash = hash_to_hex x (tx_hash x tx);
    from = vela_prefix ++ x.hex_encode tx.from.bytes;
    to = vela_prefix ++ x.hex_encode tx.to.bytes;
    amount = tx.amount;
    fee = tx.fee;
    nonce = tx.nonce;
    block = b.header.height;
    timestamp = b.header.timestamp;
  }

  -- the inner and the outer loop of `get_tx`
  unfoldable pub find_in_block : Text → Block → List Transaction → Option TxInfo
  unfolding tx_info same_text
  find_in_block hash b [] = none
  find_in_block hash b (tx ∷ txs) =
      if same_text (hash_to_hex x (tx_hash x tx)) hash
      then some (tx_info b tx)
      else find_in_block hash b txs

  -- `get_tx`
  unfoldable pub get_tx : List Block → Text → Outcome TxInfo
  unfolding find_in_block
  get_tx [] hash = err tx_not_found
  get_tx (b ∷ bs) hash = elim (find_in_block hash b b.transactions) [
    | none ↦ get_tx bs hash
    | some info ↦ ok info
  ]

  -- the inner and the outer loop of `get_transactions`, for a trimmed address
  unfoldable pub touching : Text → Block → List Transaction → List TxInfo
  unfolding tx_info same_text
  touching addr_hex b [] = []
  touching addr_hex b (tx ∷ txs) =
      let rest = touching addr_hex b txs in
      if same_text (x.hex_encode tx.from.bytes) addr_hex
        || same_text (x.hex_encode tx.to.bytes) addr_hex
      then tx_info b tx ∷ rest
      else rest

  unfoldable pub touching_blocks : Text → List Block → List TxInfo
  unfolding touching
  touching_blocks addr_hex [] = []
  touching_blocks addr_hex (b ∷ bs) =
      touching addr_hex b b.transactions ++ touching_blocks addr_hex bs

  -- `get_transactions`
  unfoldable pub get_transactions : List Block → Text → List TxInfo
  unfolding touching_blocks trim_vela
  get_transactions blocks address = touching_blocks (trim_vela address) blocks

  -- the address that `get_balance` reads: that of zeros for a text that is none
  unfoldable pub read_address : Text → Address
  unfolding trim_vela
  read_address text = elim (x.hex_decode (trim_vela text)) [
    | none ↦ record { bytes = replicate 32 0 }
    | some bytes ↦
        if length bytes == 32 then record { bytes = bytes } else record { bytes = replicate 32 0 }
  ]

  -- `get_balance`: the balance and the nonce
  unfoldable pub get_balance : WorldState → Text → ℕ × ℕ
  unfolding read_address balance nonce
  get_balance ws address = (balance x ws (read_address address), nonce x ws (read_address address))

  find_block_past :
      (h : ℕ) (b : Block) (bs : List Block)
      → b.header.height < h
      → find_block h (b ∷ bs) ≡ find_block h bs
  unfolding find_block
  find_block_past h b bs l = ground arith

  find_block_from :
      (k i : ℕ) (bs : List Block)
      → HeightsFrom k bs
      → k + length bs ≤ u64_mod
      → find_block (k + i) bs ≡ get_elem? bs i
  unfolding find_block
  find_block_from k i [] h l = refl
  find_block_from k zero (b ∷ bs) h l = ground arith
  find_block_from k (suc i) (b ∷ []) h l = ground arith
  find_block_from k (suc i) (b ∷ c ∷ bs) h l =
      let e : add64 k 1 ≡ k + 1 = add64-exact k 1 (omega arith) in
      let rest = find_block_from (add64 k 1) i (c ∷ bs) h.1 (omega (arith, e)) in
      let shifted : add64 k 1 + i ≡ k + suc i = omega (arith, e) in
      find_block_past (k + suc i) b (c ∷ bs) (omega (arith, h.0))
      ∙ ap (λ j. find_block j (c ∷ bs)) (sym shifted)
      ∙ rest

  -- In a chain of at most 2 ^ 64 blocks `get_block` answers with the block at the place of the height,
  -- and with an error for a height beyond the chain.
  get_block_lem :
      (blocks : List Block) (height : ℕ)
      → IsChain blocks
      → length blocks ≤ u64_mod
      → get_block blocks height ≡ block_answer height (get_elem? blocks height)
  unfolding get_block
  get_block_lem [] height h l = absurd h
  get_block_lem (b ∷ bs) height h l =
      let same : height ≡ 0 + height = omega arith in
      ap (λ j. block_answer height (find_block j (b ∷ bs))) same
      ∙ ap (block_answer height) (find_block_from 0 height (b ∷ bs) h (omega arith))
