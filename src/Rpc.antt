-- ===== src/Rpc.antt =====
-- The handlers of src/rpc/mod.rs that change the node's state: a transaction that is sent in, and the
-- faucet. What a handler hands to the channel of the broadcasting task goes out at once.
pub mod Requests
pub mod Faucet
pub mod Queries
pub mod Lookups
pub mod Server
pub mod Serving
pub mod Sections
pub mod Interleavings
pub mod Resubmissions
pub mod Races
pub mod Leaders
use vela_network.Common.{
  ℕ, zero, suc, Option, none, some, List, [], ◌∷◌, ◌++◌, push, length, Text, Bytes, Bool, true,
  false, add64, ltb, ◌==◌, if◌then◌else◌, ◌||◌, ◌&&◌, not,
}
use vela_network.Common.Dict.{text_discrete}
use vela_network.Types.{
  Crates, Address, Transaction, vela_prefix, new_tx, sign_tx, verify_tx, tx_hash, hash_to_hex,
}
use vela_network.State.{
  WorldState, balance, nonce, can_faucet, mark_faucet, faucet_amount, faucet_seed, faucet_address,
}
use vela_network.Storage.{Sled}
use vela_network.Node.{Node, broadcast}

pub record SendTxRequest : Type 0 where
  pub from : Text
  pub to : Text
  pub amount : ℕ
  pub fee : ℕ
  pub nonce : ℕ
  pub signature : Option Text
  pub timestamp : Option ℕ

-- The texts of `ErrorResponse`, with the numbers that they print.
pub data RpcError : Type 0 where
  invalid_from invalid_to invalid_address bad_length invalid_signature : RpcError
  already_in_mempool faucet_cooldown : RpcError
  block_not_found : ℕ → RpcError
  tx_not_found : RpcError
  insufficient_balance : ℕ → ℕ → RpcError
  invalid_nonce : ℕ → ℕ → RpcError

-- `Result<T, (StatusCode, Json<ErrorResponse>)>`, and `?` and the early returns as `>>=`.
pub data Outcome (A : Type 0) : Type 0 where
  err : RpcError → Outcome A
  ok : A → Outcome A

infixl 5 ◌>>=◌ ◌>>◌
abbrev pub ◌>>=◌ : {A B : Type 0} → Outcome A → (A → Outcome B) → Outcome B
m >>= rest = elim m [ err refusal ↦ err refusal | ok a ↦ rest a ]

abbrev pub ◌>>◌ : {B : Type 0} → Outcome (Unit {0}) → Outcome B → Outcome B
check >> rest = elim check [ err refusal ↦ err refusal | ok _ ↦ rest ]

-- the early return of an error where the test is true
abbrev pub refuse_if : Bool → RpcError → Outcome (Unit {0})
refuse_if true e = err e
refuse_if false e = ok tt

abbrev pub ok_or : {A : Type 0} → RpcError → Option A → Outcome A
ok_or e none = err e
ok_or e (some a) = ok a

unfoldable pub strip_prefix : Text → Text → Option Text
strip_prefix [] t = some t
strip_prefix (c ∷ cs) [] = none
strip_prefix (c ∷ cs) (d ∷ ds) = if c == d then strip_prefix cs ds else none

-- `t.trim_start_matches("vela:")`, which takes the prefix off again and again; as many rounds of
-- fuel as the text is long.
unfoldable pub trim_rounds : ℕ → Text → Text
unfolding strip_prefix
trim_rounds zero t = t
trim_rounds (suc fuel) t = elim (strip_prefix vela_prefix t) [
  | none ↦ t
  | some rest ↦ trim_rounds fuel rest
]

unfoldable pub trim_vela : Text → Text
unfolding trim_rounds
trim_vela t = trim_rounds (length t) t

abbrev pub is_some {ℓ} : {A : Type ℓ} → Option A → Bool
is_some none = false
is_some (some a) = true

module _ {Db Val : Type 0} (x : Crates) (s : Sled Db Val) where
  -- `mempool.iter().any(|t| t.hash().to_hex() == tx_hash)`
  unfoldable pub is_pooled : Text → List Transaction → Bool
  unfolding hash_to_hex tx_hash
  is_pooled h [] = false
  is_pooled h (t ∷ ts) = elim (text_discrete (hash_to_hex x (tx_hash x t)) h) [
    | yes _ ↦ true
    | no _ ↦ is_pooled h ts
  ]

  -- The transaction of a request, with the signature that it decodes to, if any.
  unfoldable pub tx_of_request : ℕ → Bytes → Bytes → SendTxRequest → Transaction
  unfolding new_tx
  tx_of_request now from to req =
      let tx : Transaction =
        new_tx (record { bytes = from }) (record { bytes = to }) req.amount req.fee req.nonce now in
      record tx {
        timestamp = elim req.timestamp [ none ↦ tx.timestamp | some ts ↦ ts ];
        signature = elim req.signature [ none ↦ none | some sig_hex ↦ x.hex_decode sig_hex ];
      }

  -- The first checks of `post_send_tx`: the sender and the receiver of the request.
  unfoldable pub check_parties : SendTxRequest → Outcome (Bytes × Bytes)
  check_parties req = do
    from ← ok_or invalid_from (x.hex_decode (trim_vela req.from))
    to ← ok_or invalid_to (x.hex_decode (trim_vela req.to))
    refuse_if (not (length from == 32) || not (length to == 32)) bad_length
    ok (from, to)

  -- The next ones, of the sender's balance and nonce.
  unfoldable pub check_account : WorldState → Address → SendTxRequest → Outcome (Unit {0})
  check_account ws from req = do
    let have = balance x ws from
    let expected = add64 (nonce x ws from) 1
    refuse_if (ltb have (add64 req.amount req.fee))
        (insufficient_balance have (add64 req.amount req.fee))
    refuse_if (not (req.nonce == expected)) (invalid_nonce expected req.nonce)
    ok tt

  -- The last ones, of the signature and the pool.
  unfoldable pub check_tx : List Transaction → Transaction → Outcome (Unit {0})
  check_tx mempool tx = do
    refuse_if (is_some tx.signature && not (verify_tx x tx)) invalid_signature
    refuse_if (is_pooled (hash_to_hex x (tx_hash x tx)) mempool) already_in_mempool
    ok tt

  -- All of them in order, and the transaction that passes them.
  unfoldable pub check_send_tx : ℕ → Node Db → SendTxRequest → Outcome Transaction
  unfolding check_parties check_account check_tx tx_of_request
  check_send_tx now n req = do
    (from, to) ← check_parties req
    check_account n.world_state (record { bytes = from }) req
    let tx = tx_of_request now from to req
    check_tx n.mempool tx
    ok tx

  -- What an accepted transaction does, and the hash that is answered.
  unfoldable pub admit : Node Db → Transaction → Node Db × Outcome Text
  unfolding broadcast
  admit n tx = (
    broadcast x s (record n { mempool = push n.mempool tx }) tx,
    ok (hash_to_hex x (tx_hash x tx)),
  )

  -- `post_send_tx`, at the time `now`
  unfoldable pub post_send_tx : ℕ → Node Db → SendTxRequest → Node Db × Outcome Text
  unfolding check_send_tx admit
  post_send_tx now n req = elim (check_send_tx now n req) [
    | ok tx ↦ admit n tx
    | err e ↦ (n, err e)
  ]

  -- The faucet's transaction, at the time `stamp` in milliseconds.
  unfoldable pub faucet_tx : ℕ → WorldState → Bytes → Transaction
  unfolding new_tx sign_tx
  faucet_tx stamp ws to =
      sign_tx x
        (new_tx (faucet_address x) (record { bytes = to }) faucet_amount 1
          (add64 (nonce x ws (faucet_address x)) 1) stamp)
        faucet_seed

  -- The checks of `post_faucet`, at the time `now` in seconds, and the receiver that passes them.
  unfoldable pub check_faucet : ℕ → WorldState → Text → Outcome Bytes
  check_faucet now ws address = do
    refuse_if (not (can_faucet now ws address)) faucet_cooldown
    to ← ok_or invalid_address (x.hex_decode (trim_vela address))
    refuse_if (not (length to == 32)) bad_length
    ok to

  -- `post_faucet`
  unfoldable pub post_faucet : ℕ → ℕ → Node Db → Text → Node Db × Outcome Text
  unfolding check_faucet mark_faucet faucet_tx admit
  post_faucet now stamp n address = elim (check_faucet now n.world_state address) [
    | ok to ↦
        admit (record n { world_state = mark_faucet now n.world_state address })
          (faucet_tx stamp n.world_state to)
    | err e ↦ (n, err e)
  ]
