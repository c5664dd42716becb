-- ===== src/Rpc/Sections.antt =====
-- The two handlers of src/rpc/mod.rs that write, cut at the points where they wait for a lock or for
-- the channel: other requests can come between.
use vela_network.Common.{
  ℕ, zero, suc, ◌≡◌, refl, ap, ◌∙◌, push, not, ◌&&◌, Text, Bytes, if◌then◌else◌, inl, inr,
  Bool-cases,
}
use vela_network.Types.{Crates, Transaction, tx_hash, hash_to_hex, verify_tx}
use vela_network.State.{WorldState, mark_faucet}
use vela_network.Storage.{Sled}
use vela_network.Node.{Node, broadcast}
use vela_network.Rpc.{
  SendTxRequest, Outcome, ok, err, ◌>>=◌, ◌>>◌, refuse_if, invalid_signature, already_in_mempool,
  is_some, is_pooled, tx_of_request, check_parties, check_account, check_tx, check_send_tx, admit,
  post_send_tx, faucet_tx, check_faucet, post_faucet,
}
use vela_network.Rpc.Requests.{Outcome-cases}

-- How far a request has come.
pub data Task : Type 0 where
  faucet_asked : Text → Task
  faucet_allowed : Text → Bytes → Task
  faucet_made : Text → Transaction → Task
  tx_asked : SendTxRequest → Task
  tx_checked : Transaction → Task
  admitted pooled : Transaction → Task
  answered : Outcome Text → Task

module _ {Db Val : Type 0} (x : Crates) (s : Sled Db Val) where
  -- `post_send_tx` up to the pool: the parties, the account under the lock of the world state, the
  -- transaction and its signature
  unfoldable pub check_request : ℕ → WorldState → SendTxRequest → Outcome Transaction
  unfolding check_parties check_account tx_of_request
  check_request now ws req = do
    (from, to) ← check_parties x s req
    check_account x s ws (record { bytes = from }) req
    let tx = tx_of_request x s now from to req
    refuse_if (is_some tx.signature && not (verify_tx x tx)) invalid_signature
    ok tx

  -- What a request does until it waits next, at the time `now` in seconds and `stamp` in
  -- milliseconds.
  unfoldable pub advance : ℕ → ℕ → Node Db → Task → Node Db × Task
  unfolding check_faucet faucet_tx mark_faucet check_request is_pooled broadcast
  advance now stamp n (faucet_asked address) = elim (check_faucet x s now n.world_state address) [
    | ok to ↦ (n, faucet_allowed address to)
    | err e ↦ (n, answered (err e))
  ]
  advance now stamp n (faucet_allowed address to) =
      (n, faucet_made address (faucet_tx x s stamp n.world_state to))
  advance now stamp n (faucet_made address tx) =
      (record n { world_state = mark_faucet now n.world_state address }, admitted tx)
  advance now stamp n (tx_asked req) = elim (check_request stamp n.world_state req) [
    | ok tx ↦ (n, tx_checked tx)
    | err e ↦ (n, answered (err e))
  ]
  advance now stamp n (tx_checked tx) =
      if is_pooled x s (hash_to_hex x (tx_hash x tx)) n.mempool
      then (n, answered (err already_in_mempool))
      else (n, admitted tx)
  advance now stamp n (admitted tx) = (record n { mempool = push n.mempool tx }, pooled tx)
  advance now stamp n (pooled tx) =
      (broadcast x s n tx, answered (ok (hash_to_hex x (tx_hash x tx))))
  advance now stamp n (answered a) = (n, answered a)

  -- A request alone, through as many sections.
  abbrev pub run_alone : ℕ → ℕ → ℕ → Node Db × Task → Node Db × Task
  run_alone now stamp zero p = p
  run_alone now stamp (suc k) (n, t) = run_alone now stamp k (advance now stamp n t)

  abbrev pub with_answer : Node Db × Outcome Text → Node Db × Task
  with_answer (n, a) = (n, answered a)

  run_alone-faucet :
      (now stamp : ℕ) (n : Node Db) (address : Text)
      → run_alone now stamp 5 (n, faucet_asked address)
        ≡ with_answer (post_faucet x s now stamp n address)
  unfolding advance post_faucet admit
  run_alone-faucet now stamp n address =
      elim (Outcome-cases (check_faucet x s now n.world_state address)) [
        | inl (to, e) ↦
            let first : advance now stamp n (faucet_asked address)
                ≡ (n, faucet_allowed address to) =
              rw (e, advance) refl in
            ap (run_alone now stamp 4) first ∙ rw (e, post_faucet) refl
        | inr (r, e) ↦
            let first : advance now stamp n (faucet_asked address) ≡ (n, answered (err r)) =
              rw (e, advance) refl in
            ap (run_alone now stamp 4) first ∙ rw (e, post_faucet) refl
      ]

  -- The checks of a transaction: those up to the pool, and then that of the pool.
  pub check_send_tx-split :
      (now : ℕ) (n : Node Db) (req : SendTxRequest)
      → check_send_tx x s now n req ≡ (
          check_request now n.world_state req >>= λ tx.
          refuse_if (is_pooled x s (hash_to_hex x (tx_hash x tx)) n.mempool) already_in_mempool
          >> ok tx)
  unfolding check_send_tx check_request check_tx
  check_send_tx-split now n req = elim (Outcome-cases (check_parties x s req)) [
    | inr (e, p) ↦ rw p refl
    | inl ((from, to), p) ↦
        let tx = tx_of_request x s now from to req in
        elim (Outcome-cases (check_account x s n.world_state (record { bytes = from }) req)) [
          | inr (e, q) ↦ rw (p, q) refl
          | inl (_, q) ↦ elim (Bool-cases (is_some tx.signature && not (verify_tx x tx))) [
            | inl r ↦ rw (p, q, r) refl
            | inr r ↦ elim (Bool-cases (is_pooled x s (hash_to_hex x (tx_hash x tx)) n.mempool)) [
              | inl t ↦ rw (p, q, r, t) refl
              | inr t ↦ rw (p, q, r, t) refl
            ]
          ]
        ]
  ]

  run_alone-tx :
      (now stamp : ℕ) (n : Node Db) (req : SendTxRequest)
      → run_alone now stamp 5 (n, tx_asked req) ≡ with_answer (post_send_tx x s stamp n req)
  unfolding advance post_send_tx admit
  run_alone-tx now stamp n req = elim (Outcome-cases (check_request stamp n.world_state req)) [
    | inr (e, p) ↦
        let first : advance now stamp n (tx_asked req) ≡ (n, answered (err e)) =
          rw (p, advance) refl in
        let refused : check_send_tx x s stamp n req ≡ err e =
          check_send_tx-split stamp n req ∙ rw p refl in
        ap (run_alone now stamp 4) first ∙ rw (refused, post_send_tx) refl
    | inl (tx, p) ↦
        let first : advance now stamp n (tx_asked req) ≡ (n, tx_checked tx) =
          rw (p, advance) refl in
        elim (Bool-cases (is_pooled x s (hash_to_hex x (tx_hash x tx)) n.mempool)) [
          | inl q ↦
              let second : advance now stamp n (tx_checked tx)
                  ≡ (n, answered (err already_in_mempool)) =
                rw (q, advance) refl in
              let refused : check_send_tx x s stamp n req ≡ err already_in_mempool =
                check_send_tx-split stamp n req ∙ rw (p, q) refl in
              ap (run_alone now stamp 4) first
              ∙ ap (run_alone now stamp 3) second
              ∙ rw (refused, post_send_tx) refl
          | inr q ↦
              let second : advance now stamp n (tx_checked tx) ≡ (n, admitted tx) =
                rw (q, advance) refl in
              let passed : check_send_tx x s stamp n req ≡ ok tx =
                check_send_tx-split stamp n req ∙ rw (p, q) refl in
              ap (run_alone now stamp 4) first
              ∙ ap (run_alone now stamp 3) second
              ∙ rw (passed, post_send_tx) refl
        ]
  ]

  -- What is run without a pause is what the handlers are: a request to the faucet, and a transaction
  -- that is sent in, alone and at one time, come in five sections to the state and the answer of
  -- `post_faucet` and of `post_send_tx`.
  pub run_alone_lem :
      (now stamp : ℕ) (n : Node Db)
      → ((address : Text)
          → run_alone now stamp 5 (n, faucet_asked address)
            ≡ with_answer (post_faucet x s now stamp n address))
        × ((req : SendTxRequest)
            → run_alone now stamp 5 (n, tx_asked req) ≡ with_answer (post_send_tx x s stamp n req))
  run_alone_lem now stamp n = (run_alone-faucet now stamp n, run_alone-tx now stamp n)
