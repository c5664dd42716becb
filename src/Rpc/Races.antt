-- ===== src/Rpc/Races.antt =====
-- Two equal requests to the server of src/rpc/mod.rs at once.
use vela_network.Common.{
  ℕ, ◌≡◌, refl, ap, sym, ◌∙◌, List, [], ◌∷◌, ◌++◌, push, arith, Bool-cases, inl, inr, true, false,
}
use vela_network.Types.{Crates, Transaction}
use vela_network.Storage.{Sled}
use vela_network.Node.{Node, broadcast, send}
use vela_network.Rpc.{
  SendTxRequest, ok, err, already_in_mempool, is_pooled, check_send_tx, post_send_tx, admit,
}
use vela_network.Rpc.Requests.{>>=-eq-ok}
use vela_network.Rpc.Sections.{
  Task, tx_asked, tx_checked, admitted, answered, check_request, advance, check_send_tx-split,
}
use vela_network.Rpc.Interleavings.{interleave, hash_text}

module _ {Db Val : Type 0} (x : Crates) (s : Sled Db Val) where
  check_send_tx-parts :
      (now : ℕ) (n : Node Db) (req : SendTxRequest) {tx : Transaction}
      → check_send_tx x s now n req ≡ ok tx
      → (check_request x s now n.world_state req ≡ ok tx)
        × (is_pooled x s (hash_text x s tx) n.mempool ≡ false)
  check_send_tx-parts now n req e =
      let (t, p, q) =
        >>=-eq-ok (check_request x s now n.world_state req) _
          (sym (check_send_tx-split x s now n req) ∙ e) in
      elim (Bool-cases (is_pooled x s (hash_text x s t) n.mempool)) [
        | inl r ↦ let refused = rw r at q in cc
        | inr r ↦ let passed = rw r at q in (ground arith, ground arith)
      ]

  -- The order of the sections of two requests, all at one time: both make their checks, and then
  -- both finish.
  abbrev both_check : ℕ → ℕ → List (ℕ × ℕ × ℕ)
  both_check now stamp = (0, now, stamp) ∷ (1, now, stamp) ∷ (0, now, stamp) ∷ (1, now, stamp) ∷ []

  abbrev both_finish : ℕ → ℕ → List (ℕ × ℕ × ℕ)
  both_finish now stamp = (0, now, stamp) ∷ (0, now, stamp) ∷ (1, now, stamp) ∷ (1, now, stamp) ∷ []

  abbrev pub in_turn : ℕ → ℕ → List (ℕ × ℕ × ℕ)
  in_turn now stamp = both_check now stamp ++ both_finish now stamp

  is_pooled-push :
      (txs : List Transaction) (tx : Transaction)
      → is_pooled x s (hash_text x s tx) (push txs tx) ≡ true
  unfolding is_pooled
  is_pooled-push [] tx = ground arith
  is_pooled-push (t ∷ txs) tx = ground (arith, is_pooled-push txs tx)

  -- A request that was accepted is refused right after that, at the same time.
  post_send_tx-again :
      (stamp : ℕ) (n : Node Db) (req : SendTxRequest) {tx : Transaction}
      → check_send_tx x s stamp n req ≡ ok tx
      → (post_send_tx x s stamp (post_send_tx x s stamp n req).0 req).1 ≡ err already_in_mempool
  unfolding post_send_tx admit broadcast send
  post_send_tx-again stamp n req {tx} e =
      let n' : Node Db = (admit x s n tx).0 in
      let once : (post_send_tx x s stamp n req).0 ≡ n' = rw (e, post_send_tx) refl in
      let (p, q) = check_send_tx-parts stamp n req e in
      let refused : check_send_tx x s stamp n' req ≡ err already_in_mempool =
        check_send_tx-split x s stamp n' req ∙ rw (p, is_pooled-push n.mempool tx) refl in
      ap (λ m. (post_send_tx x s stamp m req).1) once ∙ rw (refused, post_send_tx) refl

  -- Let a node accept a request at some millisecond. The same request right after it, in the same
  -- millisecond, is refused, since its transaction is in the pool; but if the sections of the two
  -- come in turn, all of them in that millisecond, both are accepted, and the pool holds the
  -- transaction twice.
  pub interleave-post_send_tx :
      (now stamp : ℕ) (n : Node Db) (req : SendTxRequest) {tx : Transaction}
      → check_send_tx x s stamp n req ≡ ok tx
      → ((post_send_tx x s stamp (post_send_tx x s stamp n req).0 req).1 ≡ err already_in_mempool)
        × (let (m, ts) = interleave x s (in_turn now stamp) (n, tx_asked req ∷ tx_asked req ∷ []) in
            (m.mempool ≡ push (push n.mempool tx) tx)
            × (ts ≡ answered (ok (hash_text x s tx)) ∷ answered (ok (hash_text x s tx)) ∷ []))
  unfolding advance broadcast send
  interleave-post_send_tx now stamp n req {tx} e =
      let (p, q) = check_send_tx-parts stamp n req e in
      let asked = tx_asked req in
      let t : ℕ → ℕ × ℕ × ℕ = λ i. (i, now, stamp) in
      let end = both_finish now stamp in
      let first : advance x s now stamp n asked ≡ (n, tx_checked tx) = rw (p, advance) refl in
      let second : advance x s now stamp n (tx_checked tx) ≡ (n, admitted tx) =
        rw (q, advance) refl in
      let checked : interleave x s (in_turn now stamp) (n, asked ∷ asked ∷ [])
          ≡ interleave x s end (n, admitted tx ∷ admitted tx ∷ []) =
        ap (λ r. interleave x s (t 1 ∷ t 0 ∷ t 1 ∷ end) (r.0, r.1 ∷ asked ∷ [])) first
        ∙ ap (λ r. interleave x s (t 0 ∷ t 1 ∷ end) (r.0, tx_checked tx ∷ r.1 ∷ [])) first
        ∙ ap (λ r. interleave x s (t 1 ∷ end) (r.0, r.1 ∷ tx_checked tx ∷ [])) second
        ∙ ap (λ r. interleave x s end (r.0, admitted tx ∷ r.1 ∷ [])) second in
      (
        post_send_tx-again stamp n req e,
        (
          ap (λ (r : Node Db × List Task). r.0.mempool) checked,
          ap (λ (r : Node Db × List Task). r.1) checked,
        ),
      )
