-- ===== src/Rpc/Resubmissions.antt =====
-- One request that is sent twice to the server of src/rpc/mod.rs.
use mathlib.Core.Path.{subst}
use vela_network.Common.{ℕ, ◌≡◌, refl, ap, sym, ◌∙◌, Text, none, some, inl, inr, Bytes, push, false}
use vela_network.Types.{Crates, Transaction, tx_hash, hash_to_hex}
use vela_network.Storage.{Sled}
use vela_network.Node.{Node}
use vela_network.Rpc.{SendTxRequest, Outcome, ok, trim_vela, is_pooled, post_send_tx}
use vela_network.Rpc.Requests.{asked_tx, accepted, post_send_tx_lem, post_send_tx_unsigned}

module _ {Db Val : Type 0} (x : Crates) (s : Sled Db Val) where
  -- The transactions that a request asks for at the two times differ in their hashes, and so does
  -- that of the second time from those of the pool.
  abbrev pub IsFresh : ℕ → ℕ → Node Db → SendTxRequest → Type 0
  IsFresh stamp stamp' n req =
      (from to : Bytes)
      → x.hex_decode (trim_vela req.from) ≡ some from
      → x.hex_decode (trim_vela req.to) ≡ some to
      → is_pooled x s (hash_to_hex x (tx_hash x (asked_tx x s stamp' n req from to)))
          (push n.mempool (asked_tx x s stamp n req from to))
        ≡ false

  -- What the node answers and holds when the request comes again.
  abbrev pub Again : ℕ → Node Db → Node Db → SendTxRequest → Type 0
  Again stamp' n n' req =
      (tx tx' : Transaction) × ((post_send_tx x s stamp' n' req).1
        ≡ ok (hash_to_hex x (tx_hash x tx')))
      × ((post_send_tx x s stamp' n' req).0.mempool ≡ push (push n.mempool tx) tx')
      × (tx' ≡ record tx { timestamp = tx'.timestamp })

  -- Let a node accept a request without a signature. If the transaction that the request asks for
  -- at another time has the hash of no transaction that is then in the pool, the node accepts the
  -- same request again at that time: the pool holds the payment twice, with one nonce, in
  -- transactions that differ in their timestamps only.
  pub post_send_tx-post_send_tx :
      (stamp stamp' : ℕ) (n : Node Db) (req : SendTxRequest) {n' : Node Db} {h : Text}
      → post_send_tx x s stamp n req ≡ (n', ok h)
      → req.signature ≡ none
      → IsFresh stamp stamp' n req
      → Again stamp' n n' req
  post_send_tx-post_send_tx stamp stamp' n req {n'} e bare fresh =
      elim (post_send_tx_lem x s stamp n req) [
        | inr (r, c, _) ↦ cc
        | inl (from, to, tx, a, c) ↦
            let m : Node Db = (accepted x s stamp n req tx).0 in
            let same : m ≡ n' = ap (λ (r : Node Db × Outcome Text). r.0) (sym c ∙ e) in
            let tx' = asked_tx x s stamp' m req from to in
            let unpooled = rw (sym a.made) at (fresh from to a.sender a.receiver) in
            let (passed, _) =
              post_send_tx_unsigned x s stamp' m req from to a.sender a.receiver a.from_width
                a.to_width a.covered a.in_turn bare unpooled in
            subst (λ k. Again stamp' n k req) same
              (
                tx,
                tx',
                ap (λ (r : Node Db × Outcome Text). r.1) passed,
                ap (λ (r : Node Db × Outcome Text). r.0.mempool) passed,
                rw a.made refl,
              )
      ]
