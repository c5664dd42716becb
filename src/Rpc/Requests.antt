-- ===== src/Rpc/Requests.antt =====
-- Which transactions `post_send_tx` of src/rpc/mod.rs accepts.
use mathlib.Core.Path.{subst}
use vela_network.Common.{
  ℕ, ◌≤◌, ◌≡◌, ◌↔◌, ◌⊎◌, inl, inr, refl, ap, sym, ◌∙◌, none, some, true, false, Bytes, arith,
  length, add64, push, [], Text,
}
use vela_network.Types.{Crates, Address, Transaction, new_tx, verify_tx, tx_hash, hash_to_hex}
use vela_network.State.{balance, nonce}
use vela_network.Storage.{Sled}
use vela_network.Node.{Node, new_transaction, broadcast, send}
use vela_network.Rpc.{
  SendTxRequest, RpcError, Outcome, ok, err, ◌>>=◌, trim_vela, is_pooled, tx_of_request,
  check_parties, check_account, check_tx, check_send_tx, admit, post_send_tx,
}

pub >>=-eq-ok :
    {A B : Type 0} (m : Outcome A) (rest : A → Outcome B) {b : B}
    → (m >>= rest) ≡ ok b
    → (a : A) × (m ≡ ok a) × (rest a ≡ ok b)
>>=-eq-ok (err refusal) rest h = cc
>>=-eq-ok (ok a) rest h = (a, refl, h)

pub Outcome-cases :
    {A : Type 0} (m : Outcome A) → ((a : A) × (m ≡ ok a)) ⊎ ((e : RpcError) × (m ≡ err e))
Outcome-cases (err refusal) = inr (refusal, refl)
Outcome-cases (ok a) = inl (a, refl)

module _ {Db Val : Type 0} (x : Crates) (s : Sled Db Val) (now : ℕ) (n : Node Db)
    (req : SendTxRequest) where
  -- The transaction that the request asks for between two accounts: its timestamp is that of the
  -- request, or else the time, and its signature what that of the request decodes to, if anything.
  abbrev pub asked_tx : Bytes → Bytes → Transaction
  asked_tx from to = record {
    from = record { bytes = from };
    to = record { bytes = to };
    amount = req.amount;
    fee = req.fee;
    nonce = req.nonce;
    timestamp = elim req.timestamp [ none ↦ now | some ts ↦ ts ];
    payload = [];
    signature = elim req.signature [ none ↦ none | some sig_hex ↦ x.hex_decode sig_hex ];
  }

  -- The node with the transaction behind those of the pool and behind what waits for the network,
  -- and nothing else changed; and the answer, which is the transaction's hash.
  abbrev pub accepted : Transaction → Node Db × Outcome Text
  accepted tx = (
    record n { mempool = push n.mempool tx; outbox = push n.outbox (new_transaction tx) },
    ok (hash_to_hex x (tx_hash x tx)),
  )

  asked_tx-eq-tx_of_request :
      (from to : Bytes) → tx_of_request x s now from to req ≡ asked_tx from to
  unfolding tx_of_request new_tx
  asked_tx-eq-tx_of_request from to = refl

  admit-eq-accepted : (tx : Transaction) → admit x s n tx ≡ accepted tx
  unfolding admit broadcast send
  admit-eq-accepted tx = refl

  -- The request's sender and receiver decode to 32 bytes each, the sender's balance covers amount and
  -- fee as a wrapped sum, the nonce is the sender's next one, the signature is absent or verifies,
  -- and no transaction of the pool has the same hash; and it asks for this transaction.
  pub record Admits (from to : Bytes) (tx : Transaction) : Type 0 where
    pub sender : x.hex_decode (trim_vela req.from) ≡ some from
    pub receiver : x.hex_decode (trim_vela req.to) ≡ some to
    pub from_width : length from ≡ 32
    pub to_width : length to ≡ 32
    pub covered : add64 req.amount req.fee ≤ balance x n.world_state (record { bytes = from })
    pub in_turn : req.nonce ≡ add64 (nonce x n.world_state (record { bytes = from })) 1
    pub made : tx ≡ asked_tx from to
    pub signed : (tx.signature ≡ none) ⊎ (verify_tx x tx ≡ true)
    pub fresh : is_pooled x s (hash_to_hex x (tx_hash x tx)) n.mempool ≡ false

  check_parties_iff :
      (from to : Bytes)
      → (check_parties x s req ≡ ok (from, to)) ↔ (
          (x.hex_decode (trim_vela req.from) ≡ some from)
          × (x.hex_decode (trim_vela req.to) ≡ some to)
          × (length from ≡ 32)
          × (length to ≡ 32))
  unfolding check_parties
  check_parties_iff from to = (λ h. ground arith, λ h. ground arith)

  check_account_iff :
      (from : Address)
      → (check_account x s n.world_state from req ≡ ok tt) ↔ (
          (add64 req.amount req.fee ≤ balance x n.world_state from)
          × (req.nonce ≡ add64 (nonce x n.world_state from) 1))
  unfolding check_account
  check_account_iff from = (λ h. ground arith, λ h. ground arith)

  check_tx_iff :
      (tx : Transaction)
      → (check_tx x s n.mempool tx ≡ ok tt) ↔ (
          ((tx.signature ≡ none) ⊎ (verify_tx x tx ≡ true))
          × (is_pooled x s (hash_to_hex x (tx_hash x tx)) n.mempool ≡ false))
  unfolding check_tx
  check_tx_iff tx = (λ h. ground arith, λ h. ground arith)

  pub check_send_tx-Admits :
      (tx : Transaction)
      → check_send_tx x s now n req ≡ ok tx
      → (from : Bytes) × (to : Bytes) × Admits from to tx
  unfolding check_send_tx
  check_send_tx-Admits tx h =
      let ((from, to), p, h₁) = >>=-eq-ok (check_parties x s req) _ h in
      let (_, q, h₂) =
        >>=-eq-ok (check_account x s n.world_state (record { bytes = from }) req) _ h₁ in
      let (_, r, h₃) =
        >>=-eq-ok (check_tx x s n.mempool (tx_of_request x s now from to req)) _ h₂ in
      let made : tx_of_request x s now from to req ≡ tx = cc in
      let parties = (check_parties_iff from to).0 p in
      let account = (check_account_iff (record { bytes = from })).0 q in
      let passed = (check_tx_iff (tx_of_request x s now from to req)).0 r in
      (
        from,
        to,
        record {
          sender = parties.0;
          receiver = parties.1;
          from_width = parties.2;
          to_width = parties.3;
          covered = account.0;
          in_turn = account.1;
          made = sym made ∙ asked_tx-eq-tx_of_request from to;
          signed =
              subst (λ (t : Transaction). (t.signature ≡ none) ⊎ (verify_tx x t ≡ true)) made
                passed.0;
          fresh =
              subst (λ t. is_pooled x s (hash_to_hex x (tx_hash x t)) n.mempool ≡ false) made
                passed.1;
        },
      )

  pub Admits-check_send_tx :
      {from to : Bytes} {tx : Transaction} → Admits from to tx → check_send_tx x s now n req ≡ ok tx
  unfolding check_send_tx
  Admits-check_send_tx {from} {to} {tx} a =
      let made = a.made ∙ sym (asked_tx-eq-tx_of_request from to) in
      let p = (check_parties_iff from to).1 (a.sender, a.receiver, a.from_width, a.to_width) in
      let q = (check_account_iff (record { bytes = from })).1 (a.covered, a.in_turn) in
      let r =
        subst (λ t. check_tx x s n.mempool t ≡ ok tt) made
          ((check_tx_iff tx).1 (a.signed, a.fresh)) in
      rw p (rw q (rw r (ap ok (sym made))))

  pub post_send_tx_lem :
      ((from : Bytes) × (to : Bytes) × (tx : Transaction) × Admits from to tx
        × (post_send_tx x s now n req ≡ accepted tx))
      ⊎ ((e : RpcError) × (post_send_tx x s now n req ≡ (n, err e))
          × ((from to : Bytes) (tx : Transaction) → ¬ Admits from to tx))
  unfolding post_send_tx
  post_send_tx_lem = elim (Outcome-cases (check_send_tx x s now n req)) [
    | inl (tx, e) ↦
        let (from, to, a) = check_send_tx-Admits tx e in
        inl (from, to, tx, a, rw (e, post_send_tx) (admit-eq-accepted tx))
    | inr (r, e) ↦
        inr (r, rw (e, post_send_tx) refl, λ from to tx a. let same = Admits-check_send_tx a in cc)
  ]

  -- A request without a signature is accepted, whoever sends it: if its sender and receiver decode
  -- to 32 bytes each, the sender's balance covers the wrapped sum of amount and fee, the nonce is
  -- the next one and no transaction of the pool has the hash of the transaction that it asks for,
  -- then that transaction, which does not verify, joins the pool and waits for the network, its
  -- hash is answered, and nothing else changes.
  pub post_send_tx_unsigned :
      (from to : Bytes)
      → x.hex_decode (trim_vela req.from) ≡ some from
      → x.hex_decode (trim_vela req.to) ≡ some to
      → length from ≡ 32
      → length to ≡ 32
      → add64 req.amount req.fee ≤ balance x n.world_state (record { bytes = from })
      → req.nonce ≡ add64 (nonce x n.world_state (record { bytes = from })) 1
      → req.signature ≡ none
      → is_pooled x s (hash_to_hex x (tx_hash x (asked_tx from to))) n.mempool ≡ false
      → (post_send_tx x s now n req ≡ accepted (asked_tx from to))
        × (verify_tx x (asked_tx from to) ≡ false)
  unfolding post_send_tx verify_tx
  post_send_tx_unsigned from to f t fw tw cover turn bare fresh =
      let unsigned : (asked_tx from to).signature ≡ none = rw bare refl in
      let passed = Admits-check_send_tx (record {
        sender = f;
        receiver = t;
        from_width = fw;
        to_width = tw;
        covered = cover;
        in_turn = turn;
        made = refl;
        signed = inl unsigned;
        fresh = fresh;
      }) in
      (rw (passed, post_send_tx) (admit-eq-accepted (asked_tx from to)), ground arith)
