-- ===== src/Rpc/Faucet.antt =====
-- The faucet of src/rpc/mod.rs: the prefix of an address, and the cooldown's key.
use mathlib.Core.Path.{subst}
use vela_network.Common.{
  ℕ, zero, suc, ◌+◌, ◌≤◌, ◌≡◌, ◌≢◌, ◌↔◌, inl, inr, refl, ap, sym, ◌∙◌, none, some, Option-cases,
  true, Bool-cases, [], ◌∷◌, ◌++◌, Bytes, Text, arith, length, push, ◌==◌,
}
use vela_network.Common.Dict.{lookup, lookup-insert}
use vela_network.Types.{Crates, Transaction, hash_to_hex, tx_hash, vela_prefix, new_tx, sign_tx}
use vela_network.State.{WorldState, can_faucet, mark_faucet, faucet_amount}
use vela_network.Storage.{Sled}
use vela_network.Node.{Node, broadcast, send}
use vela_network.Rpc.{
  Outcome, ok, err, strip_prefix, trim_rounds, trim_vela, admit, faucet_tx, check_faucet,
  post_faucet,
}
use vela_network.Rpc.Requests.{Outcome-cases}

length-strip_prefix :
    (p t : Text) {r : Text} → strip_prefix p t ≡ some r → length p + length r ≡ length t
unfolding strip_prefix
length-strip_prefix [] t e = ground arith
length-strip_prefix (c ∷ cs) [] e = cc
length-strip_prefix (c ∷ cs) (d ∷ ds) e = elim (Bool-cases (c == d)) [
  | inl q ↦ omega (arith, length-strip_prefix cs ds (rw q at e))
  | inr q ↦ ground arith
]

-- More rounds than the text is long change nothing.
trim_rounds_enough :
    (f g : ℕ) (t : Text) → length t ≤ f → length t ≤ g → trim_rounds f t ≡ trim_rounds g t
unfolding trim_rounds strip_prefix
trim_rounds_enough zero zero t p q = refl
trim_rounds_enough zero (suc g) [] p q = refl
trim_rounds_enough zero (suc g) (c ∷ t) p q = absurd (omega arith)
trim_rounds_enough (suc f) zero [] p q = refl
trim_rounds_enough (suc f) zero (c ∷ t) p q = absurd (omega arith)
trim_rounds_enough (suc f) (suc g) t p q = elim (Option-cases (strip_prefix vela_prefix t)) [
  | inl e ↦ rw (e, trim_rounds) refl
  | inr (r, e) ↦
      let l = length-strip_prefix vela_prefix t e in
      rw (e, trim_rounds) (trim_rounds_enough f g r (omega arith) (omega arith))
]

trim_vela-prefix : (t : Text) → trim_vela (vela_prefix ++ t) ≡ trim_vela t
unfolding trim_vela trim_rounds strip_prefix
trim_vela-prefix t =
    trim_rounds_enough (suc (suc (suc (suc (length t))))) (length t) t (omega arith) (omega arith)

trim_rounds_done :
    (f : ℕ) (t : Text) → length t ≤ f → strip_prefix vela_prefix (trim_rounds f t) ≡ none
unfolding trim_rounds strip_prefix
trim_rounds_done zero [] p = refl
trim_rounds_done zero (c ∷ t) p = absurd (omega arith)
trim_rounds_done (suc f) t p = elim (Option-cases (strip_prefix vela_prefix t)) [
  | inl e ↦ rw (e, trim_rounds) e
  | inr (r, e) ↦
      let l = length-strip_prefix vela_prefix t e in
      rw (e, trim_rounds) (trim_rounds_done f r (omega arith))
]

-- Trimming takes off every "vela:" in front of an address: none is left, and one more makes no
-- difference.
pub trim_vela_lem :
    (t : Text)
    → (strip_prefix vela_prefix (trim_vela t) ≡ none) × (trim_vela (vela_prefix ++ t) ≡ trim_vela t)
unfolding trim_vela
trim_vela_lem t = (trim_rounds_done (length t) t (omega arith), trim_vela-prefix t)

prefix_differs : (t : Text) → vela_prefix ++ t ≢ t
prefix_differs t e = let l : length (vela_prefix ++ t) ≡ length t = ap length e in omega arith

module _ {Db Val : Type 0} (x : Crates) (s : Sled Db Val) where
  pub check_faucet_iff :
      (now : ℕ) (ws : WorldState) (address : Text) (to : Bytes)
      → (check_faucet x s now ws address ≡ ok to) ↔ (
          (can_faucet now ws address ≡ true)
          × (x.hex_decode (trim_vela address) ≡ some to)
          × (length to ≡ 32))
  unfolding check_faucet
  check_faucet_iff now ws address to = (λ h. ground arith, λ h. ground arith)

  -- Marking one spelling leaves another as it was.
  can_faucet_elsewhere :
      (now : ℕ) (ws : WorldState) (address other : Text)
      → other ≢ address
      → lookup other ws.faucet_last ≡ none
      → can_faucet now (mark_faucet now ws address) other ≡ true
  unfolding can_faucet mark_faucet
  can_faucet_elsewhere now ws address other apart e =
      ground (arith, lookup-insert other address now ws.faucet_last)

  -- Right after a grant the faucet pays again, to the same account, under the address with "vela:"
  -- put before it once more, if no grant was made under that spelling.
  pub post_faucet-prefix :
      (now stamp stamp' : ℕ) (n : Node Db) (address : Text) {n' : Node Db} {h : Text}
      → post_faucet x s now stamp n address ≡ (n', ok h)
      → lookup (vela_prefix ++ address) n.world_state.faucet_last ≡ none
      → (m : Node Db) × (h' : Text) × (tx tx' : Transaction) × (post_faucet x s now stamp' n'
            (vela_prefix ++ address)
          ≡ (m, ok h'))
        × (m.mempool ≡ push (push n.mempool tx) tx')
        × (tx'.to ≡ tx.to)
        × (tx.amount ≡ faucet_amount)
        × (tx'.amount ≡ faucet_amount)
  unfolding post_faucet admit faucet_tx new_tx sign_tx broadcast send mark_faucet
  post_faucet-prefix now stamp stamp' n address {n'} e apart =
      elim (Outcome-cases (check_faucet x s now n.world_state address)) [
        | inr (r, c) ↦
            let refused : post_faucet x s now stamp n address ≡ (n, err r) =
              rw (c, post_faucet) refl in
            cc
        | inl (to, c) ↦
            let ws = mark_faucet now n.world_state address in
            let marked : Node Db = record n { world_state = ws } in
            let tx = faucet_tx x s stamp n.world_state to in
            let paid : post_faucet x s now stamp n address ≡ admit x s marked tx =
              rw (c, post_faucet) refl in
            let same : (admit x s marked tx).0 ≡ n' =
              ap (λ (r : Node Db × Outcome Text). r.0) (sym paid ∙ e) in
            let (_, decoded, width) = (check_faucet_iff now n.world_state address to).0 c in
            let again = (check_faucet_iff now ws (vela_prefix ++ address) to).1 (
              can_faucet_elsewhere now n.world_state address (vela_prefix ++ address)
                  (prefix_differs address) apart,
              ap x.hex_decode (trim_vela-prefix address) ∙ decoded,
              width,
            ) in
            subst
              (λ k.
                (m : Node Db) × (h' : Text) × (t t' : Transaction) × (post_faucet x s now stamp' k
                    (vela_prefix ++ address)
                  ≡ (m, ok h'))
                × (m.mempool ≡ push (push n.mempool t) t')
                × (t'.to ≡ t.to)
                × (t.amount ≡ faucet_amount)
                × (t'.amount ≡ faucet_amount))
              same
              (
                (admit x s
                    (record (admit x s marked tx).0 {
                      world_state = mark_faucet now ws (vela_prefix ++ address);
                    })
                    (faucet_tx x s stamp' ws to)).0,
                hash_to_hex x (tx_hash x (faucet_tx x s stamp' ws to)),
                tx,
                faucet_tx x s stamp' ws to,
                rw (again, post_faucet) refl,
                refl,
                refl,
                refl,
                refl,
              )
      ]
