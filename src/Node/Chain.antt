-- ===== src/Node/Chain.antt =====
-- Chains of blocks whose heights follow one another, and their execution from an empty world state
-- (src/main.rs, src/storage/state.rs).
use vela_network.Common.{
  ℕ, ◌≡◌, refl, ap, ◌∙◌, sym, List, [], ◌∷◌, push, add64, ◌==◌, ◌&&◌, inl, inr, Bool-cases,
}
use vela_network.Common.Dict.{Dict}
use vela_network.Types.{Crates, Transaction, Block}
use vela_network.State.{WorldState, apply_tx, apply_txs, apply_block, apply_genesis, is_covered}
use vela_network.Node.Defs.{tip_height}
use vela_network.Node.Startup.{replay_from}

-- Heights follow one another from `h` on, as u64.
abbrev pub HeightsFrom : ℕ → List Block → Type 0
HeightsFrom h [] = Unit {0}
HeightsFrom h (b ∷ bs) = (b.header.height ≡ h) × HeightsFrom (add64 h 1) bs

HeightsFrom-push :
    (h : ℕ) (b : Block) (bs : List Block) (c : Block)
    → HeightsFrom h (b ∷ bs)
    → c.header.height ≡ add64 (tip_height (b ∷ bs)) 1
    → HeightsFrom h (push (b ∷ bs) c)
unfolding tip_height
HeightsFrom-push h b [] c p e = (p.0, (e ∙ ap (λ t. add64 t 1) p.0, tt))
HeightsFrom-push h b (d ∷ bs) c p e = (p.0, HeightsFrom-push (add64 h 1) d bs c p.1 e)

-- A chain: not empty, from height 0, each block one higher than the one before.
abbrev pub IsChain : List Block → Type 0
IsChain [] = ⊥
IsChain (b ∷ bs) = HeightsFrom 0 (b ∷ bs)

pub IsChain-push :
    (bs : List Block) (c : Block)
    → IsChain bs
    → c.header.height ≡ add64 (tip_height bs) 1
    → IsChain (push bs c)
IsChain-push [] c p e = absurd p
IsChain-push (b ∷ bs) c p e = HeightsFrom-push 0 b bs c p e

module _ (x : Crates) where
  -- The execution of blocks neither reads nor changes the faucet's cooldowns.
  abbrev with_cooldowns : WorldState → Dict ℕ → WorldState
  with_cooldowns ws f = record ws { faucet_last = f }

  apply_tx-with_cooldowns :
      (ws : WorldState) (f : Dict ℕ) (tx : Transaction)
      → apply_tx x (with_cooldowns ws f) tx ≡ with_cooldowns (apply_tx x ws tx) f
  unfolding apply_tx
  apply_tx-with_cooldowns ws f tx = elim (Bool-cases (is_covered x tx ws.accounts)) [
    | inl c ↦ rw c refl
    | inr c ↦ rw c refl
  ]

  apply_txs-with_cooldowns :
      (ws : WorldState) (f : Dict ℕ) (txs : List Transaction)
      → apply_txs x (with_cooldowns ws f) txs ≡ with_cooldowns (apply_txs x ws txs) f
  unfolding apply_txs
  apply_txs-with_cooldowns ws f [] = refl
  apply_txs-with_cooldowns ws f (tx ∷ txs) =
      ap (λ w. apply_txs x w txs) (apply_tx-with_cooldowns ws f tx)
      ∙ apply_txs-with_cooldowns (apply_tx x ws tx) f txs

  pub apply_block-with_cooldowns :
      (ws : WorldState) (f : Dict ℕ) (b : Block)
      → apply_block x (with_cooldowns ws f) b ≡ with_cooldowns (apply_block x ws b) f
  unfolding apply_block
  apply_block-with_cooldowns ws f b =
      elim (Bool-cases (b.header.height == 0 && ws.total_supply == 0)) [
        | inl c ↦ rw c (apply_txs-with_cooldowns (apply_genesis x ws) f b.transactions)
        | inr c ↦ rw c (apply_txs-with_cooldowns ws f b.transactions)
      ]

  pub apply_block_agrees :
      (ws w : WorldState) (b : Block)
      → ws ≡ with_cooldowns w ws.faucet_last
      → apply_block x ws b ≡ with_cooldowns (apply_block x w b) (apply_block x ws b).faucet_last
  apply_block_agrees ws w b e =
      let p : apply_block x ws b ≡ with_cooldowns (apply_block x w b) ws.faucet_last =
        ap (λ v. apply_block x v b) e ∙ apply_block-with_cooldowns w ws.faucet_last b in
      p ∙ ap (with_cooldowns (apply_block x w b)) (sym (ap (λ (v : WorldState). v.faucet_last) p))

  pub replay_from-push :
      (ws : WorldState) (bs : List Block) (b : Block)
      → replay_from x ws (push bs b) ≡ apply_block x (replay_from x ws bs) b
  unfolding replay_from
  replay_from-push ws [] b = refl
  replay_from-push ws (c ∷ bs) b = replay_from-push (apply_block x ws c) bs b

  -- Executing blocks leaves the cooldowns as they are.
  pub faucet_last-replay_from :
      (ws : WorldState) (bs : List Block) → (replay_from x ws bs).faucet_last ≡ ws.faucet_last
  unfolding replay_from
  faucet_last-replay_from ws [] = refl
  faucet_last-replay_from ws (b ∷ bs) =
      faucet_last-replay_from (apply_block x ws b) bs
      ∙ ap (λ (v : WorldState). v.faucet_last) (apply_block-with_cooldowns ws ws.faucet_last b)
