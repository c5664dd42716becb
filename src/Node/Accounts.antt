-- ===== src/Node/Accounts.antt =====
-- The accounts of a running node (src/main.rs, src/storage/state.rs).
use mathlib.Core.Path.{subst}
use vela_network.Common.{ℕ, ◌≡◌, ap, some, List, [], ◌∷◌}
use vela_network.Types.{Crates, Block}
use vela_network.State.{WorldState, apply_block}
use vela_network.State
use vela_network.State.Words.{IsWorld, apply_block-IsWorld, new-IsWorld}
use vela_network.Storage.{Sled}
use vela_network.Node.Defs.{Node, append_block}
use vela_network.Node.Startup.{replay_from, replay, boot, start}
use vela_network.Node.Steps.{Run, Run_inv}
use vela_network.Node.Consistency.{start_parts}

module _ {Db Val : Type 0} (x : Crates) (s : Sled Db Val) where
  replay_from-IsWorld :
      (ws : WorldState) (bs : List Block) → IsWorld x ws → IsWorld x (replay_from x ws bs)
  unfolding replay_from
  replay_from-IsWorld ws [] h = h
  replay_from-IsWorld ws (b ∷ bs) h =
      replay_from-IsWorld (apply_block x ws b) bs (apply_block-IsWorld x ws b h)

  -- Cooldowns are no part of it.
  with_cooldowns-IsWorld :
      (ws w : WorldState)
      → w ≡ record ws { faucet_last = w.faucet_last }
      → IsWorld x ws
      → IsWorld x w
  with_cooldowns-IsWorld ws w e h =
      rw e
        (record { accounts = h.accounts; total_supply = h.total_supply; total_txs = h.total_txs })

  -- In every run of a node from its start, on any database, whatever peers and clients send: each
  -- account is filed under its own address, no address has two, and balances, nonces, the total
  -- supply and the number of transactions are numbers of 64 bits.
  pub Run-IsWorld :
      (validator_index : ℕ) (db : Db) {n n' : Node Db}
      → start x s validator_index db ≡ some n
      → Run x s n n'
      → IsWorld x n'.world_state
  unfolding boot replay
  Run-IsWorld validator_index db e r =
      let (key, loaded, db', bs, k, l, g, booted) = start_parts x s validator_index db e in
      Run_inv x s (λ m. IsWorld x m.world_state)
        (λ m m' keeps h. with_cooldowns-IsWorld m.world_state m'.world_state keeps.world_state h)
        (λ m b next h. unfold append_block in apply_block-IsWorld x m.world_state b h) r
        (subst (IsWorld x) (ap (λ (m : Node Db). m.world_state) booted)
          (replay_from-IsWorld State.new bs (new-IsWorld x)))
