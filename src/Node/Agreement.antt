-- ===== src/Node/Agreement.antt =====
-- Nodes that hold the same chain answer alike (src/main.rs, src/storage/state.rs, src/rpc/mod.rs).
use vela_network.Common.{ℕ, ◌≡◌, refl, sym, ap, ◌∙◌, List, [], ◌∷◌, ◌++◌, Text}
use vela_network.Common.Dict.{Dict}
use vela_network.Types.{Crates, Block}
use vela_network.State.{WorldState, apply_block, balance, nonce}
use vela_network.State
use vela_network.Storage.{Sled}
use vela_network.Node.Defs.{Node}
use vela_network.Node.Startup.{replay, replay_from}
use vela_network.Node.Chain.{apply_block-with_cooldowns}
use vela_network.Node.Steps.{Run}
use vela_network.Node.Consistency.{IsConsistent, Run-IsConsistent}
use vela_network.Rpc.Queries.{get_balance}

module _ {Db Val : Type 0} (x : Crates) (s : Sled Db Val) where
  replay_from-append :
      (ws : WorldState) (bs cs : List Block)
      → replay_from x ws (bs ++ cs) ≡ replay_from x (replay_from x ws bs) cs
  unfolding replay_from
  replay_from-append ws [] cs = refl
  replay_from-append ws (b ∷ bs) cs = replay_from-append (apply_block x ws b) bs cs

  replay_from-with_cooldowns :
      (ws : WorldState) (f : Dict ℕ) (bs : List Block)
      → replay_from x (record ws { faucet_last = f }) bs
        ≡ record (replay_from x ws bs) { faucet_last = f }
  unfolding replay_from
  replay_from-with_cooldowns ws f [] = refl
  replay_from-with_cooldowns ws f (b ∷ bs) =
      ap (λ w. replay_from x w bs) (apply_block-with_cooldowns x ws f b)
      ∙ replay_from-with_cooldowns (apply_block x ws b) f bs

  -- Let two consistent nodes run, with any messages and requests, until the chain of the one is that
  -- of the other with more blocks. Then the world state of the first is what executing just those
  -- blocks on the world state of the other gives, but for the faucet's cooldowns; and if there are
  -- none, both answer each question for a balance alike.
  pub Run-agrees :
      {n m n' m' : Node Db} (bs : List Block)
      → IsConsistent x s n
      → IsConsistent x s m
      → Run x s n n'
      → Run x s m m'
      → m'.blocks ≡ n'.blocks ++ bs
      → (m'.world_state
          ≡ record (replay_from x n'.world_state bs) { faucet_last = m'.world_state.faucet_last })
        × (bs ≡ []
            → (address : Text)
            → get_balance x m'.world_state address ≡ get_balance x n'.world_state address)
  unfolding replay get_balance balance nonce
  Run-agrees {n} {m} {n'} {m'} bs fit fit' r r' longer =
      let f = m'.world_state.faucet_last in
      let g = n'.world_state.faucet_last in
      let mine = (Run-IsConsistent x s r' fit').replayed in
      let theirs = (Run-IsConsistent x s r fit).replayed in
      let state : m'.world_state ≡ record (replay_from x n'.world_state bs) { faucet_last = f } =
        mine
        ∙ ap (λ l. record (replay x l) { faucet_last = f }) longer
        ∙ ap (λ (w : WorldState). record w { faucet_last = f })
            (replay_from-append State.new n'.blocks bs)
        ∙ ap (λ (w : WorldState). record w { faucet_last = f })
            (sym (replay_from-with_cooldowns (replay x n'.blocks) g bs))
        ∙ ap (λ (w : WorldState). record (replay_from x w bs) { faucet_last = f }) (sym theirs) in
      (
        state,
        λ none_more address.
            let same : m'.world_state ≡ record n'.world_state { faucet_last = f } =
              state
              ∙ ap (λ l. record (replay_from x n'.world_state l) { faucet_last = f }) none_more in
            ap (λ w. get_balance x w address) same,
      )
