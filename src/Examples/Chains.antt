-- ===== src/Examples/Chains.antt =====
-- A node that starts on an empty database, receives two blocks and is started again.
mod Systems
mod Outcomes
mod Losses
mod Interleaved
mod Following
use mathlib.Core.List.Perm
use vela_network.Examples.Setup.{crates, sled, sled-IsLawful}
use vela_network.Common.{
  ◌≡◌, refl, some, inl, List, [], ◌∷◌, push, length, Bytes, arith, u64_mod, ◌<◌, add64,
}
use vela_network.Types.{Vote, Block, genesis}
use vela_network.Storage.{save_block, load_all_blocks, decode_all, sort_by_height, to_be_bytes}
use vela_network.Node.{
  Node, new_block_msg, sync_response, receive, on_new_block, on_sync_response, append_block,
  is_next, tip_height,
}
use vela_network.Node.{boot, start, with_genesis, validator_seed}
use vela_network.Node.Steps.{Run, here, next, receives}
use vela_network.Node.Consistency.{IsConsistent, Run-IsConsistent, start-IsConsistent}
use vela_network.Node.Restart.{start_again}
use vela_network.Node.Sync.{on_sync_response-on_sync_request}
use vela_network.Node.Production.{lead_round_lem}
use vela_network.State.{apply_block}
use vela_network.Types.{merkle_root, block_hash}
use vela_network.Node.{send, consensus_propose, lead_round, on_sync_request}
use vela_network.Common.{last?, take, ◌++◌}

abbrev pub as_given : List Vote → List Vote
as_given vs = vs

abbrev pub first : Block
first = record genesis { header = record genesis.header { height = 1 } }

abbrev pub second : Block
second = record genesis { header = record genesis.header { height = 2 } }

abbrev pub empty_db : List (Bytes × Block)
empty_db = []

abbrev pub started : Node (List (Bytes × Block))
unfolding to_be_bytes genesis
started = boot crates sled (validator_seed 1) ((to_be_bytes 0, genesis) ∷ []) (genesis ∷ [])

pub starts : start crates sled 1 empty_db ≡ some started
unfolding started start with_genesis load_all_blocks decode_all sort_by_height save_block
starts = refl

pub loaded : load_all_blocks sled empty_db ≡ some []
unfolding load_all_blocks decode_all sort_by_height
loaded = refl

pub started-IsConsistent : IsConsistent crates sled started
started-IsConsistent = start-IsConsistent crates sled 1 empty_db [] loaded (inl refl) starts

-- The second block comes too early at first, and then both in the answer to a request.
abbrev pub after_sync : Node (List (Bytes × Block))
after_sync =
    receive crates sled as_given (receive crates sled as_given started (new_block_msg second))
      (sync_response (first ∷ second ∷ []))

pub run : Run crates sled started after_sync
run =
    next (next here (receives as_given (new_block_msg second) (λ vs. Perm.refl vs) refl))
      (receives as_given (sync_response (first ∷ second ∷ [])) (λ vs. Perm.refl vs) refl)

run_test : after_sync.blocks ≡ genesis ∷ first ∷ second ∷ []
unfolding receive on_new_block on_sync_response append_block is_next tip_height started boot genesis
    add64
run_test = refl

after_sync-IsConsistent : IsConsistent crates sled after_sync
after_sync-IsConsistent = Run-IsConsistent crates sled run started-IsConsistent

is_short : length after_sync.blocks < u64_mod
is_short = rw run_test (omega arith)

start_again_example :
    (m : Node (List (Bytes × Block))) × (start crates sled 1 after_sync.db ≡ some m)
    × (m.blocks ≡ after_sync.blocks)
    × (after_sync.world_state
        ≡ record m.world_state { faucet_last = after_sync.world_state.faucet_last })
    × (m.world_state.faucet_last ≡ [])
start_again_example =
    start_again crates sled sled-IsLawful
      (λ db b. (push db (to_be_bytes b.header.height, b), unfold save_block in refl)) 1 empty_db
      refl starts run is_short

pub grown : after_sync.blocks ≡ started.blocks ++ first ∷ second ∷ []
unfolding started boot genesis
grown = run_test

lead_round_lem_example :
    (tip : Block) × (b : Block) × (n' : Node (List (Bytes × Block))) × (last? started.blocks
      ≡ some tip)
    × (lead_round crates sled 12 started ≡ some n')
    × (n'.blocks ≡ push started.blocks b)
    × (b.header.parent_hash ≡ block_hash crates tip)
    × (b.header.height ≡ add64 tip.header.height 1)
    × (b.transactions ≡ take 100 started.mempool)
    × (merkle_root crates b.transactions ≡ some b.header.tx_root)
    × (n'.world_state ≡ apply_block crates started.world_state b)
    × (n'.outbox ≡ push (push started.outbox (consensus_propose b)) (new_block_msg b))
    × (n'.mempool ≡ [])
lead_round_lem_example = lead_round_lem crates sled 12 started started-IsConsistent.chain

on_sync_response-on_sync_request_example :
    let n' = on_sync_response crates sled started (first ∷ second ∷ []) in
    (on_sync_request crates sled after_sync (tip_height started.blocks)
      ≡ send crates sled after_sync (sync_response (first ∷ second ∷ [])))
    × (n'.blocks ≡ after_sync.blocks)
    × (n'.world_state ≡ record after_sync.world_state { faucet_last = n'.world_state.faucet_last })
on_sync_response-on_sync_request_example =
    on_sync_response-on_sync_request crates sled started after_sync first (second ∷ [])
      started-IsConsistent after_sync-IsConsistent grown is_short
