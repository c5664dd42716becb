-- ===== src/Node/Restart.antt =====
-- A node that is stopped and started again on its database (src/main.rs, src/storage/db.rs) has the
-- chain and the balances that it had.
use mathlib.Core.Path.{subst}
use mathlib.Core.Option.{some-injective}
use vela_network.Common.{
  ℕ, ◌+◌, ◌≤◌, ◌<◌, ◌≡◌, refl, sym, ◌∙◌, some, inl, Bytes, get_elem?, List, [], ◌∷◌, push, length,
  length-append, add64, add64-exact, arith, u64_mod,
}
use vela_network.Types.{Crates, Block, genesis}
use vela_network.State
use vela_network.State.{WorldState}
use vela_network.Storage.{Sled, IsLawfulSled, save_block, load_all_blocks, decode_all}
use vela_network.Storage.Loading.{IsStored, save_block-IsStored, load_all_blocks-IsStored}
use vela_network.Node.Defs.{Node, tip_height, append_block, try_save}
use vela_network.Node.Chain.{HeightsFrom, IsChain, IsChain-push, faucet_last-replay_from}
use vela_network.Node.Startup.{replay, start, with_genesis, boot, validator_keys}
use vela_network.Node.Steps.{Keeps, Run, Run_inv}
use vela_network.Node.Consistency.{
  Run-IsConsistent, start-IsConsistent, start_parts, with_genesis_nil,
}

tip_height_of_HeightsFrom :
    (h : ℕ) (b : Block) (bs : List Block)
    → HeightsFrom h (b ∷ bs)
    → h + length (b ∷ bs) ≤ u64_mod
    → tip_height (b ∷ bs) + 1 ≡ h + length (b ∷ bs)
unfolding tip_height
tip_height_of_HeightsFrom h b [] p l = omega arith
tip_height_of_HeightsFrom h b (c ∷ bs) p l =
    let e : add64 h 1 ≡ h + 1 = add64-exact h 1 (omega arith) in
    omega (arith, tip_height_of_HeightsFrom (add64 h 1) c bs p.1 (omega (arith, e)), e)

-- In a chain shorter than 2 ^ 64 the tip's height is one less than the number of blocks.
pub tip_height_of_IsChain :
    (bs : List Block) → IsChain bs → length bs ≤ u64_mod → tip_height bs + 1 ≡ length bs
tip_height_of_IsChain [] h l = absurd h
tip_height_of_IsChain (b ∷ bs) h l = omega (arith, tip_height_of_HeightsFrom 0 b bs h (omega arith))

module _ {Db Val : Type 0} (x : Crates) (s : Sled Db Val) (laws : IsLawfulSled s)
    (saves : (db : Db) (b : Block) → (db' : Db) × (save_block s db b ≡ some db')) where
  -- The chain is on disk, as long as it is shorter than 2 ^ 64.
  abbrev IsBacked : Node Db → Type 0
  IsBacked n =
      IsChain n.blocks × (length n.blocks < u64_mod → IsStored s n.db n.blocks (length n.blocks))

  Keeps-IsBacked : (n n' : Node Db) → Keeps x s n n' → IsBacked n → IsBacked n'
  Keeps-IsBacked n n' k h = rw (k.blocks, k.db) h

  append_block-IsBacked :
      (n : Node Db) (b : Block)
      → b.header.height ≡ add64 (tip_height n.blocks) 1
      → IsBacked n
      → IsBacked (append_block x s n b)
  unfolding append_block try_save
  append_block-IsBacked n b e h = (
    IsChain-push n.blocks b h.0 e,
    λ short.
        let (db', saved) = saves n.db b in
        let longer = length-append n.blocks (b ∷ []) in
        let stored = h.1 (omega (arith, short, longer)) in
        let tip = tip_height_of_IsChain n.blocks h.0 (omega (arith, short, longer)) in
        let height : b.header.height ≡ length n.blocks =
          e ∙ add64-exact (tip_height n.blocks) 1 (omega (arith, tip, short, longer)) ∙ tip in
        rw (saved, try_save)
          (subst (IsStored s db' (push n.blocks b)) (omega (arith, height, longer)) (
            save_block-IsStored s laws n.db db' n.blocks b (length n.blocks) stored
              (omega (arith, height)) (omega (arith, height, short, longer)) saved)),
  )

  with_genesis_of_IsChain :
      (db : Db) (bs : List Block) → IsChain bs → with_genesis x s db bs ≡ some (db, bs)
  unfolding with_genesis
  with_genesis_of_IsChain db [] h = absurd h
  with_genesis_of_IsChain db (b ∷ bs) h = refl

  -- A node that started on an empty database, after any run.
  module _ (validator_index : ℕ) (empty_db : Db) (empty : s.iter empty_db ≡ some [])
      {n n' : Node Db} (started : start x s validator_index empty_db ≡ some n) (run : Run x s n n')
      (short : length n'.blocks < u64_mod) where
    empty-IsStored : IsStored s empty_db [] 0
    unfolding decode_all
    empty-IsStored = record {
      entries = [];
      listed = empty;
      decoded = refl;
      keyed = tt;
      rising = tt;
      under = tt;
    }

    loaded_empty : load_all_blocks s empty_db ≡ some []
    loaded_empty = load_all_blocks-IsStored s empty_db [] 0 empty-IsStored

    started_with :
        (key : Bytes) × (get_elem? validator_keys validator_index ≡ some key) × IsBacked n
    unfolding boot genesis
    started_with =
        let (key, loaded, db', bs, k, l, g, booted) =
          start_parts x s validator_index empty_db started in
        let none_loaded : loaded ≡ [] = some-injective _ _ (sym l ∙ loaded_empty) in
        let (saved, first) = with_genesis_nil x s empty_db (rw none_loaded at g) in
        let stored =
          save_block-IsStored s laws empty_db db' [] genesis 0 empty-IsStored (omega arith)
            (omega arith) saved in
        (key, k, subst IsBacked booted (rw first ((refl, tt), λ _. stored)))

    -- A node starts on an empty database and runs until its chain is any length below 2 ^ 64, on a
    -- database in which every save succeeds. Starting again on the database that the run left
    -- gives the chain that the run left, and the balances, nonces, supply and count of
    -- transactions; the faucet's cooldowns are lost.
    pub start_again :
        (m : Node Db) × (start x s validator_index n'.db ≡ some m)
        × (m.blocks ≡ n'.blocks)
        × (n'.world_state ≡ record m.world_state { faucet_last = n'.world_state.faucet_last })
        × (m.world_state.faucet_last ≡ [])
    unfolding start boot replay State.new
    start_again =
        let (key, k, backed) = started_with in
        let at_end = Run_inv x s IsBacked Keeps-IsBacked append_block-IsBacked run backed in
        let consistent =
          Run-IsConsistent x s run
            (start-IsConsistent x s validator_index empty_db [] loaded_empty (inl refl) started) in
        (
          boot x s key n'.db n'.blocks,
          rw
              (
                k,
                load_all_blocks-IsStored s n'.db n'.blocks (length n'.blocks) (at_end.1 short),
                with_genesis_of_IsChain n'.db n'.blocks at_end.0,
              )
              refl,
          refl,
          consistent.replayed,
          faucet_last-replay_from x State.new n'.blocks,
        )
