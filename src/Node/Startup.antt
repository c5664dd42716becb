-- ===== src/Node/Startup.antt =====
-- The start of a node: what `main` of src/main.rs reads from the database and builds from it.
use vela_network.Common.{
  ℕ, suc, ◌+◌, Option, none, some, List, [], ◌∷◌, last?, Bytes, add64, replicate, get_elem?, ◌>>=◌,
}
use vela_network.Types.{Crates, Block, Validator, genesis, address_of_key}
use vela_network.State.{WorldState, apply_block}
use vela_network.State
use vela_network.Consensus.{new_config, new_node}
use vela_network.Storage.{Sled, save_block, load_all_blocks}
use vela_network.Node.Defs.{Node}

-- `seed[0] = i as u8 + 1`
abbrev pub validator_seed : ℕ → Bytes
validator_seed i = (i + 1) ∷ replicate 31 0

abbrev pub validator_keys : List Bytes
validator_keys = validator_seed 0 ∷ validator_seed 1 ∷ validator_seed 2 ∷ []

module _ (x : Crates) where
  unfoldable pub validators_from : ℕ → List Bytes → List Validator
  unfolding address_of_key
  validators_from i [] = []
  validators_from i (key ∷ keys) =
      record { address = address_of_key x key; stake = 1000; index = i }
      ∷ validators_from (suc i) keys

  -- the loop that applies the loaded blocks
  unfoldable pub replay_from : WorldState → List Block → WorldState
  unfolding apply_block
  replay_from ws [] = ws
  replay_from ws (b ∷ bs) = replay_from (apply_block x ws b) bs

  unfoldable pub replay : List Block → WorldState
  unfolding replay_from State.new
  replay = replay_from State.new

  module _ {Db Val : Type 0} (s : Sled Db Val) where
    -- The database and its blocks; a fresh one is given the genesis block. `none` is an error that
    -- ends `main`.
    unfoldable pub with_genesis : Db → List Block → Option (Db × List Block)
    unfolding save_block genesis
    with_genesis db [] = do db' ← save_block s db genesis; some (db', genesis ∷ [])
    with_genesis db (b ∷ bs) = some (db, b ∷ bs)

    -- `state_prod.blocks…last().map(|b| b.header.round + 1).unwrap_or(1)`
    unfoldable pub first_round : List Block → ℕ
    first_round blocks = elim (last? blocks) [ none ↦ 1 | some b ↦ add64 b.header.round 1 ]

    -- The state that the tasks of `main` share at first.
    unfoldable pub boot : Bytes → Db → List Block → Node Db
    unfolding first_round replay validators_from new_config new_node
    boot key db blocks = record {
      blocks = blocks;
      mempool = [];
      world_state = replay blocks;
      hotstuff =
          new_node (address_of_key x key) key (new_config (validators_from 0 validator_keys));
      db = db;
      outbox = [];
      round = first_round blocks;
    }

    -- `none` is an error of the database, or the panic at an index without a key.
    unfoldable pub start : ℕ → Db → Option (Node Db)
    unfolding with_genesis boot load_all_blocks
    start validator_index db = do
      key ← get_elem? validator_keys validator_index
      loaded ← load_all_blocks s db
      (db', blocks) ← with_genesis db loaded
      some (boot key db' blocks)
