-- ===== src/Node/Consistency.antt =====
-- The chain of a node and its world state through every run of src/main.rs: heights that follow one
-- another, and balances that are those of the chain.
use mathlib.Core.Path.{subst}
use mathlib.Core.Option.{some-injective}
use vela_network.Common.{
  ℕ, ◌≡◌, refl, ap, sym, some, Bytes, get_elem?, ◌∙◌, some_pair-injective, List, [], ◌∷◌, ◌⊎◌, inl,
  inr, add64, >>=-eq-some,
}
use vela_network.Types.{Crates, Block, genesis}
use vela_network.State
use vela_network.State.{WorldState}
use vela_network.Storage.{Sled, load_all_blocks, save_block}
use vela_network.Node.Defs.{Node, tip_height, append_block}
use vela_network.Node.Chain.{IsChain, IsChain-push, apply_block_agrees, replay_from-push}
use vela_network.Node.Startup.{replay, boot, start, with_genesis, validator_keys}
use vela_network.Node.Steps.{Keeps, Run, Run_inv}

module _ {Db Val : Type 0} (x : Crates) (s : Sled Db Val) where
  -- The heights follow one another, and the world state is what executing the chain gives, but for
  -- the faucet's cooldowns, which no block holds.
  pub record IsConsistent (n : Node Db) : Type 0 where
    pub chain : IsChain n.blocks
    pub replayed :
        n.world_state ≡ record (replay x n.blocks) { faucet_last = n.world_state.faucet_last }

  pub Keeps-IsConsistent : (n n' : Node Db) → Keeps x s n n' → IsConsistent n → IsConsistent n'
  Keeps-IsConsistent n n' k h = record {
    chain = rw k.blocks h.chain;
    replayed = rw k.blocks (
        k.world_state
        ∙ ap (λ (w : WorldState). record w { faucet_last = n'.world_state.faucet_last })
            h.replayed);
  }

  pub append_block-IsConsistent :
      (n : Node Db) (b : Block)
      → b.header.height ≡ add64 (tip_height n.blocks) 1
      → IsConsistent n
      → IsConsistent (append_block x s n b)
  unfolding append_block replay
  append_block-IsConsistent n b e h = record {
    chain = IsChain-push n.blocks b h.chain e;
    replayed =
        rw (replay_from-push x State.new n.blocks b)
          (apply_block_agrees x n.world_state (replay x n.blocks) b h.replayed);
  }

  -- Through every run of a consistent node - messages from peers, in any order and with any
  -- contents, requests to the RPC server, and rounds of block production - the heights of the
  -- chain follow one another from 0, as u64, and the world state is what executing the blocks of
  -- the chain from an empty state gives, but for the faucet's cooldowns.
  pub Run-IsConsistent : {n n' : Node Db} → Run x s n n' → IsConsistent n → IsConsistent n'
  Run-IsConsistent r = Run_inv x s IsConsistent Keeps-IsConsistent append_block-IsConsistent r

  -- What a start that succeeds has read and made.
  pub start_parts :
      (validator_index : ℕ) (db : Db) {n : Node Db}
      → start x s validator_index db ≡ some n
      → (key : Bytes) × (loaded : List Block) × (db' : Db) × (bs : List Block) × (get_elem?
            validator_keys validator_index
          ≡ some key)
        × (load_all_blocks s db ≡ some loaded)
        × (with_genesis x s db loaded ≡ some (db', bs))
        × (boot x s key db' bs ≡ n)
  unfolding start
  start_parts validator_index db e =
      let (key, k, e₁) = >>=-eq-some (get_elem? validator_keys validator_index) _ e in
      let (loaded, l, e₂) = >>=-eq-some (load_all_blocks s db) _ e₁ in
      let ((db', bs), g, e₃) = >>=-eq-some (with_genesis x s db loaded) _ e₂ in
      (key, loaded, db', bs, k, l, g, some-injective _ _ e₃)

  -- A database without blocks is given the genesis block.
  pub with_genesis_nil :
      (db : Db) {db' : Db} {bs : List Block}
      → with_genesis x s db [] ≡ some (db', bs)
      → (save_block s db genesis ≡ some db') × (bs ≡ genesis ∷ [])
  unfolding with_genesis
  with_genesis_nil db e =
      let (d, saved, e₁) = >>=-eq-some (save_block s db genesis) _ e in
      let (same_db, same_blocks) = some_pair-injective e₁ in (rw same_db saved, same_blocks)

  with_genesis-IsChain :
      (db : Db) (loaded : List Block) {db' : Db} {bs : List Block}
      → (loaded ≡ []) ⊎ IsChain loaded
      → with_genesis x s db loaded ≡ some (db', bs)
      → IsChain bs
  unfolding with_genesis genesis
  with_genesis-IsChain db [] h e = rw (with_genesis_nil db e).1 (refl, tt)
  with_genesis-IsChain db (b ∷ bs) (inl h) e = cc
  with_genesis-IsChain db (b ∷ bs) (inr h) e = rw (some_pair-injective e).1 h

  -- A node that succeeds to start on a database without blocks, or on one from which a chain is
  -- loaded, is consistent.
  pub start-IsConsistent :
      (validator_index : ℕ) (db : Db) (loaded : List Block) {n : Node Db}
      → load_all_blocks s db ≡ some loaded
      → (loaded ≡ []) ⊎ IsChain loaded
      → start x s validator_index db ≡ some n
      → IsConsistent n
  unfolding boot
  start-IsConsistent validator_index db loaded l h e =
      let (key, loaded', db', bs, k, l', g, booted) = start_parts validator_index db e in
      let same : loaded ≡ loaded' = some-injective _ _ (sym l ∙ l') in
      let chain : IsChain bs = with_genesis-IsChain db loaded' (rw (← same) h) g in
      subst IsConsistent booted (record { chain = chain; replayed = refl })
