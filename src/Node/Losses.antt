-- ===== src/Node/Losses.antt =====
-- A block that could not be saved (src/main.rs drops the error): what the next start finds.
use vela_network.Common.{
  ◌+◌, ◌<◌, ◌≡◌, refl, ap, ◌∙◌, true, none, some, List, [], ◌∷◌, push, length, length-append, arith,
  add64, add64-exact, u64_mod,
}
use vela_network.Types.{Crates, Block}
use vela_network.Storage.{Sled, IsLawfulSled, save_block, load_all_blocks}
use vela_network.Storage.Loading.{IsStored, save_block-IsStored, load_all_blocks-IsStored}
use vela_network.Node.Defs.{Node, tip_height, try_save, append_block, is_next, on_sync_response}
use vela_network.Node.Chain.{IsChain}
use vela_network.Node.Steps.{is_next→eq}
use vela_network.Node.Restart.{tip_height_of_IsChain}
use vela_network.Node.Sync.{tip_height-push}

module _ {Db Val : Type 0} (x : Crates) (s : Sled Db Val) where
  -- The heights of two blocks that follow a chain.
  next_heights :
      (bs : List Block) (b c : Block)
      → IsChain bs
      → length bs + 1 < u64_mod
      → is_next x s bs b ≡ true
      → is_next x s (push bs b) c ≡ true
      → (b.header.height ≡ length bs) × (c.header.height ≡ length bs + 1)
  next_heights bs b c chain short hit hit' =
      let top = tip_height_of_IsChain bs chain (omega (arith, short)) in
      let one : b.header.height ≡ length bs =
        is_next→eq x s bs b hit ∙ add64-exact (tip_height bs) 1 (omega (arith, top, short)) ∙ top in
      let two : c.header.height ≡ add64 b.header.height 1 =
        is_next→eq x s (push bs b) c hit' ∙ ap (λ h. add64 h 1) (tip_height-push bs b) in
      (one, two ∙ add64-exact b.header.height 1 (omega (arith, one, short)) ∙ ap (λ h. h + 1) one)

  -- Let a node hold a chain that its database has too, and receive the next two blocks from a peer,
  -- of which the first cannot be saved and the second can. The node goes on with both; but what its
  -- next start loads is the chain with the second block alone put after it, which is no chain.
  pub load_all_blocks-on_sync_response :
      IsLawfulSled s
      → (n : Node Db) (b c : Block) (db' : Db) → IsChain n.blocks
      → IsStored s n.db n.blocks (length n.blocks)
      → length n.blocks + 2 < u64_mod
      → is_next x s n.blocks b ≡ true
      → is_next x s (push n.blocks b) c ≡ true
      → save_block s n.db b ≡ none
      → save_block s n.db c ≡ some db'
      → let n' = on_sync_response x s n (b ∷ c ∷ []) in
        (n'.blocks ≡ push (push n.blocks b) c)
        × (load_all_blocks s n'.db ≡ some (push n.blocks c))
        × (¬ IsChain (push n.blocks c))
  unfolding on_sync_response append_block
  load_all_blocks-on_sync_response laws n b c db' chain stored short hit hit' fails works =
      let bs = n.blocks in
      let (one, two) = next_heights bs b c chain (omega (arith, short)) hit hit' in
      let kept : try_save x s n.db b ≡ n.db = rw (fails, try_save) refl in
      let saved : try_save x s (try_save x s n.db b) c ≡ db' =
        rw kept (rw (works, try_save) refl) in
      let n' = append_block x s (append_block x s n b) c in
      let both : on_sync_response x s n (b ∷ c ∷ []) ≡ n' = rw (hit, hit') refl in
      let grown : length (push bs c) ≡ length bs + 1 = length-append bs (c ∷ []) in
      (
        ap (λ (m : Node Db). m.blocks) both,
        ap (λ (m : Node Db). load_all_blocks s m.db) both
            ∙ ap (load_all_blocks s) saved
            ∙ load_all_blocks-IsStored s db' (push bs c) (c.header.height + 1) (
                save_block-IsStored s laws n.db db' bs c (length bs) stored (omega (arith, two))
                  (omega (arith, two, short)) works),
        λ h.
            let top = tip_height_of_IsChain (push bs c) h (omega (arith, grown, short)) in
            omega (arith, top, tip_height-push bs c, grown, two),
      )
