-- ===== src/Node/Sync.antt =====
-- Catching up: a node that holds the first part of a peer's chain asks for the rest and appends it
-- (`SyncRequest` and `SyncResponse` in src/main.rs).
use mathlib.Core.Path.{subst}
use mathlib.Core.List.{append_assoc, append-nil}
use mathlib.Core.List.Perm
use vela_network.Node.Startup.{replay}
use vela_network.Common.{
  ℕ, ◌+◌, ◌≤◌, ◌<◌, ◌≡◌, refl, sym, ap, ◌∙◌, true, List, [], ◌∷◌, ◌++◌, push, last?-push, length,
  length-append, arith, add64, add64-exact, u64_mod, if◌then◌else◌,
}
use vela_network.Types.{Crates, Block}
use vela_network.State.{WorldState}
use vela_network.Storage.{Sled}
use vela_network.Node.Defs.{
  Node, sync_response, tip_height, blocks_above, append_block, is_next, send, on_sync_request,
  on_sync_response, receive,
}
use vela_network.Node.Chain.{HeightsFrom, IsChain}
use vela_network.Node.Steps.{here, next, receives}
use vela_network.Node.Consistency.{IsConsistent, Run-IsConsistent}
use vela_network.Node.Restart.{tip_height_of_IsChain}

HeightsFrom-append :
    (h : ℕ) (bs cs : List Block)
    → HeightsFrom h (bs ++ cs)
    → h + length bs < u64_mod
    → HeightsFrom h bs × HeightsFrom (h + length bs) cs
HeightsFrom-append h [] cs p l = (tt, subst (λ k. HeightsFrom k cs) (omega arith) p)
HeightsFrom-append h (b ∷ bs) cs p l =
    let e : add64 h 1 ≡ h + 1 = add64-exact h 1 (omega arith) in
    let (q, r) = HeightsFrom-append (add64 h 1) bs cs p.1 (omega (arith, e)) in
    ((p.0, q), subst (λ k. HeightsFrom k cs) (omega (arith, e)) r)

blocks_above_low :
    (t h : ℕ) (bs cs : List Block)
    → HeightsFrom h bs
    → h + length bs ≤ t + 1
    → t + 1 < u64_mod
    → blocks_above t (bs ++ cs) ≡ blocks_above t cs
unfolding blocks_above
blocks_above_low t h [] cs p l b = refl
blocks_above_low t h (b ∷ bs) cs p l u =
    let e : add64 h 1 ≡ h + 1 = add64-exact h 1 (omega arith) in
    let rest = blocks_above_low t (add64 h 1) bs cs p.1 (omega (arith, e)) u in ground arith

blocks_above_high :
    (t h : ℕ) (bs : List Block)
    → HeightsFrom h bs
    → t < h
    → h + length bs < u64_mod
    → blocks_above t bs ≡ bs
unfolding blocks_above
blocks_above_high t h [] p l u = refl
blocks_above_high t h (b ∷ bs) p l u =
    let e : add64 h 1 ≡ h + 1 = add64-exact h 1 (omega arith) in
    let rest = blocks_above_high t (add64 h 1) bs p.1 (omega (arith, e)) (omega (arith, e)) in
    ground arith

pub tip_height-push : (bs : List Block) (b : Block) → tip_height (push bs b) ≡ b.header.height
unfolding tip_height
tip_height-push bs b = rw (last?-push bs b, tip_height) refl

IsChain-HeightsFrom : (bs : List Block) → IsChain bs → HeightsFrom 0 bs
IsChain-HeightsFrom [] h = tt
IsChain-HeightsFrom (b ∷ bs) h = h

module _ {Db Val : Type 0} (x : Crates) (s : Sled Db Val) where
  is_next_of_eq :
      (bs : List Block) (b : Block)
      → b.header.height ≡ tip_height bs + 1
      → tip_height bs + 1 < u64_mod
      → is_next x s bs b ≡ true
  unfolding is_next
  is_next_of_eq bs b e l = ground (arith, add64-exact (tip_height bs) 1)

  on_sync_response-blocks :
      (n : Node Db) (bs : List Block)
      → HeightsFrom (tip_height n.blocks + 1) bs
      → tip_height n.blocks + 1 + length bs < u64_mod
      → (on_sync_response x s n bs).blocks ≡ n.blocks ++ bs
  unfolding on_sync_response append_block
  on_sync_response-blocks n [] p l = sym (append-nil n.blocks)
  on_sync_response-blocks n (b ∷ bs) p l =
      let hit = is_next_of_eq n.blocks b p.0 (omega arith) in
      let e : add64 (tip_height n.blocks + 1) 1 ≡ tip_height n.blocks + 1 + 1 =
        add64-exact (tip_height n.blocks + 1) 1 (omega arith) in
      let at_tip = tip_height-push n.blocks b in
      let appended : (if is_next x s n.blocks b then append_block x s n b else n)
          ≡ append_block x s n b =
        rw hit refl in
      ap (λ m. (on_sync_response x s m bs).blocks) appended
      ∙ on_sync_response-blocks (append_block x s n b) bs
          (subst (λ k. HeightsFrom k bs) (omega (arith, e, at_tip, p.0)) p.1)
          (omega (arith, at_tip, p.0, l))
      ∙ append_assoc n.blocks (b ∷ []) bs

  -- Of two consistent nodes let one hold a proper first part of its peer's chain, which is shorter
  -- than 2 ^ 64. Asked for what is above that node's tip, the peer answers with exactly the rest
  -- of its chain; and with that answer the node has the peer's chain and, but for the faucet's
  -- cooldowns, the peer's world state.
  pub on_sync_response-on_sync_request :
      (n peer : Node Db) (b : Block) (bs : List Block)
      → IsConsistent x s n
      → IsConsistent x s peer
      → peer.blocks ≡ n.blocks ++ b ∷ bs
      → length peer.blocks < u64_mod
      → let n' = on_sync_response x s n (b ∷ bs) in
        (on_sync_request x s peer (tip_height n.blocks) ≡ send x s peer (sync_response (b ∷ bs)))
        × (n'.blocks ≡ peer.blocks)
        × (n'.world_state ≡ record peer.world_state { faucet_last = n'.world_state.faucet_last })
  unfolding on_sync_request receive
  on_sync_response-on_sync_request n peer b bs h k e l =
      let tip = tip_height_of_IsChain n.blocks h.chain in
      let longer = length-append n.blocks (b ∷ bs) in
      let as_long : length peer.blocks ≡ length (n.blocks ++ b ∷ bs) = ap length e in
      let all = subst (HeightsFrom 0) e (IsChain-HeightsFrom peer.blocks k.chain) in
      let (low, high) =
        HeightsFrom-append 0 n.blocks (b ∷ bs) all (omega (arith, as_long, longer)) in
      let t = tip_height n.blocks in
      let at_tip : t + 1 ≡ length n.blocks = tip (omega (arith, as_long, longer)) in
      let rest : blocks_above t peer.blocks ≡ b ∷ bs =
        ap (blocks_above t) e
        ∙ blocks_above_low t 0 n.blocks (b ∷ bs) low (omega (arith, at_tip))
            (omega (arith, at_tip, as_long, longer))
        ∙ blocks_above_high t (0 + length n.blocks) (b ∷ bs) high (omega (arith, at_tip))
            (omega (arith, as_long, longer)) in
      let same =
        on_sync_response-blocks n (b ∷ bs)
          (subst (λ i. HeightsFrom i (b ∷ bs)) (omega (arith, at_tip)) high)
          (omega (arith, at_tip, as_long, longer))
        ∙ sym e in
      let n' = on_sync_response x s n (b ∷ bs) in
      let after =
        Run-IsConsistent x s
          (next here (receives (λ vs. vs) (sync_response (b ∷ bs)) (λ vs. Perm.refl vs) refl)) h in
      (
        rw (rest, on_sync_request) refl,
        same,
        after.replayed
            ∙ ap (λ l. record (replay x l) { faucet_last = n'.world_state.faucet_last }) same
            ∙ sym (
                ap (λ (w : WorldState). record w { faucet_last = n'.world_state.faucet_last })
                  k.replayed),
      )
