-- ===== src/Node/Forks.antt =====
-- A node of src/main.rs only ever appends to its chain: blocks are never taken back.
use mathlib.Core.List.{append_assoc, append-nil}
use mathlib.Core.Option.{some-injective}
use vela_network.Common.{
  ℕ, ◌≡◌, ◌≢◌, refl, sym, ap, ◌∙◌, some, List, [], ◌∷◌, ◌++◌, push, length, get_elem?, last?, take,
  >>=-eq-some,
}
use vela_network.Types.{Crates, Block, merkle_root}
use vela_network.Storage.{Sled}
use vela_network.Node.Defs.{Node, append_block, send, release, next_block, lead_round}
use vela_network.Node.Steps.{Run, Run_inv}

get_elem?-push-append :
    (l : List Block) (b : Block) (bs : List Block) → get_elem? (push l b ++ bs) (length l) ≡ some b
get_elem?-push-append [] b bs = refl
get_elem?-push-append (c ∷ l) b bs = get_elem?-push-append l b bs

module _ {Db Val : Type 0} (x : Crates) (s : Sled Db Val) where
  -- The chain of `n'` continues that of `n`.
  abbrev Extends : Node Db → Node Db → Type 0
  Extends n n' = (bs : List Block) × (n'.blocks ≡ n.blocks ++ bs)

  Run-Extends : {n n' : Node Db} → Run x s n n' → Extends n n'
  unfolding append_block
  Run-Extends {n} r =
      Run_inv x s (Extends n) (λ m k keeps h. (h.0, keeps.blocks ∙ h.1))
        (λ m b e h. (push h.0 b, ap (λ l. push l b) h.1 ∙ append_assoc n.blocks h.0 (b ∷ []))) r
        ([], sym (append-nil n.blocks))

  lead_round_block :
      (now : ℕ) (n : Node Db) {n' : Node Db}
      → lead_round x s now n ≡ some n'
      → (b : Block) × (n'.blocks ≡ push n.blocks b) × (b.header.timestamp ≡ now)
  unfolding lead_round release next_block append_block send
  lead_round_block now n e =
      let (tip, t, e₁) = >>=-eq-some (last? n.blocks) _ e in
      let (root, r, e₂) = >>=-eq-some (merkle_root x (take 100 n.mempool)) _ e₁ in
      (
        next_block x s now n.round tip (take 100 n.mempool) root,
        ap (λ (m : Node Db). m.blocks) (sym (some-injective _ _ e₂)),
        refl,
      )

  -- Two nodes with one chain each lead a round, at different times, before they hear of the other's
  -- block. Whatever both receive from then on, in any runs, their chains never agree again.
  pub lead_round-forks :
      (now now' : ℕ) (n m : Node Db) {n' m' n'' m'' : Node Db}
      → m.blocks ≡ n.blocks
      → now ≢ now'
      → lead_round x s now n ≡ some n'
      → lead_round x s now' m ≡ some m'
      → Run x s n' n''
      → Run x s m' m''
      → n''.blocks ≢ m''.blocks
  lead_round-forks now now' n m same differ led led' r r' agree =
      let (b, grown, at) = lead_round_block now n led in
      let (c, grown', at') = lead_round_block now' m led' in
      let (bs, more) = Run-Extends r in
      let (cs, more') = Run-Extends r' in
      let here : push n.blocks b ++ bs ≡ push n.blocks c ++ cs =
        sym (ap (λ l. l ++ bs) grown)
        ∙ sym more
        ∙ agree
        ∙ more'
        ∙ ap (λ l. l ++ cs) (grown' ∙ ap (λ l. push l c) same) in
      let one : b ≡ c = some-injective _ _ (
        sym (get_elem?-push-append n.blocks b bs)
        ∙ ap (λ l. get_elem? l (length n.blocks)) here
        ∙ get_elem?-push-append n.blocks c cs) in
      differ (sym at ∙ ap (λ (d : Block). d.header.timestamp) one ∙ at')
