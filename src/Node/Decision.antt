-- ===== src/Node/Decision.antt =====
-- What it takes for the engine of a node of the testnet (src/main.rs, src/consensus/hotstuff.rs) to
-- commit a block.
use mathlib.Core.Path.{subst}
use vela_network.Common.{ℕ, ◌≡◌, refl, sym, ap, ◌∙◌, true, none, some, List, [], ◌∷◌, Bytes}
use vela_network.Common.Dict.{insert}
use vela_network.Types.{
  Crates, Address, Vote, Block, QuorumCert, genesis, verify_vote, address_of_key,
}
use vela_network.Consensus.{
  HotStuffNode, decide, new_node, handle_vote, handle_propose, count_vote, count_prepare,
  count_precommit, count_commit, commit_block, form_qc, votes_of, extends_lock, new_config,
  quorum_size,
}
use vela_network.Storage.{Sled}
use vela_network.Node.Defs.{Node, NetworkMessage, consensus_vote, consensus_propose, receive}
use vela_network.Node.Startup.{start, boot, validators_from, validator_keys}
use vela_network.Node.Consistency.{start_parts}
use vela_network.Node.Engine.{on_vote-hotstuff, on_propose-hotstuff}

module _ (x : Crates) (order : List Vote → List Vote) where
  -- The engine with the validators of `main`.
  abbrev pub testnet_engine : Address → Bytes → HotStuffNode
  testnet_engine a key = new_node a key (new_config (validators_from x 0 validator_keys))

  -- A proposal and three votes, one after the other.
  abbrev pub four_calls : HotStuffNode → Block → Vote → Vote → Vote → HotStuffNode
  four_calls h b u v w =
      (handle_vote x order
        (handle_vote x order (handle_vote x order (handle_propose x h b none).0 u).0 v).0 w).0

  -- The engine has decided `b`, on the certificate of the vote `w` alone.
  pub record Decided (h : HotStuffNode) (b : Block) (w : Vote) : Type 0 where
    pub phase : h.phase ≡ decide
    pub certificate : QuorumCert
    pub votes : certificate.votes ≡ order (w ∷ [])
    pub committed : h.committed_blocks ≡ genesis ∷ record b { qc = some certificate } ∷ []

  counts : HotStuffNode → Vote → HotStuffNode
  counts h v = (count_vote x order h.phase h v).0

  -- A vote that verifies is counted.
  handle_vote-counts :
      (h : HotStuffNode) (v : Vote)
      → verify_vote x v ≡ true
      → (handle_vote x order h v).0 ≡ counts h v
  unfolding handle_vote counts
  handle_vote-counts h v e = rw e refl

  counts-Decided :
      (a : Address) (key : Bytes) (b : Block) (u v w : Vote)
      → Decided
          (counts (counts (counts (handle_propose x (testnet_engine a key) b none).0 u) v) w)
          b
          w
  unfolding counts handle_propose extends_lock count_vote count_prepare count_precommit count_commit
      commit_block quorum_size new_config validators_from new_node insert form_qc votes_of
  counts-Decided a key b u v w = record {
    phase = refl;
    certificate = _;
    votes = refl;
    committed = refl;
  }

  engine-Decided :
      (a : Address) (key : Bytes) (b : Block) (u v w : Vote)
      → verify_vote x u ≡ true
      → verify_vote x v ≡ true
      → verify_vote x w ≡ true
      → Decided (four_calls (testnet_engine a key) b u v w) b w
  engine-Decided a key b u v w p q r =
      let h₁ = (handle_propose x (testnet_engine a key) b none).0 in
      let h₂ = (handle_vote x order h₁ u).0 in
      let h₃ = (handle_vote x order h₂ v).0 in
      let counted : counts (counts (counts h₁ u) v) w ≡ (handle_vote x order h₃ w).0 =
        ap (λ h. counts (counts h v) w) (sym (handle_vote-counts h₁ u p))
        ∙ ap (λ h. counts h w) (sym (handle_vote-counts h₂ v q))
        ∙ sym (handle_vote-counts h₃ w r) in
      subst (λ h. Decided h b w) counted (counts-Decided a key b u v w)

module _ {Db Val : Type 0} (x : Crates) (s : Sled Db Val) (order : List Vote → List Vote) where
  -- Messages in turn.
  abbrev pub receive_all : Node Db → List NetworkMessage → Node Db
  receive_all n [] = n
  receive_all n (m ∷ ms) = receive_all (receive x s order n m) ms

  -- A node that has started, and then receives a proposal and three votes that verify, decides the
  -- proposed block: its engine's chain is the genesis block and that block, with the last of the
  -- votes alone as its certificate. The votes may name any block and come from anyone, one voter
  -- included.
  pub receive_all-Decided :
      (validator_index : ℕ) (db : Db) {n : Node Db} (b : Block) (u v w : Vote)
      → start x s validator_index db ≡ some n
      → verify_vote x u ≡ true
      → verify_vote x v ≡ true
      → verify_vote x w ≡ true
      → Decided x order
          (receive_all n (
            consensus_propose b
            ∷ consensus_vote u
            ∷ consensus_vote v
            ∷ consensus_vote w
            ∷ [])).hotstuff
          b
          w
  unfolding receive boot
  receive_all-Decided validator_index db {n} b u v w e p q r =
      let (key, loaded, db', bs, k, l, g, booted) = start_parts x s validator_index db e in
      let fresh : testnet_engine x order (address_of_key x key) key ≡ n.hotstuff =
        ap (λ (m : Node Db). m.hotstuff) booted in
      let n₁ = receive x s order n (consensus_propose b) in
      let n₂ = receive x s order n₁ (consensus_vote u) in
      let n₃ = receive x s order n₂ (consensus_vote v) in
      let vote = λ (h : HotStuffNode) (y : Vote). (handle_vote x order h y).0 in
      let driven : four_calls x order n.hotstuff b u v w
          ≡ (receive x s order n₃ (consensus_vote w)).hotstuff =
        sym (
          on_vote-hotstuff x s order n₃ w
          ∙ ap (λ h. vote h w) (on_vote-hotstuff x s order n₂ v)
          ∙ ap (λ h. vote (vote h v) w) (on_vote-hotstuff x s order n₁ u)
          ∙ ap (λ h. vote (vote (vote h u) v) w) (on_propose-hotstuff x s n b)) in
      subst (λ h. Decided x order h b w) (ap (λ h. four_calls x order h b u v w) fresh ∙ driven)
        (engine-Decided x order (address_of_key x key) key b u v w p q r)
