-- ===== src/Consensus/Liveness.antt =====
-- What it takes for a consensus node to commit its pending block (src/consensus/hotstuff.rs).
use vela_network.Consensus.Config.{quorum_size}
use vela_network.Consensus.Node.{
  prepare, pre_commit, commit, decide, HotStuffNode, form_qc, commit_block,
}
use vela_network.Consensus.Handlers.{
  handle_vote, count_vote, count_prepare, count_precommit, count_commit,
}
use vela_network.Common.{◌≡◌, refl, ap, ◌∙◌, none, some, List, [], ◌++◌, arith, push}
use vela_network.Common.Dict.{Dict}
use vela_network.Types.{Crates, Vote, QuorumCert, Block}
use vela_network.Consensus.Filing.{handle_all, handle_all-append, IsQuorum, Files, quorum-finish}

module _ (x : Crates) (order : List Vote → List Vote) where
  finish_prepare : HotStuffNode → Dict Vote → HotStuffNode
  finish_prepare n m = record n {
    prepare_votes = m;
    high_qc = some (form_qc order (record n { prepare_votes = m }) prepare);
    phase = pre_commit;
  }

  finish_precommit : HotStuffNode → Dict Vote → HotStuffNode
  finish_precommit n m = record n {
    precommit_votes = m;
    locked_qc = some (form_qc order (record n { precommit_votes = m }) pre_commit);
    phase = commit;
  }

  finish_commit : HotStuffNode → Dict Vote → HotStuffNode
  finish_commit n m =
      commit_block (record n { commit_votes = m; phase = decide })
        (form_qc order (record n { commit_votes = m }) commit)

  prepare-Files :
      Files x order prepare
        (λ n. n.prepare_votes)
        (λ n m. record n { prepare_votes = m })
        finish_prepare
  unfolding handle_vote count_vote count_prepare finish_prepare form_qc
  prepare-Files = record {
    kept = λ n m. refl;
    phase = λ n m. refl;
    config = λ n m. refl;
    again = λ n m m'. refl;
    below = λ n v at_p ok few. ground (arith, at_p, ok, few);
    reached = λ n v at_p ok enough. ground (arith, at_p, ok, enough);
  }

  precommit-Files :
      Files x order pre_commit
        (λ n. n.precommit_votes)
        (λ n m. record n { precommit_votes = m })
        finish_precommit
  unfolding handle_vote count_vote count_precommit finish_precommit form_qc
  precommit-Files = record {
    kept = λ n m. refl;
    phase = λ n m. refl;
    config = λ n m. refl;
    again = λ n m m'. refl;
    below = λ n v at_p ok few. ground (arith, at_p, ok, few);
    reached = λ n v at_p ok enough. ground (arith, at_p, ok, enough);
  }

  commit-Files :
      Files x order commit
        (λ n. n.commit_votes)
        (λ n m. record n { commit_votes = m })
        finish_commit
  unfolding handle_vote count_vote count_commit finish_commit form_qc
  commit-Files = record {
    kept = λ n m. refl;
    phase = λ n m. refl;
    config = λ n m. refl;
    again = λ n m m'. refl;
    below = λ n v at_p ok few. ground (arith, at_p, ok, few);
    reached = λ n v at_p ok enough. ground (arith, at_p, ok, enough);
  }

  finish_commit-commits :
      (n : HotStuffNode) (m : Dict Vote) (b : Block)
      → n.pending_block ≡ some b
      → ((finish_commit n m).committed_blocks
          ≡ push n.committed_blocks
              (record b { qc = some (form_qc order (record n { commit_votes = m }) commit) }))
        × ((finish_commit n m).phase ≡ decide)
        × ((finish_commit n m).locked_qc ≡ n.locked_qc)
        × ((finish_commit n m).pending_block ≡ none)
  unfolding finish_commit commit_block
  finish_commit-commits n m b e = (ground arith, ground arith, ground arith, ground arith)

  -- Let a node be in the prepare phase, with a pending block and no votes. After a quorum of votes,
  -- and a second one, and a third - each of votes that verify, by voters that differ - it has
  -- committed the pending block, with a certificate of its round, is locked, and has decided.
  pub handle_all-commits :
      (n : HotStuffNode) (b : Block) (us vs ws : List Vote)
      → n.phase ≡ prepare
      → n.pending_block ≡ some b
      → n.prepare_votes ≡ []
      → n.precommit_votes ≡ []
      → n.commit_votes ≡ []
      → IsQuorum x order (quorum_size n.config) us
      → IsQuorum x order (quorum_size n.config) vs
      → IsQuorum x order (quorum_size n.config) ws
      → let n' = handle_all x order n (us ++ (vs ++ ws)) in
        (qc lock : QuorumCert) × (n'.committed_blocks
          ≡ push n.committed_blocks (record b { qc = some qc }))
        × (n'.phase ≡ decide)
        × (n'.locked_qc ≡ some lock)
        × (n'.pending_block ≡ none)
        × (qc.round ≡ n.round)
        × (lock.round ≡ n.round)
  unfolding finish_prepare finish_precommit form_qc
  handle_all-commits n b us vs ws at_p pending i j k q r t =
      let (m, e) = quorum-finish x order prepare _ _ _ prepare-Files n us at_p i q in
      let n₁ = finish_prepare n m in
      let (m', e') = quorum-finish x order pre_commit _ _ _ precommit-Files n₁ vs refl j r in
      let n₂ = finish_precommit n₁ m' in
      let (m'', e'') = quorum-finish x order commit _ _ _ commit-Files n₂ ws refl k t in
      let end : handle_all x order n (us ++ (vs ++ ws)) ≡ finish_commit n₂ m'' =
        handle_all-append x order n us (vs ++ ws)
        ∙ ap (λ a. handle_all x order a (vs ++ ws)) e
        ∙ handle_all-append x order n₁ vs ws
        ∙ ap (λ a. handle_all x order a ws) e'
        ∙ e'' in
      let (grown, done, locked, none_left) = finish_commit-commits n₂ m'' b pending in
      (
        form_qc order (record n₂ { commit_votes = m'' }) commit,
        form_qc order (record n₁ { precommit_votes = m' }) pre_commit,
        ap (λ (a : HotStuffNode). a.committed_blocks) end ∙ grown,
        ap (λ (a : HotStuffNode). a.phase) end ∙ done,
        ap (λ (a : HotStuffNode). a.locked_qc) end ∙ locked,
        ap (λ (a : HotStuffNode). a.pending_block) end ∙ none_left,
        refl,
        refl,
      )
