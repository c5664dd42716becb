-- ===== src/Consensus/Safety.antt =====
-- The invariant of a consensus node: tallies of verified votes, and a lock and a chain that rest on
-- certificates. Proposals and new views keep it (src/consensus/hotstuff.rs).
pub mod Votes
use mathlib.Core.Path.{subst}
use vela_network.Consensus.Config.{ConsensusConfig, quorum_size}
use vela_network.Consensus.Node.{
  Phase, prepare, pre_commit, commit, decide, HotStuffNode, new_node, form_qc, votes_of,
  commit_block, advance_round,
}
use vela_network.Consensus.Handlers.{
  handle_propose, handle_vote, handle_new_view, count_vote, count_prepare, count_precommit,
  count_commit, qc_round, raise_high_qc, voter_key, extends_lock,
}
use vela_network.Consensus.Certificates.{
  IsOrder, IsTally, insert-IsTally, IsCertificate, form_qc-IsCertificate,
}
use vela_network.Common.{
  ℕ, ◌≡◌, refl, true, Option, none, some, List, [], ◌∷◌, Bytes, length, All, All-append, leb,
  leb→le, ltb, inl, inr, Bool-cases, Option-cases, push,
}
use vela_network.Common.Dict.{Dict, insert}
use vela_network.Types.{Crates, Address, Vote, QuorumCert, Block, genesis, verify_vote}

module _ (x : Crates) where
  -- The block carries a certificate.
  abbrev pub IsCertified : ConsensusConfig → Block → Type 0
  IsCertified c b = (qc : QuorumCert) × (b.qc ≡ some qc) × IsCertificate x c qc

  -- The genesis block, and then blocks that carry certificates.
  abbrev pub IsCertifiedChain : ConsensusConfig → List Block → Type 0
  IsCertifiedChain c [] = ⊥
  IsCertifiedChain c (g ∷ bs) = (g ≡ genesis) × All (IsCertified c) bs

  abbrev pub IsLock : ConsensusConfig → Option QuorumCert → Type 0
  IsLock c none = Unit {0}
  IsLock c (some qc) = IsCertificate x c qc

  pub record IsSound (c : ConsensusConfig) (n : HotStuffNode) : Type 0 where
    pub configured : n.config ≡ c
    pub prepare_tally : IsTally x n.prepare_votes
    pub precommit_tally : IsTally x n.precommit_votes
    pub commit_tally : IsTally x n.commit_votes
    pub locked : IsLock c n.locked_qc
    pub certified : IsCertifiedChain c n.committed_blocks

  pub new_node-IsSound :
      (a : Address) (key : Bytes) (c : ConsensusConfig) → IsSound c (new_node a key c)
  unfolding new_node
  new_node-IsSound a key c = record {
    configured = refl;
    prepare_tally = (tt, tt);
    precommit_tally = (tt, tt);
    commit_tally = (tt, tt);
    locked = tt;
    certified = (refl, tt);
  }

  push-IsCertifiedChain :
      (c : ConsensusConfig) (chain : List Block) (b : Block)
      → IsCertifiedChain c chain
      → IsCertified c b
      → IsCertifiedChain c (push chain b)
  push-IsCertifiedChain c [] b h k = absurd h
  push-IsCertifiedChain c (g ∷ bs) b h k = (h.0, All-append (IsCertified c) bs (b ∷ []) h.1 (k, tt))

  pub commit_block-IsSound :
      (c : ConsensusConfig) (n : HotStuffNode) (qc : QuorumCert)
      → IsSound c n
      → IsCertificate x c qc
      → IsSound c (commit_block n qc)
  unfolding commit_block
  commit_block-IsSound c n qc h k = elim (Option-cases n.pending_block) [
    | inl e ↦ rw (e, commit_block) h
    | inr (b, e) ↦
        rw (e, commit_block)
          (record {
            configured = h.configured;
            prepare_tally = (tt, tt);
            precommit_tally = (tt, tt);
            commit_tally = (tt, tt);
            locked = h.locked;
            certified =
                push-IsCertifiedChain c n.committed_blocks (record b { qc = some qc }) h.certified
                  (qc, refl, k);
          })
  ]

  advance_round-IsSound :
      (c : ConsensusConfig) (n : HotStuffNode) (round : ℕ)
      → IsSound c n
      → IsSound c (advance_round n round)
  unfolding advance_round
  advance_round-IsSound c n round h = record {
    configured = h.configured;
    prepare_tally = (tt, tt);
    precommit_tally = (tt, tt);
    commit_tally = (tt, tt);
    locked = h.locked;
    certified = h.certified;
  }

  -- What only sets the pending block, the phase or the highest certificate keeps the invariant.
  pub IsSound-same :
      (c : ConsensusConfig) (n : HotStuffNode) (p : Phase) (b : Option Block)
      (q : Option QuorumCert)
      → IsSound c n
      → IsSound c (record n { phase = p; pending_block = b; high_qc = q })
  IsSound-same c n p b q h = record {
    configured = h.configured;
    prepare_tally = h.prepare_tally;
    precommit_tally = h.precommit_tally;
    commit_tally = h.commit_tally;
    locked = h.locked;
    certified = h.certified;
  }

  -- So does what files tallies of verified votes.
  pub IsSound-tallies :
      (c : ConsensusConfig) (n : HotStuffNode) (p q r : Dict Vote)
      → IsSound c n
      → IsTally x p
      → IsTally x q
      → IsTally x r
      → IsSound c (record n { prepare_votes = p; precommit_votes = q; commit_votes = r })
  IsSound-tallies c n p q r h t u v = record {
    configured = h.configured;
    prepare_tally = t;
    precommit_tally = u;
    commit_tally = v;
    locked = h.locked;
    certified = h.certified;
  }

  pub handle_propose-IsSound :
      (c : ConsensusConfig) (n : HotStuffNode) (b : Block) (q : Option QuorumCert)
      → IsSound c n
      → IsSound c (handle_propose x n b q).0
  unfolding handle_propose
  handle_propose-IsSound c n b q h = elim (Bool-cases (extends_lock x n.locked_qc b)) [
    | inl e ↦ rw e (IsSound-same c n n.phase (some b) n.high_qc h)
    | inr e ↦ rw e h
  ]

  raise_high_qc-IsSound :
      (c : ConsensusConfig) (n : HotStuffNode) (qc : QuorumCert)
      → IsSound c n
      → IsSound c (raise_high_qc x n qc)
  unfolding raise_high_qc
  raise_high_qc-IsSound c n qc h = elim (Bool-cases (leb (qc_round n.high_qc) qc.round)) [
    | inl e ↦ rw e (IsSound-same c n n.phase n.pending_block (some qc) h)
    | inr e ↦ rw e h
  ]

  pub handle_new_view-IsSound :
      (c : ConsensusConfig) (n : HotStuffNode) (round : ℕ) (qc : QuorumCert)
      → IsSound c n
      → IsSound c (handle_new_view x n round qc).0
  unfolding handle_new_view
  handle_new_view-IsSound c n round qc h =
      let n' = raise_high_qc x n qc in
      let h' = raise_high_qc-IsSound c n qc h in
      elim (Bool-cases (ltb n'.round round)) [
        | inl e ↦ rw e (advance_round-IsSound c n' round h')
        | inr e ↦ rw e (elim (Option-cases n'.pending_block) [
          | inl e' ↦ rw (e', handle_new_view) h'
          | inr (b, e') ↦ rw (e', handle_new_view) h'
        ])
      ]
