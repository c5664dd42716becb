-- ===== src/Consensus/Receipts.antt =====
-- The votes that a consensus node was sent in a run, and that it locks itself on those votes only
-- (src/consensus/hotstuff.rs).
use mathlib.Core.List.{
  Mem, Mem-prop, not-mem-nil, eq-or-mem_of_mem-cons, mem-cons_self, mem-cons_of_mem,
}
use mathlib.Core.List.Perm
use mathlib.Core.Logic.Or
use mathlib.Core.Path.{subst}
use vela_network.Consensus.Config.{ConsensusConfig, quorum_size}
use vela_network.Consensus.Node.{
  Phase, prepare, pre_commit, commit, decide, HotStuffNode, new_node, form_qc, votes_of,
  commit_block, advance_round,
}
use vela_network.Consensus.Handlers.{
  handle_propose, handle_vote, handle_new_view, count_vote, count_prepare, count_precommit,
  count_commit, raise_high_qc, voter_key,
}
use vela_network.Consensus.Certificates.{IsOrder}
use vela_network.Consensus.Proposals.{propose_lem}
use vela_network.Consensus.Runs.{
  Step, proposes, gets_proposal, gets_vote, gets_view, Run, here, next,
}
use vela_network.Common.{
  ℕ, ◌≡◌, ◌⊎◌, Option, none, some, List, [], ◌∷◌, ◌++◌, Bytes, Text, arith, length, All, leb, inl,
  inr, Bool-cases,
}
use vela_network.Common.Dict.{Dict, insert, values, insert-All}
use vela_network.Types.{Crates, Address, Vote, QuorumCert, Block, verify_vote}

All-split : (P : Vote → Type 0) (us vs : List Vote) → All P (us ++ vs) → All P us × All P vs
All-split P [] vs h = (tt, h)
All-split P (u ∷ us) vs h = let (a, b) = All-split P us vs h.1 in ((h.0, a), b)

All-of_Mem : (P : Vote → Type 0) (vs : List Vote) → ((v : Vote) → Mem v vs → P v) → All P vs
All-of_Mem P [] h = tt
All-of_Mem P (v ∷ vs) h =
    (h v mem-cons_self, All-of_Mem P vs (λ u found. h u (mem-cons_of_mem v found)))

module _ (x : Crates) where
  abbrev vote_of : {n n' : HotStuffNode} → Step x n n' → List Vote
  vote_of (proposes now txs m e) = []
  vote_of (gets_proposal b qc e) = []
  vote_of (gets_vote order v any e) = v ∷ []
  vote_of (gets_view round qc e) = []

  -- The votes of a run, the last one first.
  abbrev pub received : {n n' : HotStuffNode} → Run x n n' → List Vote
  received here = []
  received (next r s) = vote_of s ++ received r

  module _ (P : Vote → Type 0) (prop : (v : Vote) → IsProp (P v)) where
    abbrev LockFrom : Option QuorumCert → Type 0
    LockFrom none = Unit {0}
    LockFrom (some qc) = (v : Vote) → Mem v qc.votes → P v

    record IsFiled (n : HotStuffNode) : Type 0 where
      filed : All (λ (e : Text × Vote). P e.1) n.precommit_votes
      locked : LockFrom n.locked_qc

    -- What keeps the lock, and the votes of the pre-commit phase or none.
    IsFiled-kept :
        (n n' : HotStuffNode)
        → (n'.precommit_votes ≡ n.precommit_votes) ⊎ (n'.precommit_votes ≡ [])
        → n'.locked_qc ≡ n.locked_qc
        → IsFiled n
        → IsFiled n'
    IsFiled-kept n n' (inl e) d h = record { filed = rw e h.filed; locked = rw d h.locked }
    IsFiled-kept n n' (inr e) d h = record { filed = rw e tt; locked = rw d h.locked }

    of_values :
        (m : Dict Vote) → All (λ (e : Text × Vote). P e.1) m → (v : Vote) → Mem v (values m) → P v
    of_values [] h v found = absurd (not-mem-nil found)
    of_values ((k, u) ∷ m) h v found =
        Or.elim (prop v) (eq-or-mem_of_mem-cons found) (λ here_. rw here_ h.0) (of_values m h.1 v)

    module _ (order : List Vote → List Vote) (any : IsOrder order) (n : HotStuffNode) (v : Vote)
        (sent : P v) (h : IsFiled n) where
      count_prepare-IsFiled : IsFiled (count_prepare x order n v).0
      unfolding count_prepare
      count_prepare-IsFiled =
          IsFiled-kept n (count_prepare x order n v).0 (ground arith) (ground arith) h

      count_precommit-IsFiled : IsFiled (count_precommit x order n v).0
      unfolding count_precommit form_qc votes_of
      count_precommit-IsFiled =
          let m = insert (voter_key x v) v n.precommit_votes in
          let tally : All (λ (e : Text × Vote). P e.1) m =
            insert-All (λ (e : Text × Vote). P e.1) (voter_key x v) v n.precommit_votes sent
              h.filed in
          elim (Bool-cases (leb (quorum_size n.config) (length m))) [
            | inl q ↦ rw q (record {
              filed = tally;
              locked = λ u found. of_values m tally u ((Perm.mem_iff (any (values m))).0 found);
            })
            | inr q ↦ rw q (record { filed = tally; locked = h.locked })
          ]

      count_commit-IsFiled : IsFiled (count_commit x order n v).0
      unfolding count_commit commit_block
      count_commit-IsFiled =
          IsFiled-kept n (count_commit x order n v).0 (ground arith) (ground arith) h

      count_vote-IsFiled : (phase : Phase) → IsFiled (count_vote x order phase n v).0
      unfolding count_vote
      count_vote-IsFiled prepare = count_prepare-IsFiled
      count_vote-IsFiled pre_commit = count_precommit-IsFiled
      count_vote-IsFiled commit = count_commit-IsFiled
      count_vote-IsFiled decide = h

      handle_vote-IsFiled : IsFiled (handle_vote x order n v).0
      unfolding handle_vote
      handle_vote-IsFiled = elim (Bool-cases (verify_vote x v)) [
        | inl e ↦ rw e (count_vote-IsFiled n.phase)
        | inr e ↦ rw e h
      ]

    handle_propose-IsFiled :
        (n : HotStuffNode) (b : Block) (q : Option QuorumCert)
        → IsFiled n
        → IsFiled (handle_propose x n b q).0
    unfolding handle_propose
    handle_propose-IsFiled n b q h =
        IsFiled-kept n (handle_propose x n b q).0 (ground arith) (ground arith) h

    handle_new_view-IsFiled :
        (n : HotStuffNode) (round : ℕ) (qc : QuorumCert)
        → IsFiled n
        → IsFiled (handle_new_view x n round qc).0
    unfolding handle_new_view raise_high_qc advance_round
    handle_new_view-IsFiled n round qc h =
        IsFiled-kept n (handle_new_view x n round qc).0 (ground arith) (ground arith) h

    Step-IsFiled :
        {n n' : HotStuffNode} (s : Step x n n') → All P (vote_of s) → IsFiled n → IsFiled n'
    Step-IsFiled {n} (proposes now txs m e) sent h =
        let (_, b, _, _, _, changed, _) = propose_lem x now n txs e in
        rw changed (record { filed = h.filed; locked = h.locked })
    Step-IsFiled {n} (gets_proposal b qc e) sent h = rw e (handle_propose-IsFiled n b qc h)
    Step-IsFiled {n} (gets_vote order v any e) sent h =
        rw e (handle_vote-IsFiled order any n v sent.0 h)
    Step-IsFiled {n} (gets_view round qc e) sent h = rw e (handle_new_view-IsFiled n round qc h)

    Run-IsFiled :
        {n n' : HotStuffNode} (r : Run x n n') → All P (received r) → IsFiled n → IsFiled n'
    Run-IsFiled here sent h = h
    Run-IsFiled (next r s) sent h =
        let (last, before) = All-split P (vote_of s) (received r) sent in
        Step-IsFiled s last (Run-IsFiled r before h)

  lock-votes :
      (P : Vote → Type 0) (prop : (v : Vote) → IsProp (P v)) (n : HotStuffNode) (qc : QuorumCert)
      → IsFiled P prop n
      → n.locked_qc ≡ some qc
      → (v : Vote) → Mem v qc.votes
      → P v
  lock-votes P prop n qc h e = subst (LockFrom P prop) e h.locked

  -- The votes of the certificate on which a node is locked are votes that it was sent.
  pub locked-received :
      (a : Address) (key : Bytes) (c : ConsensusConfig) {n : HotStuffNode} (qc : QuorumCert)
      (r : Run x (new_node a key c) n)
      → n.locked_qc ≡ some qc
      → (v : Vote) → Mem v qc.votes
      → Mem v (received r)
  unfolding new_node
  locked-received a key c {n} qc r e =
      let P : Vote → Type 0 = λ v. Mem v (received r) in
      let fresh : IsFiled P (λ v. Mem-prop) (new_node a key c) = record {
        filed = tt;
        locked = tt;
      } in
      lock-votes P (λ v. Mem-prop) n qc
        (Run-IsFiled P (λ v. Mem-prop) r (All-of_Mem P (received r) (λ v found. found)) fresh) e
