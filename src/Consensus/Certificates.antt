-- ===== src/Consensus/Certificates.antt =====
-- Tallies of votes and the certificates that are formed of them (src/consensus/hotstuff.rs).
use mathlib.Core.List.{Mem, Nodup, Perm, not-mem-nil, eq-or-mem_of_mem-cons}
use mathlib.Core.List.Perm
use mathlib.Core.Logic.Or
use mathlib.Core.Bool.{Bool-set}
use vela_network.Consensus.Config.{ConsensusConfig, quorum_size}
use vela_network.Consensus.Node.{Phase, HotStuffNode, form_qc, votes_of}
use vela_network.Consensus.Handlers.{voter_key}
use vela_network.Common.{
  ◌≤◌, ◌≡◌, refl, true, List, [], ◌∷◌, map, arith, length, length-map, All, Text,
}
use vela_network.Common.Dict.{Dict, IsDict, insert, values, insert-IsDict, insert-All}
use vela_network.Common.Dict.Keys.{keys, keys-Nodup, length-perm}
use vela_network.Types.{Crates, Vote, QuorumCert, verify_vote}

-- The iteration over a map gives its values, each once, in some order.
abbrev pub IsOrder : (List Vote → List Vote) → Type 0
IsOrder order = (vs : List Vote) → Perm (order vs) vs

module _ (x : Crates) where
  -- Every vote of a tally verifies and is filed under its own voter, once.
  abbrev pub IsCounted : Text × Vote → Type 0
  IsCounted (k, v) = (k ≡ voter_key x v) × (verify_vote x v ≡ true)

  abbrev pub IsTally : Dict Vote → Type 0
  IsTally m = IsDict m × All IsCounted m

  pub insert-IsTally :
      (v : Vote) (m : Dict Vote)
      → verify_vote x v ≡ true
      → IsTally m
      → IsTally (insert (voter_key x v) v m)
  insert-IsTally v m e h = (
    insert-IsDict (voter_key x v) v m h.0,
    insert-All IsCounted (voter_key x v) v m (refl, e) h.1,
  )

  -- A certificate: at least a quorum of votes, all of which verify, by voters that differ.
  pub record IsCertificate (c : ConsensusConfig) (qc : QuorumCert) : Type 0 where
    pub enough : quorum_size c ≤ length qc.votes
    pub distinct : Nodup (map (voter_key x) qc.votes)
    pub signed : (v : Vote) → Mem v qc.votes → verify_vote x v ≡ true

  tally_keys : (m : Dict Vote) → All IsCounted m → map (voter_key x) (values m) ≡ keys m
  tally_keys [] h = refl
  tally_keys ((k, v) ∷ m) h = ground (arith, tally_keys m h.1)

  tally_signed :
      (m : Dict Vote) → All IsCounted m → (v : Vote) → Mem v (values m) → verify_vote x v ≡ true
  tally_signed [] h v found = absurd (not-mem-nil found)
  tally_signed ((k, u) ∷ m) h v found =
      Or.elim (Bool-set _ _) (eq-or-mem_of_mem-cons found) (λ here. rw here h.0.1)
        (tally_signed m h.1 v)

  -- What `form_qc` makes of a tally with a quorum of entries is a certificate under the node's
  -- configuration, in whatever order the votes are read.
  pub form_qc-IsCertificate :
      (order : List Vote → List Vote) (n : HotStuffNode) (phase : Phase)
      → IsOrder order
      → IsTally (votes_of n phase)
      → quorum_size n.config ≤ length (votes_of n phase)
      → IsCertificate n.config (form_qc order n phase)
  unfolding form_qc
  form_qc-IsCertificate order n phase any tally quorum =
      let m = votes_of n phase in
      let shuffled = any (values m) in
      record {
        enough =
            omega (arith, quorum, length-perm shuffled, length-map (λ (e : Text × Vote). e.1) m);
        distinct =
            Perm.nodup (Perm.symm (Perm.map (voter_key x) shuffled))
              (rw (tally_keys m tally.1) (keys-Nodup m tally.0));
        signed = λ v found. tally_signed m tally.1 v ((Perm.mem_iff shuffled).0 found);
      }
