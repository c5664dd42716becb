-- ===== src/Consensus/Intersection.antt =====
-- What two certificates have in common, and what two nodes are locked on
-- (src/consensus/hotstuff.rs).
use mathlib.Core.List.{Mem}
use mathlib.Core.Path.{subst}
use vela_network.Consensus.Config.{new_config}
use vela_network.Consensus.Node.{HotStuffNode, new_node}
use vela_network.Consensus.Handlers.{voter_key}
use vela_network.Consensus.Certificates.{IsCertificate}
use vela_network.Consensus.Safety.{IsLock}
use vela_network.Consensus.Quorum.{quorums_intersect_iff}
use vela_network.Consensus.Runs.{Run, Run-IsSound}
use vela_network.Consensus.Receipts.{received, locked-received}
use vela_network.Common.{
  ◌%◌, ◌≤◌, ◌<◌, ◌≡◌, sym, ap, ◌∙◌, true, false, some, List, map, Text, Bytes, arith, length,
  length-map, u64_mod,
}
use vela_network.Common.Pigeonhole.{
  is_in, Within, common, length-common, common-Apart, is_in-common, is_in-outside, Nodup-Apart,
  is_in-map,
}
use vela_network.Types.{Crates, Address, Validator, Vote, QuorumCert, verify_vote}

module _ (x : Crates) where
  abbrev pub validator_key : Validator → Text
  validator_key w = x.hex_encode w.address.bytes

  -- All voters are validators, and all votes name the block and the round of the certificate. The
  -- code checks neither.
  pub record IsProper (vs : List Validator) (qc : QuorumCert) : Type 0 where
    pub validators :
        (v : Vote) → Mem v qc.votes → is_in (voter_key x v) (map validator_key vs) ≡ true
    pub uniform :
        (v : Vote) → Mem v qc.votes → (v.block_hash ≡ qc.block_hash) × (v.round ≡ qc.round)

  voters : QuorumCert → List Text
  voters qc = map (voter_key x) qc.votes

  voters-Within :
      (vs : List Validator) (qc : QuorumCert)
      → IsProper vs qc
      → Within (voters qc) (map validator_key vs)
  unfolding voters
  voters-Within vs qc h k found =
      let (v, mem, e) = is_in-map (voter_key x) k qc.votes found in
      ap (λ t. is_in t (map validator_key vs)) (sym e) ∙ h.validators v mem

  -- One voter outside a list of at most f others stands behind both certificates.
  shared_voter :
      (vs : List Validator) (qc qc' : QuorumCert) (faulty : List Text)
      → 0 < length vs
      → length vs < u64_mod
      → length vs % 3 ≡ 1
      → IsCertificate x (new_config vs) qc
      → IsCertificate x (new_config vs) qc'
      → IsProper vs qc
      → IsProper vs qc'
      → length faulty ≤ (new_config vs).f
      → (u v : Vote) × Mem u qc.votes
        × Mem v qc'.votes
        × (voter_key x u ≡ voter_key x v)
        × (is_in (voter_key x u) faulty ≡ false)
  unfolding voters
  shared_voter vs qc qc' faulty some_ bound thirds c c' p p' few =
      let a = voters qc in
      let b = voters qc' in
      let apart = Nodup-Apart a c.distinct in
      let shared =
        length-common a b (map validator_key vs) apart (Nodup-Apart b c'.distinct)
          (voters-Within vs qc p) (voters-Within vs qc' p') in
      let enough = (quorums_intersect_iff vs some_ bound).1 thirds in
      let more : length faulty < length (common a b) = omega (
        arith,
        shared,
        enough,
        few,
        c.enough,
        c'.enough,
        length-map (voter_key x) qc.votes,
        length-map (voter_key x) qc'.votes,
        length-map validator_key vs,
      ) in
      let (k, found, outside) = is_in-outside (common a b) faulty (common-Apart a b apart) more in
      let (in_a, in_b) = is_in-common k a b found in
      let (u, mem_u, e) = is_in-map (voter_key x) k qc.votes in_a in
      let (v, mem_v, d) = is_in-map (voter_key x) k qc'.votes in_b in
      (u, v, mem_u, mem_v, e ∙ sym d, ap (λ t. is_in t faulty) e ∙ outside)

  -- Of the votes in two lists that verify, those of one round by one voter outside the list of the
  -- faulty keys are for one block.
  abbrev pub Consistent : List Text → List Vote → List Vote → Type 0
  Consistent faulty us vs =
      (u v : Vote)
      → Mem u us
      → Mem v vs
      → verify_vote x u ≡ true
      → verify_vote x v ≡ true
      → voter_key x u ≡ voter_key x v
      → is_in (voter_key x u) faulty ≡ false
      → u.round ≡ v.round
      → u.block_hash ≡ v.block_hash

  -- Let the number of validators be one more than a multiple of three, let at most f keys be faulty,
  -- and let two nodes with these validators run, with whatever they are sent, where of all the votes
  -- that verify, those that the first is sent and those that the second is sent name one block if
  -- they are of one round and by one key that is not faulty. Let the nodes be locked on certificates
  -- of one round, of which all voters are validators and all votes name the certificate's block and
  -- round. Then they are locked on the same block.
  pub Run-locks_agree :
      (vs : List Validator) (faulty : List Text)
      → 0 < length vs
      → length vs < u64_mod
      → length vs % 3 ≡ 1
      → length faulty ≤ (new_config vs).f
      → (a a' : Address) (key key' : Bytes) {n n' : HotStuffNode} (qc qc' : QuorumCert)
        (r : Run x (new_node a key (new_config vs)) n)
        (r' : Run x (new_node a' key' (new_config vs)) n')
      → Consistent faulty (received x r) (received x r')
      → n.locked_qc ≡ some qc
      → n'.locked_qc ≡ some qc'
      → IsProper vs qc
      → IsProper vs qc'
      → qc.round ≡ qc'.round
      → qc.block_hash ≡ qc'.block_hash
  Run-locks_agree vs faulty some_ bound thirds few a a' key key' {n} {n'} qc qc' r r' honest l l' p
        p' same_round =
      let c = subst (IsLock x (new_config vs)) l (Run-IsSound x a key (new_config vs) r).locked in
      let c' =
        subst (IsLock x (new_config vs)) l' (Run-IsSound x a' key' (new_config vs) r').locked in
      let (u, v, mem_u, mem_v, same, outside) =
        shared_voter vs qc qc' faulty some_ bound thirds c c' p p' few in
      let (block_u, round_u) = p.uniform u mem_u in
      let (block_v, round_v) = p'.uniform v mem_v in
      let got_u = locked-received x a key (new_config vs) qc r l u mem_u in
      let got_v = locked-received x a' key' (new_config vs) qc' r' l' v mem_v in
      sym block_u
      ∙ honest u v got_u got_v (c.signed u mem_u) (c'.signed v mem_v) same outside
          (round_u ∙ same_round ∙ sym round_v)
      ∙ block_v
