-- ===== src/Consensus/Handlers.antt =====
-- What a consensus node does with proposals, votes and new views (src/consensus/hotstuff.rs).
-- A handler returns the new state and the message to send, if any.
use vela_network.Consensus.Config.{quorum_size}
use vela_network.Consensus.Node.{
  Phase, prepare, pre_commit, commit, decide, HotStuffMsg, propose_msg, vote_msg, new_view,
  HotStuffNode, node_is_leader, tip, form_qc, commit_block, advance_round,
}
use vela_network.Common.{
  ℕ, Bool, true, false, Option, none, some, List, Text, length, leb, ltb, if◌then◌else◌, add64,
  ◌>>=◌, ◌>>◌, require,
}
use vela_network.Common.Dict.{insert, text_discrete}
use vela_network.Types.{
  Crates, Hash, Vote, QuorumCert, Block, Transaction, new_block, block_hash, sign_vote, verify_vote,
}

-- `==` on hashes
unfoldable pub same_hash : Hash → Hash → Bool
same_hash a b = elim (text_discrete a.bytes b.bytes) [ yes _ ↦ true | no _ ↦ false ]

-- `.as_ref().map_or(0, |q| q.round)`
unfoldable pub qc_round : Option QuorumCert → ℕ
qc_round none = 0
qc_round (some q) = q.round

module _ (x : Crates) where
  -- `HotStuffNode::propose`, at the time `now`; `none` is a panic: of the `assert!` that the node
  -- leads, of `tip`, or of the Merkle root.
  unfoldable pub propose : ℕ → HotStuffNode → List Transaction → Option (HotStuffNode × HotStuffMsg)
  unfolding node_is_leader tip new_block block_hash
  propose now n transactions = do
    leads ← node_is_leader n
    require leads
    parent ← tip n
    block ←
        new_block x (add64 parent.header.height 1) (block_hash x parent) transactions n.address
          n.round now
    some (record n { pending_block = some block; phase = prepare }, propose_msg block n.high_qc)

  -- the test that the proposal is a child of the block on which the node is locked, if any
  unfoldable pub extends_lock : Option QuorumCert → Block → Bool
  unfolding same_hash
  extends_lock none block = true
  extends_lock (some locked) block = same_hash block.header.parent_hash locked.block_hash

  -- `HotStuffNode::handle_propose`, which ignores the certificate
  unfoldable pub handle_propose :
      HotStuffNode → Block → Option QuorumCert → HotStuffNode × Option HotStuffMsg
  unfolding extends_lock block_hash sign_vote
  handle_propose n block high_qc =
      if extends_lock n.locked_qc block
      then (
        record n { pending_block = some block },
        some (vote_msg (sign_vote x (block_hash x block) n.round n.signing_key)),
      )
      else (n, none)

  -- `hex::encode(vote.voter.as_bytes())`
  abbrev pub voter_key : Vote → Text
  voter_key v = x.hex_encode v.voter.bytes

  module _ (order : List Vote → List Vote) where
    -- The three arms of `handle_vote` that count a vote, for a vote that verifies.
    unfoldable pub count_prepare : HotStuffNode → Vote → HotStuffNode × Option HotStuffMsg
    unfolding form_qc quorum_size
    count_prepare n vote =
        let counted : HotStuffNode = record n {
          prepare_votes = insert (voter_key vote) vote n.prepare_votes;
        } in
        let qc : QuorumCert = form_qc order counted prepare in
        if leb (quorum_size n.config) (length counted.prepare_votes)
        then (record counted { high_qc = some qc; phase = pre_commit }, some (new_view n.round qc))
        else (counted, none)

    unfoldable pub count_precommit : HotStuffNode → Vote → HotStuffNode × Option HotStuffMsg
    unfolding form_qc quorum_size
    count_precommit n vote =
        let counted : HotStuffNode = record n {
          precommit_votes = insert (voter_key vote) vote n.precommit_votes;
        } in
        let qc : QuorumCert = form_qc order counted pre_commit in
        if leb (quorum_size n.config) (length counted.precommit_votes)
        then (record counted { locked_qc = some qc; phase = commit }, some (new_view n.round qc))
        else (counted, none)

    unfoldable pub count_commit : HotStuffNode → Vote → HotStuffNode × Option HotStuffMsg
    unfolding form_qc quorum_size commit_block
    count_commit n vote =
        let counted : HotStuffNode = record n {
          commit_votes = insert (voter_key vote) vote n.commit_votes;
        } in
        let qc : QuorumCert = form_qc order counted commit in
        if leb (quorum_size n.config) (length counted.commit_votes)
        then (
          commit_block (record counted { phase = decide }) qc,
          some (new_view (add64 n.round 1) qc),
        )
        else (counted, none)

    -- the `match` of `handle_vote`
    unfoldable pub count_vote : Phase → HotStuffNode → Vote → HotStuffNode × Option HotStuffMsg
    unfolding count_prepare count_precommit count_commit
    count_vote prepare n vote = count_prepare n vote
    count_vote pre_commit n vote = count_precommit n vote
    count_vote commit n vote = count_commit n vote
    count_vote decide n vote = (n, none)

    -- `HotStuffNode::handle_vote`
    unfoldable pub handle_vote : HotStuffNode → Vote → HotStuffNode × Option HotStuffMsg
    unfolding count_vote verify_vote
    handle_vote n vote = if verify_vote x vote then count_vote n.phase n vote else (n, none)

  -- the first statement of `handle_new_view`
  unfoldable pub raise_high_qc : HotStuffNode → QuorumCert → HotStuffNode
  unfolding qc_round
  raise_high_qc n qc =
      if leb (qc_round n.high_qc) qc.round then record n { high_qc = some qc } else n

  -- `HotStuffNode::handle_new_view`
  unfoldable pub handle_new_view : HotStuffNode → ℕ → QuorumCert → HotStuffNode × Option HotStuffMsg
  unfolding raise_high_qc advance_round block_hash sign_vote
  handle_new_view n round high_qc =
      let n' : HotStuffNode = raise_high_qc n high_qc in
      if ltb n'.round round then (advance_round n' round, none) else elim n'.pending_block [
        | none ↦ (n', none)
        | some block ↦
            (n', some (vote_msg (sign_vote x (block_hash x block) n'.round n'.signing_key)))
      ]
