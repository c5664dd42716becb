-- ===== src/Consensus/Filing.antt =====
-- Votes that a consensus node files until they are a quorum (src/consensus/hotstuff.rs).
use vela_network.Consensus.Config.{quorum_size}
use vela_network.Consensus.Node.{Phase, HotStuffNode}
use vela_network.Consensus.Handlers.{handle_vote, voter_key}
use vela_network.Common.{
  ℕ, suc, ◌+◌, ◌≡◌, refl, sym, ap, ◌∙◌, true, false, none, List, [], ◌∷◌, ◌++◌, map, Text, arith,
  length, All, leb, le→leb, gt→leb,
}
use vela_network.Common.Dict.{Dict, insert, lookup, lookup-insert, length-insert}
use vela_network.Common.Pigeonhole.{is_in, Apart}
use vela_network.Types.{Crates, Vote, verify_vote}

-- No key of the list is in the map.
abbrev Fresh : List Text → Dict Vote → Type 0
Fresh ks m = (k : Text) → is_in k ks ≡ true → lookup k m ≡ none

Fresh-insert :
    (k : Text) (v : Vote) (ks : List Text) (m : Dict Vote)
    → is_in k ks ≡ false
    → Fresh (k ∷ ks) m
    → Fresh ks (insert k v m)
unfolding is_in
Fresh-insert k v ks m apart h j found = ground (arith, lookup-insert j k v m, h j)

length-insert-Fresh :
    (k : Text) (v : Vote) (ks : List Text) (m : Dict Vote)
    → Fresh (k ∷ ks) m
    → length (insert k v m) ≡ suc (length m)
unfolding is_in
length-insert-Fresh k v ks m h = ground (arith, length-insert k v m, h k)

module _ (x : Crates) (order : List Vote → List Vote) where
  -- Votes one after the other.
  abbrev pub handle_all : HotStuffNode → List Vote → HotStuffNode
  handle_all n [] = n
  handle_all n (v ∷ vs) = handle_all (handle_vote x order n v).0 vs

  pub handle_all-append :
      (n : HotStuffNode) (us vs : List Vote)
      → handle_all n (us ++ vs) ≡ handle_all (handle_all n us) vs
  handle_all-append n [] vs = refl
  handle_all-append n (u ∷ us) vs = handle_all-append (handle_vote x order n u).0 us vs

  -- Votes that verify, by voters that differ, as many as a quorum asks for.
  pub record IsQuorum (q : ℕ) (vs : List Vote) : Type 0 where
    pub verified : All (λ v. verify_vote x v ≡ true) vs
    pub apart : Apart (map (voter_key x) vs)
    pub size : length vs ≡ q

  -- A phase in which votes are filed until they are enough: what a vote does below the quorum, and
  -- what it does when it completes it.
  pub record Files (p : Phase) (tally : HotStuffNode → Dict Vote)
      (file finish : HotStuffNode → Dict Vote → HotStuffNode) : Type 0 where
    pub kept : (n : HotStuffNode) (m : Dict Vote) → tally (file n m) ≡ m
    pub phase : (n : HotStuffNode) (m : Dict Vote) → (file n m).phase ≡ n.phase
    pub config : (n : HotStuffNode) (m : Dict Vote) → (file n m).config ≡ n.config
    pub again : (n : HotStuffNode) (m m' : Dict Vote) → finish (file n m) m' ≡ finish n m'
    pub below :
        (n : HotStuffNode) (v : Vote)
        → n.phase ≡ p
        → verify_vote x v ≡ true
        → leb (quorum_size n.config) (length (insert (voter_key x v) v (tally n))) ≡ false
        → (handle_vote x order n v).0 ≡ file n (insert (voter_key x v) v (tally n))
    pub reached :
        (n : HotStuffNode) (v : Vote)
        → n.phase ≡ p
        → verify_vote x v ≡ true
        → leb (quorum_size n.config) (length (insert (voter_key x v) v (tally n))) ≡ true
        → (handle_vote x order n v).0 ≡ finish n (insert (voter_key x v) v (tally n))

  handle_all-finish :
      (p : Phase) (tally : HotStuffNode → Dict Vote)
      (file finish : HotStuffNode → Dict Vote → HotStuffNode)
      → Files p tally file finish
      → (n : HotStuffNode) (v : Vote) (vs : List Vote) → n.phase ≡ p
      → All (λ u. verify_vote x u ≡ true) (v ∷ vs)
      → Apart (map (voter_key x) (v ∷ vs))
      → Fresh (map (voter_key x) (v ∷ vs)) (tally n)
      → length (tally n) + length (v ∷ vs) ≡ quorum_size n.config
      → (m : Dict Vote) × (handle_all n (v ∷ vs) ≡ finish n m)
  handle_all-finish p tally file finish f n v [] at_p ok apart fresh size =
      let k = voter_key x v in
      let m = insert k v (tally n) in
      let grown = length-insert-Fresh k v [] (tally n) fresh in
      (m, f.reached n v at_p ok.0 (le→leb _ _ (omega (arith, grown, size))))
  handle_all-finish p tally file finish f n v (w ∷ vs) at_p ok apart fresh size =
      let k = voter_key x v in
      let m = insert k v (tally n) in
      let n' = file n m in
      let grown = length-insert-Fresh k v (map (voter_key x) (w ∷ vs)) (tally n) fresh in
      let under : leb (quorum_size n.config) (length m) ≡ false =
        gt→leb _ _ (omega (arith, grown, size)) in
      let filed = f.below n v at_p ok.0 under in
      let kept = f.kept n m in
      let (m', e) =
        handle_all-finish p tally file finish f n' w vs (f.phase n m ∙ at_p) ok.1 apart.1
          (rw kept (Fresh-insert k v (map (voter_key x) (w ∷ vs)) (tally n) apart.0 fresh))
          (ap (λ (d : Dict Vote). length d + length (w ∷ vs)) kept
            ∙ omega (arith, grown, size)
            ∙ sym (ap quorum_size (f.config n m))) in
      (m', ap (λ a. handle_all a (w ∷ vs)) filed ∙ e ∙ f.again n m m')

  -- A quorum, from an empty tally on.
  pub quorum-finish :
      (p : Phase) (tally : HotStuffNode → Dict Vote)
      (file finish : HotStuffNode → Dict Vote → HotStuffNode)
      → Files p tally file finish
      → (n : HotStuffNode) (vs : List Vote) → n.phase ≡ p
      → tally n ≡ []
      → IsQuorum (quorum_size n.config) vs
      → (m : Dict Vote) × (handle_all n vs ≡ finish n m)
  unfolding quorum_size lookup
  quorum-finish p tally file finish f n [] at_p idle q = absurd (omega (arith, q.size))
  quorum-finish p tally file finish f n (v ∷ vs) at_p idle q =
      handle_all-finish p tally file finish f n v vs at_p q.verified q.apart
        (rw idle (λ k found. refl)) (rw idle (omega (arith, q.size)))
