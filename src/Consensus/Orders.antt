-- ===== src/Consensus/Orders.antt =====
-- What a certificate of src/consensus/hotstuff.rs owes to the order in which a map gives its values.
use mathlib.Core.List.{Perm}
use mathlib.Core.List.Perm
use vela_network.Consensus.Node.{Phase, HotStuffNode, form_qc, first_block_hash, votes_of}
use vela_network.Consensus.Certificates.{IsOrder}
use vela_network.Common.{◌≡◌, ◌≢◌, refl, sym, ap, ◌∙◌, List, [], ◌∷◌}
use vela_network.Common.Dict.{values}
use vela_network.Types.{Vote}

-- Two of the orders in which a map may be iterated.
as_filed : List Vote → List Vote
as_filed vs = vs

first_two_swapped : List Vote → List Vote
first_two_swapped [] = []
first_two_swapped (v ∷ []) = v ∷ []
first_two_swapped (v ∷ w ∷ vs) = w ∷ v ∷ vs

first_two_swapped-IsOrder : IsOrder first_two_swapped
unfolding first_two_swapped
first_two_swapped-IsOrder [] = Perm.refl []
first_two_swapped-IsOrder (v ∷ []) = Perm.refl (v ∷ [])
first_two_swapped-IsOrder (v ∷ w ∷ vs) = Perm.swap v w vs

-- Certificates of one phase of one node, in whatever orders the votes are read: they certify one
-- round by the same votes, up to their order; but if two votes name different blocks then two orders
-- give certificates of different blocks.
form_qc-orders :
    (n : HotStuffNode) (phase : Phase) (v w : Vote) (vs : List Vote)
    → values (votes_of n phase) ≡ v ∷ w ∷ vs
    → v.block_hash ≢ w.block_hash
    → ((order order' : List Vote → List Vote)
        → IsOrder order
        → IsOrder order'
        → ((form_qc order n phase).round ≡ (form_qc order' n phase).round)
          × Perm (form_qc order n phase).votes (form_qc order' n phase).votes)
      × ((order order' : List Vote → List Vote) × IsOrder order
          × IsOrder order'
          × ((form_qc order n phase).block_hash ≢ (form_qc order' n phase).block_hash))
unfolding form_qc first_block_hash as_filed first_two_swapped
form_qc-orders n phase v w vs e differ =
    let all = values (votes_of n phase) in
    (
      λ order order' any any'. (refl, Perm.trans (any all) (Perm.symm (any' all))),
      (
        as_filed,
        first_two_swapped,
        λ us. Perm.refl us,
        first_two_swapped-IsOrder,
        λ same. differ (
            sym (ap first_block_hash e)
            ∙ same
            ∙ ap (λ l. first_block_hash (first_two_swapped l)) e),
      ),
    )
