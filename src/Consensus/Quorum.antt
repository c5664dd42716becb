-- ===== src/Consensus/Quorum.antt =====
-- The arithmetic of quorums and leaders (`ConsensusConfig` in src/consensus/hotstuff.rs).
use native.Mathlib.Nat.{mod-lt, add-mod_right}
use vela_network.Consensus.Config.{
  ConsensusConfig, new_config, quorum_size, validator_at, leader_for_round, is_leader, same_address,
}
use vela_network.Common.{
  ℕ, zero, suc, ◌+◌, ◌*◌, ◌%◌, ◌≤◌, ◌<◌, ◌≡◌, ◌↔◌, refl, ap, ◌∙◌, true, some, List, [], ◌∷◌, arith,
  length, get_elem?, sub64, u64_mod,
}
use vela_network.Common.Dict.{text_discrete}
use vela_network.Types.{Address, Validator}

-- A configuration of n validators tolerates the most faults f with 3 f + 1 ≤ n, and asks for
-- 2 f + 1 votes, which the validators without the f faulty ones can give.
quorum_size-new_config :
    (vs : List Validator)
    → 0 < length vs
    → length vs < u64_mod
    → (3 * (new_config vs).f + 1 ≤ length vs)
      × (length vs < 3 * (new_config vs).f + 4)
      × (quorum_size (new_config vs) + (new_config vs).f ≤ length vs)
unfolding new_config quorum_size sub64
quorum_size-new_config vs some_ bound = omega arith

-- Of n validators, from one to less than 2 ^ 64, twice the quorum exceeds n by more than f, so
-- that two quorums share more than f of them, exactly when n is one more than a multiple of three.
pub quorums_intersect_iff :
    (vs : List Validator)
    → 0 < length vs
    → length vs < u64_mod
    → (length vs + (new_config vs).f < 2 * quorum_size (new_config vs)) ↔ (length vs % 3 ≡ 1)
unfolding new_config quorum_size sub64
quorums_intersect_iff vs some_ bound = (λ h. omega arith, λ h. omega arith)

get_elem?-total :
    (vs : List Validator) (i : ℕ) → i < length vs → (v : Validator) × (get_elem? vs i ≡ some v)
get_elem?-total [] i h = elim h [ ]
get_elem?-total (v ∷ vs) zero h = (v, refl)
get_elem?-total (v ∷ vs) (suc i) h = get_elem?-total vs i (omega arith)

same_address_iff : (a b : Address) → (same_address a b ≡ true) ↔ (a ≡ b)
unfolding same_address
same_address_iff a b = elim (text_discrete a.bytes b.bytes) [
  | yes e ↦ (λ _ i. record { bytes = e i }, λ _. ground arith)
  | no d ↦ (λ h. ground arith, λ e. absurd (d (ap (λ (c : Address). c.bytes) e)))
]

validator_at-eq-get_elem? :
    (vs : List Validator) (round : ℕ)
    → 0 < length vs
    → validator_at vs round ≡ get_elem? vs (round % length vs)
unfolding validator_at
validator_at-eq-get_elem? [] round h = elim h [ ]
validator_at-eq-get_elem? (v ∷ vs) round h = refl

is_leader_iff :
    (c : ConsensusConfig) (round : ℕ) (v : Validator) (a : Address)
    → validator_at c.validator_set round ≡ some v
    → (is_leader c round a ≡ some true) ↔ (v.address ≡ a)
unfolding is_leader
is_leader_iff c round v a e = (
  λ h. (same_address_iff v.address a).0 (ground arith),
  λ h. ground (arith, (same_address_iff v.address a).1 h),
)

-- With at least one validator every round has a leader: the validator at the round's remainder. Its
-- address, and no other, passes `is_leader`; and it leads again after one turn of the set.
leader_for_round_lem :
    (c : ConsensusConfig) (round : ℕ)
    → 0 < length c.validator_set
    → (v : Validator) × (get_elem? c.validator_set (round % length c.validator_set) ≡ some v)
      × (leader_for_round c round ≡ some v)
      × (leader_for_round c (round + length c.validator_set) ≡ some v)
      × ((a : Address) → (is_leader c round a ≡ some true) ↔ (v.address ≡ a))
unfolding leader_for_round
leader_for_round_lem c round some_ =
    let vs = c.validator_set in
    let (v, e) = get_elem?-total vs (round % length vs) (mod-lt round some_) in
    let at_round = validator_at-eq-get_elem? vs round some_ ∙ e in
    (
      v,
      e,
      at_round,
      validator_at-eq-get_elem? vs (round + length vs) some_
          ∙ ap (get_elem? vs) (add-mod_right round (length vs))
          ∙ e,
      λ a. is_leader_iff c round v a at_round,
    )
