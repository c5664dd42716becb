-- ===== src/Consensus/Config.antt =====
-- `ConsensusConfig` of src/consensus/hotstuff.rs. A `usize` has 64 bits, as `round as usize`.
use vela_network.Common.{
  ℕ, ◌+◌, ◌*◌, ◌/◌, ◌%◌, Bool, Option, none, some, List, [], ◌∷◌, length, get_elem?, sub64, true,
  false,
}
use vela_network.Common.Dict.{text_discrete}
use vela_network.Types.{Address, Validator}

pub record ConsensusConfig : Type 0 where
  pub validator_set : List Validator
  pub f : ℕ
  pub block_interval : ℕ
  pub timeout_ms : ℕ

-- `ConsensusConfig::new`
unfoldable pub new_config : List Validator → ConsensusConfig
unfolding sub64
new_config validators = record {
  validator_set = validators;
  f = sub64 (length validators) 1 / 3;
  block_interval = 1000;
  timeout_ms = 5000;
}

-- `ConsensusConfig::quorum_size`
unfoldable pub quorum_size : ConsensusConfig → ℕ
quorum_size c = 2 * c.f + 1

-- `==` on addresses
unfoldable pub same_address : Address → Address → Bool
same_address a b = elim (text_discrete a.bytes b.bytes) [ yes _ ↦ true | no _ ↦ false ]

-- `self.validator_set[round as usize % len]`; `none` is the panic of `%` by 0 or of the index.
unfoldable pub validator_at : List Validator → ℕ → Option Validator
validator_at [] round = none
validator_at (v ∷ vs) round = get_elem? (v ∷ vs) (round % length (v ∷ vs))

-- `ConsensusConfig::leader_for_round`
unfoldable pub leader_for_round : ConsensusConfig → ℕ → Option Validator
unfolding validator_at
leader_for_round c round = validator_at c.validator_set round

-- `ConsensusConfig::is_leader`
unfoldable pub is_leader : ConsensusConfig → ℕ → Address → Option Bool
unfolding validator_at same_address
is_leader c round address = elim (validator_at c.validator_set round) [
  | none ↦ none
  | some v ↦ some (same_address v.address address)
]
