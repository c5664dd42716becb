-- ===== src/Rpc/Leaders.antt =====
-- The three places that name a leader agree: the listing of validators (src/rpc/mod.rs), the task
-- that produces blocks (src/main.rs) and the consensus engine (src/consensus/hotstuff.rs).
use vela_network.Common.{
  ℕ, ◌%◌, ◌≡◌, ◌⊎◌, inl, inr, ap, List, [], ◌∷◌, map, some, arith, ◌==◌, get_elem?,
}
use vela_network.Types.{Crates, Validator, address_to_hex, address_of_key}
use vela_network.Consensus.{new_config, leader_for_round, validator_at}
use vela_network.Node.{validators_from, validator_keys, validator_seed}
use vela_network.Rpc.Server.{ServerState, ValidatorInfo, validator_info, get_validators}

rem_three : (n : ℕ) → (n % 3 ≡ 0) ⊎ ((n % 3 ≡ 1) ⊎ (n % 3 ≡ 2))
rem_three n = ground arith

module _ (x : Crates) where
  -- The entry of a validator under a leader.
  abbrev pub entry : Validator → Validator → ValidatorInfo
  entry leader v = record {
    index = v.index;
    address = address_to_hex x v.address;
    is_leader = v.index == leader.index;
    stake = v.stake;
  }

  abbrev pub testnet : List Validator
  testnet = validators_from x 0 validator_keys

  -- The entries, marked for the leader of index `k`.
  entries : ℕ → List ValidatorInfo
  entries k = validator_info x k 0 ∷ validator_info x k 1 ∷ validator_info x k 2 ∷ []

  -- In every round the engine of the testnet's validators has a leader. The server, if that is the
  -- round it shows, lists exactly those validators and marks that leader; and the task that produces
  -- blocks leads exactly at the leader's index.
  leaders_agree :
      (info : ServerState)
      → (leader : Validator) × (leader_for_round (new_config testnet) info.current_round
          ≡ some leader)
        × (get_validators x info ≡ (map (entry leader) testnet, leader.index))
        × ((i : ℕ) → (info.current_round % 3 == i) ≡ (leader.index == i))
  unfolding entries leader_for_round validator_at new_config validators_from get_validators
      validator_info
  leaders_agree info =
      let r = info.current_round % 3 in
      elim (rem_three info.current_round) [
        | inl e ↦ (
          record { address = address_of_key x (validator_seed 0); stake = 1000; index = 0 },
          ap (get_elem? testnet) e,
          ap (λ k. (entries k, k)) e,
          λ i. ap (λ k. k == i) e,
        )
        | inr (inl e) ↦ (
          record { address = address_of_key x (validator_seed 1); stake = 1000; index = 1 },
          ap (get_elem? testnet) e,
          ap (λ k. (entries k, k)) e,
          λ i. ap (λ k. k == i) e,
        )
        | inr (inr e) ↦ (
          record { address = address_of_key x (validator_seed 2); stake = 1000; index = 2 },
          ap (get_elem? testnet) e,
          ap (λ k. (entries k, k)) e,
          λ i. ap (λ k. k == i) e,
        )
      ]
