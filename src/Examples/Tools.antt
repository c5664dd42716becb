-- ===== src/Examples/Tools.antt =====
-- Starting from arguments and an environment, and numbers in texts.
use vela_network.Examples.Setup.{crates, sled}
use vela_network.Common.{
  ℕ, ◌<◌, ◌≤◌, ◌≡◌, ◌⊎◌, refl, Option, none, some, List, [], ◌∷◌, Bytes, Text, ◌==◌, if◌then◌else◌,
}
use vela_network.Types.{Block, genesis}
use vela_network.Storage.{load_all_blocks, decode_all, sort_by_height, save_block, to_be_bytes}
use vela_network.Launch.{
  Args, Env, option_or, port_of, rpc_port_of, validator_index_of, Launched, main,
}
use vela_network.Launch.Options.{IsUp, main_lem}
use vela_network.Wallet.{to_decimal, digits}

-- An address is any text that starts with a slash, and stands for its first character after it.
parse_addr : Text → Option ℕ
parse_addr [] = none
parse_addr (c ∷ []) = none
parse_addr (c ∷ d ∷ ds) = if c == b'/' then some d else none

abbrev args : Args
args = record {
  port = some 65000;
  http_port = none;
  bootstrap = (b'/' ∷ b'a' ∷ []) ∷ [];
  validator_index = none;
}

-- BOOTSTRAP_ADDR is "/b,/c", and VALIDATOR_INDEX is "2".
abbrev env : Env
env = record {
  p2p_port = none;
  http_port = none;
  validator_index = some (b'2' ∷ []);
  bootstrap_addr = some (b'/' ∷ b'b' ∷ b',' ∷ b'/' ∷ b'c' ∷ []);
}

rpc_port_test : rpc_port_of args env ≡ 464
unfolding rpc_port_of port_of option_or
rpc_port_test = refl

abbrev fresh_db : List (Bytes × Block)
unfolding to_be_bytes genesis
fresh_db = (to_be_bytes 0, genesis) ∷ []

main_lem_example :
    let index = validator_index_of args env in
    let result = main {Sw = ℕ} {Peer = ℕ} crates sled parse_addr args env [] 1 0 in
    (index < 3
      × ((l : Launched (List (Bytes × Block)) ℕ ℕ ℕ) × (result ≡ some l)
          × IsUp crates sled parse_addr args env index [] [] fresh_db l))
    ⊎ (3 ≤ index × result ≡ none)
unfolding load_all_blocks decode_all sort_by_height save_block fresh_db
main_lem_example = main_lem crates sled parse_addr args env [] fresh_db [] 1 0 refl refl

decimal_test : to_decimal 1207 ≡ b'1' ∷ b'2' ∷ b'0' ∷ b'7' ∷ []
unfolding to_decimal digits
decimal_test = refl
