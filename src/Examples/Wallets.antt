-- ===== src/Examples/Wallets.antt =====
-- The wallet of the command line, with hexadecimal texts, a file of which the contents are a text,
-- and a JSON that writes the three texts of a wallet one after the other.
use vela_network.Examples.Setup.{crates, crates-IsLawful}
use vela_network.Common.Dict.{Dict, lookup, insert, lookup-insert_self}
use vela_network.Common.{
  ℕ, zero, suc, ◌+◌, ◌*◌, ◌/◌, ◌%◌, ◌<◌, ◌≡◌, refl, sym, ap, ◌∙◌, ◌>>=◌, Option, none, some, [],
  ◌∷◌, ◌++◌, Bytes, Text, All, IsByte, IsArray32, replicate, length-replicate, replicate-IsByte,
  true, ltb, if◌then◌else◌, arith,
}
use vela_network.Types.{Crates, IsLawful, address_to_hex}
use vela_network.Crypto.{generate}
use vela_network.State.{WorldState, nonce}
use vela_network.State
use vela_network.Rpc.Queries.{get_balance}
use vela_network.Wallet.{
  WalletFile, System, IsLawfulSystem, Cli, new_wallet, balance, created, balance_path, load_wallet,
  execute, create, wallet_address, fetch,
}
use vela_network.Wallet.Own.{IsHexDigit, WritesHex, load_wallet-execute, get_balance-execute}

hex_digit : ℕ → ℕ
hex_digit d = if ltb d 10 then 48 + d else 87 + d

hex_value : ℕ → ℕ
hex_value c = if ltb c 58 then c % 48 else c % 87

encode : Bytes → Text
encode [] = []
encode (b ∷ bs) = hex_digit (b / 16 % 16) ∷ hex_digit (b % 16) ∷ encode bs

decode : Text → Option Bytes
decode [] = some []
decode (c ∷ []) = none
decode (c ∷ d ∷ ds) = elim (decode ds) [
  | none ↦ none
  | some bs ↦ some ((16 * hex_value c + hex_value d) ∷ bs)
]

hex_value-hex_digit : (d : ℕ) → d < 16 → hex_value (hex_digit d) ≡ d
unfolding hex_value hex_digit
hex_value-hex_digit d h = ground arith

hex_digit-IsHexDigit : (d : ℕ) → d < 16 → IsHexDigit (hex_digit d)
unfolding hex_digit
hex_digit-IsHexDigit d h = ground arith

decode-encode : (b : Bytes) → All IsByte b → decode (encode b) ≡ some b
unfolding encode decode
decode-encode [] h = refl
decode-encode (b ∷ bs) h =
    let high = hex_value-hex_digit (b / 16 % 16) (omega arith) in
    let low = hex_value-hex_digit (b % 16) (omega arith) in
    rw (decode-encode bs h.1, high, low) (ap (λ c. some (c ∷ bs)) (omega (arith, h.0)))

hex_crates : Crates
hex_crates = record crates { hex_encode = encode; hex_decode = decode }

hex_crates-IsLawful : IsLawful hex_crates
unfolding hex_crates crates
hex_crates-IsLawful = record {
  blake3-IsArray32 = λ m. crates-IsLawful.blake3-IsArray32 m;
  hex_decode-hex_encode = decode-encode;
  key_from_bytes-verifying_key = λ k. refl;
  signature_from_slice-sign_message = λ k m. refl;
  verify_signature-sign_message = λ k m. crates-IsLawful.verify_signature-sign_message k m;
}

writes : WritesHex hex_crates
unfolding hex_crates encode
writes [] = tt
writes (b ∷ bs) = (
  hex_digit-IsHexDigit (b / 16 % 16) (omega arith),
  (hex_digit-IsHexDigit (b % 16) (omega arith), writes bs),
)

-- A text with an end mark in front of a text, and back.
mark : Text → Text → Text
mark [] rest = 0 ∷ rest
mark (c ∷ cs) rest = suc c ∷ mark cs rest

unmark : Text → Text × Text
unmark [] = ([], [])
unmark (zero ∷ rest) = ([], rest)
unmark (suc c ∷ rest) = let (t, more) = unmark rest in (c ∷ t, more)

unmark-mark : (t rest : Text) → unmark (mark t rest) ≡ (t, rest)
unfolding mark unmark
unmark-mark [] rest = refl
unmark-mark (c ∷ cs) rest = ap (λ p. (c ∷ p.0, p.1)) (unmark-mark cs rest)

to_json : WalletFile → Text
to_json w = mark w.secret_key_hex (mark w.public_key_hex (mark w.address []))

from_json : Text → WalletFile
from_json t =
    let (secret, more) = unmark t in
    let (public, rest) = unmark more in
    record { secret_key_hex = secret; public_key_hex = public; address = (unmark rest).0 }

from_json-to_json : (w : WalletFile) → from_json (to_json w) ≡ w
unfolding from_json to_json
from_json-to_json w =
    rw
      (
        unmark-mark w.secret_key_hex (mark w.public_key_hex (mark w.address [])),
        unmark-mark w.public_key_hex (mark w.address []),
        unmark-mark w.address [],
      )
      refl

-- Files by their paths.
abbrev system : System (Dict Text)
system = record {
  read_to_string = λ files path. lookup path files;
  write = λ files path t. (insert path t files, true);
  to_json = λ w. some (to_json w);
  from_json = λ t. some (from_json t);
  get = λ url. some url;
}

system-IsLawful : IsLawfulSystem system
system-IsLawful = record {
  read_to_string-write =
      λ files files' path t e. ap (λ p. lookup path p.0) (sym e) ∙ lookup-insert_self path t files;
  from_json-to_json =
      λ w t e. ap (λ o. o >>= λ u. some (from_json u)) (sym e) ∙ ap some (from_json-to_json w);
}

abbrev secret : Bytes
secret = replicate 32 7

secret-IsArray32 : IsArray32 secret
secret-IsArray32 = (length-replicate 32 7, replicate-IsByte 32 7 (omega arith))

abbrev after_new : Dict Text
after_new = (execute hex_crates system [] secret (record { rpc = []; command = new_wallet })).0

abbrev ask : Cli
ask = record { rpc = []; command = balance none }

load_wallet-execute_example :
    let shown = address_to_hex hex_crates (generate hex_crates secret).address in
    (load_wallet hex_crates system after_new ≡ some (secret, shown))
    × (created (wallet_address hex_crates secret) ≡ created shown)
unfolding execute create
load_wallet-execute_example =
    load_wallet-execute hex_crates system hex_crates-IsLawful system-IsLawful [] after_new secret
      (record { rpc = []; command = new_wallet }) (created (wallet_address hex_crates secret))
      secret-IsArray32 refl refl

get_balance-execute_example :
    (own : Text) × (execute hex_crates system after_new [] ask
      ≡ (after_new, fetch hex_crates system ([] ++ (balance_path ++ own))))
    × ((ws : WorldState)
        → let mine = (generate hex_crates secret).address in
          get_balance hex_crates ws own
          ≡ (State.balance hex_crates ws mine, nonce hex_crates ws mine))
unfolding execute create hex_crates crates
get_balance-execute_example =
    get_balance-execute hex_crates system hex_crates-IsLawful system-IsLawful [] after_new secret []
      (record { rpc = []; command = new_wallet }) ask (created (wallet_address hex_crates secret))
      writes secret-IsArray32 secret-IsArray32 refl refl refl
