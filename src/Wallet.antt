-- ===== src/Wallet.antt =====
-- src/bin/vela-cli.rs: the wallet of the command line. The file system, serde_json and the HTTP client
-- are parameters; `none` is an error or a panic, either of which ends the program.
mod Decimal
unfoldable pub use Decimal.*
pub mod Numbers
pub mod Own
use vela_network.Common.{
  ℕ, ◌≡◌, Bool, true, false, Option, none, some, List, [], ◌∷◌, ◌++◌, Bytes, Text, length, ◌==◌,
  if◌then◌else◌, ◌>>=◌,
}
use vela_network.Types.{Crates, vela_prefix}

pub record WalletFile : Type 0 where
  pub secret_key_hex : Text
  pub public_key_hex : Text
  pub address : Text

-- What the wallet calls: reading and writing of the file at a path, in a file system of states
-- `Files`, where the test says whether the write succeeded; serde_json; and the body that a GET of a
-- URL gives.
pub record System (Files : Type 0) : Type 0 where
  pub read_to_string : Files → Text → Option Text
  pub write : Files → Text → Text → Files × Bool
  pub to_json : WalletFile → Option Text
  pub from_json : Text → Option WalletFile
  pub get : Text → Option Text

-- What these document: a file that was written is read back, and serde reads what it wrote.
pub record IsLawfulSystem {Files : Type 0} (y : System Files) : Type 0 where
  pub read_to_string-write :
      (files files' : Files) (path t : Text)
      → y.write files path t ≡ (files', true)
      → y.read_to_string files' path ≡ some t
  pub from_json-to_json :
      (w : WalletFile) (t : Text) → y.to_json w ≡ some t → y.from_json t ≡ some w

pub data Commands : Type 0 where
  new_wallet : Commands
  address : Commands
  balance : Option Text → Commands
  status : Commands
  block : ℕ → Commands

pub record Cli : Type 0 where
  pub rpc : Text
  pub command : Commands

-- What a command prints: the lines about a new wallet, the line with the address, and the body of an
-- answer.
pub data Printed : Type 0 where
  created own_address body : Text → Printed

-- `wallet_path`: "wallet.json"
abbrev pub wallet_path : Text
wallet_path = b'w' ∷ b'a' ∷ b'l' ∷ b'l' ∷ b'e' ∷ b't' ∷ b'.' ∷ b'j' ∷ b's' ∷ b'o' ∷ b'n' ∷ []

-- "/balance/", "/status" and "/block/"
abbrev pub balance_path : Text
balance_path = b'/' ∷ b'b' ∷ b'a' ∷ b'l' ∷ b'a' ∷ b'n' ∷ b'c' ∷ b'e' ∷ b'/' ∷ []

abbrev pub status_path : Text
status_path = b'/' ∷ b's' ∷ b't' ∷ b'a' ∷ b't' ∷ b'u' ∷ b's' ∷ []

abbrev pub block_path : Text
block_path = b'/' ∷ b'b' ∷ b'l' ∷ b'o' ∷ b'c' ∷ b'k' ∷ b'/' ∷ []

module _ (x : Crates) where
  -- the address and the file of a new wallet
  unfoldable pub wallet_address : Bytes → Text
  wallet_address secret = vela_prefix ++ x.hex_encode (x.verifying_key secret)

  unfoldable pub wallet_file : Bytes → WalletFile
  unfolding wallet_address
  wallet_file secret = record {
    secret_key_hex = x.hex_encode secret;
    public_key_hex = x.hex_encode (x.verifying_key secret);
    address = wallet_address secret;
  }

  module _ {Files : Type 0} (y : System Files) where
    -- `load_wallet`: the key and the address
    unfoldable pub load_wallet : Files → Option (Bytes × Text)
    load_wallet files = do
      data_ ← y.read_to_string files wallet_path
      wf ← y.from_json data_
      secret_bytes ← x.hex_decode wf.secret_key_hex
      if length secret_bytes == 32 then some (secret_bytes, wf.address) else none

    unfoldable pub create : Files → Bytes → Files × Option Printed
    unfolding wallet_file wallet_address
    create files secret = elim (y.to_json (wallet_file secret)) [
      | none ↦ (files, none)
      | some json ↦
          let (files', done) = y.write files wallet_path json in
          (files', if done then some (created (wallet_address secret)) else none)
    ]

    unfoldable pub show_address : Files → Option Printed
    unfolding load_wallet
    show_address files = do (_, a) ← load_wallet files; some (own_address a)

    -- the address whose balance is asked for
    unfoldable pub address_or_own : Files → Option Text → Option Text
    unfolding load_wallet
    address_or_own files (some a) = some a
    address_or_own files none = do (_, a) ← load_wallet files; some a

    unfoldable pub fetch : Text → Option Printed
    fetch url = do resp ← y.get url; some (body resp)

    unfoldable pub show_balance : Files → Text → Option Text → Option Printed
    unfolding address_or_own fetch
    show_balance files rpc given = do
      addr ← address_or_own files given
      fetch (rpc ++ (balance_path ++ addr))

    -- `main`, with the 32 bytes that the generator of the system draws for a new wallet
    unfoldable pub execute : Files → Bytes → Cli → Files × Option Printed
    unfolding create show_address show_balance fetch to_decimal
    execute files secret cli = elim cli.command [
      | new_wallet ↦ create files secret
      | address ↦ (files, show_address files)
      | balance given ↦ (files, show_balance files cli.rpc given)
      | status ↦ (files, fetch (cli.rpc ++ status_path))
      | block height ↦ (files, fetch (cli.rpc ++ (block_path ++ to_decimal height)))
    ]
