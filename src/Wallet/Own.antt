-- ===== src/Wallet/Own.antt =====
-- The wallet that `new-wallet` of src/bin/vela-cli.rs writes, and what the other commands make of it.
use vela_network.Common.{
  ℕ, zero, suc, ◌≡◌, refl, ap, ◌∙◌, true, Bool-cases, inl, inr, Option, none, some, Option-cases,
  [], ◌∷◌, ◌++◌, Bytes, Text, All, IsArray32, length, arith, leb, ◌&&◌, ◌||◌,
}
use vela_network.Types.{Crates, IsLawful, address_of_key, address_to_hex, vela_prefix}
use vela_network.Crypto.{generate}
use vela_network.State.{WorldState, nonce}
use vela_network.State
use vela_network.Rpc.{strip_prefix, trim_rounds, trim_vela}
use vela_network.Rpc.Faucet.{trim_vela_lem}
use vela_network.Rpc.Queries.{read_address, get_balance}
use vela_network.Wallet.{
  wallet_path, System, IsLawfulSystem, Cli, new_wallet, balance, Printed, created, balance_path,
  wallet_address, wallet_file, load_wallet, create, address_or_own, fetch, show_balance, execute,
}

-- What hex documents of the texts that it writes: decimal digits and the letters from "a" to "f".
abbrev pub IsHexDigit : ℕ → Type 0
IsHexDigit c = (leb b'0' c && leb c b'9' || leb b'a' c && leb c b'f') ≡ true

abbrev pub WritesHex : Crates → Type 0
WritesHex x = (b : Bytes) → All IsHexDigit (x.hex_encode b)

strip_prefix-hex : (t : Text) → All IsHexDigit t → strip_prefix vela_prefix t ≡ none
unfolding strip_prefix
strip_prefix-hex [] h = refl
strip_prefix-hex (c ∷ cs) h = ground arith

trim_rounds-none : (k : ℕ) (t : Text) → strip_prefix vela_prefix t ≡ none → trim_rounds k t ≡ t
unfolding trim_rounds
trim_rounds-none zero t e = refl
trim_rounds-none (suc k) t e = rw (e, trim_rounds) refl

-- Digits behind the prefix are what trimming leaves.
trim_vela-hex : (t : Text) → All IsHexDigit t → trim_vela (vela_prefix ++ t) ≡ t
trim_vela-hex t h =
    (trim_vela_lem t).1 ∙ (unfold trim_vela in trim_rounds-none (length t) t (strip_prefix-hex t h))

no_answer : {A B : Type 0} {a b : A} {p : B} → ◌≡◌ {A = A × Option B} (a, none) (b, some p) → ⊥
no_answer e = let q = ap (λ r. r.1) e in ground arith

answered :
    {A B : Type 0} {a b : A} {p q : B}
    → ◌≡◌ {A = A × Option B} (a, some p) (b, some q)
    → (a ≡ b) × (q ≡ p)
answered e = let q = ap (λ r. r.1) e in (ap (λ r. r.0) e, cc)

pair_eq : {A B : Type 0} {p : A × B} {a : A} {b : B} → p.0 ≡ a → p.1 ≡ b → p ≡ (a, b)
pair_eq e f = λ i. (e i, f i)

module _ {Files : Type 0} (x : Crates) (y : System Files) where
  create_inv :
      (files : Files) (secret : Bytes) {files' : Files} {printed : Printed}
      → create x y files secret ≡ (files', some printed)
      → (json : Text) × (y.to_json (wallet_file x secret) ≡ some json)
        × (y.write files wallet_path json ≡ (files', true))
        × (printed ≡ created (wallet_address x secret))
  unfolding create
  create_inv files secret e = elim (Option-cases (y.to_json (wallet_file x secret))) [
    | inl q ↦ absurd (no_answer (rw (q, create) at e))
    | inr (json, q) ↦ elim (Bool-cases (y.write files wallet_path json).1) [
      | inl done ↦
          let (stored, shown) = answered (rw (q, done, create) at e) in
          (json, q, pair_eq stored done, shown)
      | inr failed ↦ absurd (no_answer (rw (q, failed, create) at e))
    ]
  ]

  module _ (laws : IsLawful x) where
    read_address-hex :
        WritesHex x
        → (secret : Bytes) → IsArray32 (x.verifying_key secret)
        → read_address x (address_to_hex x (generate x secret).address)
          ≡ (generate x secret).address
    unfolding read_address generate address_to_hex address_of_key
    read_address-hex hex secret h =
        let key = x.verifying_key secret in
        let read : x.hex_decode (trim_vela (vela_prefix ++ x.hex_encode key)) ≡ some key =
          ap x.hex_decode (trim_vela-hex (x.hex_encode key) (hex key))
          ∙ laws.hex_decode-hex_encode key h.1 in
        rw (read, h.0, read_address) refl

  module _ (laws : IsLawful x) (fair : IsLawfulSystem y) where
    -- After `new-wallet` succeeded, the file gives back the key that was drawn, with the address of
    -- its key pair, which is what was shown.
    pub load_wallet-execute :
        (files files' : Files) (secret : Bytes) (cli : Cli) (printed : Printed)
        → IsArray32 secret
        → cli.command ≡ new_wallet
        → execute x y files secret cli ≡ (files', some printed)
        → let shown = address_to_hex x (generate x secret).address in
          (load_wallet x y files' ≡ some (secret, shown)) × (printed ≡ created shown)
    unfolding execute load_wallet wallet_file wallet_address generate address_to_hex address_of_key
    load_wallet-execute files files' secret cli printed h c e =
        let (json, written, stored, shown) = create_inv files secret (rw (c, execute) at e) in
        (
          rw
              (
                fair.read_to_string-write files files' wallet_path json stored,
                fair.from_json-to_json (wallet_file x secret) json written,
                laws.hex_decode-hex_encode secret h.1,
                h.0,
              )
              refl,
          shown,
        )

    -- After `new-wallet` succeeded, `balance` without an address asks the server, in a path that
    -- reads as the account of the new key, and the node answers with the balance and the nonce of that
    -- account.
    pub get_balance-execute :
        (files files' : Files) (secret other : Bytes) (cli ask : Cli) (printed : Printed)
        → WritesHex x
        → IsArray32 secret
        → IsArray32 (x.verifying_key secret)
        → cli.command ≡ new_wallet
        → execute x y files secret cli ≡ (files', some printed)
        → ask.command ≡ balance none
        → (own : Text) × (execute x y files' other ask
            ≡ (files', fetch x y (ask.rpc ++ (balance_path ++ own))))
          × ((ws : WorldState)
              → let mine = (generate x secret).address in
                get_balance x ws own ≡ (State.balance x ws mine, nonce x ws mine))
    unfolding execute show_balance address_or_own generate address_to_hex address_of_key get_balance
        read_address
    get_balance-execute files files' secret other cli ask printed hex h v c e a =
        let (loaded, shown) = load_wallet-execute files files' secret cli printed h c e in
        let own = address_to_hex x (generate x secret).address in
        (own, rw (a, loaded) refl, λ ws. rw (read_address-hex laws hex secret v) refl)
