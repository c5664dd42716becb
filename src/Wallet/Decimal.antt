-- ===== src/Wallet/Decimal.antt =====
-- `Display` of a u64, with which src/bin/vela-cli.rs writes a height into a URL.
use vela_network.Common.{ℕ, zero, suc, ◌+◌, ◌/◌, ◌%◌, [], ◌∷◌, Text, ◌==◌, if◌then◌else◌}

-- the digits of a number in front of a text, at most as many as the fuel
unfoldable pub digits : ℕ → ℕ → Text → Text
digits zero n rest = rest
digits (suc k) n rest =
    let more = digits k (n / 10) ((b'0' + n % 10) ∷ rest) in
    if n / 10 == 0 then (b'0' + n % 10) ∷ rest else more

-- a u64 has twenty digits at most
unfoldable pub to_decimal : ℕ → Text
unfolding digits
to_decimal n = digits 20 n []
