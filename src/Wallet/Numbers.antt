-- ===== src/Wallet/Numbers.antt =====
-- A number in a URL of the wallet (src/bin/vela-cli.rs) is the one that the server reads from it.
use vela_network.Common.{
  ℕ, zero, suc, ◌+◌, ◌*◌, ◌/◌, ◌%◌, ◌^◌, ◌≤◌, ◌<◌, ◌≡◌, refl, sym, ap, true, false, ltb, ◌∙◌, some,
  [], ◌∷◌, Text, ◌==◌, arith, u64_mod, inl, inr, Bool-cases,
}
use vela_network.Launch.{to_digit, parse_digits, parse_unsigned}
use vela_network.Wallet.{digits, to_decimal}

lt→ltb : (a b : ℕ) → a < b → ltb a b ≡ true
lt→ltb a b h = ground arith

to_digit_lem : (d : ℕ) → d < 10 → to_digit (b'0' + d) ≡ some d
unfolding to_digit
to_digit_lem d h = ground arith

parse_digit :
    (limit acc d : ℕ) (t : Text)
    → d < 10
    → acc * 10 + d < limit
    → parse_digits limit acc ((b'0' + d) ∷ t) ≡ parse_digits limit (acc * 10 + d) t
unfolding parse_digits
parse_digit limit acc d t h k =
    rw (to_digit_lem d h, parse_digits) (rw (lt→ltb (acc * 10 + d) limit k) refl)

more_digits : (k n : ℕ) → n < 10 ^ suc k → (n / 10 == 0) ≡ false → (0 < k) × (n / 10 < 10 ^ k)
more_digits zero n h q = ground arith
more_digits (suc k) n h q = (omega arith, omega arith)

parse_digits-digits :
    (limit k n : ℕ) (t : Text)
    → n < limit
    → n < 10 ^ k
    → 0 < k
    → parse_digits limit 0 (digits k n t) ≡ parse_digits limit n t
unfolding digits
parse_digits-digits limit zero n t h l p = absurd (omega arith)
parse_digits-digits limit (suc k) n t h l p = elim (Bool-cases (n / 10 == 0)) [
  | inl q ↦
      rw (q, digits)
        (parse_digit limit 0 (n % 10) t (omega arith) (omega arith)
          ∙ ap (λ m. parse_digits limit m t) (ground arith))
  | inr q ↦
      let (some_left, bound) = more_digits k n l q in
      rw (q, digits)
        (parse_digits-digits limit k (n / 10) ((b'0' + n % 10) ∷ t) (omega arith) bound some_left
          ∙ parse_digit limit (n / 10) (n % 10) t (omega arith) (omega arith)
          ∙ ap (λ m. parse_digits limit m t) (omega arith))
]

-- The first character is a digit.
digits-starts :
    (k n : ℕ) (t : Text) → 0 < k → (c : ℕ) × (u : Text) × (b'0' ≤ c) × (digits k n t ≡ c ∷ u)
unfolding digits
digits-starts zero n t p = absurd (omega arith)
digits-starts (suc zero) n t p = (b'0' + n % 10, t, omega arith, ground arith)
digits-starts (suc (suc j)) n t p = elim (Bool-cases (n / 10 == 0)) [
  | inl q ↦ (b'0' + n % 10, t, omega arith, rw (q, digits) refl)
  | inr q ↦
      let (c, u, h, e) = digits-starts (suc j) (n / 10) ((b'0' + n % 10) ∷ t) (omega arith) in
      (c, u, h, rw (q, digits) e)
]

parse_unsigned-digit :
    (limit c : ℕ) (u : Text)
    → b'0' ≤ c
    → parse_unsigned limit (c ∷ u) ≡ parse_digits limit 0 (c ∷ u)
unfolding parse_unsigned
parse_unsigned-digit limit c [] h = refl
parse_unsigned-digit limit c (d ∷ ds) h = ground arith

parse_unsigned-digits :
    (limit k n : ℕ) → n < limit → n < 10 ^ k → 0 < k → parse_unsigned limit (digits k n []) ≡ some n
unfolding parse_digits
parse_unsigned-digits limit k n h l p =
    let (c, u, digit, e) = digits-starts k n [] p in
    ap (parse_unsigned limit) e
    ∙ parse_unsigned-digit limit c u digit
    ∙ ap (parse_digits limit 0) (sym e)
    ∙ parse_digits-digits limit k n [] h l p

-- The digits that the wallet writes for a number below 2^64 are read back as that number.
parse_unsigned-to_decimal : (n : ℕ) → n < u64_mod → parse_unsigned u64_mod (to_decimal n) ≡ some n
unfolding to_decimal
parse_unsigned-to_decimal n h = parse_unsigned-digits u64_mod 20 n h (omega arith) (omega arith)
