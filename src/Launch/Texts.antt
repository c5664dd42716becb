-- ===== src/Launch/Texts.antt =====
-- What src/main.rs uses of texts of the standard library: `parse` of unsigned numbers, `split` at a
-- character and `trim`.
use vela_network.Common.{
  ℕ, ◌+◌, ◌-◌, ◌*◌, Bool, Option, none, some, List, [], ◌∷◌, Text, ◌==◌, leb, ltb, ◌&&◌, ◌||◌,
  if◌then◌else◌,
}

-- `to_digit(10)`
unfoldable pub to_digit : ℕ → Option ℕ
to_digit c = if leb b'0' c && leb c b'9' then some (c - b'0') else none

-- the loop of `from_str` of an unsigned type whose values are below `limit`
unfoldable pub parse_digits : ℕ → ℕ → Text → Option ℕ
unfolding to_digit
parse_digits limit acc [] = some acc
parse_digits limit acc (c ∷ cs) = elim (to_digit c) [
  | none ↦ none
  | some d ↦
      let rest = parse_digits limit (acc * 10 + d) cs in
      if ltb (acc * 10 + d) limit then rest else none
]

-- `from_str`: one digit at least, after a "+" that may stand in front
unfoldable pub parse_unsigned : ℕ → Text → Option ℕ
unfolding parse_digits
parse_unsigned limit [] = none
parse_unsigned limit (c ∷ []) = parse_digits limit 0 (c ∷ [])
parse_unsigned limit (c ∷ d ∷ ds) =
    if c == b'+' then parse_digits limit 0 (d ∷ ds) else parse_digits limit 0 (c ∷ d ∷ ds)

-- a character more in the first part
unfoldable pub onto_first : ℕ → List Text → List Text
onto_first c [] = (c ∷ []) ∷ []
onto_first c (t ∷ ts) = (c ∷ t) ∷ ts

-- `split(c)`: the parts between the occurrences of a character, one part at least
unfoldable pub split_on : ℕ → Text → List Text
unfolding onto_first
split_on c [] = [] ∷ []
split_on c (d ∷ ds) = let rest = split_on c ds in if d == c then [] ∷ rest else onto_first d rest

-- `char::is_whitespace`, the property White_Space of Unicode
unfoldable pub is_whitespace : ℕ → Bool
is_whitespace c =
    leb 9 c && leb c 13
    || c == 32
    || c == 133
    || c == 160
    || c == 5760
    || leb 8192 c && leb c 8202
    || c == 8232
    || c == 8233
    || c == 8239
    || c == 8287
    || c == 12288

unfoldable pub trim_start : Text → Text
unfolding is_whitespace
trim_start [] = []
trim_start (c ∷ cs) = if is_whitespace c then trim_start cs else c ∷ cs

-- a character in front of a text whose end is trimmed
unfoldable pub before : ℕ → Text → Text
unfolding is_whitespace
before c [] = if is_whitespace c then [] else c ∷ []
before c (d ∷ ds) = c ∷ d ∷ ds

unfoldable pub trim_end : Text → Text
unfolding before
trim_end [] = []
trim_end (c ∷ cs) = before c (trim_end cs)

-- `trim()`
unfoldable pub trim : Text → Text
unfolding trim_start trim_end
trim t = trim_end (trim_start t)
