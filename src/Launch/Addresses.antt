-- ===== src/Launch/Addresses.antt =====
-- The addresses that `main` of src/main.rs dials at first.
use mathlib.Core.List.{append_assoc, append-nil}
use vela_network.Common.{
  ℕ, ◌≡◌, ◌≢◌, inl, inr, refl, sym, ap, ◌∙◌, Option, none, some, Option-cases, Bool-cases, List, [],
  ◌∷◌, ◌++◌, map, Text, All, arith, ◌==◌,
}
use vela_network.Launch.{
  onto_first, split_on, trim, Args, Env, filter_map, push_entry, push_entries, push_hardcoded,
  push_variable, bootstrap_peers_of,
}

-- The texts that are not empty.
abbrev pub non_empty : List Text → List Text
non_empty [] = []
non_empty ([] ∷ ts) = non_empty ts
non_empty ((c ∷ cs) ∷ ts) = (c ∷ cs) ∷ non_empty ts

-- The entries of a variable with addresses.
abbrev pub entries : Option Text → List Text
entries none = []
entries (some v) = non_empty (map trim (split_on b',' v))

-- Texts, each after the first behind the character.
abbrev pub join : ℕ → List Text → Text
join c [] = []
join c (t ∷ []) = t
join c (t ∷ u ∷ us) = t ++ c ∷ join c (u ∷ us)

abbrev pub IsFree : ℕ → Text → Type 0
IsFree c = All (λ d. d ≢ c)

split_on-free : (c : ℕ) (t : Text) → IsFree c t → split_on c t ≡ t ∷ []
unfolding split_on onto_first
split_on-free c [] h = refl
split_on-free c (d ∷ ds) h = elim (Bool-cases (d == c)) [
  | inl q ↦ ground arith
  | inr q ↦ rw (q, split_on, split_on-free c ds h.1) refl
]

split_on-append : (c : ℕ) (t u : Text) → IsFree c t → split_on c (t ++ c ∷ u) ≡ t ∷ split_on c u
unfolding split_on onto_first
split_on-append c [] u h = ground arith
split_on-append c (d ∷ ds) u h = elim (Bool-cases (d == c)) [
  | inl q ↦ ground arith
  | inr q ↦ rw (q, split_on, split_on-append c ds u h.1) refl
]

-- Splitting undoes joining, for parts without the character.
split_on-join :
    (c : ℕ) (t : Text) (ts : List Text)
    → All (IsFree c) (t ∷ ts)
    → split_on c (join c (t ∷ ts)) ≡ t ∷ ts
split_on-join c t [] h = split_on-free c t h.0
split_on-join c t (u ∷ us) h =
    split_on-append c t (join c (u ∷ us)) h.0 ∙ ap (λ l. t ∷ l) (split_on-join c u us h.1)

-- What an operator writes for an address.
pub record IsEntry (t : Text) : Type 0 where
  pub free : IsFree b',' t
  pub trimmed : trim t ≡ t
  pub filled : t ≢ []

non_empty-IsEntry : (ts : List Text) → All IsEntry ts → non_empty (map trim ts) ≡ ts
non_empty-IsEntry [] h = refl
non_empty-IsEntry ([] ∷ ts) h = absurd (h.0.filled refl)
non_empty-IsEntry ((c ∷ cs) ∷ ts) h =
    rw h.0.trimmed (ap (λ l. (c ∷ cs) ∷ l) (non_empty-IsEntry ts h.1))

entries-IsFree : (ts : List Text) → All IsEntry ts → All (IsFree b',') ts
entries-IsFree [] h = tt
entries-IsFree (t ∷ ts) h = (h.0.free, entries-IsFree ts h.1)

module _ {Addr : Type 0} (parse_addr : Text → Option Addr) where
  filter_map-append :
      (ts us : List Text)
      → filter_map parse_addr (ts ++ us) ≡ filter_map parse_addr ts ++ filter_map parse_addr us
  unfolding filter_map
  filter_map-append [] us = refl
  filter_map-append (t ∷ ts) us = elim (Option-cases (parse_addr t)) [
    | inl e ↦ rw (e, filter_map) (filter_map-append ts us)
    | inr (a, e) ↦ rw (e, filter_map) (ap (λ l. a ∷ l) (filter_map-append ts us))
  ]

  push_entry_lem :
      (peers : List Addr) (t : Text)
      → push_entry parse_addr peers t ≡ peers ++ filter_map parse_addr (non_empty (t ∷ []))
  unfolding push_entry filter_map
  push_entry_lem peers [] = sym (append-nil peers)
  push_entry_lem peers (c ∷ cs) = elim (Option-cases (parse_addr (c ∷ cs))) [
    | inl e ↦ rw (e, push_entry) (sym (append-nil peers))
    | inr (a, e) ↦ rw (e, push_entry) refl
  ]

  non_empty-cons :
      (t : Text) (ts : List Text) → non_empty (t ∷ ts) ≡ non_empty (t ∷ []) ++ non_empty ts
  non_empty-cons [] ts = refl
  non_empty-cons (c ∷ cs) ts = refl

  push_entries_lem :
      (peers : List Addr) (ts : List Text)
      → push_entries parse_addr peers ts ≡ peers ++ filter_map parse_addr (non_empty (map trim ts))
  unfolding push_entries filter_map
  push_entries_lem peers [] = sym (append-nil peers)
  push_entries_lem peers (t ∷ ts) =
      let rest = non_empty (map trim ts) in
      push_entries_lem (push_entry parse_addr peers (trim t)) ts
      ∙ ap (λ l. l ++ filter_map parse_addr rest) (push_entry_lem peers (trim t))
      ∙ append_assoc peers (filter_map parse_addr (non_empty (trim t ∷ [])))
          (filter_map parse_addr rest)
      ∙ ap (λ l. peers ++ l) (sym (filter_map-append (non_empty (trim t ∷ [])) rest))
      ∙ ap (λ l. peers ++ filter_map parse_addr l) (sym (non_empty-cons (trim t) (map trim ts)))

  -- The addresses to dial are, in order, those of the arguments and of the trimmed, non-empty entries
  -- of the variable that can be read: an entry that cannot be read is passed over, and takes none of
  -- the others with it.
  bootstrap_peers_of_lem :
      (args : Args) (env : Env)
      → bootstrap_peers_of parse_addr args env
        ≡ filter_map parse_addr (args.bootstrap ++ entries env.bootstrap_addr)
  unfolding bootstrap_peers_of push_variable push_hardcoded filter_map
  bootstrap_peers_of_lem args env = elim (Option-cases env.bootstrap_addr) [
    | inl e ↦ rw (e, push_variable) (ap (filter_map parse_addr) (sym (append-nil args.bootstrap)))
    | inr (v, e) ↦
        rw (e, push_variable)
          (push_entries_lem (filter_map parse_addr args.bootstrap) (split_on b',' v)
            ∙ sym (filter_map-append args.bootstrap (entries (some v))))
  ]

  filter_map-read :
      (ts : List Text) (as_ : List Addr)
      → map parse_addr ts ≡ map some as_
      → filter_map parse_addr ts ≡ as_
  unfolding filter_map
  filter_map-read [] [] e = refl
  filter_map-read [] (a ∷ as_) e = ground arith
  filter_map-read (t ∷ ts) [] e = ground arith
  filter_map-read (t ∷ ts) (a ∷ as_) e =
      let first : parse_addr t ≡ some a = cc in
      let rest : map parse_addr ts ≡ map some as_ = cc in
      rw (first, filter_map) (ap (λ l. a ∷ l) (filter_map-read ts as_ rest))

  -- A variable that holds the texts of addresses, separated by commas, gives exactly those addresses
  -- after those of the arguments, if no text has a comma, is empty or has space around it.
  bootstrap_peers_of-join :
      (args : Args) (env : Env) (t : Text) (ts : List Text) (as_ : List Addr)
      → env.bootstrap_addr ≡ some (join b',' (t ∷ ts))
      → All IsEntry (t ∷ ts)
      → map parse_addr (t ∷ ts) ≡ map some as_
      → bootstrap_peers_of parse_addr args env ≡ filter_map parse_addr args.bootstrap ++ as_
  bootstrap_peers_of-join args env t ts as_ e h read =
      let given : entries env.bootstrap_addr ≡ t ∷ ts =
        ap entries e
        ∙ ap (λ l. non_empty (map trim l)) (split_on-join b',' t ts (entries-IsFree (t ∷ ts) h))
        ∙ non_empty-IsEntry (t ∷ ts) h in
      bootstrap_peers_of_lem args env
      ∙ ap (λ l. filter_map parse_addr (args.bootstrap ++ l)) given
      ∙ filter_map-append args.bootstrap (t ∷ ts)
      ∙ ap (λ l. filter_map parse_addr args.bootstrap ++ l) (filter_map-read (t ∷ ts) as_ read)
