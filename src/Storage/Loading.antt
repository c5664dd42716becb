-- ===== src/Storage/Loading.antt =====
-- What is saved in the order of heights is loaded as it was saved (src/storage/db.rs).
use native.Mathlib.Nat.{pow-suc}
use vela_network.Common.{
  ℕ, zero, suc, ◌+◌, ◌/◌, ◌%◌, ◌^◌, ◌≤◌, ◌<◌, ◌≡◌, refl, ap, some, List, [], ◌∷◌, push, Bytes, true,
  le→leb, All, All-append, >>=-eq-some, arith, u64_mod, inl, inr, ◌⊎◌,
}
use vela_network.Types.{Block}
use vela_network.Storage.{
  Sled, IsLawfulSled, key_lt, be_bytes, to_be_bytes, sort_by_height, save_block, decode_all,
  load_all_blocks,
}

-- Big-endian keys of one width compare as their numbers: first the lower bytes decide only between
-- equal higher bytes.
key_lt-be_bytes :
    (k m n : ℕ) (s t : Bytes)
    → m < 256 ^ k
    → n < 256 ^ k
    → (m < n) ⊎ ((m ≡ n) × (key_lt s t ≡ true))
    → key_lt (be_bytes k m s) (be_bytes k n t) ≡ true
unfolding be_bytes key_lt
key_lt-be_bytes zero m n s t p q h = elim h [ inl l ↦ absurd (omega arith) | inr (e, l) ↦ l ]
key_lt-be_bytes (suc k) m n s t p q h =
    key_lt-be_bytes k (m / 256) (n / 256) ((m % 256) ∷ s) ((n % 256) ∷ t)
      (omega (arith, pow-suc 256 k)) (omega (arith, pow-suc 256 k)) (ground arith)

-- Keys compare as the heights that they encode.
key_lt-to_be_bytes : (m n : ℕ) → m < n → n < u64_mod → key_lt (to_be_bytes m) (to_be_bytes n) ≡ true
unfolding to_be_bytes
key_lt-to_be_bytes m n l b = key_lt-be_bytes 8 m n [] [] (omega arith) b (inl l)

-- The heights rise along the list, from `lo` on.
abbrev pub IsRising : ℕ → List Block → Type 0
IsRising lo [] = Unit {0}
IsRising lo (b ∷ bs) = (lo ≤ b.header.height) × IsRising b.header.height bs

abbrev pub Under : ℕ → Block → Type 0
Under hi b = b.header.height < hi

push-IsRising :
    (lo : ℕ) (bs : List Block) (b : Block)
    → IsRising lo bs
    → All (Under b.header.height) bs
    → lo ≤ b.header.height
    → IsRising lo (push bs b)
push-IsRising lo [] b r u l = (l, tt)
push-IsRising lo (c ∷ bs) b r u l = (r.0, push-IsRising c.header.height bs b r.1 u.1 (omega arith))

sort_of_IsRising : (lo : ℕ) (bs : List Block) → IsRising lo bs → sort_by_height bs ≡ bs
unfolding sort_by_height
sort_of_IsRising lo [] r = refl
sort_of_IsRising lo (b ∷ []) r = refl
sort_of_IsRising lo (b ∷ c ∷ bs) r =
    rw (sort_of_IsRising b.header.height (c ∷ bs) r.1) (rw (le→leb _ _ r.1.0) refl)

Under-mono : (lo hi : ℕ) (bs : List Block) → lo ≤ hi → All (Under lo) bs → All (Under hi) bs
Under-mono lo hi [] l u = tt
Under-mono lo hi (b ∷ bs) l u = (omega arith, Under-mono lo hi bs l u.1)

module _ {Db Val : Type 0} (s : Sled Db Val) where
  -- The key encodes a height below the bound.
  abbrev pub KeyUnder : ℕ → Bytes × Val → Type 0
  KeyUnder hi (k, v) = (h : ℕ) × (k ≡ to_be_bytes h) × (h < hi)

  -- The tree holds these blocks, all of heights under the bound, in the order of their heights.
  pub record IsStored (db : Db) (blocks : List Block) (hi : ℕ) : Type 0 where
    pub entries : List (Bytes × Val)
    pub listed : s.iter db ≡ some entries
    pub decoded : decode_all s entries ≡ some blocks
    pub keyed : All (KeyUnder hi) entries
    pub rising : IsRising 0 blocks
    pub under : All (Under hi) blocks

  decode_all-push :
      (l : List (Bytes × Val)) (bs : List Block) (k : Bytes) (v : Val) (b : Block)
      → decode_all s l ≡ some bs
      → s.deserialize_block v ≡ some b
      → decode_all s (push l (k, v)) ≡ some (push bs b)
  unfolding decode_all
  decode_all-push [] bs k v b e d = rw d (ground arith)
  decode_all-push ((j, w) ∷ l) bs k v b e d =
      let (c, c_read, e₁) = >>=-eq-some (s.deserialize_block w) _ e in
      let (cs, rest, e₂) = >>=-eq-some (decode_all s l) _ e₁ in
      ground (arith, decode_all-push l cs k v b rest d)

  keys_below :
      (l : List (Bytes × Val)) (lo h : ℕ)
      → All (KeyUnder lo) l
      → lo ≤ h
      → h < u64_mod
      → All (λ e. key_lt e.0 (to_be_bytes h) ≡ true) l
  keys_below [] lo h u p b = tt
  keys_below ((k, v) ∷ l) lo h ((i, e, q), u) p b =
      (rw e (key_lt-to_be_bytes i h (omega arith) b), keys_below l lo h u p b)

  KeyUnder-mono :
      (lo hi : ℕ) (l : List (Bytes × Val)) → lo ≤ hi → All (KeyUnder lo) l → All (KeyUnder hi) l
  KeyUnder-mono lo hi [] p u = tt
  KeyUnder-mono lo hi ((k, v) ∷ l) p ((i, e, q), u) =
      ((i, e, omega arith), KeyUnder-mono lo hi l p u)

  module _ (laws : IsLawfulSled s) where
    -- Saving a block above all heights that are stored, and below 2 ^ 64, adds it at the end, in a
    -- tree that iterates by key as documented.
    pub save_block-IsStored :
        (db db' : Db) (blocks : List Block) (b : Block) (hi : ℕ)
        → IsStored db blocks hi
        → hi ≤ b.header.height
        → b.header.height < u64_mod
        → save_block s db b ≡ some db'
        → IsStored db' (push blocks b) (b.header.height + 1)
    unfolding save_block
    save_block-IsStored db db' blocks b hi st above bound e =
        let (v, written, e₁) = >>=-eq-some (s.serialize_block b) _ e in
        let h = b.header.height in
        record {
          entries = push st.entries (to_be_bytes h, v);
          listed =
              laws.iter-insert_entry db db' (to_be_bytes h) v st.entries e₁ st.listed
                (keys_below st.entries hi h st.keyed above bound);
          decoded =
              decode_all-push st.entries blocks (to_be_bytes h) v b st.decoded
                (laws.deserialize-serialize b v written);
          keyed =
              All-append (KeyUnder (h + 1)) st.entries ((to_be_bytes h, v) ∷ [])
                (KeyUnder-mono hi (h + 1) st.entries (omega arith) st.keyed)
                ((h, refl, omega arith), tt);
          rising =
              push-IsRising 0 blocks b st.rising (Under-mono hi h blocks above st.under)
                (omega arith);
          under =
              All-append (Under (h + 1)) blocks (b ∷ [])
                (Under-mono hi (h + 1) blocks (omega arith) st.under) (omega arith, tt);
        }

  -- The blocks that are stored are those that are loaded, in the order of their heights.
  pub load_all_blocks-IsStored :
      (db : Db) (blocks : List Block) (hi : ℕ)
      → IsStored db blocks hi
      → load_all_blocks s db ≡ some blocks
  unfolding load_all_blocks
  load_all_blocks-IsStored db blocks hi st =
      rw st.listed (rw st.decoded (ap some (sort_of_IsRising 0 blocks st.rising)))
