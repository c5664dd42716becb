-- ===== src/Storage.antt =====
-- src/storage/db.rs: the blocks on disk, in a sled tree keyed by the height in big-endian bytes.
-- sled and bincode are third-party code, and a parameter.
pub mod Loading
use vela_network.Common.{
  ℕ, zero, suc, ◌/◌, ◌%◌, ◌≡◌, Option, none, some, List, [], ◌∷◌, ◌++◌, push, Bytes, Bool, true,
  false, leb, ltb, ◌==◌, if◌then◌else◌, All, ◌>>=◌,
}
use vela_network.Types.{Block}

-- The tree `Db`, and bincode's encoding of blocks as values `Val`. `none` is an error.
pub record Sled (Db Val : Type 0) : Type 0 where
  pub insert_entry : Db → Bytes → Val → Option Db
  pub iter : Db → Option (List (Bytes × Val))
  pub len : Db → ℕ
  pub serialize_block : Block → Option Val
  pub deserialize_block : Val → Option Block

-- The order of keys: by their bytes, from the first.
unfoldable pub key_lt : Bytes → Bytes → Bool
key_lt [] [] = false
key_lt [] (b ∷ bs) = true
key_lt (a ∷ as_) [] = false
key_lt (a ∷ as_) (b ∷ bs) = if ltb a b then true else if a == b then key_lt as_ bs else false

-- What sled and bincode document: what is inserted under a key above all others is last in the
-- iteration, which goes by key; and decoding undoes encoding.
pub record IsLawfulSled {Db Val : Type 0} (s : Sled Db Val) : Type 0 where
  pub iter-insert_entry :
      (db db' : Db) (k : Bytes) (v : Val) (l : List (Bytes × Val))
      → s.insert_entry db k v ≡ some db'
      → s.iter db ≡ some l
      → All (λ e. key_lt e.0 k ≡ true) l
      → s.iter db' ≡ some (push l (k, v))
  pub deserialize-serialize :
      (b : Block) (v : Val) → s.serialize_block b ≡ some v → s.deserialize_block v ≡ some b

-- The last bytes of `x`, the highest first, before `tail`.
unfoldable pub be_bytes : ℕ → ℕ → Bytes → Bytes
be_bytes zero n tail = tail
be_bytes (suc k) n tail = be_bytes k (n / 256) ((n % 256) ∷ tail)

-- `x.to_be_bytes()` of a u64
unfoldable pub to_be_bytes : ℕ → Bytes
unfolding be_bytes
to_be_bytes n = be_bytes 8 n []

-- `blocks.sort_by_key(|b| b.header.height)`, which is stable
unfoldable pub insert_by_height : Block → List Block → List Block
insert_by_height b [] = b ∷ []
insert_by_height b (c ∷ bs) =
    if leb b.header.height c.header.height then b ∷ c ∷ bs else c ∷ insert_by_height b bs

unfoldable pub sort_by_height : List Block → List Block
unfolding insert_by_height
sort_by_height [] = []
sort_by_height (b ∷ bs) = insert_by_height b (sort_by_height bs)

module _ {Db Val : Type 0} (s : Sled Db Val) where
  -- `BlockDb::save_block`
  unfoldable pub save_block : Db → Block → Option Db
  unfolding to_be_bytes
  save_block db block = do
    val ← s.serialize_block block
    s.insert_entry db (to_be_bytes block.header.height) val

  -- the loop of `load_all_blocks`
  unfoldable pub decode_all : List (Bytes × Val) → Option (List Block)
  decode_all [] = some []
  decode_all ((k, v) ∷ rest) = do
    block ← s.deserialize_block v
    blocks ← decode_all rest
    some (block ∷ blocks)

  -- `BlockDb::load_all_blocks`
  unfoldable pub load_all_blocks : Db → Option (List Block)
  unfolding decode_all sort_by_height
  load_all_blocks db = do
    entries ← s.iter db
    blocks ← decode_all entries
    some (sort_by_height blocks)

  -- `BlockDb::height`
  unfoldable pub db_height : Db → ℕ
  db_height db = s.len db
