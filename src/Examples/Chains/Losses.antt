-- ===== src/Examples/Chains/Losses.antt =====
-- A database that refuses the block of height 1.
use vela_network.Examples.Setup.{crates}
use vela_network.Examples.Chains.{first, second, started}
use vela_network.Common.{
  ◌≡◌, refl, none, some, List, [], ◌∷◌, push, Bytes, length, ◌==◌, if◌then◌else◌, Bool-cases, inl,
  inr, arith, add64,
}
use vela_network.Types.{Block, genesis}
use vela_network.Storage.{Sled, IsLawfulSled, save_block, load_all_blocks, decode_all, to_be_bytes}
use vela_network.Storage.Loading.{IsStored}
use vela_network.Node.{on_sync_response, is_next, tip_height, boot}
use vela_network.Node.Chain.{IsChain}
use vela_network.Node.Losses.{load_all_blocks-on_sync_response}

abbrev picky : Sled (List (Bytes × Block)) Block
picky = record {
  insert_entry = λ db k v. if v.header.height == 1 then none else some (push db (k, v));
  iter = λ db. some db;
  len = λ db. length db;
  serialize_block = λ b. some b;
  deserialize_block = λ b. some b;
}

picky-IsLawful : IsLawfulSled picky
picky-IsLawful = record {
  iter-insert_entry = λ db db' k v l inserted listed under.
      elim (Bool-cases (v.header.height == 1)) [
        | inl q ↦ ground (arith, inserted)
        | inr q ↦ let written = rw q at inserted in cc
      ];
  deserialize-serialize = λ b v e. cc;
}

held : IsStored picky started.db started.blocks (length started.blocks)
unfolding decode_all started boot genesis to_be_bytes
held = record {
  entries = (to_be_bytes 0, genesis) ∷ [];
  listed = refl;
  decoded = refl;
  keyed = ((0, refl, omega arith), tt);
  rising = (omega arith, tt);
  under = (omega arith, tt);
}

load_all_blocks-on_sync_response_example :
    let n' = on_sync_response crates picky started (first ∷ second ∷ []) in
    (n'.blocks ≡ push (push started.blocks first) second)
    × (load_all_blocks picky n'.db ≡ some (push started.blocks second))
    × (¬ IsChain (push started.blocks second))
unfolding started boot genesis is_next tip_height add64 save_block
load_all_blocks-on_sync_response_example =
    load_all_blocks-on_sync_response crates picky picky-IsLawful started first second
      (push started.db (to_be_bytes 2, second)) (refl, tt) held (omega arith) refl refl refl refl
