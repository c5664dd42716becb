-- ===== src/Mempool/Histories.antt =====
-- The pool of src/mempool/mod.rs after any sequence of calls, as a function of the calls alone.
use Prim.Native.Nat.{min}
use mathlib.Core.List.{Mem, Nodup, Nodup-nil, Nodup-cons, Perm, mem-append_left, map-append}
use mathlib.Core.List.Perm
use native.Mathlib.Nat.{ℕ_set}
use vela_network.Common.{
  ℕ, ◌≤◌, ◌≡◌, refl, sym, ap, ◌∙◌, Option, none, some, List, [], ◌∷◌, ◌++◌, map, Text, ite,
  if◌then◌else◌, arith, length, length-map, length-take, take, take-length, take_prefix,
}
use vela_network.Common.Dict.{lookup, values, text_discrete, lookup-insert}
use vela_network.Common.Dict.Keys.{
  keys-Nodup, length-perm, map-values, lookup_of_mem, mem_of_lookup,
}
use vela_network.Types.{Crates, Transaction}
use vela_network.Mempool.{Mempool, new, len, hash_key, add, take_some, remove_committed}
use vela_network.Mempool.Contents.{
  IsFiled, new-IsFiled, add-IsFiled, is_among, remove_committed_lem,
}

-- A call that changes the pool.
pub data Call : Type 0 where
  adds : Transaction → Call
  commits : List Transaction → Call

Transaction_set : IsSet Transaction
Transaction_set = hlevel ℕ_set

Nodup-left {ℓ} : {A : Type ℓ} (a b : List A) → Nodup (a ++ b) → Nodup a
Nodup-left [] b h = Nodup-nil
Nodup-left (v ∷ a) b h =
    let (apart, rest) = Nodup-cons.0 h in
    Nodup-cons.1 (λ found. apart (mem-append_left b found), Nodup-left a b rest)

module _ (x : Crates) where
  -- The pool after calls, of which the last stands first.
  abbrev pub pool_after : ℕ → List Call → Mempool
  pool_after max [] = new max
  pool_after max (adds tx ∷ calls) = (add x (pool_after max calls) tx).0
  pool_after max (commits txs ∷ calls) = remove_committed x (pool_after max calls) txs

  -- What a hash stands for after calls: the last transaction with that hash that was added, unless
  -- one with that hash was committed since.
  abbrev pub held : List Call → Text → Option Transaction
  held [] k = none
  held (adds tx ∷ calls) k = ite (text_discrete k (hash_key x tx)) (some tx) (held calls k)
  held (commits txs ∷ calls) k = if is_among x k txs then none else held calls k

  pool_after-IsFiled : (max : ℕ) (calls : List Call) → IsFiled x (pool_after max calls)
  pool_after-IsFiled max [] = new-IsFiled x max
  pool_after-IsFiled max (adds tx ∷ calls) = add-IsFiled x _ tx (pool_after-IsFiled max calls)
  pool_after-IsFiled max (commits txs ∷ calls) =
      (remove_committed_lem x _ txs (pool_after-IsFiled max calls)).0

  lookup-pool_after :
      (max : ℕ) (calls : List Call) (k : Text)
      → lookup k (pool_after max calls).transactions ≡ held calls k
  unfolding new lookup add
  lookup-pool_after max [] k = refl
  lookup-pool_after max (adds tx ∷ calls) k =
      lookup-insert k (hash_key x tx) tx (pool_after max calls).transactions
      ∙ ap (ite (text_discrete k (hash_key x tx)) (some tx)) (lookup-pool_after max calls k)
  lookup-pool_after max (commits txs ∷ calls) k =
      (remove_committed_lem x _ txs (pool_after-IsFiled max calls)).1 k
      ∙ ap (λ r. if is_among x k txs then none else r) (lookup-pool_after max calls k)

  -- What is told of the transactions that `take` gives from the pool after calls.
  pub record IsTaken (calls : List Call) (limit size : ℕ) (txs : List Transaction) : Type 0 where
    pub count : length txs ≡ min limit size
    pub distinct : Nodup (map (hash_key x) txs)
    pub from_pool : (tx : Transaction) → Mem tx txs → held calls (hash_key x tx) ≡ some tx
    pub complete :
        size ≤ limit → (k : Text) (tx : Transaction) → held calls k ≡ some tx → Mem tx txs

  take_some-IsTaken :
      (order : List Transaction → List Transaction) (max limit : ℕ) (calls : List Call)
      → ((txs : List Transaction) → Perm (order txs) txs)
      → IsTaken calls limit
          (len (pool_after max calls))
          (take_some order (pool_after max calls) limit)
  unfolding take_some len
  take_some-IsTaken order max limit calls any =
      let pool = pool_after max calls in
      let m = pool.transactions in
      let filed = pool_after-IsFiled max calls in
      let shuffled = any (values m) in
      let size : length (order (values m)) ≡ length m =
        length-perm shuffled ∙ length-map (λ (e : Text × Transaction). e.1) m in
      let (rest, e) = take_prefix limit (order (values m)) in
      let mem_all : (tx : Transaction)
          → Mem tx (take limit (order (values m)))
          → Mem tx (values m) =
        λ tx found. (Perm.mem_iff shuffled).0 (rw e at (mem-append_left rest found)) in
      let apart : Nodup (map (hash_key x) (order (values m))) =
        Perm.nodup (Perm.symm (Perm.map (hash_key x) shuffled))
          (rw (map-values (hash_key x) m filed.filed) (keys-Nodup m filed.distinct)) in
      record {
        count = omega (arith, size, length-take limit (order (values m)));
        distinct =
            Nodup-left (map (hash_key x) (take limit (order (values m)))) (map (hash_key x) rest)
              (rw (sym (ap (map (hash_key x)) e), map-append) at apart);
        from_pool = λ tx found.
            sym (lookup-pool_after max calls (hash_key x tx))
            ∙ lookup_of_mem (hash_key x) m Transaction_set filed.distinct filed.filed tx
                (mem_all tx found);
        complete = λ few k tx e.
            rw (take-length limit (order (values m)) (omega arith)) (
              (Perm.mem_iff shuffled).1 (mem_of_lookup k tx m (lookup-pool_after max calls k ∙ e)));
      }

  -- Whatever was added and committed, in any order: a new pool holds under each hash, after that,
  -- the last transaction with that hash that was added, unless one with that hash was committed
  -- since. And whatever the order of the map, `take` gives as many transactions as the limit and the
  -- size of the pool allow, of hashes that differ, all of which the pool holds; and all that the
  -- pool holds, if the limit allows it.
  pub take_some-pool_after :
      (order : List Transaction → List Transaction) (max limit : ℕ) (calls : List Call)
      → ((txs : List Transaction) → Perm (order txs) txs)
      → ((k : Text) → lookup k (pool_after max calls).transactions ≡ held calls k)
        × IsTaken calls limit
            (len (pool_after max calls))
            (take_some order (pool_after max calls) limit)
  take_some-pool_after order max limit calls any =
      (lookup-pool_after max calls, take_some-IsTaken order max limit calls any)
