-- ===== src/Examples/Pools.antt =====
-- A pool to which three transfers were added, of which one was committed.
use mathlib.Core.List.Perm
use vela_network.Examples.Setup.{crates}
use vela_network.Examples.Forms.{payment, later}
use vela_network.Common.{◌≡◌, Text, List, [], ◌∷◌}
use vela_network.Common.Dict.{lookup}
use vela_network.Mempool.{len, take_some}
use vela_network.Mempool.Histories.{
  Call, adds, commits, pool_after, held, IsTaken, take_some-pool_after,
}

-- The last call stands first: a commit, and the same transfer again after it.
abbrev calls : List Call
calls = adds payment ∷ commits (payment ∷ []) ∷ adds later ∷ adds payment ∷ []

take_some-pool_after_example :
    ((k : Text) → lookup k (pool_after crates 100 calls).transactions ≡ held crates calls k)
    × IsTaken crates calls 1
        (len (pool_after crates 100 calls))
        (take_some (λ txs. txs) (pool_after crates 100 calls) 1)
take_some-pool_after_example =
    take_some-pool_after crates (λ txs. txs) 100 1 calls (λ txs. Perm.refl txs)
