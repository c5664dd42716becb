-- ===== src/Node.antt =====
-- The node of src/main.rs: the tasks that `main` starts share the chain, the pool of transactions
-- and the world state (`NodeState` of src/rpc/mod.rs), the consensus engine and the database. Each
-- task holds the locks of a step to its end, so a run is a sequence of steps. `none` is a panic.
mod Defs
mod Startup
unfoldable pub use Defs.*
unfoldable pub use Startup.*
pub mod Chain
pub mod Steps
pub mod Consistency
pub mod Restart
pub mod Sync
pub mod Production
pub mod Agreement
pub mod Accounts
pub mod Forks
pub mod Following
pub mod Engine
pub mod Finality
pub mod Decision
pub mod Payment
pub mod Grants
pub mod Interleaved
pub mod Repeats
pub mod Losses
