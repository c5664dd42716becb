-- ===== src/Consensus.antt =====
-- src/consensus/hotstuff.rs: the consensus engine of a node.
mod Config
mod Node
mod Handlers
pub mod Quorum
pub mod Certificates
pub mod Safety
pub mod Proposals
pub mod Finality
pub mod Runs
pub mod Orders
pub mod Phases
pub mod Intersection
pub mod Receipts
pub mod Filing
pub mod Liveness
unfoldable pub use Config.*
unfoldable pub use Node.*
unfoldable pub use Handlers.*
