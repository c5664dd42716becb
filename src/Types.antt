-- ===== src/Types.antt =====
-- src/types.rs: the data of the chain and its hashing, signing and verifying.
mod Data
mod External
mod Signing
mod Blocks
mod Merkle
pub mod Laws
pub mod Roots
pub mod Binding
pub mod History
unfoldable pub use Data.*
unfoldable pub use External.*
unfoldable pub use Signing.*
unfoldable pub use Blocks.*
unfoldable pub use Merkle.*
