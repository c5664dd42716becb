-- ===== src/Lib.antt =====
-- Vela Network: a node of a blockchain with HotStuff consensus.
--
-- A node (src/main.rs) shares a chain of blocks, a world state, a pool of transactions and a
-- consensus engine between its tasks: one handles the messages of peers, one produces blocks in the
-- rounds that the node leads, one asks for missing blocks at the start, and one passes on the
-- transactions of the RPC server. A block that is appended is executed on the world state and saved
-- in the database, from which the next start rebuilds chain and state.
--
-- Parts, by file:
--   Common     words, bytes, texts, lists, Boolean tests, and `HashMap<String, V>` as an
--              association list (Common/Dict)
--   Types      src/types.rs: the structs (Data), signing and verifying (Signing), blocks and their
--              hashes (Blocks), the Merkle root (Merkle); Types/External is the record of the
--              third-party functions (blake3, hex, ed25519-dalek, bincode) that the code calls, and
--              what they document
--   State      src/storage/state.rs: accounts, the execution of transactions and blocks, the
--              genesis mint, the faucet's cooldown
--   Mempool    src/mempool/mod.rs
--   Consensus  src/consensus/hotstuff.rs: configuration (Config), state and inner steps (Node), the
--              four handlers (Handlers)
--   Storage    src/storage/db.rs, over a record of what sled and bincode provide
--   Node       src/main.rs and the messages of src/network/mod.rs: the state that the tasks share
--              and each step of each task (Defs), the start (Startup)
--   Rpc        src/rpc/mod.rs: the two handlers that change the node, a transaction that is sent in
--              and the faucet; the queries on blocks, balances and transactions (Queries); the
--              listings, and every route with the status of its answer (Server)
--   Network    src/network/mod.rs: the task between the node and the libp2p swarm, over a record of
--              what it calls of the swarm and of serde_json
--   System     several nodes on one network, which delivers what they send in any order
--   Launch     src/main.rs: arguments, environment, ports, bootstrap addresses, and how `main` brings
--              up node, network and server; the standard library's parsing of texts (Texts)
--   Crypto     src/crypto/mod.rs
--   Wallet     src/bin/vela-cli.rs, over a record of the file system, serde_json and the HTTP client;
--              the standard library's printing of numbers (Decimal)
--   Examples   concrete instances of the third-party records, tests and instances of the theorems
-- The other modules below these hold the theorems.
--
-- How the code is read. A method that takes `&mut self` is a function from the old state to the new
-- one and its answer. A `u64` is a natural number with its wrap-around written out (Common/Words), as
-- in the release build; an `i64` is its two's-complement pattern. A key or signature is its bytes, a
-- text the list of its code points. A panic, and an error of the database, is `none`; the errors that
-- the source drops (`.ok()`) are dropped. The time is an argument. The order in which a `HashMap` gives
-- its values is an argument, a function of which is assumed that it permutes. Each task holds the
-- locks that it needs while it works, so that a run of the node is a sequence of whole steps, with
-- the network free to deliver any message at any time (Node/Steps). One reading is finer in the
-- source: the handler of a proposal lets go of the engine's lock before it signs, but the key it
-- signs with never changes. The handlers of the RPC server let go of their locks between the checks and
-- what they do to the pool; in a run of Node/Steps each request is one step, while Rpc/Sections cuts
-- the two handlers that write where they wait, so that their sections come in any order
-- (Rpc/Interleavings) and between the steps of the other tasks (Node/Interleaved).
--
-- Fuel: the loop of the Merkle root is given as many rounds as there are transactions, since a layer
-- of two hashes or more is followed by a shorter one; the loop that trims an address as many as the
-- text is long, since each round shortens the text; the digits of a u64 are given twenty rounds, since
-- 10^20 is more than 2^64. No other function has fuel.
--
-- Not modelled: what third-party code does (axum, libp2p, sled, serde, clap, tokio), the sockets and
-- the terminal, logging, sleeping, the stub src/cli/main.rs and the pages and scripts of the
-- repository. The channels between tasks are the lists `outbox`, `rx_out` and `tx_in`, which are never
-- full. A write of the wallet's file that fails may change the file in any way.
pub mod Common
pub mod Types
pub mod State
pub mod Mempool
pub mod Consensus
pub mod Storage
pub mod Node
pub mod Rpc
pub mod Network
pub mod System
pub mod Launch
pub mod Wallet
pub mod Crypto
mod Examples
