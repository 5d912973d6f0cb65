-- ===== src/Lib.antt =====
-- p2pnas: a store that seals files on the owner's machine and spreads their shards over peers.
--
-- The program and its parts. A file is cut into chunks (server/crates/core/src/chunker.rs); each chunk
-- is sealed with a key and a context of its own (core/src/crypto.rs) and striped into ten data and four
-- parity shards (core/src/erasure.rs). The service (server/crates/store) decides which location holds
-- which shard and keeps the manifest; peers are found by a Kademlia overlay over UDP
-- (server/crates/p2p/src/dht.rs), and only addresses that proved themselves there are handed to the TCP
-- transport (p2p/src/{protocol,client,server}.rs). The server (server/crates/server) places shards,
-- repairs, and serves the files. This library models the core from the cutting of a file to its shards,
-- the service with its manifest and its store of shards, the whole overlay, and the placement of shards.
--
-- The files.
--   Prelude and below: tests on numbers, lists, partial lists (`Kept`), results with errors and panics,
--     and hash maps as association lists (`Dict`), shared by all parts.
--   Core/Bytes: byte strings, integers as bytes, prefixes and slices.
--   Core/Errors: core/src/error.rs, `CoreError`.
--   Core/Crypto: core/src/crypto.rs. `Encode` has `lp_concat` and `ChunkAad::encode`, `Cipher` has the
--     derivation of subkeys, `nonce_for`, `ChunkSealer` and `FileCipher`; `Canonical` and `Binding` hold
--     the proofs. A `DataKey` is its bytes; a `Result` of the source is a `Result` of the library.
--   Core/Chunker: core/src/chunker.rs, each function under its name. Core/Pipeline: core/src/pipeline.rs;
--     `process_chunk` is the closure that `process_with_scheme` maps over the chunks.
--   Core/Erasure: core/src/erasure.rs. `Shards` has `shard_len`, `encode`, `encode_recovery`, the shards
--     of a chunk and `reconstruct`; `Striping` and `Reconstruct` hold the proofs.
--   Dht: p2p/src/dht.rs. `Ids` has `xor`, `bucket_index`, `hex` and `unhex`; `Addr` the address policy;
--     `Table` `RoutingTable` with `add`, `mark_verified` and `closest`; `Sources` `SourceState`;
--     `Overlay` the messages and, in `Overlay.Node`, each method of `DhtNode`. A method that changes
--     `self` returns the new state. `Overlay.Safety`, `Invariant` and `Operations` prove one invariant of
--     the node for all its operations, `Reach` states it for all runs.
--   Server/Placement: server/src/placement.rs, `plan_placement_zoned`: `scan` is its loop over the peers,
--     `choose` its two rounds, `place` its loop over the shards. `Caps` and `Overflow` hold the proofs.
--   Store/Errors: store/src/error.rs, `StoreError`.
--   Store/Manifest: store/src/manifest.rs. `Texts` has the operations on texts, with the LIKE of SQLite;
--     `Db` the tables as lists of rows, with the constraints and cascades of the schema; `Files`, `Retire`,
--     `Packs` and `Folders` the queries, each a function of its name from the tables to the rows or to the
--     new tables. `Keys.Reach` has the steps that the queries make,
--     `Keys.Linked` and `Keys.Steps` the invariant of the tables; they and the other modules below `Keys`,
--     `Frame`, `Foreign` and `Folders.Case` hold the proofs.
--   Store/Service: store/src/service.rs. `Chunks` has what is stored of a chunk and `reassemble`; `Push`
--     and `Pull` have `push` and `pull`; `Plan` the listings and `pull_plan`; `Trash` the trash, restoring and
--     purging; `Retention` `purge_retired`, with its rules in `Retention.Rules`; `Packs` the format of packs and `plan_packs`; `Packing`
--     `pack_files` and `compact_pack`; `Tree` `browse`, `mkdir` and `rename`. A method that changes the
--     database returns the new one; an error leaves the old, which is what the transaction does.
--   Store/Chunkstore: store/src/chunkstore.rs, `ChunkStore`; each method is the function of its name on the
--     root and the files. `Confinement` and `Contents` hold the proofs.
--
-- Parameters. HKDF and AES-GCM of aws-lc-rs are the record of operations of Core/Crypto/Primitives with
-- laws; Core/Crypto/Framed is an instance of the laws. The code of reed-solomon-simd is the record of
-- Core/Erasure/Code with the law that ten shards determine the data; Core/Erasure/Copies is an instance.
-- The clock, the socket, serde_json, the resolver and the reading and writing of IP addresses are the
-- record `World` of Dht/Overlay; nothing is assumed of them. Clock and socket are asked by the number of
-- their use, so two readings in one operation may differ; `mark_verified` reads the clock once for all
-- the entries that it marks. The operations on `f64` that the placement and the chunker use are
-- records `Floats`, and zstd is the record `Zstd`, of which the law is that it gives back what it
-- compressed. BLAKE3 and the hexadecimal digits of bytes are the record `Hashes`, of which nothing is
-- assumed. The ids that are minted, the written forms of instants, and what the operating system answers
-- to an operation on a file are arguments. Of SQLite the statements that the source has are written out.
--
-- Numbers. `u8`, `u16`, `u64` and `usize` are natural numbers with the bounds as hypotheses where a
-- theorem needs them; `be_bytes` writes out the wrap. Instants and durations are nanoseconds. Subtraction
-- of instants stops at zero, as `saturating_duration_since` does. Sizes and
-- counts of the manifest are natural numbers; where the source stores an `i64` that may be anything, it
-- is an integer. Fuel is the length of the byte string that is cut into pieces or read, which is enough
-- since each piece has a byte, and a number above the one whose decimal digits are written.
--
-- An operation of the overlay runs as a whole: the locks that it takes one after another may be taken by
-- another task in between, which is not modelled. Not modelled either: logging, the key's wiping, the
-- hash that makes a node id of a peer id, the socket's loop around `receive`, the parallel order in which
-- the pipeline works, the opening and migration of the database, its failures other than those of its
-- constraints, and the rest of the program: the transport, the backups, the rest of the server, and the
-- web interface.
pub mod Prelude
pub mod Core
pub mod Dht
pub mod Server
pub mod Store
