-- ===== src/Core/Crypto.antt =====
-- core/src/crypto.rs: how the chunks of a file are encrypted and what each one is bound to.
-- `Encode` has the canonical encodings, `Cipher` the keys and the sealing of chunks.
pub mod Encode
pub mod Canonical
pub mod Primitives
pub mod Cipher
pub mod Binding
pub mod Framed
mod Examples
