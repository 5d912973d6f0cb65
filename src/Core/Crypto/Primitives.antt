-- ===== src/Core/Crypto/Primitives.antt =====
-- What crypto.rs takes from aws-lc-rs: HKDF-SHA256 and AES-256-GCM. They are a parameter of the
-- model, and the laws below are what the code relies on.
use p2pnas.Prelude.{◌≡◌, Option, some}
use p2pnas.Core.Bytes.{Bytes}

pub record Primitives : Type 0 where
  -- salt, input key, info; `none` where `expand` or `fill` refuses.
  pub hkdf : Bytes → Bytes → Bytes → Option Bytes
  -- The key schedule of a key of 32 bytes.
  pub unbound_key : Bytes → Option Bytes
  -- key, nonce, associated data, plaintext: the ciphertext with its tag.
  pub seal_in_place_append_tag : Bytes → Bytes → Bytes → Bytes → Option Bytes
  pub open_in_place : Bytes → Bytes → Bytes → Bytes → Option Bytes

-- GCM is deterministic, and a tag verifies exactly where it is the one that sealing computes.
pub record IsAead (p : Primitives) : Type 0 where
  pub open_seal :
      (k n a m c : Bytes)
      → p.seal_in_place_append_tag k n a m ≡ some c
      → p.open_in_place k n a c ≡ some m

-- The integrity of an AEAD, with its negligible chance of a forgery left out: what was sealed under
-- one key, nonce and associated data opens under no other.
pub record IsAuthentic (p : Primitives) : Type 0 where
  pub same_context :
      (k n a m c k' n' a' m' : Bytes)
      → p.seal_in_place_append_tag k n a m ≡ some c
      → p.open_in_place k' n' a' c ≡ some m'
      → (k ≡ k') × (n ≡ n') × (a ≡ a')
