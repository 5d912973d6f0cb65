-- ===== src/Store/Manifest.antt =====
-- store/src/manifest.rs: the rows of the manifest, as the queries return them.
pub mod Texts
pub mod Db
pub mod Files
pub mod Retire
pub mod Packs
pub mod Folders
pub mod Keys
pub mod Frame
pub mod Foreign
use p2pnas.Prelude.{
  ℕ, zero, suc, ◌+◌, ◌/◌, ◌%◌, ltb, Bool, List, [], ◌∷◌, ◌++◌, Option, if◌then◌else◌,
}
use p2pnas.Prelude.Int.{ℤ}
use p2pnas.Core.Bytes.{Bytes}

-- A text as its bytes.
abbrev pub Text : Type 0
Text = List ℕ

-- Sizes, counts and indices are never negative. The scheme and the range in a pack are as stored.
pub record FileRow : Type 0 where
  pub file_id : Text
  pub user_id : Text
  pub path : Text
  pub size : ℕ
  pub stored_bytes : ℕ
  pub chunk_count : ℕ
  pub created_at : Text
  pub deleted_at : Option Text
  pub superseded_at : Option Text
  pub lineage : Text
  pub key_scheme : ℤ
  pub content_hash : Option Text
  pub pack_id : Option Text
  pub pack_offset : Option ℤ
  pub pack_len : Option ℤ

pub record ChunkRow : Type 0 where
  pub chunk_id : Text
  pub file_id : Text
  pub idx : ℕ
  pub nonce : Bytes
  pub is_compressed : Bool
  pub plaintext_len : ℕ
  pub cipher_len : ℕ
  pub shard_len : ℕ

pub record ShardRow : Type 0 where
  pub fragment_id : Text
  pub chunk_id : Text
  pub shard_index : ℕ
  pub location : Text
  pub hash : Text

-- `Display` of a number, on fuel: each division by ten leaves a smaller number.
unfoldable pub decimal_loop : ℕ → ℕ → Text → Text
decimal_loop zero n out = out
decimal_loop (suc fuel) n out =
    let rest = decimal_loop fuel (n / 10) ((b'0' + n % 10) ∷ out) in
    if ltb n 10 then (b'0' + n) ∷ out else rest

unfoldable pub decimal : ℕ → Text
unfolding decimal_loop
decimal n = decimal_loop (suc n) n []

-- `format!("{file_id}:{idx}")`
unfoldable pub chunk_id : Text → ℕ → Text
chunk_id file_id idx = file_id ++ (b':' ∷ decimal idx)
