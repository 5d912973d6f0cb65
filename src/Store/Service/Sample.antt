-- ===== src/Store/Service/Sample.antt =====
-- A manifest of one user: a current file with a chunk and a shard, and a file that was deleted.
use p2pnas.Store.Chunkstore.{Files}
use p2pnas.Prelude.{replicate, refl, ◌≢◌, [], ◌∷◌, none, some, false, inl, inr, sym, ◌∙◌, ap}
use p2pnas.Prelude.Int.{pos}
use p2pnas.Store.Manifest.{Text, ChunkRow, ShardRow}
use p2pnas.Store.Manifest.Texts.{eq_text, trim}
use p2pnas.Store.Manifest.Db.{StoredFile, Db, unique_paths}
use p2pnas.Store.Manifest.Files.{retired_key}
use p2pnas.Store.Manifest.Keys.{IsKey, eq_text→≢, IsKeyed}
use p2pnas.Store.Service.Trash.{local}
use p2pnas.Store.Service.Trash.RoundTrip.{IsCurrent}

abbrev pub alice : Text
alice = b'u' ∷ []

-- "d/n"
abbrev pub note : StoredFile
note = record {
  file_id = b'a' ∷ [];
  user_id = alice;
  path = b'd' ∷ b'/' ∷ b'n' ∷ [];
  size = 3;
  stored_bytes = 57_344;
  chunk_count = 1;
  created_at = b'1' ∷ [];
  retired_path = none;
  deleted_at = none;
  superseded_at = none;
  lineage = some (b'a' ∷ []);
  key_scheme = pos 2;
  content_hash = none;
  pack_id = none;
  pack_offset = none;
  pack_len = none;
}

-- Deleted on day 3.
abbrev pub gone : StoredFile
gone = record note {
  file_id = b'b' ∷ [];
  path = retired_key (b'b' ∷ []);
  retired_path = some (b'm' ∷ []);
  deleted_at = some (b'3' ∷ []);
  lineage = some (b'b' ∷ []);
}

abbrev pub piece : ChunkRow
piece = record {
  chunk_id = b'a' ∷ b':' ∷ b'0' ∷ [];
  file_id = b'a' ∷ [];
  idx = 0;
  nonce = [];
  is_compressed = false;
  plaintext_len = 3;
  cipher_len = 19;
  shard_len = 64;
}

abbrev pub piece_of_gone : ChunkRow
piece_of_gone = record piece { chunk_id = b'b' ∷ b':' ∷ b'0' ∷ []; file_id = b'b' ∷ [] }

abbrev pub shard : ShardRow
shard = record {
  fragment_id = replicate 32 b'f';
  chunk_id = b'a' ∷ b':' ∷ b'0' ∷ [];
  shard_index = 0;
  location = local;
  hash = [];
}

abbrev pub sample : Db
sample = record {
  files = note ∷ (gone ∷ []);
  chunks = piece ∷ (piece_of_gone ∷ []);
  shards =
      shard
      ∷ (record shard { fragment_id = replicate 32 b'e'; chunk_id = b'b' ∷ b':' ∷ b'0' ∷ [] } ∷ []);
  folders = [];
}

-- The store has the shards of both files.
abbrev pub stock : Files
stock =
    ((b'f' ∷ b'f' ∷ []) ∷ (replicate 32 b'f' ∷ []), 8 ∷ (9 ∷ []))
    ∷ (((b'e' ∷ b'e' ∷ []) ∷ (replicate 32 b'e' ∷ []), 7 ∷ []) ∷ [])

-- Two rows with different keys.
two_keys : {A : Type 0} (key : A → Text) (a b : A) → key a ≢ key b → IsKey key (a ∷ (b ∷ []))
two_keys key a b ne x y m n e = elim m [
  | inl at_a ↦ elim n [
    | inl at_a' ↦ cc
    | inr n' ↦ elim n' [
      | inl at_b ↦ absurd (ne (ap key (sym at_a) ∙ e ∙ ap key at_b))
      | inr none_left ↦ absurd none_left
    ]
  ]
  | inr m' ↦ elim m' [
    | inl at_b ↦ elim n [
      | inl at_a ↦ absurd (ne (ap key (sym at_a) ∙ sym e ∙ ap key at_b))
      | inr n' ↦ elim n' [ inl at_b' ↦ cc | inr none_left ↦ absurd none_left ]
    ]
    | inr none_left ↦ absurd none_left
  ]
]

pub sample-IsKeyed : IsKeyed sample
unfolding unique_paths retired_key eq_text
sample-IsKeyed = record {
  file_ids = two_keys (λ (f : StoredFile). f.file_id) note gone (eq_text→≢ _ _ refl);
  chunk_ids = two_keys (λ (c : ChunkRow). c.chunk_id) piece piece_of_gone (eq_text→≢ _ _ refl);
  paths = refl;
}

pub sample_shards : IsKey (λ (s : ShardRow). s.fragment_id) sample.shards
unfolding eq_text
sample_shards = two_keys (λ (s : ShardRow). s.fragment_id) _ _ (eq_text→≢ _ _ refl)

pub note-IsCurrent : IsCurrent note
unfolding trim
note-IsCurrent = record {
  kept = refl;
  current = refl;
  never_retired = refl;
  trimmed = refl;
  named = λ e. cc;
}
