-- ===== src/Store/Manifest/Foreign.antt =====
-- store/src/manifest.rs: deleting a file of another user, or none, does nothing.
use p2pnas.Prelude.{◌≡◌, refl, ap, false, not, ◌&&◌, List, [], ◌∷◌, none, map, Bool-cases, inl, inr}
use p2pnas.Prelude.Select.{
  filter, filter-All, filter_empty, any, any_none, first, Elem, Elem-filter, Elem-All,
}
use p2pnas.Store.Manifest.{Text, ChunkRow, ShardRow}
use p2pnas.Store.Manifest.Texts.{eq_text}
use p2pnas.Store.Manifest.Db.{StoredFile, Db, is_row, file_row, delete_files, delete_chunks}
use p2pnas.Store.Manifest.Files.{get_file}
use p2pnas.Store.Manifest.Retire.{shards_of_file, fragments_of, purge_file_row, strip_file_chunks}

module _ (user_id file_id : Text) (d : Db) (missing : get_file user_id file_id d ≡ none) where
  no_row : (x : StoredFile) → Elem x d.files → is_row user_id file_id x ≡ false
  unfolding get_file
  no_row x m = elim (Bool-cases (is_row user_id file_id x)) [
    | inr t ↦ t
    | inl t ↦ absurd (
        nothing_first (filter (is_row user_id file_id) d.files)
          ((Elem-filter (is_row user_id file_id) x d.files).1 (m, t)) missing)
  ]
    where
      nothing_first : (ys : List StoredFile) → Elem x ys → first (map file_row ys) ≡ none → ⊥
      nothing_first [] n e = n
      nothing_first (y ∷ ys) n e = unfold first in cc

  fragments_of_missing : fragments_of user_id file_id d ≡ []
  unfolding fragments_of shards_of_file
  fragments_of_missing = ap (map (λ (s : ShardRow). (s.fragment_id, s.location))) (
      filter_empty _ d.shards
        (Elem-All _ d.shards (λ s m. rw (any_none (is_row user_id file_id) d.files no_row) refl)))

  no_chunk :
      (c : ChunkRow)
      → any (λ f. is_row user_id file_id f && eq_text f.file_id c.file_id) d.files ≡ false
  no_chunk c = any_none _ d.files (λ f m. rw (no_row f m) refl)

  -- Deleting no chunk.
  delete_chunks_none :
      delete_chunks
        (λ c. any (λ f. is_row user_id file_id f && eq_text f.file_id c.file_id) d.files)
        d
      ≡ d
  unfolding delete_chunks
  delete_chunks_none =
      let chunks =
        filter-All
          (λ (c : ChunkRow).
            not (any (λ f. is_row user_id file_id f && eq_text f.file_id c.file_id) d.files))
          d.chunks (Elem-All _ d.chunks (λ c m. rw (no_chunk c) refl)) in
      let shards =
        filter-All
          (λ (s : ShardRow). not (
            any
              (λ (c : ChunkRow).
                any (λ f. is_row user_id file_id f && eq_text f.file_id c.file_id) d.files
                && eq_text c.chunk_id s.chunk_id)
              d.chunks))
          d.shards
          (Elem-All _ d.shards (λ s m.
            rw
              (any_none
                (λ (c : ChunkRow).
                  any (λ f. is_row user_id file_id f && eq_text f.file_id c.file_id) d.files
                  && eq_text c.chunk_id s.chunk_id)
                d.chunks (λ c n. rw (no_chunk c) refl))
              refl)) in
      λ i. record d { chunks = chunks i; shards = shards i }

  delete_files_none : delete_files (is_row user_id file_id) d ≡ d
  unfolding delete_files
  delete_files_none =
      let files =
        filter-All (λ f. not (is_row user_id file_id f)) d.files
          (Elem-All _ d.files (λ f m. rw (no_row f m) refl)) in
      λ i. record (delete_chunks_none i) { files = files i }

-- Purging a file, and stripping it of its chunks, does nothing and names no shard to be deleted where
-- the user has no file with the id, be it another user's or nobody's.
pub purge_file_row-get_file :
    (user_id file_id : Text) (d : Db)
    → get_file user_id file_id d ≡ none
    → (purge_file_row user_id file_id d ≡ ([], d)) × (strip_file_chunks user_id file_id d ≡ ([], d))
unfolding purge_file_row strip_file_chunks
purge_file_row-get_file user_id file_id d missing = (
  λ i. (
    fragments_of_missing user_id file_id d missing i,
    delete_files_none user_id file_id d missing i,
  ),
  λ i. (
    fragments_of_missing user_id file_id d missing i,
    delete_chunks_none user_id file_id d missing i,
  ),
)
