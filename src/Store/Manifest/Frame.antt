-- ===== src/Store/Manifest/Frame.antt =====
-- store/src/manifest.rs: a purge touches no other file.
use p2pnas.Prelude.{◌≡◌, refl, sym, ap, ◌∙◌, ◌≢◌, false, not, ◌&&◌, List, map, Bool-cases, inl, inr}
use p2pnas.Prelude.Select.{
  any, any_elem, Elem-unmap, first, order_by, Elem, Elem-filter, any_none, filter-filter,
}
use p2pnas.Store.Manifest.{Text, ChunkRow, ShardRow}
use p2pnas.Store.Manifest.Texts.{eq_text, eq_text→≡}
use p2pnas.Store.Manifest.Db.{StoredFile, Db, is_row, file_row, delete_files, delete_chunks}
use p2pnas.Store.Manifest.Files.{get_file, get_chunks, get_shards}
use p2pnas.Store.Manifest.Retire.{purge_file_row, fragments_of, shards_of_file}
use p2pnas.Store.Manifest.Keys.{IsKey, both_true, and_false, eq_text_ne, is_row→≡, is_row_other}

-- The test of the chunks that a purge deletes, for a file with another id.
cascade_other :
    (user_id file_id : Text) (fs : List StoredFile) (c : ChunkRow)
    → c.file_id ≢ file_id
    → any (λ f. is_row user_id file_id f && eq_text f.file_id c.file_id) fs ≡ false
cascade_other user_id file_id fs c ne =
    any_none (λ f. is_row user_id file_id f && eq_text f.file_id c.file_id) fs
      (λ f m. elim (Bool-cases (is_row user_id file_id f)) [
        | inl row ↦ rw row (
            eq_text_ne f.file_id c.file_id
              (λ same. ne (sym same ∙ (is_row→≡ user_id file_id f row).1)))
        | inr other ↦ rw other refl
      ])

module _ (user_id j : Text) (d : Db) where
  pub get_file-purge_file_row :
      (u i : Text) → i ≢ j → get_file u i (purge_file_row user_id j d).1 ≡ get_file u i d
  unfolding get_file purge_file_row delete_files delete_chunks
  get_file-purge_file_row u i ne =
      ap (λ fs. first (map file_row fs))
        (filter-filter (is_row u i) (λ f. not (is_row user_id j f)) d.files
          (λ f m t. rw (is_row_other user_id j f (λ e. ne (sym ((is_row→≡ u i f t).1) ∙ e))) refl))

  pub get_chunks-purge_file_row :
      (i : Text) → i ≢ j → get_chunks i (purge_file_row user_id j d).1 ≡ get_chunks i d
  unfolding get_chunks purge_file_row delete_files delete_chunks
  get_chunks-purge_file_row i ne = ap (order_by _) (
      filter-filter (λ (c : ChunkRow). eq_text c.file_id i)
        (λ c. not (any (λ f. is_row user_id j f && eq_text f.file_id c.file_id) d.files)) d.chunks
        (λ c m t.
          rw (cascade_other user_id j d.files c (λ e. ne (sym (eq_text→≡ c.file_id i t) ∙ e)))
            refl))

  -- The shards of a chunk of another file.
  pub get_shards-purge_file_row :
      (c : ChunkRow)
      → IsKey (λ (b : ChunkRow). b.chunk_id) d.chunks
      → Elem c d.chunks
      → c.file_id ≢ j
      → get_shards c.chunk_id (purge_file_row user_id j d).1 ≡ get_shards c.chunk_id d
  unfolding get_shards purge_file_row delete_files delete_chunks
  get_shards-purge_file_row c keys at_c ne =
      let gone =
        λ (b : ChunkRow). any (λ f. is_row user_id j f && eq_text f.file_id b.file_id) d.files in
      ap (order_by _) (
        filter-filter (λ (s : ShardRow). eq_text s.chunk_id c.chunk_id)
          (λ s. not (any (λ b. gone b && eq_text b.chunk_id s.chunk_id) d.chunks)) d.shards
          (λ s m t.
            rw
              (any_none (λ b. gone b && eq_text b.chunk_id s.chunk_id) d.chunks
                (λ b at_b. elim (Bool-cases (eq_text b.chunk_id s.chunk_id)) [
                  | inl same ↦
                      let e = keys b c at_b at_c (
                        eq_text→≡ b.chunk_id s.chunk_id same ∙ eq_text→≡ s.chunk_id c.chunk_id t) in
                      rw
                        (cascade_other user_id j d.files b
                          (λ h. ne (sym (ap (λ (r : ChunkRow). r.file_id) e) ∙ h)))
                        refl
                  | inr other ↦ rw other (and_false (gone b))
                ]))
              refl))

  -- What is left was there before.
  pub chunks-purge_file_row :
      (c : ChunkRow) → Elem c (purge_file_row user_id j d).1.chunks → Elem c d.chunks
  unfolding purge_file_row delete_files delete_chunks
  chunks-purge_file_row c m = ((Elem-filter _ c d.chunks).0 m).0

  pub shards-purge_file_row :
      (s : ShardRow) → Elem s (purge_file_row user_id j d).1.shards → Elem s d.shards
  unfolding purge_file_row delete_files delete_chunks
  shards-purge_file_row s m = ((Elem-filter _ s d.shards).0 m).0

  -- The fragments that a purge frees are those of the file.
  pub freed-purge_file_row :
      (r : Text × Text)
      → Elem r (purge_file_row user_id j d).0
      → (s : ShardRow) × (c : ChunkRow) × Elem s d.shards
        × Elem c d.chunks
        × (c.chunk_id ≡ s.chunk_id)
        × (c.file_id ≡ j)
        × (s.fragment_id ≡ r.0)
  unfolding purge_file_row fragments_of shards_of_file
  freed-purge_file_row r m =
      let (s, at_s, e) =
        Elem-unmap (λ (s : ShardRow). (s.fragment_id, s.location)) r (shards_of_file user_id j d)
          m in
      let test =
        λ (s : ShardRow) (c : ChunkRow). eq_text c.chunk_id s.chunk_id && eq_text c.file_id j in
      let (listed, passed) =
        (Elem-filter (λ s. any (is_row user_id j) d.files && any (test s) d.chunks) s d.shards).0
          at_s in
      let (_, found) = both_true (any (is_row user_id j) d.files) (any (test s) d.chunks) passed in
      let (c, at_c, both) = any_elem (test s) d.chunks found in
      let (same, own) = both_true (eq_text c.chunk_id s.chunk_id) (eq_text c.file_id j) both in
      (
        s,
        c,
        listed,
        at_c,
        eq_text→≡ c.chunk_id s.chunk_id same,
        eq_text→≡ c.file_id j own,
        sym (ap (λ (t : Text × Text). t.0) e),
      )
