-- ===== src/Store/Service/Plan/Frame.antt =====
-- store/src/service.rs: what is read of a file does not depend on another file being purged.
use p2pnas.Prelude.{All, ◌≡◌, refl, sym, ap, ◌∙◌, ◌≢◌, List, [], ◌∷◌, inl, inr}
use p2pnas.Prelude.Select.{Elem, Elem-All, Elem-filter, Elem-order_by}
use p2pnas.Prelude.Results.{◌>>=◌, ok}
use p2pnas.Store.Errors.{not_found}
use p2pnas.Store.Manifest.{Text, ChunkRow, ShardRow}
use p2pnas.Store.Manifest.Texts.{eq_text, eq_text→≡}
use p2pnas.Store.Manifest.Db.{Db}
use p2pnas.Store.Manifest.Files.{get_file, get_chunks, get_shards}
use p2pnas.Store.Manifest.Retire.{purge_file_row}
use p2pnas.Store.Manifest.Keys.{IsKey}
use p2pnas.Store.Manifest.Frame.{
  get_file-purge_file_row, get_chunks-purge_file_row, get_shards-purge_file_row,
}
use p2pnas.Store.Service.Trash.{ok_or}
use p2pnas.Store.Service.Plan.{ChunkShards, with_shards, pull_plan}

-- The chunks that are read of a file are its own.
pub get_chunks_own :
    (i : Text) (d : Db) (c : ChunkRow) → Elem c (get_chunks i d) → Elem c d.chunks × (c.file_id ≡ i)
unfolding get_chunks
get_chunks_own i d c m =
    let (at_c, own) =
      (Elem-filter (λ (b : ChunkRow). eq_text b.file_id i) c d.chunks).0
        ((Elem-order_by _ c _).0 m) in
    (at_c, eq_text→≡ c.file_id i own)

module _ (user_id j : Text) (d : Db) (keys : IsKey (λ (b : ChunkRow). b.chunk_id) d.chunks) where
  with_shards-purge_file_row :
      (cs : List ChunkRow)
      → ((c : ChunkRow) → Elem c cs → Elem c d.chunks × (c.file_id ≢ j))
      → with_shards (purge_file_row user_id j d).1 cs ≡ with_shards d cs
  unfolding with_shards
  with_shards-purge_file_row [] own = refl
  with_shards-purge_file_row (c ∷ cs) own =
      let (at_c, ne) = own c (inl refl) in
      rw (get_shards-purge_file_row user_id j d c keys at_c ne) (
        ap (λ t. (c, get_shards c.chunk_id d) ∷ t)
          (with_shards-purge_file_row cs (λ b m. own b (inr m))))

  pub pull_plan-purge_file_row :
      (u i : Text) → i ≢ j → pull_plan u i (purge_file_row user_id j d).1 ≡ pull_plan u i d
  unfolding pull_plan
  pull_plan-purge_file_row u i ne = rw (get_file-purge_file_row user_id j d u i ne) (
      ap (λ cs. ok_or not_found (get_file u i d) >>= λ file. ok (file, cs))
        (ap (with_shards (purge_file_row user_id j d).1)
            (get_chunks-purge_file_row user_id j d i ne)
          ∙ with_shards-purge_file_row (get_chunks i d)
              (λ c m. let (at_c, own) = get_chunks_own i d c m in (at_c, λ e. ne (sym own ∙ e)))))

-- What holds of the shards of the chunks, each with its chunk.
pub with_shards-All :
    (P : ShardRow → Type 0) (d : Db) (cs : List ChunkRow)
    → ((c : ChunkRow) (s : ShardRow) → Elem c cs → Elem s d.shards → s.chunk_id ≡ c.chunk_id → P s)
    → All (λ (p : ChunkShards). All P p.1) (with_shards d cs)
unfolding with_shards get_shards
with_shards-All P d [] h = tt
with_shards-All P d (c ∷ cs) h = (
  Elem-All P (get_shards c.chunk_id d) (λ s m.
      let (at_s, own) =
        (Elem-filter (λ (r : ShardRow). eq_text r.chunk_id c.chunk_id) s d.shards).0
          ((Elem-order_by _ s _).0 m) in
      h c s (inl refl) at_s (eq_text→≡ s.chunk_id c.chunk_id own)),
  with_shards-All P d cs (λ b s m. h b s (inr m)),
)
