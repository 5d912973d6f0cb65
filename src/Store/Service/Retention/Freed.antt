-- ===== src/Store/Service/Retention/Freed.antt =====
-- store/src/service.rs: the sweep frees no shard of a file that is no candidate.
use p2pnas.Prelude.{◌≡◌, refl, sym, ap, ◌∙◌, ◌≢◌, Bool, List, [], ◌∷◌, Bool-cases, inl, inr}
use p2pnas.Prelude.Select.{any, Elem, Elem-append}
use p2pnas.Store.Chunkstore.{PathBuf, Files, read, delete}
use p2pnas.Store.Chunkstore.Contents.{read-delete}
use p2pnas.Store.Manifest.{Text, ChunkRow, ShardRow}
use p2pnas.Store.Manifest.Texts.{eq_text}
use p2pnas.Store.Manifest.Db.{Db}
use p2pnas.Store.Manifest.Retire.{PurgeCandidate, purge_file_row}
use p2pnas.Store.Manifest.Keys.{IsKey}
use p2pnas.Store.Manifest.Frame.{chunks-purge_file_row, shards-purge_file_row, freed-purge_file_row}
use p2pnas.Store.Service.Trash.{RemoteShard, local, purge_local_collect_remote}
use p2pnas.Store.Service.Retention.{Sweep, sweep, sweep_one}

-- The freeing of fragments leaves what is read of another.
pub read-purge_local_collect_remote :
    (root : PathBuf) (refused : Text → Bool) (frags : List RemoteShard) (store : Files) (x : Text)
    (b : Bool)
    → ((r : RemoteShard) → Elem r frags → r.0 ≢ x)
    → read root (purge_local_collect_remote root refused frags store).1 x b ≡ read root store x b
unfolding purge_local_collect_remote
read-purge_local_collect_remote root refused [] store x b other = refl
read-purge_local_collect_remote root refused ((frag, location) ∷ frags) store x b other =
    let rest : (r : RemoteShard) → Elem r frags → r.0 ≢ x = λ r m. other r (inr m) in
    elim (Bool-cases (eq_text location local)) [
      | inl here ↦
          rw (here, purge_local_collect_remote)
            (read-purge_local_collect_remote root refused frags
                (delete root store frag (refused frag)).0 x b rest
              ∙ read-delete root store frag x (other (frag, location) (inl refl)) b (refused frag))
      | inr remote ↦
          rw (remote, purge_local_collect_remote)
            (read-purge_local_collect_remote root refused frags store x b rest)
    ]

-- A shard of the file of a chunk.
module _ (d : Db) (chunk_keys : IsKey (λ (c : ChunkRow). c.chunk_id) d.chunks)
    (shard_keys : IsKey (λ (s : ShardRow). s.fragment_id) d.shards) (c : ChunkRow)
    (at_c : Elem c d.chunks) (s : ShardRow) (at_s : Elem s d.shards)
    (of_c : s.chunk_id ≡ c.chunk_id) where
  -- The tables have rows of `d` only, and the shard was not freed.
  pub record IsSpared (w : Sweep) : Type 0 where
    pub chunks : (b : ChunkRow) → Elem b w.db.chunks → Elem b d.chunks
    pub shards : (r : ShardRow) → Elem r w.db.shards → Elem r d.shards
    pub spared : (r : RemoteShard) → Elem r w.frags → r.0 ≢ s.fragment_id

  sweep_one-IsSpared :
      (p : PurgeCandidate) (w : Sweep) → c.file_id ≢ p.1 → IsSpared w → IsSpared (sweep_one p w)
  unfolding sweep_one
  sweep_one-IsSpared p w ne before = record {
    chunks = λ b m. before.chunks b (chunks-purge_file_row p.0 p.1 w.db b m);
    shards = λ r m. before.shards r (shards-purge_file_row p.0 p.1 w.db r m);
    spared = λ r m. elim ((Elem-append r w.frags (purge_file_row p.0 p.1 w.db).0).0 m) [
      | inl old ↦ before.spared r old
      | inr new ↦
          let (t, b, at_t, at_b, joins, own, named) = freed-purge_file_row p.0 p.1 w.db r new in
          λ same.
            let is_s = shard_keys t s (before.shards t at_t) at_s (named ∙ same) in
            let is_c =
              chunk_keys b c (before.chunks b at_b) at_c
                (joins ∙ ap (λ (q : ShardRow). q.chunk_id) is_s ∙ of_c) in
            ne (sym (ap (λ (q : ChunkRow). q.file_id) is_c) ∙ own)
    ];
  }

  pub sweep-IsSpared :
      (ps : List PurgeCandidate) (w : Sweep)
      → ((p : PurgeCandidate) → Elem p ps → c.file_id ≢ p.1)
      → IsSpared w
      → IsSpared (sweep ps w)
  unfolding sweep
  sweep-IsSpared [] w other before = before
  sweep-IsSpared (p ∷ ps) w other before = elim (Bool-cases (any (eq_text p.1) w.seen)) [
    | inl seen ↦ rw (seen, sweep) (sweep-IsSpared ps w (λ q m. other q (inr m)) before)
    | inr new ↦
        rw (new, sweep)
          (sweep-IsSpared ps (sweep_one p w) (λ q m. other q (inr m))
            (sweep_one-IsSpared p w (other p (inl refl)) before))
  ]
