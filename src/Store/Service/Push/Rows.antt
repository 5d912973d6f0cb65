-- ===== src/Store/Service/Push/Rows.antt =====
-- store/src/manifest.rs: a new chunk and a new shard leave what is stored of other files.
use mathlib.Core.Path.{subst}
use p2pnas.Prelude.{
  ◌≡◌, refl, sym, ap, ◌∙◌, ◌≢◌, Bool, true, false, not, ◌||◌, leb, List, [], ◌∷◌, ◌++◌, Bool-cases,
  inl, inr,
}
use p2pnas.Prelude.Results.{ok, err, panic, ok_inj}
use p2pnas.Prelude.Select.{
  filter, filter-append, any, any-false, order_by, Elem, Elem-append, Elem-order_by, Elem-filter,
}
use p2pnas.Store.Errors.{StoreResult}
use p2pnas.Store.Chunkstore.{Files}
use p2pnas.Store.Manifest.{Text, ChunkRow, ShardRow}
use p2pnas.Store.Manifest.Texts.{eq_text, eq_text_refl, eq_text→≡}
use p2pnas.Store.Manifest.Db.{StoredFile, Db, insert_chunk, insert_shard}
use p2pnas.Store.Manifest.Files.{get_chunks, get_shards}
use p2pnas.Store.Manifest.Keys.{eq_text_ne}
use p2pnas.Store.Service.Plan.{ChunkShards, with_shards}
use p2pnas.Store.Service.Push.{◌>>!◌}

-- The chunks of a file, each with its shards.
unfoldable pub stored_of : Text → Db → List ChunkShards
unfolding with_shards get_chunks
stored_of i d = with_shards d (get_chunks i d)

pub disk_steps :
    {A B : Type 0} (first : Files × StoreResult A) (next : A → Files → Files × StoreResult B)
    {out : Files} {b : B}
    → (first >>! next) ≡ (out, ok b)
    → (a : A) × (store : Files) × (next a store ≡ (out, ok b)) × (first ≡ (store, ok a))
disk_steps (store, ok a) next e = (a, store, e, refl)
disk_steps {B = B} (store, err x) next e =
    let clash = ap (λ (t : Files × StoreResult B). t.1) e in cc
disk_steps {B = B} (store, panic) next e =
    let clash = ap (λ (t : Files × StoreResult B). t.1) e in cc

-- The chunks with an id are another file's.
unfoldable pub IsForeign : Text → Text → Db → Type 0
IsForeign i cid d = (c : ChunkRow) → Elem c d.chunks → c.chunk_id ≡ cid → c.file_id ≢ i

with_shards-same :
    (d d' : Db) (cs : List ChunkRow) → d'.shards ≡ d.shards → with_shards d' cs ≡ with_shards d cs
unfolding with_shards get_shards
with_shards-same d d' [] e = refl
with_shards-same d d' (c ∷ cs) e =
    let rest = with_shards-same d d' cs e in
    λ k.
      (
        c,
        order_by (λ r s. leb r.shard_index s.shard_index)
            (filter (λ s. eq_text s.chunk_id c.chunk_id) (e k)),
      )
      ∷ rest k

-- A shard of none of the chunks.
with_shards-other :
    (d : Db) (s : ShardRow) (cs : List ChunkRow)
    → ((c : ChunkRow) → Elem c cs → s.chunk_id ≢ c.chunk_id)
    → with_shards (record d { shards = d.shards ++ (s ∷ []) }) cs ≡ with_shards d cs
unfolding with_shards get_shards
with_shards-other d s [] other = refl
with_shards-other d s (c ∷ cs) other =
    let rest = with_shards-other d s cs (λ b m. other b (inr m)) in
    let here =
      filter-append (λ (r : ShardRow). eq_text r.chunk_id c.chunk_id) d.shards s
        (eq_text_ne s.chunk_id c.chunk_id (other c (inl refl))) in
    λ k. (c, order_by (λ r s. leb r.shard_index s.shard_index) (here k)) ∷ rest k

module _ (i : Text) where
  pub stored_of-same :
      (d d' : Db) → d'.chunks ≡ d.chunks → d'.shards ≡ d.shards → stored_of i d' ≡ stored_of i d
  unfolding stored_of get_chunks
  stored_of-same d d' chunks shards =
      with_shards-same d d' (get_chunks i d') shards
      ∙ ap
          (λ (cs : List ChunkRow).
            with_shards d
              (order_by (λ b c. leb b.idx c.idx) (filter (λ c. eq_text c.file_id i) cs)))
          chunks

  pub insert_chunk-stored_of :
      (c : ChunkRow) (d : Db) {d' : Db}
      → c.file_id ≢ i
      → insert_chunk c d ≡ ok d'
      → (stored_of i d' ≡ stored_of i d) × IsForeign i c.chunk_id d'
  unfolding insert_chunk stored_of IsForeign get_chunks
  insert_chunk-stored_of c d {d'} ne e =
      let clash = any (λ (b : ChunkRow). eq_text b.chunk_id c.chunk_id) d.chunks in
      let orphan = not (any (λ (f : StoredFile). eq_text f.file_id c.file_id) d.files) in
      let new : Db = record d { chunks = d.chunks ++ (c ∷ []) } in
      elim (Bool-cases (clash || orphan)) [
        | inl t ↦ cc (rw (t, insert_chunk) at e)
        | inr t ↦
            subst (λ (x : Db). (stored_of i x ≡ stored_of i d) × IsForeign i c.chunk_id x)
              (ok_inj (rw (t, insert_chunk) at e))
              (
                with_shards-same d new (get_chunks i new) refl
                    ∙ ap (λ cs. with_shards d (order_by (λ (b c : ChunkRow). leb b.idx c.idx) cs))
                        (filter-append (λ (b : ChunkRow). eq_text b.file_id i) d.chunks c
                          (eq_text_ne c.file_id i ne)),
                λ x m same. elim ((Elem-append x d.chunks (c ∷ [])).0 m) [
                  | inl old ↦
                      let apart =
                        any-false (λ (b : ChunkRow). eq_text b.chunk_id c.chunk_id) x d.chunks
                          (first_false clash orphan t) old in
                      let contra : true ≡ false =
                        sym (eq_text_refl c.chunk_id)
                        ∙ ap (λ y. eq_text y c.chunk_id) (sym same)
                        ∙ apart in
                      cc
                  | inr here ↦ elim here [
                    | inl at_c ↦ λ own. ne (ap (λ (b : ChunkRow). b.file_id) (sym at_c) ∙ own)
                    | inr nothing ↦ absurd nothing
                  ]
                ],
              )
      ]
    where
      first_false : (a b : Bool) → (a || b) ≡ false → a ≡ false
      first_false true b e = cc
      first_false false b e = refl

  pub insert_shard-stored_of :
      (s : ShardRow) (d : Db) {d' : Db}
      → IsForeign i s.chunk_id d
      → insert_shard s d ≡ ok d'
      → (stored_of i d' ≡ stored_of i d) × IsForeign i s.chunk_id d'
  unfolding insert_shard stored_of IsForeign get_chunks
  insert_shard-stored_of s d {d'} foreign e =
      elim (Bool-cases (
        any (λ (r : ShardRow). eq_text r.fragment_id s.fragment_id) d.shards
        || not (any (λ (c : ChunkRow). eq_text c.chunk_id s.chunk_id) d.chunks))) [
          | inl t ↦ cc (rw (t, insert_shard) at e)
          | inr t ↦
              subst (λ (x : Db). (stored_of i x ≡ stored_of i d) × IsForeign i s.chunk_id x)
                (ok_inj (rw (t, insert_shard) at e))
                (
                  with_shards-other d s (get_chunks i d) (λ c m same.
                      let (at_c, own) =
                        (Elem-filter (λ (b : ChunkRow). eq_text b.file_id i) c d.chunks).0
                          ((Elem-order_by _ c _).0 m) in
                      foreign c at_c (sym same) (eq_text→≡ c.file_id i own)),
                  foreign,
                )
        ]
