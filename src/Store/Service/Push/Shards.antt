-- ===== src/Store/Service/Push/Shards.antt =====
-- store/src/service.rs: a push writes no fragment that the table of shards already has.
use mathlib.Core.Path.{subst}
use p2pnas.Prelude.{
  ℕ, zero, suc, ◌≡◌, refl, sym, ap, ◌∙◌, ◌≢◌, Bool, true, false, not, ◌||◌, List, [], ◌∷◌,
  Bool-cases, inl, inr,
}
use p2pnas.Prelude.Results.{ok, ok_inj}
use p2pnas.Prelude.Select.{any, any-false, Elem, Elem-append}
use p2pnas.Core.Pipeline.{Tools, ProcessedChunk}
use p2pnas.Core.Erasure.Code.{total_shards}
use p2pnas.Store.Errors.{StoreResult}
use p2pnas.Store.Chunkstore.{PathBuf, Files, Written, write, read}
use p2pnas.Store.Chunkstore.Contents.{read-write}
use p2pnas.Store.Manifest.{Text, ChunkRow, ShardRow, chunk_id}
use p2pnas.Store.Manifest.Texts.{eq_text, eq_text_refl}
use p2pnas.Store.Manifest.Db.{Db, insert_chunk, insert_shard}
use p2pnas.Store.Service.Chunks.{chunk_row, shard_bytes}
use p2pnas.Store.Service.Push.{Hashes, fragment_id, write_shard, write_shards, write_chunk_rows}
use p2pnas.Store.Service.Push.Rows.{disk_steps}

module _ (x : Text) where
  -- A shard row has the fragment.
  abbrev pub IsListed : Db → Type 0
  IsListed d = (s : ShardRow) × Elem s d.shards × (s.fragment_id ≡ x)

  -- The fragment of a shard that is inserted is another one, and what was listed stays listed.
  insert_shard-IsListed :
      (s : ShardRow) (d : Db) {d' : Db}
      → IsListed d
      → insert_shard s d ≡ ok d'
      → (s.fragment_id ≢ x) × IsListed d'
  unfolding insert_shard
  insert_shard-IsListed s d (r, at_r, is_x) e =
      let taken = λ (r : ShardRow). eq_text r.fragment_id s.fragment_id in
      let orphan = not (any (λ (c : ChunkRow). eq_text c.chunk_id s.chunk_id) d.chunks) in
      elim (Bool-cases (any taken d.shards || orphan)) [
        | inl t ↦ cc (rw (t, insert_shard) at e)
        | inr t ↦ (
          λ same.
              let apart = any-false taken r d.shards (first_false _ orphan t) at_r in
              let clash : true ≡ false =
                sym (eq_text_refl s.fragment_id)
                ∙ ap (λ y. eq_text y s.fragment_id) (same ∙ sym is_x)
                ∙ apart in
              cc,
          subst IsListed (ok_inj (rw (t, insert_shard) at e))
              (r, (Elem-append r d.shards (s ∷ [])).1 (inl at_r), is_x),
        )
      ]
    where
      first_false : (a b : Bool) → (a || b) ≡ false → a ≡ false
      first_false true b e = cc
      first_false false b e = refl

  insert_chunk-IsListed :
      (c : ChunkRow) (d : Db) {d' : Db} → IsListed d → insert_chunk c d ≡ ok d' → IsListed d'
  unfolding insert_chunk
  insert_chunk-IsListed c d listed e =
      let clash = any (λ (b : ChunkRow). eq_text b.chunk_id c.chunk_id) d.chunks in
      elim (Bool-cases (clash || not (any (λ f. eq_text f.file_id c.file_id) d.files))) [
        | inl t ↦ cc (rw (t, insert_chunk) at e)
        | inr t ↦ subst IsListed (ok_inj (rw (t, insert_chunk) at e)) listed
      ]

  module _ {F : Type 0} (tools : Tools F) (h : Hashes) (root : PathBuf) (outcome : Text → Written)
      (refused : Bool) where
    read-write_shard :
        (cid : Text) (c : ProcessedChunk) (n : ℕ) (d : Db) (store : Files) {d' : Db}
        {store' : Files}
        → IsListed d
        → write_shard tools h root outcome cid c n d store ≡ (store', ok d')
        → (read root store' x refused ≡ read root store x refused) × IsListed d'
    unfolding write_shard
    read-write_shard cid c n d store listed e =
        let frag = fragment_id h cid n in
        let (_, store1, e1, wrote) =
          disk_steps (write root store frag (shard_bytes c n) (outcome frag)) _ e in
        let (other, still) =
          insert_shard-IsListed _ d listed (ap (λ (t : Files × StoreResult Db). t.1) e1) in
        let same = read-write root store frag x other refused (shard_bytes c n) (outcome frag) in
        (
          ap (λ (t : Files × StoreResult Db). read root t.0 x refused) (sym e1)
              ∙ ap (λ t. read root t.0 x refused) (sym wrote)
              ∙ same,
          still,
        )

    read-write_shards :
        (cid : Text) (c : ProcessedChunk) (n k : ℕ) (d : Db) (store : Files) {d' : Db}
        {store' : Files}
        → IsListed d
        → write_shards tools h root outcome cid c n k d store ≡ (store', ok d')
        → (read root store' x refused ≡ read root store x refused) × IsListed d'
    unfolding write_shards
    read-write_shards cid c zero k d store listed e = (
      ap (λ (t : Files × StoreResult Db). read root t.0 x refused) (sym e),
      subst IsListed (ok_inj (ap (λ (t : Files × StoreResult Db). t.1) e)) listed,
    )
    read-write_shards cid c (suc n) k d store listed e =
        let (d1, store1, e1, written) =
          disk_steps (write_shard tools h root outcome cid c k d store) _ e in
        let (same, still) = read-write_shard cid c k d store listed written in
        let (same', still') = read-write_shards cid c n (suc k) d1 store1 still e1 in
        (same' ∙ same, still')

    pub read-write_chunk_rows :
        (file_id : Text) (cs : List ProcessedChunk) (d : Db) (store : Files) {d' : Db}
        {store' : Files}
        → IsListed d
        → write_chunk_rows tools h root outcome file_id cs d store ≡ (store', ok d')
        → read root store' x refused ≡ read root store x refused
    unfolding write_chunk_rows
    read-write_chunk_rows file_id [] d store listed e =
        ap (λ (t : Files × StoreResult Db). read root t.0 x refused) (sym e)
    read-write_chunk_rows file_id (c ∷ cs) d store listed e =
        let (d1, store1, e1, inserted) =
          disk_steps (store, insert_chunk (chunk_row file_id c) d) _ e in
        let (d2, store2, e2, written) =
          disk_steps
            (write_shards tools h root outcome (chunk_id file_id c.index) c total_shards 0 d1
              store1)
            _ e1 in
        let listed1 =
          insert_chunk-IsListed (chunk_row file_id c) d listed
            (ap (λ (t : Files × StoreResult Db). t.1) inserted) in
        let (same, still) =
          read-write_shards (chunk_id file_id c.index) c total_shards 0 d1 store1 listed1 written in
        read-write_chunk_rows file_id cs d2 store2 still e2
        ∙ same
        ∙ ap (λ (t : Files × StoreResult Db). read root t.0 x refused) (sym inserted)
