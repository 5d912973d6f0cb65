-- ===== src/Store/Service/Push/Keeps.antt =====
-- store/src/service.rs: a push leaves what is stored of every other file.
use p2pnas.Prelude.{
  ℕ, zero, suc, ◌≡◌, sym, ap, ◌∙◌, ◌≢◌, ◌&&◌, ◌||◌, List, [], ◌∷◌, Option, none, some, Bool-cases,
  inl, inr, refl, All, Bool,
}
use p2pnas.Prelude.Results.{ok, ok_steps, ok_inj}
use mathlib.Core.Path.{subst}
use p2pnas.Prelude.Select.{any, Elem, Elem-All}
use p2pnas.Core.Bytes.{Bytes}
use p2pnas.Core.Pipeline.{Tools, ProcessedChunk, default, process_v2}
use p2pnas.Store.Errors.{StoreResult, from_core}
use p2pnas.Store.Chunkstore.{PathBuf, Files, Written, write, read}
use p2pnas.Store.Manifest.{Text, FileRow, ShardRow, chunk_id}
use p2pnas.Store.Manifest.Texts.{eq_text}
use p2pnas.Store.Manifest.Db.{Db, is_none, is_row, same_path, new_row, insert_file, insert_chunk}
use p2pnas.Store.Manifest.Files.{get_file_by_path}
use p2pnas.Store.Manifest.Keys.{update_files_ok}
use p2pnas.Store.Service.Chunks.{chunk_row, shard_bytes}
use p2pnas.Core.Erasure.Code.{total_shards}
use p2pnas.Store.Manifest.Retire.{superseded, retire, retire_row, supersede_file}
use p2pnas.Store.Service.Push.{
  Hashes, Aside, fragment_id, set_aside, is_unchanged, pushed_row, push_new, push, PushResult,
  write_shard, write_shards, write_chunk_rows,
}
use p2pnas.Store.Service.Push.Shards.{read-write_chunk_rows}
use p2pnas.Store.Service.Push.Rows.{
  stored_of, disk_steps, IsForeign, stored_of-same, insert_chunk-stored_of, insert_shard-stored_of,
}

module _ (i : Text) where
  module _ {F : Type 0} (tools : Tools F) (h : Hashes) (root : PathBuf)
      (outcome : Text → Written) where
    write_shard-stored_of :
        (cid : Text) (c : ProcessedChunk) (n : ℕ) (d : Db) (store : Files) {d' : Db}
        {store' : Files}
        → IsForeign i cid d
        → write_shard tools h root outcome cid c n d store ≡ (store', ok d')
        → (stored_of i d' ≡ stored_of i d) × IsForeign i cid d'
    unfolding write_shard
    write_shard-stored_of cid c n d store foreign e =
        let (_, _, e1, _) =
          disk_steps
            (write root store (fragment_id h cid n) (shard_bytes c n)
              (outcome (fragment_id h cid n)))
            _ e in
        insert_shard-stored_of i _ d foreign (ap (λ (t : Files × StoreResult Db). t.1) e1)

    write_shards-stored_of :
        (cid : Text) (c : ProcessedChunk) (n k : ℕ) (d : Db) (store : Files) {d' : Db}
        {store' : Files}
        → IsForeign i cid d
        → write_shards tools h root outcome cid c n k d store ≡ (store', ok d')
        → stored_of i d' ≡ stored_of i d
    unfolding write_shards
    write_shards-stored_of cid c zero k d store foreign e =
        ap (stored_of i) (sym (ok_inj (ap (λ (t : Files × StoreResult Db). t.1) e)))
    write_shards-stored_of cid c (suc n) k d store foreign e =
        let (d1, store1, e1, written) =
          disk_steps (write_shard tools h root outcome cid c k d store) _ e in
        let (same, still) = write_shard-stored_of cid c k d store foreign written in
        write_shards-stored_of cid c n (suc k) d1 store1 still e1 ∙ same

    write_chunk_rows-stored_of :
        (file_id : Text) (cs : List ProcessedChunk) (d : Db) (store : Files) {d' : Db}
        {store' : Files}
        → file_id ≢ i
        → write_chunk_rows tools h root outcome file_id cs d store ≡ (store', ok d')
        → stored_of i d' ≡ stored_of i d
    unfolding write_chunk_rows chunk_row
    write_chunk_rows-stored_of file_id [] d store ne e =
        ap (stored_of i) (sym (ok_inj (ap (λ (t : Files × StoreResult Db). t.1) e)))
    write_chunk_rows-stored_of file_id (c ∷ cs) d store ne e =
        let (d1, store1, e1, inserted) =
          disk_steps (store, insert_chunk (chunk_row file_id c) d) _ e in
        let (d2, store2, e2, written) =
          disk_steps
            (write_shards tools h root outcome (chunk_id file_id c.index) c total_shards 0 d1
              store1)
            _ e1 in
        let (kept, foreign) =
          insert_chunk-stored_of i (chunk_row file_id c) d ne
            (ap (λ (t : Files × StoreResult Db). t.1) inserted) in
        write_chunk_rows-stored_of file_id cs d2 store2 ne e2
        ∙ write_shards-stored_of (chunk_id file_id c.index) c total_shards 0 d1 store1 foreign
            written
        ∙ kept

    -- What is set aside keeps its chunks and shards.
    set_aside-rows :
        (now user_id file_id : Text) (o : Option FileRow) (d : Db) {a : Aside} {d' : Db}
        → set_aside tools h root outcome now user_id file_id o d ≡ ok (a, d')
        → (d'.chunks ≡ d.chunks) × (d'.shards ≡ d.shards)
    unfolding set_aside supersede_file retire_row
    set_aside-rows now user_id file_id none d e =
        let same = ap (λ (t : Aside × Db). t.1) (sym (ok_inj e)) in
        (ap (λ (x : Db). x.chunks) same, ap (λ (x : Db). x.shards) same)
    set_aside-rows now user_id file_id (some prev) d e =
        let (r, e1, done) = ok_steps (supersede_file user_id prev.file_id now d) _ e in
        let (_, at_r) =
          update_files_ok (λ f. is_row user_id prev.file_id f && is_none f.superseded_at)
            (retire superseded now) d r done in
        let same = ap (λ (t : Aside × Db). t.1) (sym (ok_inj e1)) ∙ at_r in
        (ap (λ (x : Db). x.chunks) same, ap (λ (x : Db). x.shards) same)

    insert_file-rows :
        (f : FileRow) (d : Db) {d' : Db}
        → insert_file f d ≡ ok d'
        → (d'.chunks ≡ d.chunks) × (d'.shards ≡ d.shards)
    unfolding insert_file
    insert_file-rows f d {d'} e =
        elim (Bool-cases
          (any (λ g. eq_text g.file_id f.file_id || same_path (new_row f) g) d.files)) [
            | inl t ↦ cc (rw (t, insert_file) at e)
            | inr t ↦
                let same = ok_inj (rw (t, insert_file) at e) in
                (ap (λ (x : Db). x.chunks) (sym same), ap (λ (x : Db). x.shards) (sym same))
          ]

    push_new-stored_of :
        (skip : F) (data_key : Bytes) (now user_id path file_id : Text) (bytes : Bytes) (d : Db)
        (store : Files) (refused : Bool) {r : PushResult} {d' : Db} {store' : Files}
        → file_id ≢ i
        → push_new tools h root outcome skip data_key now user_id path file_id bytes d store
          ≡ (store', ok (r, d'))
        → (stored_of i d' ≡ stored_of i d)
          × ((s : ShardRow)
              → Elem s d.shards
              → read root store' s.fragment_id refused ≡ read root store s.fragment_id refused)
    unfolding push_new
    push_new-stored_of skip data_key now user_id path file_id bytes d store refused {r} ne e =
        let (chunks, store1, e1, processed) =
          disk_steps
            (store, from_core (process_v2 tools bytes data_key user_id file_id (default skip))) _
            e in
        let (aside, store2, e2, stepped) =
          disk_steps
            (
              store1,
              set_aside tools h root outcome now user_id file_id (get_file_by_path user_id path d)
                  d,
            )
            _ e1 in
        let (d2, store3, e3, inserted) =
          disk_steps
            (
              store2,
              insert_file
                  (pushed_row tools h root outcome now user_id path file_id bytes chunks
                    aside.0.lineage)
                  aside.1,
            )
            _ e2 in
        let (d3, store4, e4, written) =
          disk_steps (write_chunk_rows tools h root outcome file_id chunks d2 store3) _ e3 in
        let last = ok_inj (ap (λ (t : Files × StoreResult (PushResult × Db)). t.1) e4) in
        let (c1, s1) =
          set_aside-rows now user_id file_id (get_file_by_path user_id path d) d
            (ap (λ (t : Files × StoreResult (Aside × Db)). t.1) stepped) in
        let (c2, s2) =
          insert_file-rows
            (pushed_row tools h root outcome now user_id path file_id bytes chunks aside.0.lineage)
            aside.1 (ap (λ (t : Files × StoreResult Db). t.1) inserted) in
        (
          ap (λ (t : PushResult × Db). stored_of i t.1) (sym last)
              ∙ write_chunk_rows-stored_of file_id chunks d2 store3 ne written
              ∙ stored_of-same i d d2 (c2 ∙ c1) (s2 ∙ s1),
          λ s at_s.
              let look = λ (l : Files). read root l s.fragment_id refused in
              let listed = subst (Elem s) (sym (s2 ∙ s1)) at_s in
              ap (λ (t : Files × StoreResult (PushResult × Db)). look t.0) (sym e4)
              ∙ read-write_chunk_rows s.fragment_id tools h root outcome refused file_id chunks d2
                  store3 (s, listed, refl) written
              ∙ ap (λ (t : Files × StoreResult Db). look t.0) (sym inserted)
              ∙ ap (λ (t : Files × StoreResult (Aside × Db)). look t.0) (sym stepped)
              ∙ ap (λ (t : Files × StoreResult (List ProcessedChunk)). look t.0) (sym processed),
        )

-- A push that succeeds leaves the chunks and shards of every file but the new one as they were, those of
-- the version that it replaces among them; and of every shard that had a row, of whichever file, what is
-- read from the store is what was read before, for every answer of the system to the writes.
pub push-stored_of :
    {F : Type 0} (tools : Tools F) (h : Hashes) (root : PathBuf) (outcome : Text → Written)
    (skip : F) (data_key : Bytes) (now user_id path file_id : Text) (bytes : Bytes) (d d' : Db)
    (store store' : Files) (r : PushResult) (i : Text) (refused : Bool)
    → push tools h root outcome skip data_key now user_id path file_id bytes d store
      ≡ (store', ok (r, d'))
    → i ≢ file_id
    → (stored_of i d' ≡ stored_of i d)
      × All
          (λ s. read root store' s.fragment_id refused ≡ read root store s.fragment_id refused)
          d.shards
unfolding push
push-stored_of tools h root outcome skip data_key now user_id path file_id bytes d d' store store' r
      i refused e ne =
    let prev = get_file_by_path user_id path d in
    elim (Bool-cases (is_unchanged tools h root outcome bytes prev)) [
      | inl t ↦
          let same = rw (t, push) at e in
          let answer = ok_inj (ap (λ (t : Files × StoreResult (PushResult × Db)). t.1) same) in
          (
            ap (λ (t : PushResult × Db). stored_of i t.1) (sym answer),
            Elem-All _ d.shards (λ s m.
                ap
                  (λ (t : Files × StoreResult (PushResult × Db)).
                    read root t.0 s.fragment_id refused)
                  (sym same)),
          )
      | inr t ↦
          let (kept, bytes_kept) =
            push_new-stored_of i tools h root outcome skip data_key now user_id path file_id bytes d
              store refused (λ e'. ne (sym e')) (rw (t, push) at e) in
          (kept, Elem-All _ d.shards bytes_kept)
    ]
