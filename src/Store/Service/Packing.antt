-- ===== src/Store/Service/Packing.antt =====
-- store/src/service.rs: the moving of files into a pack, and the rewriting of a pack.
use p2pnas.Prelude.{
  ℕ, ◌+◌, Bool, true, false, not, ◌&&◌, ◌||◌, ◌==◌, List, [], ◌∷◌, ◌++◌, Option, none, some, length,
  if◌then◌else◌,
}
use p2pnas.Prelude.Int.{pos}
use p2pnas.Prelude.Results.{ok, err, ◌>>=◌}
use p2pnas.Prelude.Select.{any}
use p2pnas.Core.Bytes.{Bytes}
use p2pnas.Core.Crypto.Encode.{v2, as_i64}
use p2pnas.Core.Pipeline.{Tools, ProcessedChunk, default, process_v2}
use p2pnas.Store.Errors.{StoreResult, not_found, integrity, from_core}
use p2pnas.Store.Chunkstore.{PathBuf, Files, Written}
use p2pnas.Store.Manifest.{Text, FileRow}
use p2pnas.Store.Manifest.Texts.{eq_text}
use p2pnas.Store.Manifest.Db.{Db, is_none, insert_file}
use p2pnas.Store.Manifest.Files.{get_file, is_pack, pack_key}
use p2pnas.Store.Manifest.Packs.{assign_to_pack, pack_members, is_text}
use p2pnas.Store.Manifest.Retire.{strip_file_chunks, purge_file_row}
use p2pnas.Store.Service.Chunks.{stored_bytes_of}
use p2pnas.Store.Service.Packs.{PackEntry, PackRange, build_pack}
use p2pnas.Store.Service.Push.{Hashes, blake3_hex, write_chunk_rows, ◌>>!◌}
use p2pnas.Store.Service.Trash.{ok_or, RemoteShard, purge_local_collect_remote}

pub record PackResult : Type 0 where
  pub pack_id : Option Text
  pub pack_size : ℕ
  pub pack_stored_bytes : ℕ
  pub members : ℕ
  pub freed_stored_bytes : ℕ
  pub remote : List RemoteShard

-- A row of the loop of `pack_files`: not in a pack, and as long as its bytes.
unfoldable pub pack_one :
    Text → Text → PackEntry → PackRange → Db → StoreResult ((ℕ × List RemoteShard) × Db)
unfolding get_file strip_file_chunks assign_to_pack
pack_one user_id pack e range d =
    ok_or (integrity "the file vanished while being packed") (get_file user_id e.file_id d)
    >>= λ row.
        if not (is_none row.pack_id) || not (row.size == length e.bytes)
        then err (integrity "the file changed while being packed")
        else let stripped = strip_file_chunks user_id e.file_id d in
          assign_to_pack user_id e.file_id pack (pos range.0) (pos range.1) stripped.1 >>= λ r.
          ok ((row.stored_bytes, stripped.0), r.1)

unfoldable pub pack_each :
    Text
    → Text
    → List PackEntry
    → List PackRange
    → ℕ
    → List RemoteShard
    → Db
    → StoreResult ((ℕ × List RemoteShard) × Db)
unfolding pack_one
pack_each user_id pack [] ranges freed frags d = ok ((freed, frags), d)
pack_each user_id pack (e ∷ es) [] freed frags d = ok ((freed, frags), d)
pack_each user_id pack (e ∷ es) (range ∷ ranges) freed frags d =
    pack_one user_id pack e range d >>= λ r.
    pack_each user_id pack es ranges (freed + r.0.0) (frags ++ r.0.1) r.1

-- A row of the loop of `compact_pack`: in the old pack, and as long as its bytes.
unfoldable pub compact_one : Text → Text → Text → PackEntry → PackRange → Db → StoreResult Db
unfolding get_file assign_to_pack eq_text
compact_one user_id old new e range d =
    ok_or (integrity "the file vanished while being compacted") (get_file user_id e.file_id d)
    >>= λ row.
        if not (is_text old row.pack_id) || not (row.size == length e.bytes)
        then err (integrity "the file changed while being compacted")
        else assign_to_pack user_id e.file_id new (pos range.0) (pos range.1) d >>= λ r. ok r.1

unfoldable pub compact_each :
    Text → Text → Text → List PackEntry → List PackRange → Db → StoreResult Db
unfolding compact_one
compact_each user_id old new [] ranges d = ok d
compact_each user_id old new (e ∷ es) [] d = ok d
compact_each user_id old new (e ∷ es) (range ∷ ranges) d =
    compact_one user_id old new e range d >>= λ d'. compact_each user_id old new es ranges d'

-- Every member is among the survivors.
unfoldable pub all_carried : List FileRow → List PackEntry → Bool
unfolding any eq_text
all_carried [] survivors = true
all_carried (m ∷ ms) survivors =
    any (λ (e : PackEntry). eq_text e.file_id m.file_id) survivors && all_carried ms survivors

abbrev pub no_entries : List PackEntry → Bool
no_entries [] = true
no_entries (e ∷ es) = false

module _ {F : Type 0} (tools : Tools F) (h : Hashes) (root : PathBuf) (outcome : Text → Written)
    (refused : Text → Bool) (default_entropy_skip : F) (data_key : Bytes) (now user_id : Text) where
  unfoldable pub pack_row : Text → Bytes → List ProcessedChunk → FileRow
  unfolding stored_bytes_of blake3_hex pack_key
  pack_row pack plain chunks = record {
    file_id = pack;
    user_id = user_id;
    path = pack_key pack;
    size = length plain;
    stored_bytes = stored_bytes_of chunks;
    chunk_count = length chunks;
    created_at = now;
    deleted_at = none;
    superseded_at = none;
    lineage = pack;
    key_scheme = as_i64 v2;
    content_hash = some (blake3_hex h plain);
    pack_id = none;
    pack_offset = none;
    pack_len = none;
  }

  unfoldable pub insert_pack_row : Text → Bytes → Db → Files → Files × StoreResult (ℕ × Db)
  unfolding process_v2 insert_file pack_row write_chunk_rows stored_bytes_of
  insert_pack_row pack plain d store =
      (
        store,
        from_core (process_v2 tools plain data_key user_id pack (default default_entropy_skip)),
      )
      >>! λ chunks store1. (store1, insert_file (pack_row pack plain chunks) d) >>! λ d1 store2.
          write_chunk_rows tools h root outcome pack chunks d1 store2 >>! λ d2 store3.
          (store3, ok (stored_bytes_of chunks, d2))

  -- After the commit: the replaced shards are freed, or left to their hosts.
  unfoldable pub packed :
      Option Text
      → ℕ
      → ℕ
      → ℕ
      → ℕ
      → List RemoteShard
      → Db
      → Files
      → Files × StoreResult (PackResult × Db)
  unfolding purge_local_collect_remote
  packed pack size stored members freed frags d store =
      let (remote, store') = purge_local_collect_remote root refused frags store in
      (
        store',
        ok (
          record {
            pack_id = pack;
            pack_size = size;
            pack_stored_bytes = stored;
            members = members;
            freed_stored_bytes = freed;
            remote = remote;
          },
          d,
        ),
      )

  unfoldable pub pack_files :
      Text → List PackEntry → Db → Files → Files × StoreResult (PackResult × Db)
  unfolding build_pack pack_each insert_pack_row packed
  pack_files pack entries d store =
      if no_entries entries
      then (store, err (integrity "cannot build an empty pack"))
      else (store, build_pack entries) >>! λ built store1.
          (store1, pack_each user_id pack entries built.1 0 [] d) >>! λ r store2.
          insert_pack_row pack built.0 r.1 store2 >>! λ s store3.
          packed (some pack) (length built.0) s.0 (length entries) r.0.0 r.0.1 s.1 store3

  -- The rewriting around the survivors, past the tests.
  unfoldable pub compact_survivors :
      Text → Text → FileRow → List PackEntry → Db → Files → Files × StoreResult (PackResult × Db)
  unfolding build_pack compact_each insert_pack_row purge_file_row packed
  compact_survivors old_pack new_pack old survivors d store =
      (store, build_pack survivors) >>! λ built store1.
      (store1, compact_each user_id old_pack new_pack survivors built.1 d) >>! λ d1 store2.
      insert_pack_row new_pack built.0 d1 store2 >>! λ s store3.
      let purged = purge_file_row user_id old_pack s.1 in
      packed (some new_pack) (length built.0) s.0 (length survivors) old.stored_bytes purged.0
        purged.1 store3

  unfoldable pub compact_pack :
      Text → Text → List PackEntry → Db → Files → Files × StoreResult (PackResult × Db)
  unfolding get_file is_pack pack_members all_carried purge_file_row packed compact_survivors
  compact_pack old_pack new_pack survivors d store =
      (store, ok_or not_found (get_file user_id old_pack d)) >>! λ old store1.
      if not (is_pack old)
      then (store1, err (integrity "not a pack"))
      else if not (all_carried (pack_members user_id old_pack d) survivors)
      then (store1, err (integrity "a member is not among the compaction survivors"))
      else if no_entries survivors
      then (let purged = purge_file_row user_id old_pack d in
          packed none 0 0 0 old.stored_bytes purged.0 purged.1 store1)
      else compact_survivors old_pack new_pack old survivors d store1
