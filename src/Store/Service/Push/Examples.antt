-- ===== src/Store/Service/Push/Examples.antt =====
-- A file of one byte is pushed over the file "d/n" of the sample.
use p2pnas.Prelude.{All, false, ◌≡◌, refl, true, [], ◌∷◌, ◌++◌, none, take, replicate}
use p2pnas.Prelude.Results.{ok, err, panic}
use p2pnas.Core.Bytes.{be_bytes, Bytes}
use p2pnas.Core.Pipeline.Plain.{tools}
use p2pnas.Dht.Ids.{hex_digit, hex}
use p2pnas.Store.Manifest.Texts.{lower}
use p2pnas.Core.Pipeline.{process_with_scheme, chunk_count_for, process_chunks, process_chunk}
use p2pnas.Core.Crypto.Cipher.{new, seal_chunk}
use p2pnas.Core.Chunker.{split_chunks}
use p2pnas.Core.Erasure.Shards.{encode_recovery}
use p2pnas.Store.Errors.{StoreResult}
use p2pnas.Store.Chunkstore.{
  is_ascii_hexdigit, all_hex, is_valid_fragment_id, path, Files, Written, done, read,
}
use p2pnas.Store.Manifest.{decimal, chunk_id, Text}
use p2pnas.Store.Manifest.Db.{Db}
use p2pnas.Store.Manifest.Keys.{eq_text→≢}
use p2pnas.Store.Service.Push.{Hashes, PushResult, push}
use p2pnas.Store.Service.Push.Rows.{stored_of}
use p2pnas.Store.Service.Push.Keeps.{push-stored_of}
use p2pnas.Store.Service.Sample.{alice, note, sample, stock}

-- A hash that changes nothing, and digits that are filled up to 32.
abbrev plain_hashes : Hashes
plain_hashes = record { blake3 = λ xs. xs; hex = λ xs. take 32 (hex xs ++ replicate 32 b'0') }

abbrev result_of : Db → StoreResult (PushResult × Db) → PushResult × Db
result_of d (ok r) = r
result_of d (err e) = (
  record {
    file_id = [];
    size = 0;
    stored_bytes = 0;
    superseded_file_id = none;
    superseded_size = 0;
    superseded_stored = 0;
    unchanged = true;
  },
  d,
)
result_of d panic = (
  record {
    file_id = [];
    size = 0;
    stored_bytes = 0;
    superseded_file_id = none;
    superseded_size = 0;
    superseded_stored = 0;
    unchanged = true;
  },
  d,
)

abbrev outcome : Text → Written
outcome id = done

abbrev key : Bytes
key = replicate 32 7

pushed : Files × StoreResult (PushResult × Db)
unfolding push
pushed =
    push tools plain_hashes [] outcome true key (b'8' ∷ []) alice note.path (b'c' ∷ []) (5 ∷ [])
      sample stock

pushes : pushed ≡ (pushed.0, ok (result_of sample pushed.1))
unfolding pushed lower process_with_scheme chunk_count_for new process_chunks split_chunks
    process_chunk seal_chunk encode_recovery chunk_id path is_valid_fragment_id hex decimal be_bytes
    all_hex is_ascii_hexdigit hex_digit
pushes = refl

push-stored_of_example :
    (stored_of (b'a' ∷ []) (result_of sample pushed.1).1 ≡ stored_of (b'a' ∷ []) sample)
    × All
        (λ s. read [] pushed.0 s.fragment_id false ≡ read [] stock s.fragment_id false)
        sample.shards
unfolding pushed
push-stored_of_example =
    push-stored_of tools plain_hashes [] outcome true key (b'8' ∷ []) alice note.path (b'c' ∷ [])
      (5 ∷ []) sample (result_of sample pushed.1).1 stock pushed.0 (result_of sample pushed.1).0
      (b'a' ∷ []) false pushes (eq_text→≢ _ _ refl)
