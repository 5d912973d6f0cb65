-- ===== src/Store/Service/Examples.antt =====
-- Runs of the service on the sample.
use p2pnas.Prelude.{
  All, replicate, ℕ, inr, ◌↔◌, arith, false, map, ◌&&◌, ◌||◌, ◌≡◌, refl, [], ◌∷◌, none, inl,
}
use p2pnas.Store.Chunkstore.{
  read, path, is_valid_fragment_id, all_hex, is_ascii_hexdigit, path_discrete,
}
use p2pnas.Prelude.Dict.{remove}
use native.Mathlib.Decide.{ℕ_discrete}
use p2pnas.Store.Manifest.{Text}
use p2pnas.Store.Manifest.Db.{StoredFile, Db, is_live_row}
use p2pnas.Prelude.Select.{filter, order_by, insert_ordered}
use p2pnas.Store.Manifest.Folders.Case.{is_below, files_under_lem}
use p2pnas.Store.Service.Tree.{rename}
use p2pnas.Store.Service.Tree.Moves.{IsMoved, rename-IsMoved}
use p2pnas.Store.Manifest.Files.{get_chunks, get_file, retired_key}
use p2pnas.Store.Manifest.Foreign.{purge_file_row-get_file}
use p2pnas.Store.Manifest.Folders.{files_under}
use p2pnas.Store.Manifest.Retire.{deleted, retire, purge_file_row, strip_file_chunks}
use p2pnas.Store.Manifest.Texts.{eq_text, le_text, lower}
use p2pnas.Store.Manifest.Keys.Reach.{no_rows}
use p2pnas.Store.Service.Plan.{ChunkShards, with_shards, pull_plan}
use p2pnas.Store.Service.Retention.{default, purge_retired}
use p2pnas.Store.Service.Retention.Keeps.{pull_plan-purge_retired}
use p2pnas.Store.Service.Retention.Expired.{days, get_file-purge_retired}
use p2pnas.Store.Service.Retention.Rules.{IsExpired}
use p2pnas.Store.Service.Sample.{
  piece, shard, stock, sample_shards, alice, note, gone, sample, sample-IsKeyed,
}

-- Everything that was deleted before day 5 has expired.
abbrev ago : ℕ → Text
ago days = b'5' ∷ []

pull_plan-purge_retired_example :
    let after = purge_retired [] (λ id. false) ago ago default sample stock in
    (pull_plan alice (b'a' ∷ []) after.1.0 ≡ pull_plan alice (b'a' ∷ []) sample)
    × All
        (λ (p : ChunkShards).
          All (λ s. read [] after.1.1 s.fragment_id false ≡ read [] stock s.fragment_id false) p.1)
        (with_shards sample (get_chunks (b'a' ∷ []) sample))
pull_plan-purge_retired_example =
    pull_plan-purge_retired [] (λ id. false) ago ago default sample stock note false sample-IsKeyed
      sample_shards (inl refl) refl

-- The sweep deletes the shard of the file that has expired, and no other.
swept :
    (purge_retired [] (λ id. false) ago ago default sample stock).1.1
    ≡ ((b'f' ∷ b'f' ∷ []) ∷ (replicate 32 b'f' ∷ []), 8 ∷ (9 ∷ [])) ∷ []
unfolding purge_retired path is_valid_fragment_id all_hex is_ascii_hexdigit remove path_discrete
    ℕ_discrete
swept = refl

get_file-purge_retired_example :
    get_file alice (b'b' ∷ []) (purge_retired [] (λ id. false) ago ago (days 30 90 3) sample []).1.0
      ≡ none
    ↔ IsExpired ago ago 30 90 3 sample.files gone
get_file-purge_retired_example =
    get_file-purge_retired [] (λ id. false) ago ago 30 90 3 sample [] gone sample-IsKeyed
      (inr (inl refl)) (omega arith) (omega arith)

purge_file_row-get_file_example :
    (purge_file_row (b'v' ∷ []) (b'a' ∷ []) sample ≡ ([], sample))
    × (strip_file_chunks (b'v' ∷ []) (b'a' ∷ []) sample ≡ ([], sample))
unfolding get_file eq_text
purge_file_row-get_file_example = purge_file_row-get_file (b'v' ∷ []) (b'a' ∷ []) sample refl

-- The folder "d" becomes "e".
abbrev moved : Db
moved = record sample {
  files = record note { path = b'e' ∷ b'/' ∷ b'n' ∷ [] } ∷ (gone ∷ []);
  folders = record { user_id = alice; path = b'e' ∷ []; parent = [] } ∷ [];
}

rename-IsMoved_example : IsMoved sample moved
unfolding rename retired_key lower insert_ordered
rename-IsMoved_example = rename-IsMoved alice (b'd' ∷ []) (b'e' ∷ []) sample moved refl

-- The file "d/n" is found under "D".
files_under_lem_example :
    files_under alice (b'D' ∷ []) sample
    ≡ order_by
        (λ p q. le_text p.1 q.1)
        (map
          (λ (f : StoredFile). (f.file_id, f.path))
          (filter
            (λ f.
              eq_text f.user_id alice
              && (eq_text f.path (b'D' ∷ []) || is_below (b'D' ∷ []) f.path)
              && is_live_row f)
            sample.files))
files_under_lem_example = files_under_lem alice (b'D' ∷ []) sample (refl, tt)

capital : files_under alice (b'D' ∷ []) sample ≡ (b'a' ∷ [], b'd' ∷ b'/' ∷ b'n' ∷ []) ∷ []
unfolding files_under eq_text lower insert_ordered retired_key
capital = refl

-- A file is made with its chunk and shard, and put in the trash.
abbrev filed : Db
filed = record no_rows { files = note ∷ [] }

abbrev chunked : Db
chunked = record filed { chunks = piece ∷ [] }

abbrev stored : Db
stored = record chunked { shards = shard ∷ [] }

abbrev binned : Db
binned = record stored { files = retire deleted (b'2' ∷ []) note ∷ [] }
