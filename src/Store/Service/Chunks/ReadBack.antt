-- ===== src/Store/Service/Chunks/ReadBack.antt =====
-- What the pipeline made of a file is read back from any ten shards of each chunk.
use mathlib.Core.Path.{subst}
use p2pnas.Core.Errors.{CoreResult}
use p2pnas.Prelude.{
  ℕ, suc, ◌+◌, ◌≤◌, ◌<◌, ◌≡◌, refl, sym, ap, ◌∙◌, List, [], ◌∷◌, ◌++◌, append_assoc, append-nil,
  Option, length, arith,
}
use p2pnas.Prelude.Kept.{Kept, held}
use p2pnas.Prelude.Results.{ok, ok_steps, ok_inj, ◌>>=◌}
use p2pnas.Core.Bytes.{Bytes}
use p2pnas.Core.Chunker.{IsCodec, maybe_compress, split_chunks}
use p2pnas.Core.Chunker.Laws.{joined, restore-maybe_compress, split_chunks_lem}
use p2pnas.Core.Crypto.Encode.{KeyScheme, from_i64, as_i64}
use p2pnas.Core.Crypto.Canonical.{from_i64_iff}
use p2pnas.Core.Crypto.Primitives.{IsAead}
use p2pnas.Core.Crypto.Cipher.{FileCipher, new, seal_chunk}
use p2pnas.Core.Crypto.Binding.{new_fields, open_chunk-seal_chunk}
use p2pnas.Core.Erasure.Code.{IsErasureCode}
use p2pnas.Core.Erasure.Shards.{shard_len, map_err, original, map_range, encode, encode_recovery}
use p2pnas.Core.Erasure.Striping.{encode-encode_recovery}
use p2pnas.Core.Erasure.Reconstruct.{reconstruct-encode}
use p2pnas.Core.Pipeline.{
  Tools, PipelineConfig, ProcessedChunk, chunk_count_for, process_chunk, process_chunks,
  process_with_scheme,
}
use p2pnas.Store.Manifest.{Text, FileRow, ChunkRow}
use p2pnas.Store.Service.Chunks.{stored_shards, chunk_row, read_chunk, read_chunks, reassemble}
use p2pnas.Store.Service.Chunks.Stored.{map_err-ok, stored_shards-original, counted_lem}

module _ {F : Type 0} (tools : Tools F) (lawful : IsErasureCode tools.code)
    (aead : IsAead tools.prim) (codec : IsCodec tools.zstd) where
  -- What a processed chunk comes from.
  record IsProcessed (c : FileCipher) (cfg : PipelineConfig F) (i : ℕ) (chunk : Bytes)
      (p : ProcessedChunk) : Type 0 where
    sealed :
        seal_chunk tools.prim c
          (maybe_compress tools.floats tools.zstd chunk cfg.entropy_skip cfg.zstd_level).0
          i
        ≡ ok (p.cipher, p.nonce)
    striped : encode_recovery tools.code p.cipher ≡ ok (p.shard_len, p.recovery)
    index : p.index ≡ i
    flag :
        p.is_compressed
        ≡ (maybe_compress tools.floats tools.zstd chunk cfg.entropy_skip cfg.zstd_level).1

  process_chunk-IsProcessed :
      (c : FileCipher) (cfg : PipelineConfig F) (i : ℕ) (chunk : Bytes) {p : ProcessedChunk}
      → process_chunk tools c cfg i chunk ≡ ok p
      → IsProcessed c cfg i chunk p
  unfolding process_chunk
  process_chunk-IsProcessed c cfg i chunk {p} e =
      let compressed =
        maybe_compress tools.floats tools.zstd chunk cfg.entropy_skip cfg.zstd_level in
      let (sealed, e1, s) = ok_steps (seal_chunk tools.prim c compressed.0 i) _ e in
      let (shards, e2, t) = ok_steps (encode_recovery tools.code sealed.0) _ e1 in
      let same : record {
        index = i;
        nonce = sealed.1;
        is_compressed = compressed.1;
        plaintext_len = length chunk;
        cipher = sealed.0;
        shard_len = shards.0;
        recovery = shards.1;
      }
          ≡ p =
        ok_inj e2 in
      subst (IsProcessed c cfg i chunk) same
        (record { sealed = s; striped = t; index = refl; flag = refl })

  stored_shards-encode :
      (p : ProcessedChunk)
      → encode_recovery tools.code p.cipher ≡ ok (p.shard_len, p.recovery)
      → encode tools.code p.cipher ≡ ok (stored_shards p)
  unfolding encode_recovery
  stored_shards-encode p e =
      let n = shard_len (length p.cipher) in
      let originals = map_range (original p.cipher n) 0 10 in
      let (recovery, e1, made) = ok_steps (map_err (tools.code.encode 10 4 originals)) _ e in
      let same : ◌≡◌ {A = ℕ × List Bytes} (n, recovery) (p.shard_len, p.recovery) = ok_inj e1 in
      let sl : p.shard_len ≡ n = sym (ap (λ (t : ℕ × List Bytes). t.0) same) in
      let made' : tools.code.encode 10 4 originals ≡ ok p.recovery =
        map_err-ok _ made ∙ ap ok (ap (λ (t : ℕ × List Bytes). t.1) same) in
      let four = lawful.recovery_count originals p.recovery made' in
      encode-encode_recovery tools.code p.cipher
      ∙ ap
          (λ (r : CoreResult (ℕ × List Bytes)).
            r >>= λ (sl, recovery). ok (map_range (original p.cipher sl) 0 10 ++ recovery))
          e
      ∙ ap ok (sym (stored_shards-original p sl four))

  read_chunk-process_chunk :
      (c : FileCipher) (cfg : PipelineConfig F) (i : ℕ) (chunk file_id : Bytes) (p : ProcessedChunk)
      (present : List (Option Bytes))
      → process_chunk tools c cfg i chunk ≡ ok p
      → i < c.chunk_count
      → Kept present (stored_shards p)
      → 10 ≤ held present
      → read_chunk tools c (chunk_row file_id p) present ≡ ok chunk
  unfolding read_chunk chunk_row
  read_chunk-process_chunk c cfg i chunk file_id p present e lt kept enough =
      let q = process_chunk-IsProcessed c cfg i chunk e in
      let buf = maybe_compress tools.floats tools.zstd chunk cfg.entropy_skip cfg.zstd_level in
      let whole =
        reconstruct-encode tools.code lawful p.cipher (stored_shards p) present
          (stored_shards-encode p q.striped) kept enough in
      let opened = open_chunk-seal_chunk tools.prim aead c buf.0 p.cipher p.nonce i lt q.sealed in
      let (back, _) =
        restore-maybe_compress tools.floats tools.zstd codec chunk cfg.entropy_skip
          cfg.zstd_level in
      rw (whole, q.index, opened, q.flag, back) refl

  -- The shards that were fetched: of each chunk ten at least, unchanged.
  abbrev pub IsFetched : Text → List ProcessedChunk → List (ChunkRow × List (Option Bytes)) → Type 0
  IsFetched file_id [] [] = Unit {0}
  IsFetched file_id [] (c ∷ cs) = ⊥
  IsFetched file_id (p ∷ ps) [] = ⊥
  IsFetched file_id (p ∷ ps) ((row, present) ∷ cs) =
      (row ≡ chunk_row file_id p)
      × Kept present (stored_shards p)
      × (10 ≤ held present)
      × IsFetched file_id ps cs

  -- The first of the chunks, where the others are read back.
  read_chunks_step :
      (c : FileCipher) (cfg : PipelineConfig F) (i : ℕ) (chunk : Bytes) (chunks : List Bytes)
      (file_id : Text) (q : ProcessedChunk) (qs : List ProcessedChunk)
      (cs : List (ChunkRow × List (Option Bytes))) (out : Bytes)
      → process_chunk tools c cfg i chunk ≡ ok q
      → i < c.chunk_count
      → IsFetched file_id (q ∷ qs) cs
      → ((cs' : List (ChunkRow × List (Option Bytes))) (out' : Bytes)
          → IsFetched file_id qs cs'
          → read_chunks tools c cs' out' ≡ ok (out' ++ joined chunks))
      → read_chunks tools c cs out ≡ ok (out ++ (chunk ++ joined chunks))
  unfolding read_chunks
  read_chunks_step c cfg i chunk chunks file_id q qs [] out first lt h ih = absurd h
  read_chunks_step c cfg i chunk chunks file_id q qs ((row, present) ∷ cs) out first lt
        (at_row, kept, enough, h) ih =
      let here : read_chunk tools c row present ≡ ok chunk =
        ap (λ r. read_chunk tools c r present) at_row
        ∙ read_chunk-process_chunk c cfg i chunk file_id q present first lt kept enough in
      rw here (ih cs (out ++ chunk) h ∙ ap ok (append_assoc out chunk (joined chunks)))

  read_chunks-process_chunks :
      (c : FileCipher) (cfg : PipelineConfig F) (i : ℕ) (chunks : List Bytes) (file_id : Text)
      (ps : List ProcessedChunk)
      → process_chunks tools c cfg i chunks ≡ ok ps
      → i + length chunks ≤ c.chunk_count
      → ((cs : List (ChunkRow × List (Option Bytes))) (out : Bytes)
          → IsFetched file_id ps cs
          → read_chunks tools c cs out ≡ ok (out ++ joined chunks))
        × (length ps ≡ length chunks)
  unfolding process_chunks
  read_chunks-process_chunks c cfg i [] file_id ps e le =
      subst
        (λ qs.
          ((cs : List (ChunkRow × List (Option Bytes))) (out : Bytes)
            → IsFetched file_id qs cs
            → read_chunks tools c cs out ≡ ok (out ++ []))
          × (length qs ≡ 0))
        (ok_inj e) (nothing_left, refl)
    where
      nothing_left :
          (cs : List (ChunkRow × List (Option Bytes))) (out : Bytes)
          → IsFetched file_id [] cs
          → read_chunks tools c cs out ≡ ok (out ++ [])
      nothing_left [] out h = unfold read_chunks in ap ok (sym (append-nil out))
      nothing_left (d ∷ cs) out h = absurd h
  read_chunks-process_chunks c cfg i (chunk ∷ chunks) file_id ps e le =
      let (q, e1, first) = ok_steps (process_chunk tools c cfg i chunk) _ e in
      let (qs, e2, others) = ok_steps (process_chunks tools c cfg (suc i) chunks) _ e1 in
      let (ih, len) =
        read_chunks-process_chunks c cfg (suc i) chunks file_id qs others (omega arith) in
      subst
        (λ rs.
          ((cs : List (ChunkRow × List (Option Bytes))) (out : Bytes)
            → IsFetched file_id rs cs
            → read_chunks tools c cs out ≡ ok (out ++ joined (chunk ∷ chunks)))
          × (length rs ≡ suc (length chunks)))
        (ok_inj e2)
        (
          λ cs out h.
              read_chunks_step c cfg i chunk chunks file_id q qs cs out first (omega arith) h ih,
          ap suc len,
        )

  -- A row of the manifest for a file that was processed.
  pub record IsRowOf (file : FileRow) (scheme : KeyScheme) (user_id file_id : Bytes)
      (ps : List ProcessedChunk) : Type 0 where
    pub key : file.key_scheme ≡ as_i64 scheme
    pub user : file.user_id ≡ user_id
    pub id : file.file_id ≡ file_id
    pub count : file.chunk_count ≡ length ps

  -- Under either scheme: a file that went through the pipeline is read back whole from its row and from
  -- any ten unchanged shards of the fourteen that are stored of each chunk, whichever they are.
  pub reassemble-process_with_scheme :
      (bytes data_key : Bytes) (scheme : KeyScheme) (user_id file_id : Bytes)
      (cfg : PipelineConfig F) (ps : List ProcessedChunk) (file : FileRow)
      (cs : List (ChunkRow × List (Option Bytes)))
      → process_with_scheme tools bytes data_key scheme user_id file_id cfg ≡ ok ps
      → IsRowOf file scheme user_id file_id ps
      → IsFetched file_id ps cs
      → reassemble tools data_key file cs ≡ ok bytes
  unfolding process_with_scheme reassemble
  reassemble-process_with_scheme bytes data_key scheme user_id file_id cfg ps file cs e row
        fetched =
      let (count, e1, counted) = ok_steps (chunk_count_for (length bytes) cfg.chunk_size) _ e in
      let (c, e2, made) = ok_steps (new tools.prim data_key scheme user_id file_id count) _ e1 in
      let (pos, same) = counted_lem (length bytes) cfg.chunk_size count counted in
      let (whole, pieces, _) = split_chunks_lem bytes cfg.chunk_size pos in
      let (_, n, _) = new_fields tools.prim data_key user_id file_id scheme count made in
      let (reads, len) =
        read_chunks-process_chunks c cfg 0 (split_chunks bytes cfg.chunk_size) file_id ps e2
          (omega (arith, n, same, pieces)) in
      let sch : from_i64 file.key_scheme ≡ ok scheme =
        (from_i64_iff file.key_scheme scheme).1 row.key in
      let cnt : file.chunk_count ≡ count = row.count ∙ len ∙ pieces ∙ sym same in
      rw (sch, row.user, row.id, cnt, made) (reads cs [] fetched ∙ ap ok whole)
