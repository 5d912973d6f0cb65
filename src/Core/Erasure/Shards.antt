-- ===== src/Core/Erasure/Shards.antt =====
-- core/src/erasure.rs: the sizes, the striping of a sealed chunk, encoding and reconstruction.
use Prim.Native.String.{String}
use p2pnas.Prelude.{
  ℕ, zero, suc, ◌+◌, ◌-◌, ◌*◌, ◌/◌, ◌%◌, min, max, List, [], ◌∷◌, ◌++◌, Option, none, some, Bool,
  true, false, ◌&&◌, length, get_elem?, take, drop, ltb, leb, ◌==◌, if◌then◌else◌,
}
use p2pnas.Prelude.Results.{Result, ok, err, panic, ◌>>=◌}
use p2pnas.Core.Bytes.{Bytes}
use p2pnas.Core.Bytes.Slices.{zeros, slice, write_at, chunks_exact}
use p2pnas.Core.Errors.{CoreResult, erasure}
use p2pnas.Core.Erasure.Code.{Code, data_shards_count, parity_shards_count, enumerated}

-- `a.div_ceil(b)`
abbrev pub div_ceil : ℕ → ℕ → ℕ
div_ceil a b = if a % b == 0 then a / b else a / b + 1

unfoldable pub shard_len : ℕ → ℕ
shard_len cipher_len =
    let per = max (div_ceil cipher_len data_shards_count) 64 in div_ceil per 64 * 64

abbrev pub storage_block_size : ℕ
storage_block_size = 4096

unfoldable pub shard_disk_cost : ℕ → ℕ
shard_disk_cost len = div_ceil len storage_block_size * storage_block_size

-- The copy into the padded buffer panics where the chunk is longer than the buffer.
unfoldable pub data_shards : Bytes → CoreResult (List Bytes × ℕ)
data_shards cipher =
    let sl = shard_len (length cipher) in
    if ltb (sl * data_shards_count) (length cipher)
    then panic
    else ok (chunks_exact sl (write_at (zeros (sl * data_shards_count)) 0 cipher), sl)

-- `f` at `n` numbers from `k` on.
abbrev pub map_range {ℓ} : {A : Type ℓ} → (ℕ → A) → ℕ → ℕ → List A
map_range f k zero = []
map_range f k (suc n) = f k ∷ map_range f (suc k) n

-- The `i`th original of the zero-copy path.
unfoldable pub original : Bytes → ℕ → ℕ → Bytes
original cipher sl i =
    let full = length cipher / sl in
    let rem = length cipher - full * sl in
    let partial = if ltb 0 rem then write_at (zeros sl) 0 (drop (full * sl) cipher) else zeros sl in
    if ltb i full
    then slice cipher (i * sl) ((i + 1) * sl)
    else if (i == full) && ltb 0 rem
    then partial
    else zeros sl

-- A shard of the sealed buffer itself, or `None` past its end.
unfoldable pub data_shard : Bytes → ℕ → ℕ → Option Bytes
data_shard cipher sl i =
    let start = i * sl in
    if leb (length cipher) start
    then none
    else some (slice cipher start (min ((i + 1) * sl) (length cipher)))

abbrev pub map_err {ℓ} : {A : Type ℓ} → Result String A → CoreResult A
map_err (ok a) = ok a
map_err (err e) = err (erasure e)
map_err panic = panic

-- `iter().all(|s| s.is_some())`
unfoldable pub all_some : List (Option Bytes) → Bool
all_some [] = true
all_some (none ∷ os) = false
all_some (some v ∷ os) = all_some os

-- The concatenation of the held ones.
unfoldable pub concat_held : List (Option Bytes) → Bytes
concat_held [] = []
concat_held (none ∷ os) = concat_held os
concat_held (some v ∷ os) = v ++ concat_held os

-- `iter().flatten().map(len).next()`
unfoldable pub first_len : List (Option Bytes) → Option ℕ
first_len [] = none
first_len (none ∷ os) = first_len os
first_len (some v ∷ os) = some (length v)

-- `present[i]` or else the restored shard `i`. The index panics out of bounds.
abbrev pub pick : Option (Option Bytes) → Option Bytes → CoreResult Bytes
pick none r = panic
pick (some (some v)) r = ok v
pick (some none) (some v) = ok v
pick (some none) none = err (erasure "missing data shard after decode")

-- The copy panics on a shard of another length.
abbrev pub copy_shard : Bytes → ℕ → ℕ → Bytes → CoreResult Bytes
copy_shard out sl i shard = if length shard == sl then ok (write_at out (i * sl) shard) else panic

-- The loop over the shards from `i` on, `n` of them left.
unfoldable pub reassemble :
    List (Option Bytes) → (ℕ → Option Bytes) → ℕ → ℕ → ℕ → Bytes → CoreResult Bytes
reassemble present restored sl zero i out = ok out
reassemble present restored sl (suc n) i out = pick (get_elem? present i) (restored i) >>= λ shard.
    copy_shard out sl i shard >>= λ out'. reassemble present restored sl n (suc i) out'

module _ (code : Code) where
  unfoldable pub encode_recovery : Bytes → CoreResult (ℕ × List Bytes)
  encode_recovery cipher =
      let sl = shard_len (length cipher) in
      map_err (
        code.encode data_shards_count parity_shards_count
          (map_range (original cipher sl) 0 data_shards_count))
      >>= λ recovery. ok (sl, recovery)

  unfoldable pub encode : Bytes → CoreResult (List Bytes)
  encode cipher = data_shards cipher >>= λ (shards, sl).
      map_err (code.encode data_shards_count parity_shards_count shards) >>= λ recovery.
      ok (shards ++ recovery)

  abbrev pub decode_and_reassemble : List (Option Bytes) → ℕ → CoreResult Bytes
  decode_and_reassemble present cipher_len =
      map_err (
        code.decode data_shards_count parity_shards_count
          (enumerated 0 (take data_shards_count present))
          (enumerated 0 (drop data_shards_count present)))
      >>= λ restored. elim (first_len present) [
        | none ↦ err (erasure "no shards")
        | some sl ↦
            reassemble present restored sl data_shards_count 0 (zeros (sl * data_shards_count))
            >>= λ out. ok (take cipher_len out)
      ]

  unfoldable pub reconstruct : List (Option Bytes) → ℕ → CoreResult Bytes
  reconstruct present cipher_len =
      if all_some (take data_shards_count present)
      then ok (take cipher_len (concat_held (take data_shards_count present)))
      else decode_and_reassemble present cipher_len
