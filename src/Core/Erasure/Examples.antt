-- ===== src/Core/Erasure/Examples.antt =====
-- A small chunk under the code of `Copies`: runs, and the theorems of this component at it.
use p2pnas.Prelude.{
  ◌+◌, ◌-◌, ◌%◌, ◌*◌, ◌≤◌, ◌<◌, ◌≡◌, refl, List, [], ◌∷◌, ◌++◌, arith, Option, none, some, ◌⊎◌,
}
use p2pnas.Prelude.Results.{ok, ◌>>=◌}
use p2pnas.Core.Bytes.{Bytes}
use p2pnas.Core.Bytes.Slices.{zeros, write_at, chunks_exact}
use p2pnas.Core.Erasure.Code.{enumerated}
use p2pnas.Core.Erasure.Copies.{copies, copies-IsErasureCode, frame}
use p2pnas.Core.Erasure.Shards.{
  shard_len, shard_disk_cost, data_shards, original, encode, encode_recovery, map_range,
  reconstruct, all_some, reassemble, first_len,
}
use p2pnas.Core.Erasure.Striping.{shard_len_bounds, shard_disk_cost_bounds, encode-encode_recovery}
use p2pnas.Core.Erasure.Reconstruct.{reconstruct-encode}

abbrev chunk : Bytes
chunk = 1 ∷ 2 ∷ 3 ∷ []

abbrev blank : Bytes
blank = zeros 64

abbrev first_shard : Bytes
first_shard = 1 ∷ 2 ∷ 3 ∷ zeros 61

abbrev parity_shard : Bytes
parity_shard =
    frame (first_shard ∷ blank ∷ blank ∷ blank ∷ blank ∷ blank ∷ blank ∷ blank ∷ blank ∷ blank ∷ [])

abbrev shards : List Bytes
shards =
    first_shard ∷ blank ∷ blank ∷ blank ∷ blank ∷ blank ∷ blank ∷ blank ∷ blank ∷ blank
    ∷ parity_shard ∷ parity_shard ∷ parity_shard ∷ parity_shard ∷ []

-- Shards 0, 3, 9 and 12 are lost.
abbrev present : List (Option Bytes)
present =
    none
    ∷ some blank
    ∷ some blank
    ∷ none
    ∷ some blank
    ∷ some blank
    ∷ some blank
    ∷ some blank
    ∷ some blank
    ∷ none
    ∷ some parity_shard
    ∷ some parity_shard
    ∷ none
    ∷ some parity_shard
    ∷ []

small_disk_costs :
    (shard_disk_cost 1 ≡ 4096) × (shard_disk_cost 4096 ≡ 4096) × (shard_disk_cost 4097 ≡ 8192)
unfolding shard_disk_cost
small_disk_costs = (refl, refl, refl)

encodes : encode copies chunk ≡ ok shards
unfolding encode data_shards shard_len write_at chunks_exact
encodes = refl

reconstructs : reconstruct copies present 3 ≡ ok chunk
unfolding reconstruct all_some enumerated reassemble first_len write_at
reconstructs = refl

reconstruct-encode_example : reconstruct copies present 3 ≡ ok chunk
reconstruct-encode_example =
    reconstruct-encode copies copies-IsErasureCode chunk shards present encodes
      (
        tt,
        (
          refl,
          (
            refl,
            (tt, (refl, (refl, (refl, (refl, (refl, (tt, (refl, (refl, (tt, (refl, tt))))))))))),
          ),
        ),
      )
      (omega arith)

shard_len_bounds_example :
    (shard_len 4_194_320 % 64 ≡ 0)
    × (64 ≤ shard_len 4_194_320)
    × (4_194_320 ≤ shard_len 4_194_320 * 10)
    × ((shard_len 4_194_320 ≡ 64) ⊎ ((shard_len 4_194_320 - 64) * 10 < 4_194_320))
shard_len_bounds_example = shard_len_bounds 4_194_320

shard_disk_cost_bounds_example :
    (shard_disk_cost 128 % 4096 ≡ 0)
    × (128 ≤ shard_disk_cost 128)
    × (shard_disk_cost 128 < 128 + 4096)
shard_disk_cost_bounds_example = shard_disk_cost_bounds 128

encode-encode_recovery_example : encode copies chunk ≡ (
    encode_recovery copies chunk >>= λ (sl, recovery).
    ok (map_range (original chunk sl) 0 10 ++ recovery))
encode-encode_recovery_example = encode-encode_recovery copies chunk
