-- ===== src/Store/Service/Chunks/Stored.antt =====
-- The shards that are stored of a chunk are the ones that the encoder makes of it.
use mathlib.Core.Option.{get_or}
use Prim.Native.String.{String}
use p2pnas.Prelude.{
  ℕ, zero, suc, ◌+◌, ◌≤◌, ◌<◌, ◌≡◌, refl, sym, ap, ◌∙◌, lt→ltb, ◌==◌, ==_iff, List, [], ◌∷◌, ◌++◌,
  length, get_elem?, arith, Bool-cases, inl, inr,
}
use p2pnas.Prelude.Results.{ok_inj, Result, ok, err, panic}
use p2pnas.Core.Bytes.{Bytes}
use p2pnas.Core.Bytes.Slices.{pad, pad_full, write_at-zeros}
use p2pnas.Core.Erasure.Shards.{shard_len, map_err, original, map_range, div_ceil}
use p2pnas.Core.Erasure.Striping.{shard_len_bounds, data_shard-original}
use p2pnas.Core.Pipeline.{ProcessedChunk, chunk_count_for}
use p2pnas.Store.Service.Chunks.{pad_shard, shard_bytes, stored_shards}

pub map_err-ok : {A : Type 0} (r : Result String A) {a : A} → map_err r ≡ ok a → r ≡ ok a
map_err-ok (ok b) e = ap ok (ok_inj e)
map_err-ok (err x) e = cc
map_err-ok panic e = cc

pad_shard-pad : (slice : Bytes) (sl : ℕ) → pad_shard slice sl ≡ pad sl slice
unfolding pad_shard
pad_shard-pad slice sl = elim (Bool-cases (length slice == sl)) [
  | inl full ↦
      let le : sl ≤ length slice = omega (arith, (==_iff (length slice) sl).0 full) in
      rw full (sym (pad_full sl slice le))
  | inr other ↦ rw other (write_at-zeros sl slice)
]

map_range_cong :
    (f g : ℕ → Bytes) (k n : ℕ)
    → ((i : ℕ) → i < k + n → f i ≡ g i)
    → map_range f k n ≡ map_range g k n
map_range_cong f g k zero h = refl
map_range_cong f g k (suc n) h =
    rw (h k (omega arith))
      (ap (λ t. g k ∷ t) (map_range_cong f g (suc k) n (λ i lt. h i (omega arith))))

-- A list of four entries is the list of its entries.
four_entries :
    (r : List Bytes)
    → length r ≡ 4
    → r
      ≡ get_or (get_elem? r 0) []
        ∷ get_or (get_elem? r 1) []
        ∷ get_or (get_elem? r 2) []
        ∷ get_or (get_elem? r 3) []
        ∷ []
four_entries [] h = absurd (omega arith)
four_entries (a ∷ []) h = absurd (omega arith)
four_entries (a ∷ b ∷ []) h = absurd (omega arith)
four_entries (a ∷ b ∷ c ∷ []) h = absurd (omega arith)
four_entries (a ∷ b ∷ c ∷ d ∷ []) h = refl
four_entries (a ∷ b ∷ c ∷ d ∷ e ∷ r) h = absurd (omega arith)

pub stored_shards-original :
    (p : ProcessedChunk)
    → p.shard_len ≡ shard_len (length p.cipher)
    → length p.recovery ≡ 4
    → stored_shards p ≡ map_range (original p.cipher p.shard_len) 0 10 ++ p.recovery
unfolding stored_shards shard_bytes
stored_shards-original p sl four =
    let (_, low, _, _) = shard_len_bounds (length p.cipher) in
    let datas : map_range (shard_bytes p) 0 10 ≡ map_range (original p.cipher p.shard_len) 0 10 =
      map_range_cong (shard_bytes p) (original p.cipher p.shard_len) 0 10 (λ i lt.
        rw (lt→ltb i 10 lt) (
          pad_shard-pad _ p.shard_len
          ∙ sym (data_shard-original p.cipher p.shard_len i (omega (arith, sl, low))))) in
    ap (λ t. t ++ map_range (shard_bytes p) 10 4) datas
    ∙ ap (λ t. map_range (original p.cipher p.shard_len) 0 10 ++ t)
        (sym (four_entries p.recovery four))

pub counted_lem :
    (n size count : ℕ) → chunk_count_for n size ≡ ok count → (0 < size) × (count ≡ div_ceil n size)
unfolding chunk_count_for
counted_lem n size count e = elim (Bool-cases (size == 0)) [
  | inl zero_size ↦ cc (rw zero_size at e)
  | inr other ↦ (ground arith, sym (ok_inj (rw other at e)))
]
