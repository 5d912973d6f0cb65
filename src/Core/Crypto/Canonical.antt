-- ===== src/Core/Crypto/Canonical.antt =====
-- The encodings of `Encode` lose nothing: parts, metadata and chunk indices can be read off.
use p2pnas.Prelude.{
  ℕ, ◌^◌, ◌<◌, ◌≡◌, sym, ap, ◌∙◌, List, [], ◌∷◌, ◌++◌, append_assoc, append-nil, ◌↔◌, arith, length,
  length-append, All,
}
use p2pnas.Prelude.Int.{ℤ, pos, negsuc}
use p2pnas.Prelude.Results.{ok}
use p2pnas.Core.Bytes.{Bytes, be_bytes, length-be_bytes, be_bytes_inj}
use p2pnas.Core.Bytes.Prefix.{joined, joined_inj}
use p2pnas.Core.Crypto.Encode.{
  push_lp, push_all, lp_concat, KeyScheme, v1, v2, as_u8, as_i64, from_i64, nonce_for, ChunkAad,
  encode, chunk_aad_domain_v2,
}

-- A length or a count that a `u64` holds.
abbrev pub IsU64 : ℕ → Type 0
IsU64 n = n < 2 ^ 64

pub push_all-joined :
    (out : Bytes) (ps : List Bytes) → push_all out ps ≡ out ++ joined (be_bytes 8) ps
unfolding push_all push_lp
push_all-joined out [] = sym (append-nil out)
push_all-joined out (p ∷ ps) =
    push_all-joined ((out ++ be_bytes 8 (length p)) ++ p) ps ∙ simp append_assoc

pub lp_concat-joined : (ps : List Bytes) → lp_concat ps ≡ joined (be_bytes 8) ps
unfolding lp_concat
lp_concat-joined ps = push_all-joined [] ps

be8_width : (a b : ℕ) → length (be_bytes 8 a) ≡ length (be_bytes 8 b)
be8_width a b = length-be_bytes 8 a ∙ sym (length-be_bytes 8 b)

be8_inj : (a b : ℕ) → IsU64 a → IsU64 b → be_bytes 8 a ≡ be_bytes 8 b → a ≡ b
be8_inj a b ha hb e = be_bytes_inj 8 a b (omega arith) (omega arith) e

-- Two lists of parts, each of a length that a u64 holds, have the same length-prefixed
-- concatenation only if they are the same list: the number of parts may differ too.
pub lp_concat_inj :
    (ps qs : List Bytes)
    → All (λ p. IsU64 (length p)) ps
    → All (λ p. IsU64 (length p)) qs
    → lp_concat ps ≡ lp_concat qs
    → ps ≡ qs
lp_concat_inj ps qs fp fq e =
    joined_inj (be_bytes 8) IsU64 be8_width be8_inj ps qs
      (λ n z. absurd (omega (arith, length-be_bytes 8 n))) fp fq
      (sym (lp_concat-joined ps) ∙ e ∙ lp_concat-joined qs)

-- The metadata of a chunk of a real file: every length and count is a u64.
pub record IsWide (c : ChunkAad) : Type 0 where
  pub user_fits : IsU64 (length c.user_id)
  pub file_fits : IsU64 (length c.file_id)
  pub count_fits : IsU64 c.chunk_count
  pub index_fits : IsU64 c.chunk_index

-- The parts that `encode` joins.
abbrev parts : ChunkAad → List Bytes
parts c =
    chunk_aad_domain_v2
    ∷ (as_u8 c.scheme ∷ [])
    ∷ c.user_id
    ∷ c.file_id
    ∷ be_bytes 8 c.chunk_count
    ∷ be_bytes 8 c.chunk_index
    ∷ []

parts_fit : (c : ChunkAad) → IsWide c → All (λ p. IsU64 (length p)) (parts c)
parts_fit c w = (omega arith, (omega arith, (w.user_fits, (w.file_fits, (count, (index, tt))))))
  where
    count : IsU64 (length (be_bytes 8 c.chunk_count))
    count = omega (arith, length-be_bytes 8 c.chunk_count)

    index : IsU64 (length (be_bytes 8 c.chunk_index))
    index = omega (arith, length-be_bytes 8 c.chunk_index)

abbrev tail_parts : ChunkAad → List Bytes
tail_parts c =
    (as_u8 c.scheme ∷ [])
    ∷ c.user_id
    ∷ c.file_id
    ∷ be_bytes 8 c.chunk_count
    ∷ be_bytes 8 c.chunk_index
    ∷ []

as_u8_inj : (s t : KeyScheme) → as_u8 s ≡ as_u8 t → s ≡ t
unfolding as_u8
as_u8_inj s t e = ground arith

-- Two chunks whose metadata differ anywhere (scheme, user, file, chunk count or index) have
-- different associated data, where the lengths and counts are u64s.
pub encode_inj : (c d : ChunkAad) → IsWide c → IsWide d → encode c ≡ encode d → c ≡ d
unfolding encode
encode_inj c d wc wd e =
    let same = lp_concat_inj (parts c) (parts d) (parts_fit c wc) (parts_fit d wd) e in
    let s : c.scheme ≡ d.scheme = as_u8_inj c.scheme d.scheme (cc) in
    let u : c.user_id ≡ d.user_id = cc in
    let f : c.file_id ≡ d.file_id = cc in
    let n : c.chunk_count ≡ d.chunk_count = be8_inj _ _ wc.count_fits wd.count_fits (cc) in
    let i : c.chunk_index ≡ d.chunk_index = be8_inj _ _ wc.index_fits wd.index_fits (cc) in
    λ k. record { scheme = s k; user_id = u k; file_id = f k; chunk_count = n k; chunk_index = i k }

pub length-nonce_for : (i : ℕ) → length (nonce_for i) ≡ 12
unfolding nonce_for
length-nonce_for i = omega (arith, length-be_bytes 8 i)

-- Two u64 indices have the same nonce only if they are equal.
pub nonce_for_inj : (i j : ℕ) → IsU64 i → IsU64 j → nonce_for i ≡ nonce_for j → i ≡ j
unfolding nonce_for
nonce_for_inj i j hi hj e = be8_inj i j hi hj (cc)

-- A v2 chunk always has associated data.
pub encode-ne-nil : (c : ChunkAad) → encode c ≡ [] → ⊥
unfolding encode
encode-ne-nil c e =
    let joins : joined (be_bytes 8) (parts c) ≡ [] = sym (lp_concat-joined (parts c)) ∙ e in
    absurd (
      omega (
        arith,
        ap length joins,
        length-append (be_bytes 8 19) (chunk_aad_domain_v2 ++ joined (be_bytes 8) (tail_parts c)),
        length-be_bytes 8 19,
      ))

-- A stored value is read as a scheme exactly when it is the number of that scheme.
pub from_i64_iff : (v : ℤ) (s : KeyScheme) → (from_i64 v ≡ ok s) ↔ (v ≡ as_i64 s)
unfolding from_i64 as_i64 as_u8
from_i64_iff (pos n) v1 = ground arith
from_i64_iff (pos n) v2 = ground arith
from_i64_iff (negsuc n) s = ground arith
