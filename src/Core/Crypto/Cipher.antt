-- ===== src/Core/Crypto/Cipher.antt =====
-- core/src/crypto.rs: `DataKey`, `FileSubkey`, `ChunkSealer` and `FileCipher`. Keys are wiped from
-- memory when they are dropped; that leaves no trace here.
use p2pnas.Prelude.{ℕ, List, [], ◌∷◌, ◌++◌, Option, none, some, ltb, leb, if◌then◌else◌}
use p2pnas.Prelude.Results.{ok, err, ◌>>=◌}
use p2pnas.Core.Bytes.{Bytes, be_bytes}
use p2pnas.Core.Errors.{CoreError, CoreResult, crypto}
use p2pnas.Core.Crypto.Encode.{
  push_lp, push_all, lp_concat, KeyScheme, v1, v2, as_u8, nonce_for, subkey_info, hkdf_salt_v2,
  file_subkey_domain_v2, chunk_aad_domain_v2, max_chunk_index,
}
use p2pnas.Core.Crypto.Primitives.{Primitives}

-- `map_err` of an `Option`al result of a primitive.
abbrev pub required {ℓ} : {A : Type ℓ} → CoreError → Option A → CoreResult A
required e none = err e
required e (some a) = ok a

pub record FileCipher : Type 0 where
  pub scheme : KeyScheme
  -- The key schedule that a `ChunkSealer` wraps.
  pub sealer : Bytes
  pub aad_prefix : Bytes
  pub chunk_count : ℕ

module _ (prim : Primitives) where
  -- A `DataKey` is its bytes. The two refusals of HKDF have their own texts in the source.
  unfoldable pub derive_raw : Bytes → Bytes → CoreResult Bytes
  derive_raw key info = required (crypto "hkdf expand") (prim.hkdf subkey_info key info)

  unfoldable pub derive_v2 : Bytes → Bytes → List Bytes → CoreResult Bytes
  derive_v2 key domain parts =
      let info = push_all (push_lp [] domain) parts in
      required (crypto "hkdf expand") (prim.hkdf hkdf_salt_v2 key info)

  unfoldable pub file_subkey_for : Bytes → KeyScheme → Bytes → Bytes → CoreResult Bytes
  unfolding derive_raw derive_v2
  file_subkey_for key v1 user_id file_id = derive_raw key file_id
  file_subkey_for key v2 user_id file_id =
      derive_v2 key file_subkey_domain_v2 (user_id ∷ file_id ∷ [])

  unfoldable pub subkey_sealer : Bytes → CoreResult Bytes
  subkey_sealer subkey = required (crypto "aead key init") (prim.unbound_key subkey)

  -- The buffer with its tag, and the nonce.
  unfoldable pub seal_inner : Bytes → Bytes → ℕ → Bytes → CoreResult (Bytes × Bytes)
  seal_inner sealer buf index aad =
      if ltb max_chunk_index index
      then err (crypto "chunk index above the GCM per-key bound")
      else (let nonce = nonce_for index in
          required (crypto "seal") (prim.seal_in_place_append_tag sealer nonce aad buf)
          >>= λ sealed. ok (sealed, nonce))

  unfoldable pub open_with_aad : Bytes → ℕ → Bytes → Bytes → CoreResult Bytes
  open_with_aad sealer index buf aad =
      required (crypto "open") (prim.open_in_place sealer (nonce_for index) aad buf)

  abbrev pub prefix_for : KeyScheme → Bytes → Bytes → ℕ → Bytes
  prefix_for v1 user_id file_id chunk_count = []
  prefix_for v2 user_id file_id chunk_count =
      lp_concat
        (chunk_aad_domain_v2 ∷ (as_u8 v2 ∷ []) ∷ user_id ∷ file_id ∷ be_bytes 8 chunk_count ∷ [])

  unfoldable pub new : Bytes → KeyScheme → Bytes → Bytes → ℕ → CoreResult FileCipher
  unfolding subkey_sealer file_subkey_for
  new key scheme user_id file_id chunk_count = do
    subkey ← file_subkey_for key scheme user_id file_id
    sealer ← subkey_sealer subkey
    ok (record {
      scheme = scheme;
      sealer = sealer;
      aad_prefix = prefix_for scheme user_id file_id chunk_count;
      chunk_count = chunk_count;
    })

  abbrev pub aad_of : KeyScheme → Bytes → ℕ → Bytes
  aad_of v1 aad_prefix index = []
  aad_of v2 aad_prefix index = push_lp ([] ++ aad_prefix) (be_bytes 8 index)

  unfoldable pub aad_for : FileCipher → ℕ → Bytes
  aad_for c index = aad_of c.scheme c.aad_prefix index

  -- Under v1 the associated data are literally empty.
  unfoldable pub seal_chunk : FileCipher → Bytes → ℕ → CoreResult (Bytes × Bytes)
  unfolding seal_inner
  seal_chunk c buf index = elim c.scheme [
    | v1 ↦ seal_inner c.sealer buf index []
    | v2 ↦ seal_inner c.sealer buf index (aad_for c index)
  ]

  unfoldable pub open_chunk : FileCipher → ℕ → Bytes → CoreResult Bytes
  unfolding open_with_aad
  open_chunk c index buf = elim c.scheme [
    | v1 ↦ open_with_aad c.sealer index buf []
    | v2 ↦
        if leb c.chunk_count index
        then err (crypto "chunk index outside the file's chunk count")
        else open_with_aad c.sealer index buf (aad_for c index)
  ]
