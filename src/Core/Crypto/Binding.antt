-- ===== src/Core/Crypto/Binding.antt =====
-- A file's chunks under `FileCipher`: they come back, they are bounded, and under v2 each of them
-- opens only at its place in its owner's file.
use p2pnas.Prelude.{
  ℕ, ◌^◌, ◌↔◌, ◌<◌, ◌≡◌, refl, sym, ap, ◌∙◌, [], Option, none, some, ltb, leb, arith, inl, inr,
  ltb→lt, ltb→ge, gt→leb, Bool-cases,
}
use mathlib.Core.Path.{ap₂}
use p2pnas.Prelude.Results.{ok, ◌>>=◌, ok_steps}
use p2pnas.Core.Bytes.{Bytes}
use p2pnas.Core.Errors.{CoreError}
use p2pnas.Core.Crypto.Encode.{
  push_all, lp_concat, KeyScheme, v1, v2, nonce_for, ChunkAad, encode, max_chunk_index,
}
use p2pnas.Core.Crypto.Canonical.{IsWide, encode_inj, encode-ne-nil}
use p2pnas.Core.Crypto.Primitives.{Primitives, IsAead, IsAuthentic}
use p2pnas.Core.Crypto.Cipher.{
  FileCipher, required, new, seal_inner, open_with_aad, aad_for, seal_chunk, open_chunk,
  file_subkey_for, subkey_sealer, prefix_for, aad_of,
}

-- The metadata of the chunk at `index`.
abbrev pub chunk_at : Bytes → Bytes → ℕ → ℕ → ChunkAad
chunk_at user_id file_id chunk_count index = record {
  scheme = v2;
  user_id = user_id;
  file_id = file_id;
  chunk_count = chunk_count;
  chunk_index = index;
}

required-eq-ok {ℓ} :
    {A : Type ℓ} (e : CoreError) (o : Option A) {a : A} → required e o ≡ ok a → o ≡ some a
required-eq-ok e none h = cc
required-eq-ok e (some b) h = cc

required_iff :
    (e : CoreError) (o : Option Bytes) (n sealed nonce : Bytes)
    → (◌>>=◌ {T = Bytes × Bytes} (required e o) (λ s. ok (s, n)) ≡ ok (sealed, nonce))
      ↔ ((o ≡ some sealed) × (nonce ≡ n))
required_iff e none n sealed nonce = (λ h. cc, λ (h, _). cc)
required_iff e (some s) n sealed nonce = (λ h. (cc, cc), λ (h, k). cc)

module _ (prim : Primitives) where
  -- What `new` stores, whatever key it derives.
  pub new_fields :
      (key user file : Bytes) (scheme : KeyScheme) (count : ℕ) {c : FileCipher}
      → new prim key scheme user file count ≡ ok c
      → (c.scheme ≡ scheme)
        × (c.chunk_count ≡ count)
        × (c.aad_prefix ≡ prefix_for prim scheme user file count)
  unfolding new
  new_fields key user file scheme count {c} e =
      let (subkey, rest, _) = ok_steps (file_subkey_for prim key scheme user file) _ e in
      let (sealer, made, _) = ok_steps (subkey_sealer prim subkey) _ rest in (cc, cc, cc)

  -- The associated data of chunk `index`, by the scheme.
  abbrev pub chunk_aad : KeyScheme → Bytes → Bytes → ℕ → ℕ → Bytes
  chunk_aad v1 user file count index = []
  chunk_aad v2 user file count index = encode (chunk_at user file count index)

  aad_of-chunk_aad :
      (scheme : KeyScheme) (user file : Bytes) (count index : ℕ)
      → aad_of prim scheme (prefix_for prim scheme user file count) index
        ≡ chunk_aad scheme user file count index
  unfolding encode lp_concat push_all
  aad_of-chunk_aad v1 user file count index = refl
  aad_of-chunk_aad v2 user file count index = refl

  -- The associated data that a cipher builds from its stored prefix are none under v1, and under v2
  -- the canonical encoding of the chunk's owner, file, chunk count and index.
  pub aad_for-encode :
      (key user file : Bytes) (scheme : KeyScheme) (count index : ℕ) {c : FileCipher}
      → new prim key scheme user file count ≡ ok c
      → aad_for prim c index ≡ chunk_aad scheme user file count index
  unfolding aad_for
  aad_for-encode key user file scheme count index {c} e =
      let (s, n, p) = new_fields key user file scheme count e in
      ap₂ (λ t q. aad_of prim t q index) s p ∙ aad_of-chunk_aad scheme user file count index

  -- Both schemes seal under the index's nonce and their associated data.
  seal_chunk-seal_inner :
      (c : FileCipher) (buf : Bytes) (index : ℕ)
      → seal_chunk prim c buf index ≡ seal_inner prim c.sealer buf index (aad_for prim c index)
  seal_chunk-seal_inner c buf index = by_scheme c.scheme c.sealer c.aad_prefix c.chunk_count
    where
      by_scheme :
          (s : KeyScheme) (k p : Bytes) (n : ℕ)
          → let d : FileCipher = record {
            scheme = s;
            sealer = k;
            aad_prefix = p;
            chunk_count = n;
          } in
            seal_chunk prim d buf index ≡ seal_inner prim k buf index (aad_for prim d index)
      by_scheme v1 k p n = unfold seal_chunk aad_for in refl
      by_scheme v2 k p n = unfold seal_chunk aad_for in refl

  -- `seal_chunk` succeeds, under either scheme, exactly for an index below 2^32 where the primitive
  -- seals the buffer under the index's nonce and the chunk's associated data, and then returns the
  -- primitive's ciphertext and that nonce.
  pub seal_chunk_iff :
      (c : FileCipher) (buf : Bytes) (index : ℕ) (sealed nonce : Bytes)
      → (seal_chunk prim c buf index ≡ ok (sealed, nonce)) ↔ (
          (index < 2 ^ 32)
          × (prim.seal_in_place_append_tag c.sealer (nonce_for index) (aad_for prim c index) buf
              ≡ some sealed)
          × (nonce ≡ nonce_for index))
  unfolding seal_inner
  seal_chunk_iff c buf index sealed nonce =
      rw (seal_chunk-seal_inner c buf index) (elim (Bool-cases (ltb max_chunk_index index)) [
        | inl above ↦
            rw above
              (λ e. cc, λ (h, _, _). absurd (omega (arith, ltb→lt max_chunk_index index above)))
        | inr below ↦ rw below (
          λ e.
              let (s, n) = (required_iff _ _ _ sealed nonce).0 e in
              (omega (arith, ltb→ge max_chunk_index index below), s, n),
          λ (_, s, n). (required_iff _ _ _ sealed nonce).1 (s, n),
        )
      ])

  -- Opening, under either scheme, where the index is one of the file's.
  open_chunk-open_with_aad :
      (c : FileCipher) (buf : Bytes) (index : ℕ)
      → index < c.chunk_count
      → open_chunk prim c index buf ≡ open_with_aad prim c.sealer index buf (aad_for prim c index)
  open_chunk-open_with_aad c buf index h = by_scheme c.scheme c.sealer c.aad_prefix c.chunk_count h
    where
      by_scheme :
          (s : KeyScheme) (k p : Bytes) (n : ℕ)
          → index < n
          → let d : FileCipher = record {
            scheme = s;
            sealer = k;
            aad_prefix = p;
            chunk_count = n;
          } in
            open_chunk prim d index buf ≡ open_with_aad prim k index buf (aad_for prim d index)
      by_scheme v1 k p n h = unfold open_chunk aad_for in refl
      by_scheme v2 k p n h = unfold open_chunk in rw (gt→leb n index h)

  -- Every chunk that a cipher seals at an index below its chunk count is opened again by it, under
  -- either scheme.
  pub open_chunk-seal_chunk :
      (aead : IsAead prim) (c : FileCipher) (buf sealed nonce : Bytes) (index : ℕ)
      → index < c.chunk_count
      → seal_chunk prim c buf index ≡ ok (sealed, nonce)
      → open_chunk prim c index sealed ≡ ok buf
  unfolding open_with_aad
  open_chunk-seal_chunk aead c buf sealed nonce index h e =
      let (_, s, _) = (seal_chunk_iff c buf index sealed nonce).0 e in
      rw (open_chunk-open_with_aad c sealed index h, aead.open_seal _ _ _ buf sealed s)

  -- Whatever opens was opened by the primitive.
  open_chunk-eq-ok :
      (c : FileCipher) (buf plain : Bytes) (index : ℕ)
      → open_chunk prim c index buf ≡ ok plain
      → prim.open_in_place c.sealer (nonce_for index) (aad_for prim c index) buf ≡ some plain
  open_chunk-eq-ok c buf plain index = by_scheme c.scheme c.sealer c.aad_prefix c.chunk_count
    where
      by_scheme :
          (s : KeyScheme) (k p : Bytes) (n : ℕ)
          → let d : FileCipher = record {
            scheme = s;
            sealer = k;
            aad_prefix = p;
            chunk_count = n;
          } in
            open_chunk prim d index buf ≡ ok plain
            → prim.open_in_place k (nonce_for index) (aad_for prim d index) buf ≡ some plain
      by_scheme v1 k p n e = unfold open_chunk open_with_aad aad_for in required-eq-ok _ _ e
      by_scheme v2 k p n e = elim (Bool-cases (leb n index)) [
        | inl out ↦ unfold open_chunk in cc (rw out at e)
        | inr within ↦ unfold open_chunk open_with_aad in required-eq-ok _ _ (rw within at e)
      ]

  -- A chunk that was sealed under v2 opens only with a v2 cipher of the same user and file, with
  -- the same chunk count, and at the same index: not for another user, not in another file, not at
  -- another place, and not in a file that was cut short.
  pub open_chunk_context :
      (auth : IsAuthentic prim) (key user file : Bytes) (count index : ℕ) (key' user' file' : Bytes)
      (scheme : KeyScheme) (count' index' : ℕ) (plain plain' sealed nonce : Bytes)
      {c d : FileCipher}
      → IsWide (chunk_at user file count index)
      → IsWide (chunk_at user' file' count' index')
      → new prim key v2 user file count ≡ ok c
      → new prim key' scheme user' file' count' ≡ ok d
      → seal_chunk prim c plain index ≡ ok (sealed, nonce)
      → open_chunk prim d index' sealed ≡ ok plain'
      → (scheme ≡ v2) × (user ≡ user') × (file ≡ file') × (count ≡ count') × (index ≡ index')
  open_chunk_context auth key user file count index key' user' file' scheme count' index' plain
        plain' sealed nonce {c} {d} w w' made made' s o =
      let (_, sealing, _) = (seal_chunk_iff c plain index sealed nonce).0 s in
      let opening = open_chunk-eq-ok d sealed plain' index' o in
      let (_, _, same) = auth.same_context _ _ _ plain sealed _ _ _ plain' sealing opening in
      by_scheme scheme (
        sym (aad_for-encode key user file v2 count index made)
        ∙ same
        ∙ aad_for-encode key' user' file' scheme count' index' made')
    where
      by_scheme :
          (t : KeyScheme)
          → encode (chunk_at user file count index) ≡ chunk_aad t user' file' count' index'
          → (t ≡ v2) × (user ≡ user') × (file ≡ file') × (count ≡ count') × (index ≡ index')
      by_scheme v1 e = absurd (encode-ne-nil _ e)
      by_scheme v2 e =
          let same = encode_inj _ _ w w' e in
          (
            refl,
            ap ChunkAad.user_id same,
            ap (λ a. a.file_id) same,
            ap (λ a. a.chunk_count) same,
            ap (λ a. a.chunk_index) same,
          )
