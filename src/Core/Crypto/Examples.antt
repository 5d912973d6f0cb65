-- ===== src/Core/Crypto/Examples.antt =====
-- Two chunks of a small file under the primitives of `Framed`: runs, and the theorems at them.
use p2pnas.Prelude.{ℕ, ◌^◌, ◌<◌, ◌≡◌, refl, ◌↔◌, [], ◌∷◌, arith, some, replicate}
use p2pnas.Prelude.Int.{pos}
use p2pnas.Prelude.Results.{ok, err, panic}
use p2pnas.Core.Bytes.{Bytes, be_bytes}
use p2pnas.Core.Errors.{CoreResult, crypto}
use p2pnas.Core.Crypto.Framed.{framed, framed-IsAead, framed-IsAuthentic, strip}
use p2pnas.Core.Crypto.Encode.{lp_concat, push_all, push_lp, v1, v2, as_u8, from_i64, nonce_for}
use p2pnas.Core.Crypto.Canonical.{encode_inj}
use p2pnas.Core.Crypto.Cipher.{FileCipher, new, aad_for, seal_chunk, open_chunk}
use p2pnas.Core.Crypto.Binding.{
  chunk_at, chunk_aad, aad_for-encode, seal_chunk_iff, open_chunk-seal_chunk, open_chunk_context,
}

-- Without the lengths these two lists would run together.
shifted :
    lp_concat ((1 ∷ 2 ∷ []) ∷ (3 ∷ []) ∷ [])
    ≡ 0 ∷ 0 ∷ 0 ∷ 0 ∷ 0 ∷ 0 ∷ 0 ∷ 2 ∷ 1 ∷ 2 ∷ 0 ∷ 0 ∷ 0 ∷ 0 ∷ 0 ∷ 0 ∷ 0 ∷ 1 ∷ 3 ∷ []
unfolding lp_concat push_all push_lp be_bytes
shifted = refl

nonce_258 : nonce_for 258 ≡ 0 ∷ 0 ∷ 0 ∷ 0 ∷ 0 ∷ 0 ∷ 0 ∷ 0 ∷ 0 ∷ 0 ∷ 1 ∷ 2 ∷ []
unfolding nonce_for be_bytes
nonce_258 = refl

unknown_scheme : from_i64 (pos 3) ≡ err (crypto "unknown key scheme")
unfolding from_i64
unknown_scheme = refl

abbrev key : Bytes
key = replicate 32 7

abbrev alice : Bytes
alice = 65 ∷ []

abbrev file : Bytes
file = 70 ∷ 1 ∷ []

abbrev or_else {ℓ} : {A : Type ℓ} → A → CoreResult A → A
or_else d (ok a) = a
or_else d (err e) = d
or_else d panic = d

-- The cipher of Alice's file of two chunks.
cipher : FileCipher
unfolding new push_lp push_all be_bytes lp_concat as_u8
cipher =
    or_else (record { scheme = v1; sealer = []; aad_prefix = []; chunk_count = 0 })
      (new framed key v2 alice file 2)

made : new framed key v2 alice file 2 ≡ ok cipher
unfolding cipher
made = refl

-- Its second chunk.
sealed : Bytes
unfolding seal_chunk aad_for cipher nonce_for
sealed = (or_else ([], []) (seal_chunk framed cipher (9 ∷ 8 ∷ []) 1)).0

seals : seal_chunk framed cipher (9 ∷ 8 ∷ []) 1 ≡ ok (sealed, nonce_for 1)
unfolding sealed
seals = refl

opens : open_chunk framed cipher 1 sealed ≡ ok (9 ∷ 8 ∷ [])
unfolding sealed open_chunk strip
opens = refl

-- At another index the chunk is refused.
moved : open_chunk framed cipher 0 sealed ≡ err (crypto "open")
unfolding sealed open_chunk strip
moved = refl

encode_inj_example : chunk_at alice file 2 1 ≡ chunk_at alice file 2 1
encode_inj_example =
    encode_inj (chunk_at alice file 2 1) (chunk_at alice file 2 1) (omega arith) (omega arith) refl

aad_for-encode_example : aad_for framed cipher 1 ≡ chunk_aad framed v2 alice file 2 1
aad_for-encode_example = aad_for-encode framed key alice file v2 2 1 made

seal_chunk_iff_example : (seal_chunk framed cipher (9 ∷ 8 ∷ []) 1 ≡ ok (sealed, nonce_for 1)) ↔ (
    (1 < 2 ^ 32)
    × (framed.seal_in_place_append_tag cipher.sealer
          (nonce_for 1)
          (aad_for framed cipher 1)
          (9 ∷ 8 ∷ [])
        ≡ some sealed)
    × (nonce_for 1 ≡ nonce_for 1))
seal_chunk_iff_example = seal_chunk_iff framed cipher (9 ∷ 8 ∷ []) 1 sealed (nonce_for 1)

open_chunk-seal_chunk_example : open_chunk framed cipher 1 sealed ≡ ok (9 ∷ 8 ∷ [])
open_chunk-seal_chunk_example =
    open_chunk-seal_chunk framed framed-IsAead cipher (9 ∷ 8 ∷ []) sealed (nonce_for 1) 1
      (unfold cipher in omega arith) seals

open_chunk_context_example :
    (v2 ≡ v2)
    × ◌≡◌ {A = Bytes} alice alice
    × ◌≡◌ {A = Bytes} file file
    × ◌≡◌ {A = ℕ} 2 2
    × ◌≡◌ {A = ℕ} 1 1
open_chunk_context_example =
    open_chunk_context framed framed-IsAuthentic key alice file 2 1 key alice file v2 2 1
      (9 ∷ 8 ∷ []) (9 ∷ 8 ∷ []) sealed (nonce_for 1) (omega arith) (omega arith) made made seals
      opens
