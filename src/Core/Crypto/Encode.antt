-- ===== src/Core/Crypto/Encode.antt =====
-- core/src/crypto.rs: length-prefixed encodings, the key schemes, the metadata of a chunk and its
-- nonce. A buffer that a function extends is an argument, and the extended one is the result.
use p2pnas.Prelude.{ℕ, List, [], ◌∷◌, ◌++◌, length}
use p2pnas.Prelude.{◌==◌, if◌then◌else◌, replicate, ◌-◌, ◌^◌}
use p2pnas.Prelude.Int.{ℤ, pos, negsuc}
use p2pnas.Prelude.Results.{ok, err}
use p2pnas.Core.Bytes.{Bytes, be_bytes}
use p2pnas.Core.Errors.{CoreResult, crypto}
use Prim.Native.String.{String}
use Prim.Native.Char.{code}

-- The bytes of an ASCII text.
abbrev pub ascii : String → Bytes
ascii String.[] = []
ascii (String.◌∷◌ c s) = code c ∷ ascii s

abbrev pub key_len : ℕ
key_len = 32

abbrev pub nonce_len : ℕ
nonce_len = 12

abbrev pub subkey_info : Bytes
subkey_info = ascii "p2pnas/file-subkey/v1"

abbrev pub hkdf_salt_v2 : Bytes
hkdf_salt_v2 = ascii "p2pnas/hkdf-salt/v2"

abbrev pub file_subkey_domain_v2 : Bytes
file_subkey_domain_v2 = ascii "p2pnas/file-subkey/v2"

abbrev pub chunk_aad_domain_v2 : Bytes
chunk_aad_domain_v2 = ascii "p2pnas/chunk-aad/v2"

-- `u32::MAX as u64`
abbrev pub max_chunk_index : ℕ
max_chunk_index = 2 ^ 32 - 1

unfoldable pub push_lp : Bytes → Bytes → Bytes
push_lp out part = let out' = out ++ be_bytes 8 (length part) in out' ++ part

-- The `for` over the parts.
unfoldable pub push_all : Bytes → List Bytes → Bytes
push_all out [] = out
push_all out (p ∷ ps) = push_all (push_lp out p) ps

unfoldable pub lp_concat : List Bytes → Bytes
lp_concat parts = push_all [] parts

pub data KeyScheme : Type 0 where
  v1 v2 : KeyScheme

unfoldable pub as_u8 : KeyScheme → ℕ
as_u8 v1 = 1
as_u8 v2 = 2

unfoldable pub as_i64 : KeyScheme → ℤ
as_i64 s = pos (as_u8 s)

unfoldable pub from_i64 : ℤ → CoreResult KeyScheme
from_i64 (pos v) =
    if v == 1 then ok v1 else if v == 2 then ok v2 else err (crypto "unknown key scheme")
from_i64 (negsuc _) = err (crypto "unknown key scheme")

-- The chunk index in the low eight of twelve bytes.
unfoldable pub nonce_for : ℕ → Bytes
nonce_for index = replicate (nonce_len - 8) 0 ++ be_bytes 8 index

pub record ChunkAad : Type 0 where
  pub scheme : KeyScheme
  pub user_id : Bytes
  pub file_id : Bytes
  pub chunk_count : ℕ
  pub chunk_index : ℕ

unfoldable pub encode : ChunkAad → Bytes
encode c = lp_concat (
    chunk_aad_domain_v2
    ∷ (as_u8 c.scheme ∷ [])
    ∷ c.user_id
    ∷ c.file_id
    ∷ be_bytes 8 c.chunk_count
    ∷ be_bytes 8 c.chunk_index
    ∷ [])
