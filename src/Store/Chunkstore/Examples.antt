-- ===== src/Store/Chunkstore/Examples.antt =====
-- Two shards under one root, and an id that tries to leave it.
use p2pnas.Prelude.{◌≡◌, refl, true, false, [], ◌∷◌, ◌++◌, take, length, replicate, All}
use p2pnas.Prelude.Results.{ok, err}
use p2pnas.Store.Chunkstore.{
  Text, PathBuf, is_ascii_hexdigit, all_hex, is_valid_fragment_id, path, done, write, read, delete,
}
use p2pnas.Store.Errors.{not_found}
use p2pnas.Store.Chunkstore.Confinement.{IsPlain, path_confined}
use p2pnas.Store.Chunkstore.Contents.{read-write-delete}

abbrev root : PathBuf
root = (b's' ∷ []) ∷ []

abbrev first : Text
first = replicate 32 b'a'

abbrev second : Text
second = replicate 32 b'7'

abbrev outside : Text
outside = b'.' ∷ b'.' ∷ b'/' ∷ b'k' ∷ []

first_valid : is_valid_fragment_id first ≡ true
unfolding is_valid_fragment_id all_hex is_ascii_hexdigit
first_valid = refl

second_valid : is_valid_fragment_id second ≡ true
unfolding is_valid_fragment_id all_hex is_ascii_hexdigit
second_valid = refl

outside_invalid : is_valid_fragment_id outside ≡ false
unfolding is_valid_fragment_id all_hex is_ascii_hexdigit
outside_invalid = refl

at_first : path root first ≡ ok (root ++ ((b'a' ∷ b'a' ∷ []) ∷ first ∷ []))
unfolding path is_valid_fragment_id all_hex is_ascii_hexdigit
at_first = refl

path_confined_example :
    (root ++ ((b'a' ∷ b'a' ∷ []) ∷ first ∷ []) ≡ root ++ (take 2 first ∷ first ∷ []))
    × (length first ≡ 32)
    × All IsPlain first
    × All IsPlain (take 2 first)
path_confined_example =
    path_confined root first (root ++ ((b'a' ∷ b'a' ∷ []) ∷ first ∷ [])) at_first

read-write-delete_example :
    (read root (write root [] first (1 ∷ []) done).0 first false ≡ ok (1 ∷ []))
    × (read root (write root [] first (1 ∷ []) done).0 second false ≡ read root [] second false)
    × (read root (delete root (write root [] first (1 ∷ []) done).0 first false).0 first false
        ≡ err not_found)
    × (read root (delete root (write root [] first (1 ∷ []) done).0 first false).0 second false
        ≡ read root [] second false)
read-write-delete_example =
    read-write-delete root [] first second (1 ∷ []) first_valid second_valid (λ e. cc)
