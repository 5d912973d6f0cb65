-- ===== src/Store/Chunkstore.antt =====
-- store/src/chunkstore.rs: `ChunkStore`, the shards in files. A path is the list of its components; the
-- files are a dictionary, and the operating system's answer is an argument of each operation.
pub mod Confinement
pub mod Contents
mod Examples
use native.Mathlib.Decide.{ℕ_discrete}
use p2pnas.Prelude.{
  ℕ, Bool, true, false, ◌&&◌, ◌||◌, leb, ◌==◌, List, [], ◌∷◌, ◌++◌, Option, none, some, length,
  take, if◌then◌else◌,
}
use p2pnas.Prelude.Dict.{Dict, lookup, insert, remove}
use p2pnas.Prelude.Results.{Result, ok, err, panic}
use p2pnas.Core.Bytes.{Bytes}
use p2pnas.Store.Errors.{StoreError, io, not_found, invalid_fragment_id}

-- A text as its bytes.
abbrev pub Text : Type 0
Text = List ℕ

abbrev pub PathBuf : Type 0
PathBuf = List Text

unfoldable pub path_discrete : Discrete PathBuf
path_discrete = hlevel ℕ_discrete

abbrev pub Files : Type 0
Files = Dict PathBuf Bytes

unfoldable pub is_ascii_hexdigit : ℕ → Bool
is_ascii_hexdigit c =
    (leb b'0' c && leb c b'9') || ((leb b'a' c && leb c b'f') || (leb b'A' c && leb c b'F'))

unfoldable pub all_hex : Text → Bool
all_hex [] = true
all_hex (c ∷ s) = is_ascii_hexdigit c && all_hex s

unfoldable pub is_valid_fragment_id : Text → Bool
is_valid_fragment_id id = (length id == 32) && all_hex id

-- `join` of a component that is not absolute appends it.
unfoldable pub path : PathBuf → Text → Result StoreError PathBuf
path root id =
    if is_valid_fragment_id id then ok (root ++ (take 2 id ∷ id ∷ [])) else err invalid_fragment_id

-- What a write comes to: done, or failed with what the file holds then, if it was touched.
pub data Written : Type 0 where
  done : Written
  failed : Option Bytes → Written

abbrev pub write_at_path : Files → PathBuf → Bytes → Written → Files × Result StoreError (Unit {0})
write_at_path files p data' done = (insert path_discrete p data' files, ok tt)
write_at_path files p data' (failed none) = (files, err io)
write_at_path files p data' (failed (some left)) = (insert path_discrete p left files, err io)

unfoldable pub write :
    PathBuf → Files → Text → Bytes → Written → Files × Result StoreError (Unit {0})
write root files id data' outcome = elim (path root id) [
  | ok p ↦ write_at_path files p data' outcome
  | err e ↦ (files, err e)
  | panic ↦ (files, panic)
]

abbrev pub contents : Option Bytes → Result StoreError Bytes
contents none = err not_found
contents (some data') = ok data'

-- `refused`: the system fails with another error than that there is no such file.
unfoldable pub read : PathBuf → Files → Text → Bool → Result StoreError Bytes
read root files id refused = elim (path root id) [
  | ok p ↦ if refused then err io else contents (lookup path_discrete p files)
  | err e ↦ err e
  | panic ↦ panic
]

-- A file that is not there counts as deleted.
unfoldable pub delete : PathBuf → Files → Text → Bool → Files × Result StoreError (Unit {0})
delete root files id refused = elim (path root id) [
  | ok p ↦ if refused then (files, err io) else (remove path_discrete p files, ok tt)
  | err e ↦ (files, err e)
  | panic ↦ (files, panic)
]

abbrev pub is_some : Option Bytes → Bool
is_some none = false
is_some (some data') = true

unfoldable pub exists : PathBuf → Files → Text → Bool
exists root files id = elim (path root id) [
  | ok p ↦ is_some (lookup path_discrete p files)
  | err e ↦ false
  | panic ↦ false
]
