-- ===== src/Store/Service/Packs.antt =====
-- store/src/service.rs: the format of packs, and which files go into one.
-- Texts in messages of `Integrity` errors are left short.
mod Examples
pub mod Index
pub mod Plans
pub mod Greedy
use p2pnas.Prelude.{
  ℕ, zero, suc, ◌+◌, ◌-◌, ◌*◌, ◌^◌, Bool, true, false, not, ◌&&◌, ◌||◌, leb, ltb, ◌==◌, List, [],
  ◌∷◌, ◌++◌, Option, none, some, length, take, drop, if◌then◌else◌,
}
use p2pnas.Prelude.Int.{ℤ, pos, negsuc}
use p2pnas.Prelude.Select.{filter}
use p2pnas.Prelude.Results.{ok, err, ◌>>=◌}
use p2pnas.Core.Bytes.{Bytes, be_bytes}
use p2pnas.Store.Errors.{StoreError, StoreResult, integrity}
use p2pnas.Store.Manifest.{Text, FileRow}

abbrev pub small_max : ℕ
small_max = 262_144

abbrev pub pack_target : ℕ
pack_target = 1_048_576

-- "P2PNPAK1"
abbrev pub pack_magic : Bytes
pack_magic = b'P' ∷ b'2' ∷ b'P' ∷ b'N' ∷ b'P' ∷ b'A' ∷ b'K' ∷ b'1' ∷ []

pub record PackEntry : Type 0 where
  pub file_id : Text
  pub bytes : Bytes

-- Offset and length.
abbrev pub PackRange : Type 0
PackRange = ℕ × ℕ

abbrev pub PackIndexEntry : Type 0
PackIndexEntry = Text × ℕ × ℕ

-- The first loop of `build_pack`: the bytes of the members, and the ranges from an offset on.
unfoldable pub payload : List PackEntry → Bytes
payload [] = []
payload (e ∷ es) = e.bytes ++ payload es

unfoldable pub ranges_from : ℕ → List PackEntry → List PackRange
ranges_from off [] = []
ranges_from off (e ∷ es) = (off, length e.bytes) ∷ ranges_from (off + length e.bytes) es

-- `u32::try_from`
unfoldable pub fits_u32 : ℕ → StoreResult (Unit {0})
fits_u32 n = if ltb n 4_294_967_296 then ok tt else err (integrity "too long for a pack index")

-- The second loop: the records of the index.
unfoldable pub index_of : List PackEntry → List PackRange → StoreResult Bytes
unfolding fits_u32 be_bytes
index_of [] ranges = ok []
index_of (e ∷ es) [] = ok []
index_of (e ∷ es) ((off, len) ∷ ranges) = fits_u32 (length e.file_id) >>= λ _.
    index_of es ranges >>= λ rest.
    ok
      (be_bytes 4 (length e.file_id) ++ (e.file_id ++ (be_bytes 8 off ++ (be_bytes 8 len ++ rest))))

unfoldable pub build_pack : List PackEntry → StoreResult (Bytes × List PackRange)
unfolding payload ranges_from index_of fits_u32 be_bytes
build_pack entries =
    let ranges = ranges_from 0 entries in
    index_of entries ranges >>= λ index. fits_u32 (length index) >>= λ _.
    ok (payload entries ++ (index ++ (be_bytes 4 (length index) ++ pack_magic)), ranges)

-- `take`: what is popped off, and the rest.
unfoldable pub pop : ℕ → Bytes → Option (Bytes × Bytes)
pop n cur = if ltb (length cur) n then none else some (take n cur, drop n cur)

-- `from_be_bytes`, after the bytes that are worth `acc`.
unfoldable pub from_be_loop : ℕ → Bytes → ℕ
from_be_loop acc [] = acc
from_be_loop acc (b ∷ bs) = from_be_loop (acc * 256 + b) bs

unfoldable pub from_be_bytes : Bytes → ℕ
unfolding from_be_loop
from_be_bytes bs = from_be_loop 0 bs

infixl 5 ◌>>?◌
abbrev pub ◌>>?◌ : {A B : Type 0} → Option A → (A → Option B) → Option B
none >>? next = none
some a >>? next = next a

-- The external test that bytes are UTF-8 is the argument.
unfoldable pub read_index_entry : (Bytes → Bool) → Bytes → Option (PackIndexEntry × Bytes)
unfolding pop from_be_bytes
read_index_entry is_utf8 cur = pop 4 cur >>? λ (id_len, cur1).
    pop (from_be_bytes id_len) cur1 >>? λ (id, cur2). pop 8 cur2 >>? λ (off, cur3).
    pop 8 cur3 >>? λ (len, cur4).
    if is_utf8 id then some ((id, from_be_bytes off, from_be_bytes len), cur4) else none

-- The loop of `parse_pack_index` on fuel: a record takes twenty bytes at least.
unfoldable pub read_index : (Bytes → Bool) → ℕ → Bytes → StoreResult (List PackIndexEntry)
unfolding read_index_entry
read_index is_utf8 zero cur = ok []
read_index is_utf8 (suc fuel) [] = ok []
read_index is_utf8 (suc fuel) (b ∷ cur) = elim (read_index_entry is_utf8 (b ∷ cur)) [
  | none ↦ err (integrity "malformed index entry")
  | some (entry, rest) ↦ read_index is_utf8 fuel rest >>= λ entries. ok (entry ∷ entries)
]

-- `==` of byte strings.
unfoldable pub same_bytes : Bytes → Bytes → Bool
same_bytes [] [] = true
same_bytes [] (y ∷ ys) = false
same_bytes (x ∷ xs) [] = false
same_bytes (x ∷ xs) (y ∷ ys) = (x == y) && same_bytes xs ys

-- From the place of the length of the index on.
unfoldable pub parse_at : (Bytes → Bool) → Bytes → ℕ → StoreResult (List PackIndexEntry)
unfolding read_index from_be_bytes
parse_at is_utf8 pack_plain len_at =
    let index_len = from_be_bytes (take 4 (drop len_at pack_plain)) in
    if ltb len_at index_len
    then err (integrity "index longer than the pack")
    else let index = take index_len (drop (len_at - index_len) pack_plain) in
      read_index is_utf8 (length index) index

unfoldable pub parse_pack_index : (Bytes → Bool) → Bytes → StoreResult (List PackIndexEntry)
unfolding same_bytes parse_at
parse_pack_index is_utf8 pack_plain =
    let n = length pack_plain in
    if ltb n 8 || not (same_bytes (drop (n - 8) pack_plain) pack_magic)
    then err (integrity "missing magic")
    else if ltb n 12
    then err (integrity "truncated before index length")
    else parse_at is_utf8 pack_plain (n - 12)

-- The range of a member, its bounds being checked. `usize` holds every `i64` that is not negative, and
-- the sum of two of them.
abbrev pub slice_at : Bytes → Option ℤ → Option ℤ → StoreResult Bytes
slice_at pack_plain (some (pos off)) (some (pos len)) =
    if ltb (length pack_plain) (off + len)
    then err (integrity "invalid pack range")
    else ok (take len (drop off pack_plain))
slice_at pack_plain _ _ = err (integrity "invalid pack range")

unfoldable pub member_slice : Bytes → FileRow → StoreResult Bytes
member_slice pack_plain member = slice_at pack_plain member.pack_offset member.pack_len

abbrev pub close_group : List FileRow → List (List FileRow) → List (List FileRow)
close_group [] groups = groups
close_group (f ∷ fs) groups = groups ++ ((f ∷ fs) ∷ [])

-- Whether a file does not fit into the group being filled.
abbrev pub overflows : List FileRow → ℕ → FileRow → ℕ → Bool
overflows [] bytes f target = false
overflows (g ∷ gs) bytes f target = ltb target (bytes + f.size)

-- The loop of `plan_packs`.
unfoldable pub group_files :
    ℕ → List FileRow → List (List FileRow) → List FileRow → ℕ → List (List FileRow)
group_files target [] groups group bytes = close_group group groups
group_files target (f ∷ fs) groups group bytes =
    let fresh = group_files target fs (groups ++ (group ∷ [])) (f ∷ []) f.size in
    let same = group_files target fs groups (group ++ (f ∷ [])) (bytes + f.size) in
    if overflows group bytes f target then fresh else same

unfoldable pub plan_packs : List FileRow → ℕ → List (List FileRow)
unfolding group_files filter
plan_packs files target = filter (λ g. leb 2 (length g)) (group_files target files [] [] 0)
