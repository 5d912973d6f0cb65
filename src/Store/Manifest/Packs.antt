-- ===== src/Store/Manifest/Packs.antt =====
-- store/src/manifest.rs: the rows of packs and of their members.
use p2pnas.Prelude.{
  ℕ, Bool, true, false, not, ◌&&◌, ltb, leb, List, [], ◌∷◌, Option, none, some, map, length,
  if◌then◌else◌,
}
use p2pnas.Prelude.Int.{ℤ, pos, negsuc}
use p2pnas.Prelude.Select.{filter, any, order_by, sum_by}
use p2pnas.Store.Errors.{StoreResult}
use p2pnas.Store.Manifest.{Text, FileRow}
use p2pnas.Store.Manifest.Texts.{eq_text, le_text, lt_text}
use p2pnas.Store.Manifest.Db.{StoredFile, Db, is_none, is_row, is_live_row, file_row, update_files}
use p2pnas.Store.Manifest.Files.{by_path, then_by, not_pack}

unfoldable pub assign_to_pack : Text → Text → Text → ℤ → ℤ → Db → StoreResult (Bool × Db)
unfolding update_files
assign_to_pack user_id file_id pack_id offset len d =
    update_files (is_row user_id file_id)
      (λ f. record f {
        pack_id = some pack_id;
        pack_offset = some offset;
        pack_len = some len;
        chunk_count = 0;
        stored_bytes = 0;
      })
      d

-- The predicate of `packable_files` and `packable_user_ids`, but for the user.
unfoldable pub is_packable : ℕ → StoredFile → Bool
unfolding not_pack
is_packable max_size f =
    is_live_row f && is_none f.pack_id && ltb 0 f.chunk_count && leb f.size max_size && not_pack f

unfoldable pub packable_files : Text → ℕ → Db → List FileRow
unfolding filter order_by file_row is_packable
packable_files user_id max_size d =
    order_by by_path
      (map file_row (filter (λ f. eq_text f.user_id user_id && is_packable max_size f) d.files))

-- `DISTINCT`
unfoldable pub distinct : List Text → List Text
unfolding any
distinct [] = []
distinct (x ∷ xs) = let rest = distinct xs in if any (eq_text x) rest then rest else x ∷ rest

unfoldable pub packable_user_ids : ℕ → Db → List Text
unfolding filter order_by is_packable distinct
packable_user_ids max_size d =
    order_by le_text
      (distinct (map (λ (f : StoredFile). f.user_id) (filter (is_packable max_size) d.files)))

abbrev pub le_int : ℤ → ℤ → Bool
le_int (pos m) (pos n) = leb m n
le_int (pos m) (negsuc n) = false
le_int (negsuc m) (pos n) = true
le_int (negsuc m) (negsuc n) = leb n m

-- A null comes before every number.
abbrev pub le_offset : Option ℤ → Option ℤ → Bool
le_offset none o = true
le_offset (some m) none = false
le_offset (some m) (some n) = le_int m n

-- `pack_id = …`; a null equals nothing.
abbrev pub is_text : Text → Option Text → Bool
is_text x none = false
is_text x (some y) = eq_text y x

abbrev pub is_in_pack : Text → StoredFile → Bool
is_in_pack pack f = is_text pack f.pack_id

unfoldable pub pack_members : Text → Text → Db → List FileRow
unfolding filter order_by file_row
pack_members user_id pack d =
    order_by (λ f g. le_offset f.pack_offset g.pack_offset)
      (map file_row (filter (λ f. eq_text f.user_id user_id && is_in_pack pack f) d.files))

-- A length that is stored, which is never negative.
abbrev pub to_length : Option ℤ → ℕ
to_length (some (pos n)) = n
to_length _ = 0

-- The container, the bytes that rows refer to, and how many rows do.
abbrev pub PackOccupancy : Type 0
PackOccupancy = FileRow × ℕ × ℕ

unfoldable pub occupancy : Db → StoredFile → PackOccupancy
unfolding filter sum_by file_row
occupancy d p =
    let members = filter (is_in_pack p.file_id) d.files in
    (file_row p, sum_by (λ (f : StoredFile). to_length f.pack_len) members, length members)

unfoldable pub pack_occupancy : Db → List PackOccupancy
unfolding filter order_by occupancy not_pack
pack_occupancy d =
    order_by
      (then_by (λ (p q : PackOccupancy). lt_text p.0.user_id q.0.user_id)
        (λ p q. le_text p.0.file_id q.0.file_id))
      (map (occupancy d) (filter (λ f. not (not_pack f)) d.files))
