-- ===== src/Store/Service/Packs/Examples.antt =====
-- A pack of two members.
use p2pnas.Prelude.{ℕ, ◌≡◌, refl, ◌≤◌, true, List, [], ◌∷◌, none, some, All, leb, length, arith}
use p2pnas.Prelude.Int.{pos}
use p2pnas.Prelude.Results.{ok}
use p2pnas.Prelude.Select.{filter}
use p2pnas.Core.Bytes.{Bytes}
use p2pnas.Store.Manifest.{FileRow}
use p2pnas.Store.Service.Packs.{
  PackEntry, build_pack, payload, parse_pack_index, member_slice, plan_packs,
}
use p2pnas.Store.Service.Packs.Index.{parse_pack_index-build_pack}
use p2pnas.Store.Service.Packs.Plans.{member_slice-build_pack}
use p2pnas.Store.Service.Packs.Greedy.{joined, total_size, IsGreedy, plan_packs_lem}

abbrev entries : List PackEntry
entries =
    record { file_id = b'a' ∷ []; bytes = 7 ∷ 8 ∷ [] }
    ∷ (record { file_id = b'b' ∷ []; bytes = 9 ∷ [] } ∷ [])

abbrev plain : Bytes
plain =
    7 ∷ 8 ∷ 9 ∷ 0 ∷ 0 ∷ 0 ∷ 1 ∷ b'a' ∷ 0 ∷ 0 ∷ 0 ∷ 0 ∷ 0 ∷ 0 ∷ 0 ∷ 0 ∷ 0 ∷ 0 ∷ 0 ∷ 0 ∷ 0 ∷ 0 ∷ 0 ∷ 2
    ∷ 0 ∷ 0 ∷ 0 ∷ 1 ∷ b'b' ∷ 0 ∷ 0 ∷ 0 ∷ 0 ∷ 0 ∷ 0 ∷ 0 ∷ 2 ∷ 0 ∷ 0 ∷ 0 ∷ 0 ∷ 0 ∷ 0 ∷ 0 ∷ 1 ∷ 0 ∷ 0
    ∷ 0 ∷ 42 ∷ b'P' ∷ b'2' ∷ b'P' ∷ b'N' ∷ b'P' ∷ b'A' ∷ b'K' ∷ b'1' ∷ []

built : build_pack entries ≡ ok (plain, (0, 2) ∷ ((2, 1) ∷ []))
unfolding build_pack
built = refl

abbrev row : ℕ → FileRow
row n = record {
  file_id = b'b' ∷ [];
  user_id = b'u' ∷ [];
  path = b'p' ∷ [];
  size = n;
  stored_bytes = 0;
  chunk_count = 0;
  created_at = b'1' ∷ [];
  deleted_at = none;
  superseded_at = none;
  lineage = b'b' ∷ [];
  key_scheme = pos 2;
  content_hash = none;
  pack_id = some (b'k' ∷ []);
  pack_offset = some (pos 2);
  pack_len = some (pos 1);
}

parse_pack_index-build_pack_example :
    parse_pack_index (λ xs. true) plain ≡ ok ((b'a' ∷ [], 0, 2) ∷ ((b'b' ∷ [], 2, 1) ∷ []))
parse_pack_index-build_pack_example =
    parse_pack_index-build_pack (λ xs. true) entries plain ((0, 2) ∷ ((2, 1) ∷ [])) built
      (refl, (refl, tt)) (unfold payload in omega arith)

member_slice-build_pack_example : member_slice plain (row 1) ≡ ok (9 ∷ [])
member_slice-build_pack_example =
    member_slice-build_pack entries plain ((0, 2) ∷ ((2, 1) ∷ [])) 1 2 1
      (record { file_id = b'b' ∷ []; bytes = 9 ∷ [] }) (row 1) built refl refl refl refl

plan_packs_lem_example :
    ((groups : List (List FileRow)) × (joined groups ≡ (row 1 ∷ (row 2 ∷ (row 3 ∷ []))))
      × IsGreedy 4 groups
      × (plan_packs (row 1 ∷ (row 2 ∷ (row 3 ∷ []))) 4 ≡ filter (λ g. leb 2 (length g)) groups))
    × All (λ g. (2 ≤ length g) × (total_size g ≤ 4)) (plan_packs (row 1 ∷ (row 2 ∷ (row 3 ∷ []))) 4)
plan_packs_lem_example = plan_packs_lem (row 1 ∷ (row 2 ∷ (row 3 ∷ []))) 4
