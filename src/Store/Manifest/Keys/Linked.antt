-- ===== src/Store/Manifest/Keys/Linked.antt =====
-- store/src/manifest.rs: the rows refer to rows that are there, and rows that are retired are parked.
use mathlib.Core.Path.{subst}
use p2pnas.Prelude.{
  ◌≡◌, refl, sym, ◌≢◌, Bool, true, false, not, ◌||◌, List, [], ◌∷◌, ◌++◌, none, Bool-cases, ◌⊎◌,
  inl, inr,
}
use p2pnas.Prelude.Results.{ok, ok_inj}
use p2pnas.Prelude.Select.{any, any-false, any_elem, Elem, Elem-append}
use p2pnas.Store.Manifest.{FileRow, ChunkRow, ShardRow}
use p2pnas.Store.Manifest.Texts.{eq_text, eq_text→≡}
use p2pnas.Store.Manifest.Db.{
  StoredFile, Db, is_live_row, same_path, new_row, insert_file, insert_chunk, insert_shard,
}
use p2pnas.Store.Manifest.Files.{retired_key}
use p2pnas.Store.Manifest.Keys.{IsKey}
use p2pnas.Store.Manifest.Keys.Writes.{IsKey-append}

-- A live row has no parked path. A row that is retired stands at its own key, and its path is parked.
abbrev pub IsParked : StoredFile → Type 0
IsParked f =
    ((is_live_row f ≡ true) × (f.retired_path ≡ none))
    ⊎ ((is_live_row f ≡ false) × (f.path ≡ retired_key f.file_id) × (f.retired_path ≢ none))

-- Fragment ids are a key; every chunk has its file, every shard has its chunk, and every file is parked
-- as its stamps say.
pub record IsLinked (d : Db) : Type 0 where
  pub fragment_ids : IsKey (λ (s : ShardRow). s.fragment_id) d.shards
  pub chunk_files :
      (c : ChunkRow) → Elem c d.chunks → (f : StoredFile) × Elem f d.files × (f.file_id ≡ c.file_id)
  pub shard_chunks :
      (s : ShardRow)
      → Elem s d.shards
      → (c : ChunkRow) × Elem c d.chunks × (c.chunk_id ≡ s.chunk_id)
  pub parked : (f : StoredFile) → Elem f d.files → IsParked f

-- A row of a list with one more row.
either :
    {A : Type 0} (P : A → Type 0) (xs : List A) (a : A)
    → ((x : A) → Elem x xs → P x)
    → P a
    → (x : A) → Elem x (xs ++ (a ∷ []))
    → P x
either P xs a old new x m = elim ((Elem-append x xs (a ∷ [])).0 m) [
  | inl there ↦ old x there
  | inr here ↦ elim here [ inl is_a ↦ subst P (sym is_a) new | inr nothing ↦ absurd nothing ]
]

pub insert_file-IsLinked :
    (f : FileRow) (d : Db) {d' : Db} → IsLinked d → insert_file f d ≡ ok d' → IsLinked d'
unfolding insert_file new_row
insert_file-IsLinked f d {d'} linked e =
    let taken = λ (g : StoredFile). eq_text g.file_id f.file_id || same_path (new_row f) g in
    elim (Bool-cases (any taken d.files)) [
      | inl t ↦ cc (rw (t, insert_file) at e)
      | inr t ↦ subst IsLinked (ok_inj (rw (t, insert_file) at e)) (record {
        fragment_ids = linked.fragment_ids;
        chunk_files = λ c m.
            let (g, at_g, own) = linked.chunk_files c m in
            (g, (Elem-append g d.files _).1 (inl at_g), own);
        shard_chunks = linked.shard_chunks;
        parked = either IsParked d.files (new_row f) linked.parked (inl (refl, refl));
      })
    ]

pub insert_chunk-IsLinked :
    (c : ChunkRow) (d : Db) {d' : Db} → IsLinked d → insert_chunk c d ≡ ok d' → IsLinked d'
unfolding insert_chunk
insert_chunk-IsLinked c d {d'} linked e =
    let taken = λ (b : ChunkRow). eq_text b.chunk_id c.chunk_id in
    let here = λ (f : StoredFile). eq_text f.file_id c.file_id in
    elim (Bool-cases (any taken d.chunks || not (any here d.files))) [
      | inl t ↦ cc (rw (t, insert_chunk) at e)
      | inr t ↦
          let (f, at_f, own) = any_elem here d.files (second (any taken d.chunks) _ t) in
          subst IsLinked (ok_inj (rw (t, insert_chunk) at e)) (record {
            fragment_ids = linked.fragment_ids;
            chunk_files =
                either (λ b. (f : StoredFile) × Elem f d.files × (f.file_id ≡ b.file_id)) d.chunks c
                  linked.chunk_files (f, at_f, eq_text→≡ f.file_id c.file_id own);
            shard_chunks = λ s m.
                let (b, at_b, own) = linked.shard_chunks s m in
                (b, (Elem-append b d.chunks _).1 (inl at_b), own);
            parked = linked.parked;
          })
    ]
  where
    second : (a b : Bool) → (a || not b) ≡ false → b ≡ true
    second true b e = cc
    second false true e = refl
    second false false e = cc

pub insert_shard-IsLinked :
    (s : ShardRow) (d : Db) {d' : Db} → IsLinked d → insert_shard s d ≡ ok d' → IsLinked d'
unfolding insert_shard
insert_shard-IsLinked s d {d'} linked e =
    let taken = λ (r : ShardRow). eq_text r.fragment_id s.fragment_id in
    let here = λ (c : ChunkRow). eq_text c.chunk_id s.chunk_id in
    elim (Bool-cases (any taken d.shards || not (any here d.chunks))) [
      | inl t ↦ cc (rw (t, insert_shard) at e)
      | inr t ↦
          let (fresh, found) = both (any taken d.shards) _ t in
          let (c, at_c, own) = any_elem here d.chunks found in
          subst IsLinked (ok_inj (rw (t, insert_shard) at e)) (record {
            fragment_ids =
                IsKey-append (λ (r : ShardRow). r.fragment_id) d.shards s linked.fragment_ids
                  (λ x m. any-false taken x d.shards fresh m);
            chunk_files = linked.chunk_files;
            shard_chunks =
                either (λ r. (c : ChunkRow) × Elem c d.chunks × (c.chunk_id ≡ r.chunk_id)) d.shards
                  s linked.shard_chunks (c, at_c, eq_text→≡ c.chunk_id s.chunk_id own);
            parked = linked.parked;
          })
    ]
  where
    both : (a b : Bool) → (a || not b) ≡ false → (a ≡ false) × (b ≡ true)
    both true b e = cc
    both false true e = (refl, refl)
    both false false e = cc
