-- ===== src/Store/Manifest/Keys/Changes.antt =====
-- store/src/manifest.rs: the changes of rows and the deletions, with what they cascade to, keep the links.
use mathlib.Core.Path.{subst}
use p2pnas.Prelude.{
  ◌≡◌, refl, sym, ap, ◌∙◌, Bool, true, false, not, ◌&&◌, if◌then◌else◌, Bool-cases, inl, inr,
}
use p2pnas.Prelude.Results.{ok}
use p2pnas.Prelude.Select.{any, any-false, Elem, Elem-filter, Elem-map, Elem-unmap}
use p2pnas.Store.Manifest.{Text, ChunkRow, ShardRow}
use p2pnas.Store.Manifest.Texts.{eq_text, eq_text_refl}
use p2pnas.Store.Manifest.Db.{
  StoredFile, Db, update_files, delete_chunks, delete_files, set_shard_location,
}
use p2pnas.Store.Manifest.Keys.{IsKey, update_files_ok}
use p2pnas.Store.Manifest.Keys.Writes.{IsKey-filter}
use p2pnas.Store.Manifest.Keys.Linked.{IsParked, IsLinked}

-- The folders alone differ.
pub same_rows :
    (d d' : Db)
    → d'.files ≡ d.files
    → d'.chunks ≡ d.chunks
    → d'.shards ≡ d.shards
    → IsLinked d
    → IsLinked d'
same_rows d d' files chunks shards linked = record {
  fragment_ids =
      subst (λ ss. IsKey (λ (s : ShardRow). s.fragment_id) ss) (sym shards) linked.fragment_ids;
  chunk_files = λ c m.
      let (f, at_f, own) = linked.chunk_files c (subst (Elem c) chunks m) in
      (f, subst (Elem f) (sym files) at_f, own);
  shard_chunks = λ s m.
      let (c, at_c, own) = linked.shard_chunks s (subst (Elem s) shards m) in
      (c, subst (Elem c) (sym chunks) at_c, own);
  parked = λ f m. linked.parked f (subst (Elem f) files m);
}

-- A change of rows that leaves their ids, and leaves those parked that it changes.
pub update_files-IsLinked :
    (test : StoredFile → Bool) (change : StoredFile → StoredFile) (d : Db) {r : Bool × Db}
    → IsLinked d
    → ((f : StoredFile) → (change f).file_id ≡ f.file_id)
    → ((f : StoredFile) → Elem f d.files → test f ≡ true → IsParked (change f))
    → update_files test change d ≡ ok r
    → IsLinked r.1
update_files-IsLinked test change d {r} linked ids parks e =
    let (_, at_r) = update_files_ok test change d r e in
    let step = λ (f : StoredFile). if test f then change f else f in
    subst IsLinked (sym at_r) (record {
      fragment_ids = linked.fragment_ids;
      chunk_files = λ c m.
          let (f, at_f, own) = linked.chunk_files c m in
          (step f, Elem-map step f d.files at_f, id_kept f ∙ own);
      shard_chunks = linked.shard_chunks;
      parked = λ f m.
          let (g, at_g, is_f) = Elem-unmap step f d.files m in
          subst IsParked (sym is_f) (elim (Bool-cases (test g)) [
            | inl t ↦ rw t (parks g at_g t)
            | inr t ↦ rw t (linked.parked g at_g)
          ]);
    })
  where
    id_kept : (f : StoredFile) → (if test f then change f else f).file_id ≡ f.file_id
    id_kept f = elim (Bool-cases (test f)) [ inl t ↦ rw t (ids f) | inr t ↦ rw t refl ]

negated : {b : Bool} → not b ≡ true → b ≡ false
negated {b = true} e = sym e
negated {b = false} e = refl

positive : {b : Bool} → b ≡ false → not b ≡ true
positive {b = true} e = sym e
positive {b = false} e = refl

first_false : (a : Bool) {b : Bool} → b ≡ true → (a && b) ≡ false → a ≡ false
first_false true e h = sym e ∙ h
first_false false e h = refl

-- The shards that stay are those whose chunk stays.
pub delete_chunks-IsLinked :
    (test : ChunkRow → Bool) (d : Db) → IsLinked d → IsLinked (delete_chunks test d)
unfolding delete_chunks
delete_chunks-IsLinked test d linked =
    let gone = λ (s : ShardRow). any (λ c. test c && eq_text c.chunk_id s.chunk_id) d.chunks in
    record {
      fragment_ids =
          IsKey-filter (λ (s : ShardRow). s.fragment_id) (λ s. not (gone s)) d.shards
            linked.fragment_ids;
      chunk_files = λ c m. linked.chunk_files c ((Elem-filter _ c d.chunks).0 m).0;
      shard_chunks = λ s m.
          let (at_s, kept) = (Elem-filter (λ s. not (gone s)) s d.shards).0 m in
          let (c, at_c, own) = linked.shard_chunks s at_s in
          let apart =
            any-false (λ (c : ChunkRow). test c && eq_text c.chunk_id s.chunk_id) c d.chunks
              (negated kept) at_c in
          let stays =
            first_false (test c) (ap (eq_text c.chunk_id) (sym own) ∙ eq_text_refl c.chunk_id)
              apart in
          (c, (Elem-filter (λ c. not (test c)) c d.chunks).1 (at_c, positive stays), own);
      parked = linked.parked;
    }

-- The chunks that stay are those whose file stays.
pub delete_files-IsLinked :
    (test : StoredFile → Bool) (d : Db) → IsLinked d → IsLinked (delete_files test d)
unfolding delete_files delete_chunks
delete_files-IsLinked test d linked =
    let gone = λ (c : ChunkRow). any (λ f. test f && eq_text f.file_id c.file_id) d.files in
    let rest = delete_chunks-IsLinked gone d linked in
    record {
      fragment_ids = rest.fragment_ids;
      chunk_files = λ c m.
          let (at_c, kept) = (Elem-filter (λ c. not (gone c)) c d.chunks).0 m in
          let (f, at_f, own) = linked.chunk_files c at_c in
          let apart =
            any-false (λ (f : StoredFile). test f && eq_text f.file_id c.file_id) f d.files
              (negated kept) at_f in
          let stays =
            first_false (test f) (ap (eq_text f.file_id) (sym own) ∙ eq_text_refl f.file_id)
              apart in
          (f, (Elem-filter (λ f. not (test f)) f d.files).1 (at_f, positive stays), own);
      shard_chunks = rest.shard_chunks;
      parked = λ f m. linked.parked f ((Elem-filter _ f d.files).0 m).0;
    }

pub set_shard_location-IsLinked :
    (fragment_id location : Text) (d : Db)
    → IsLinked d
    → IsLinked (set_shard_location fragment_id location d)
unfolding set_shard_location
set_shard_location-IsLinked fragment_id location d linked =
    let move = λ (s : ShardRow).
      if eq_text s.fragment_id fragment_id then record s { location = location } else s in
    record {
      fragment_ids = λ x y m n same.
          let (a, at_a, is_x) = Elem-unmap move x d.shards m in
          let (b, at_b, is_y) = Elem-unmap move y d.shards n in
          let here = linked.fragment_ids a b at_a at_b (
            sym ((kept a).0)
            ∙ ap (λ (s : ShardRow). s.fragment_id) (sym is_x)
            ∙ same
            ∙ ap (λ (s : ShardRow). s.fragment_id) is_y
            ∙ (kept b).0) in
          is_x ∙ ap move here ∙ sym is_y;
      chunk_files = linked.chunk_files;
      shard_chunks = λ s m.
          let (a, at_a, is_s) = Elem-unmap move s d.shards m in
          let (c, at_c, own) = linked.shard_chunks a at_a in
          (c, at_c, own ∙ sym ((kept a).1) ∙ ap (λ (r : ShardRow). r.chunk_id) (sym is_s));
      parked = linked.parked;
    }
  where
    kept :
        (s : ShardRow)
        → let t =
            if eq_text s.fragment_id fragment_id then record s { location = location } else s in
          (t.fragment_id ≡ s.fragment_id) × (t.chunk_id ≡ s.chunk_id)
    kept s = elim (Bool-cases (eq_text s.fragment_id fragment_id)) [
      | inl t ↦ rw t (refl, refl)
      | inr t ↦ rw t (refl, refl)
    ]
