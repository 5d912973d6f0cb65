-- ===== src/Store/Service/Retention/Keeps.antt =====
-- store/src/service.rs: what the retention sweep keeps, and what it reclaims.
use p2pnas.Prelude.{
  All, ℕ, ◌≡◌, refl, sym, ap, ◌∙◌, ◌≢◌, Bool, true, false, List, [], ◌∷◌, Option, none, some,
  Bool-cases, inl, inr,
}
use p2pnas.Prelude.Select.{filter, any, Elem, Elem-filter, Elem-append, Elem-unmap}
use p2pnas.Store.Chunkstore.{PathBuf, Files, read}
use p2pnas.Store.Manifest.{Text, ChunkRow, ShardRow}
use p2pnas.Store.Manifest.Texts.{eq_text}
use p2pnas.Store.Manifest.Db.{StoredFile, Db, is_none, is_live_row}
use p2pnas.Store.Manifest.Retire.{
  PurgeCandidate, purge_candidates, trashed_before, superseded_before, superseded_beyond,
  superseded_orphans, is_before,
}
use p2pnas.Store.Manifest.Keys.{IsKey, IsKeyed, both_true}
use p2pnas.Store.Manifest.Frame.{chunks-purge_file_row}
use p2pnas.Store.Manifest.Files.{get_chunks}
use p2pnas.Store.Service.Plan.{ChunkShards, with_shards, pull_plan}
use p2pnas.Store.Service.Plan.Frame.{get_chunks_own, with_shards-All, pull_plan-purge_file_row}
use p2pnas.Store.Service.Retention.Freed.{sweep-IsSpared, read-purge_local_collect_remote}
use p2pnas.Store.Service.Retention.{
  RetentionPolicy, Sweep, sweep, sweep_one, candidates, cutoff, at_least_zero, purge_retired,
}

module _ (d : Db) (keyed : IsKeyed d) (f : StoredFile) (at_f : Elem f d.files) where
  -- A test that a row does not pass selects no row with its id.
  purge_candidates_other :
      (test : StoredFile → Bool) (c : PurgeCandidate)
      → test f ≡ false
      → Elem c (purge_candidates test d)
      → f.file_id ≢ c.1
  unfolding purge_candidates
  purge_candidates_other test c failed m same =
      let (g, at_g, e) = Elem-unmap _ c (filter test d.files) m in
      let (in_files, passed) = (Elem-filter test g d.files).0 at_g in
      let here = keyed.file_ids f g at_f in_files (same ∙ ap (λ (t : PurgeCandidate). t.1) e) in
      let clash : true ≡ false = sym passed ∙ ap test (sym here) ∙ failed in cc

  candidates_other :
      (ago ago' : ℕ → Text) (policy : RetentionPolicy) (c : PurgeCandidate)
      → is_live_row f ≡ true
      → Elem c (candidates ago ago' policy d)
      → f.file_id ≢ c.1
  unfolding candidates trashed_before superseded_before superseded_beyond superseded_orphans
  candidates_other ago ago' policy c live m =
      let (del, sup) = both_true (is_none f.deleted_at) (is_none f.superseded_at) live in
      elim ((Elem-append c (trashed_before (cutoff ago policy.trash_days) d) _).0 m) [
        | inl m1 ↦ purge_candidates_other _ c (before_none _ f.deleted_at del) m1
        | inr m' ↦
            elim ((Elem-append c (superseded_before (cutoff ago' policy.version_days) d) _).0 m') [
              | inl m2 ↦ purge_candidates_other _ c (before_none _ f.superseded_at sup) m2
              | inr m'' ↦
                  elim ((Elem-append c (superseded_beyond (at_least_zero policy.keep_versions) d)
                      _).0
                    m'') [
                      | inl m3 ↦ purge_candidates_other _ c (rw sup refl) m3
                      | inr m4 ↦ purge_candidates_other _ c (rw sup refl) m4
                    ]
            ]
      ]
    where
      before_none :
          (at : Text) (stamp : Option Text) → is_none stamp ≡ true → is_before at stamp ≡ false
      before_none at none e = refl
      before_none at (some s) e = cc

  -- The loop leaves what is read of a file that is no candidate.
  pub pull_plan-sweep :
      (cs : List PurgeCandidate) (w : Sweep)
      → ((c : PurgeCandidate) → Elem c cs → f.file_id ≢ c.1)
      → IsKey (λ (b : ChunkRow). b.chunk_id) w.db.chunks
      → pull_plan f.user_id f.file_id (sweep cs w).db ≡ pull_plan f.user_id f.file_id w.db
  unfolding sweep sweep_one
  pull_plan-sweep [] w other keys = refl
  pull_plan-sweep (c ∷ cs) w other keys = elim (Bool-cases (any (eq_text c.1) w.seen)) [
    | inl seen ↦ rw (seen, sweep) (pull_plan-sweep cs w (λ b m. other b (inr m)) keys)
    | inr new ↦
        rw (new, sweep)
          (pull_plan-sweep cs (sweep_one c w) (λ b m. other b (inr m))
              (λ x y m n.
                keys x y (chunks-purge_file_row c.0 c.1 w.db x m)
                  (chunks-purge_file_row c.0 c.1 w.db y n))
            ∙ pull_plan-purge_file_row c.0 c.1 w.db keys f.user_id f.file_id (other c (inl refl)))
  ]

-- A sweep leaves what is read of every live file, its row, chunks and shards, as it was, under every
-- policy and clock; and of every shard of the file, what is read from the store is what was read before,
-- whatever deletions the system refuses. In a database with its keys, those of the shards among them.
pub pull_plan-purge_retired :
    (root : PathBuf) (refused : Text → Bool) (ago ago' : ℕ → Text) (policy : RetentionPolicy)
    (d : Db) (store : Files) (f : StoredFile) (b : Bool)
    → IsKeyed d
    → IsKey (λ (s : ShardRow). s.fragment_id) d.shards
    → Elem f d.files
    → is_live_row f ≡ true
    → let after = purge_retired root refused ago ago' policy d store in
      (pull_plan f.user_id f.file_id after.1.0 ≡ pull_plan f.user_id f.file_id d)
      × All
          (λ (p : ChunkShards).
            All (λ s. read root after.1.1 s.fragment_id b ≡ read root store s.fragment_id b) p.1)
          (with_shards d (get_chunks f.file_id d))
unfolding purge_retired
pull_plan-purge_retired root refused ago ago' policy d store f b keyed shard_keys at_f live =
    let cs = candidates ago ago' policy d in
    let start : Sweep = record { seen = []; freed = []; frags = []; files = 0; db = d } in
    let other : (c : PurgeCandidate) → Elem c cs → f.file_id ≢ c.1 =
      λ c m. candidates_other d keyed f at_f ago ago' policy c live m in
    (
      pull_plan-sweep d keyed f at_f cs start other keyed.chunk_ids,
      with_shards-All _ d (get_chunks f.file_id d) (λ c s m at_s of_c.
          let (at_c, own) = get_chunks_own f.file_id d c m in
          let spared =
            sweep-IsSpared d keyed.chunk_ids shard_keys c at_c s at_s of_c cs start
              (λ p n e. other p n (sym own ∙ e))
              (record { chunks = λ x n. n; shards = λ x n. n; spared = λ r n. absurd n }) in
          read-purge_local_collect_remote root refused (sweep cs start).frags store s.fragment_id b
            spared.spared),
    )
