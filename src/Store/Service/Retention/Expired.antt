-- ===== src/Store/Service/Retention/Expired.antt =====
-- store/src/service.rs: what the retention sweep reclaims, by the rules of a policy.
use p2pnas.Prelude.{
  ℕ, ◌≤◌, ◌≡◌, refl, sym, ap, ◌∙◌, Bool, true, false, not, ◌&&◌, ltb, ltb→lt, lt→ltb, [], none,
  arith, Bool-cases, inl, inr, ◌↔◌,
}
use p2pnas.Prelude.Int.{pos}
use p2pnas.Prelude.Select.{
  filter, any, any-false, any_none, any_elem, Elem, Elem-filter, Elem-append, Elem-map, Elem-unmap,
}
use p2pnas.Store.Chunkstore.{PathBuf, Files}
use p2pnas.Store.Manifest.{Text}
use p2pnas.Store.Manifest.Texts.{eq_text, eq_text_refl, eq_text→≡}
use p2pnas.Store.Manifest.Db.{StoredFile, Db, is_none}
use p2pnas.Store.Manifest.Files.{get_file}
use p2pnas.Store.Manifest.Retire.{
  PurgeCandidate, purge_candidates, trashed_before, superseded_before, superseded_beyond,
  superseded_orphans, is_before, same_lineage,
}
use p2pnas.Store.Manifest.Keys.{IsKeyed, both_true, get_file_lem, eq_text→≢}
use p2pnas.Store.Service.Plan.{pull_plan}
use p2pnas.Store.Service.Retention.{RetentionPolicy, Sweep, candidates, cutoff, purge_retired}
use p2pnas.Store.Service.Retention.Keeps.{pull_plan-sweep}
use p2pnas.Store.Service.Retention.Reclaims.{get_file-candidate}
use p2pnas.Store.Service.Retention.Rules.{
  lineage_of, IsOrphan, IsExpired, row_number-later, is_before-IsBefore, IsBefore-is_before,
  stamped, stamped_back,
}

abbrev candidate_of : StoredFile → PurgeCandidate
candidate_of f = (f.user_id, f.file_id, f.size, f.stored_bytes)

-- The policy of the rules.
abbrev pub days : ℕ → ℕ → ℕ → RetentionPolicy
days t v k = record { trash_days = pos t; version_days = pos v; keep_versions = pos k }

module _ (d : Db) (f : StoredFile) (at_f : Elem f d.files) where
  purge_candidates_self :
      (test : StoredFile → Bool) → test f ≡ true → Elem (candidate_of f) (purge_candidates test d)
  unfolding purge_candidates
  purge_candidates_self test t =
      Elem-map candidate_of f (filter test d.files) ((Elem-filter test f d.files).1 (at_f, t))

  any-IsOrphan :
      any (λ l. same_lineage l f && is_none l.superseded_at) d.files ≡ false → IsOrphan d.files f
  unfolding same_lineage
  any-IsOrphan e g at_g user line current =
      let none_there =
        any-false (λ (l : StoredFile). same_lineage l f && is_none l.superseded_at) g d.files e
          at_g in
      cc (
        rw (ap (eq_text g.user_id) (sym user) ∙ eq_text_refl g.user_id) at (
          rw (ap (eq_text (lineage_of g)) (sym line) ∙ eq_text_refl (lineage_of g)) at
            (rw current at none_there)))

  IsOrphan-any :
      IsOrphan d.files f → any (λ l. same_lineage l f && is_none l.superseded_at) d.files ≡ false
  unfolding same_lineage
  IsOrphan-any orphan =
      any_none (λ (l : StoredFile). same_lineage l f && is_none l.superseded_at) d.files
        (λ l m. elim (Bool-cases (same_lineage l f)) [
          | inr other ↦ rw other refl
          | inl same ↦
              let (u, t) =
                both_true (eq_text l.user_id f.user_id) (eq_text (lineage_of l) (lineage_of f))
                  same in
              let old = stamped_back l.superseded_at (
                orphan l m (eq_text→≡ l.user_id f.user_id u)
                  (eq_text→≡ (lineage_of l) (lineage_of f) t)) in
              rw same (negated _ old)
        ])
    where
      negated : (b : Bool) → not b ≡ true → b ≡ false
      negated true e = sym e
      negated false e = refl

  module _ (ago ago' : ℕ → Text) (t v k : ℕ) (low : t ≤ 36_500) (low' : v ≤ 36_500) where
    IsExpired-candidates :
        IsExpired ago ago' t v k d.files f
        → Elem (candidate_of f) (candidates ago ago' (days t v k) d)
    unfolding candidates cutoff trashed_before superseded_before superseded_beyond
        superseded_orphans
    IsExpired-candidates expired =
        let c = candidate_of f in
        let m1 = (Elem-append c (trashed_before (cutoff ago (pos t)) d) _).1 in
        let m2 = (Elem-append c (superseded_before (cutoff ago' (pos v)) d) _).1 in
        let m3 = (Elem-append c (superseded_beyond k d) (superseded_orphans d)).1 in
        elim expired [
          | inl old ↦ m1 (
              inl (
                purge_candidates_self _ (
                  ap (λ n. is_before (ago n) f.deleted_at) (omega (arith, low))
                  ∙ IsBefore-is_before (ago t) f.deleted_at old)))
          | inr later ↦ m1 (
              inr (
                m2 (elim later [
                  | inl old ↦ inl (
                      purge_candidates_self _ (
                        ap (λ n. is_before (ago' n) f.superseded_at) (omega (arith, low'))
                        ∙ IsBefore-is_before (ago' v) f.superseded_at old))
                  | inr (old, rule) ↦ inr (
                      m3 (elim rule [
                        | inl beyond ↦ inl (
                            purge_candidates_self _ (
                              rw (stamped_back f.superseded_at old) (
                                ap (ltb k) (row_number-later d.files f)
                                ∙ lt→ltb k _ (omega (arith, beyond)))))
                        | inr orphan ↦ inr (
                            purge_candidates_self _ (
                              rw (stamped_back f.superseded_at old)
                                (rw (IsOrphan-any orphan) refl)))
                      ]))
                ])))
        ]

    -- A candidate with the id of a row is there by a rule that the row has.
    module _ (keyed : IsKeyed d) where
      purge_candidates_test :
          (test : StoredFile → Bool) (c : PurgeCandidate)
          → Elem c (purge_candidates test d)
          → f.file_id ≡ c.1
          → test f ≡ true
      unfolding purge_candidates
      purge_candidates_test test c m same =
          let (g, at_g, e) = Elem-unmap _ c (filter test d.files) m in
          let (in_files, passed) = (Elem-filter test g d.files).0 at_g in
          let here = keyed.file_ids f g at_f in_files (same ∙ ap (λ (t : PurgeCandidate). t.1) e) in
          ap test here ∙ passed

      candidates-IsExpired :
          (c : PurgeCandidate)
          → Elem c (candidates ago ago' (days t v k) d)
          → f.file_id ≡ c.1
          → IsExpired ago ago' t v k d.files f
      unfolding candidates cutoff trashed_before superseded_before superseded_beyond
          superseded_orphans
      candidates-IsExpired c m same =
          elim ((Elem-append c (trashed_before (cutoff ago (pos t)) d) _).0 m) [
            | inl m1 ↦ inl (
                is_before-IsBefore (ago t) f.deleted_at (
                  ap (λ n. is_before (ago n) f.deleted_at) (omega (arith, low))
                  ∙ purge_candidates_test _ c m1 same))
            | inr r1 ↦
                inr (elim ((Elem-append c (superseded_before (cutoff ago' (pos v)) d) _).0 r1) [
                  | inl m2 ↦ inl (
                      is_before-IsBefore (ago' v) f.superseded_at (
                        ap (λ n. is_before (ago' n) f.superseded_at) (omega (arith, low'))
                        ∙ purge_candidates_test _ c m2 same))
                  | inr r2 ↦
                      inr
                        (elim ((Elem-append c (superseded_beyond k d) (superseded_orphans d)).0
                          r2) [
                            | inl m3 ↦
                                let (old, beyond) =
                                  both_true (not (is_none f.superseded_at)) _
                                    (purge_candidates_test _ c m3 same) in
                                let more =
                                  ltb→lt k _
                                    (ap (ltb k) (sym (row_number-later d.files f)) ∙ beyond) in
                                (stamped f.superseded_at old, inl (omega (arith, more)))
                            | inr m4 ↦
                                let (old, orphan) =
                                  both_true (not (is_none f.superseded_at)) _
                                    (purge_candidates_test _ c m4 same) in
                                (stamped f.superseded_at old, inr (any-IsOrphan (negated _ orphan)))
                          ])
                ])
          ]
        where
          negated : (b : Bool) → not b ≡ true → b ≡ false
          negated true e = sym e
          negated false e = refl

-- What a sweep reclaims is exactly what the policy says: the file of a row is not found after it when, and
-- only when, one of the rules holds of the row. The row is in the trash since before `t` days ago; or it is
-- an old version since before `v` days ago; or it is an old version, and at least `k` old versions of its
-- lineage and user were made later, or at the same instant with a greater id; or it is an old version, and
-- every version of its lineage and user is old. In a database with its keys, for at most 36,500 days.
pub get_file-purge_retired :
    (root : PathBuf) (refused : Text → Bool) (ago ago' : ℕ → Text) (t v k : ℕ) (d : Db)
    (store : Files) (f : StoredFile)
    → IsKeyed d
    → Elem f d.files
    → t ≤ 36_500
    → v ≤ 36_500
    → get_file f.user_id f.file_id (purge_retired root refused ago ago' (days t v k) d store).1.0
        ≡ none
      ↔ IsExpired ago ago' t v k d.files f
unfolding purge_retired pull_plan
get_file-purge_retired root refused ago ago' t v k d store f keyed at_f low low' =
    let cs = candidates ago ago' (days t v k) d in
    let start : Sweep = record { seen = []; freed = []; frags = []; files = 0; db = d } in
    (
      λ gone. elim (Bool-cases (any (λ (c : PurgeCandidate). eq_text f.file_id c.1) cs)) [
        | inl named ↦
            let (c, m, same) = any_elem (λ (c : PurgeCandidate). eq_text f.file_id c.1) cs named in
            candidates-IsExpired d f at_f ago ago' t v k low low' keyed c m
              (eq_text→≡ f.file_id c.1 same)
        | inr unnamed ↦
            let kept =
              pull_plan-sweep d keyed f at_f cs start
                (λ c m.
                  eq_text→≢ f.file_id c.1
                    (any-false (λ (c : PurgeCandidate). eq_text f.file_id c.1) c cs unnamed m))
                keyed.chunk_ids in
            cc (rw (get_file_lem d f keyed.file_ids at_f) at (rw gone at kept))
      ],
      λ expired.
          get_file-candidate root refused ago ago' (days t v k) d store (candidate_of f) keyed
            (IsExpired-candidates d f at_f ago ago' t v k low low' expired),
    )
