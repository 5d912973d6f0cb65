-- ===== src/Store/Service/Retention/Reclaims.antt =====
-- store/src/service.rs: the retention sweep reclaims every row that a rule names.
use p2pnas.Prelude.{
  ℕ, ◌≡◌, refl, sym, ap, ◌∙◌, Bool, true, false, not, List, [], ◌∷◌, none, map, Bool-cases, inl,
  inr,
}
use p2pnas.Prelude.Select.{
  filter, filter_empty, any, first, Elem, Elem-filter, Elem-append, Elem-unmap, Elem-All,
}
use p2pnas.Store.Chunkstore.{PathBuf, Files}
use p2pnas.Store.Manifest.{Text}
use p2pnas.Store.Manifest.Texts.{eq_text, eq_text_refl, eq_text→≡}
use p2pnas.Store.Manifest.Db.{StoredFile, Db, is_row, file_row, delete_files}
use p2pnas.Store.Manifest.Files.{get_file}
use p2pnas.Store.Manifest.Retire.{
  PurgeCandidate, purge_candidates, trashed_before, superseded_before, superseded_beyond,
  superseded_orphans, purge_file_row,
}
use p2pnas.Store.Manifest.Keys.{IsKeyed, is_row→≡}
use p2pnas.Store.Service.Retention.{
  RetentionPolicy, Sweep, sweep, sweep_one, candidates, purge_retired,
}

-- A file without a row is not found.
get_file-none :
    (user_id file_id : Text) (d : Db)
    → ((x : StoredFile) → Elem x d.files → is_row user_id file_id x ≡ false)
    → get_file user_id file_id d ≡ none
unfolding get_file
get_file-none user_id file_id d h =
    ap (λ xs. first (map file_row xs))
      (filter_empty (is_row user_id file_id) d.files (Elem-All _ d.files h))

-- The rows after a purge were there before, and are not the purged one.
files-purge_file_row :
    (u i : Text) (d : Db) (x : StoredFile)
    → Elem x (purge_file_row u i d).1.files
    → Elem x d.files × (is_row u i x ≡ false)
unfolding purge_file_row delete_files
files-purge_file_row u i d x m =
    let (at_x, kept) = (Elem-filter (λ f. not (is_row u i f)) x d.files).0 m in
    (at_x, elim (Bool-cases (is_row u i x)) [ inl t ↦ cc (rw t at kept) | inr t ↦ t ])

module _ (d : Db) (keyed : IsKeyed d) where
  -- A candidate names a row.
  IsNamed : PurgeCandidate → Type 0
  IsNamed c = (g : StoredFile) × Elem g d.files × (g.user_id ≡ c.0) × (g.file_id ≡ c.1)

  purge_candidates-IsNamed :
      (test : StoredFile → Bool) (c : PurgeCandidate) → Elem c (purge_candidates test d) → IsNamed c
  unfolding purge_candidates IsNamed
  purge_candidates-IsNamed test c m =
      let (g, at_g, e) = Elem-unmap _ c (filter test d.files) m in
      (
        g,
        ((Elem-filter test g d.files).0 at_g).0,
        sym (ap (λ (t : PurgeCandidate). t.0) e),
        sym (ap (λ (t : PurgeCandidate). t.1) e),
      )

  candidates-IsNamed :
      (ago ago' : ℕ → Text) (policy : RetentionPolicy) (c : PurgeCandidate)
      → Elem c (candidates ago ago' policy d)
      → IsNamed c
  unfolding candidates trashed_before superseded_before superseded_beyond superseded_orphans
  candidates-IsNamed ago ago' policy c m = elim ((Elem-append c (purge_candidates _ d) _).0 m) [
    | inl m1 ↦ purge_candidates-IsNamed _ c m1
    | inr m' ↦ elim ((Elem-append c (purge_candidates _ d) _).0 m') [
      | inl m2 ↦ purge_candidates-IsNamed _ c m2
      | inr m'' ↦ elim ((Elem-append c (purge_candidates _ d) _).0 m'') [
        | inl m3 ↦ purge_candidates-IsNamed _ c m3
        | inr m4 ↦ purge_candidates-IsNamed _ c m4
      ]
    ]
  ]

  -- The rows that are left were there, and none of them was seen.
  IsSwept : Sweep → Type 0
  IsSwept w =
      (x : StoredFile)
      → Elem x w.db.files
      → Elem x d.files × (any (eq_text x.file_id) w.seen ≡ false)

  sweep_one-IsSwept :
      (c : PurgeCandidate) (w : Sweep) → IsNamed c → IsSwept w → IsSwept (sweep_one c w)
  unfolding sweep_one IsSwept any IsNamed
  sweep_one-IsSwept c w (g, at_g, user, id) swept x m =
      let (before, other) = files-purge_file_row c.0 c.1 w.db x m in
      let (at_x, unseen) = swept x before in
      (
        at_x,
        elim (Bool-cases (eq_text x.file_id c.1)) [
          | inl same ↦
              let e = keyed.file_ids x g at_x at_g (eq_text→≡ x.file_id c.1 same ∙ sym id) in
              let u : eq_text x.user_id c.0 ≡ true =
                ap (λ t. eq_text t c.0) (ap (λ (r : StoredFile). r.user_id) e ∙ user)
                ∙ eq_text_refl c.0 in
              cc (rw same at (rw u at other))
          | inr differs ↦ rw differs unseen
        ],
      )

  -- What was seen stays seen.
  seen-sweep :
      (cs : List PurgeCandidate) (w : Sweep) (i : Text)
      → any (eq_text i) w.seen ≡ true
      → any (eq_text i) (sweep cs w).seen ≡ true
  unfolding sweep sweep_one
  seen-sweep [] w i e = e
  seen-sweep (c ∷ cs) w i e = elim (Bool-cases (any (eq_text c.1) w.seen)) [
    | inl seen ↦ rw (seen, sweep) (seen-sweep cs w i e)
    | inr new ↦ rw (new, sweep) (seen-sweep cs (sweep_one c w) i (more i c.1 w.seen e))
  ]
    where
      more :
          (i j : Text) (ids : List Text)
          → any (eq_text i) ids ≡ true
          → any (eq_text i) (j ∷ ids) ≡ true
      more i j ids e =
          unfold any in elim (Bool-cases (eq_text i j)) [ inl t ↦ rw t refl | inr t ↦ rw t e ]

  sweep-IsSwept :
      (cs : List PurgeCandidate) (w : Sweep)
      → ((c : PurgeCandidate) → Elem c cs → IsNamed c)
      → IsSwept w
      → IsSwept (sweep cs w)
  unfolding sweep
  sweep-IsSwept [] w named swept = swept
  sweep-IsSwept (c ∷ cs) w named swept = elim (Bool-cases (any (eq_text c.1) w.seen)) [
    | inl seen ↦ rw (seen, sweep) (sweep-IsSwept cs w (λ b m. named b (inr m)) swept)
    | inr new ↦
        rw (new, sweep)
          (sweep-IsSwept cs (sweep_one c w) (λ b m. named b (inr m))
            (sweep_one-IsSwept c w (named c (inl refl)) swept))
  ]

  -- Every candidate is seen.
  candidate_seen :
      (cs : List PurgeCandidate) (w : Sweep) (c : PurgeCandidate)
      → Elem c cs
      → any (eq_text c.1) (sweep cs w).seen ≡ true
  unfolding sweep sweep_one
  candidate_seen [] w c m = absurd m
  candidate_seen (b ∷ cs) w c m = elim m [
    | inl e ↦ elim (Bool-cases (any (eq_text b.1) w.seen)) [
      | inl seen ↦
          rw (seen, sweep)
            (seen-sweep cs w c.1 (ap (λ (t : PurgeCandidate). any (eq_text t.1) w.seen) e ∙ seen))
      | inr new ↦
          rw (new, sweep)
            (seen-sweep cs (sweep_one b w) c.1 (
              unfold any in
              rw (ap (λ (t : PurgeCandidate). eq_text c.1 t.1) (sym e) ∙ eq_text_refl c.1) refl))
    ]
    | inr m' ↦ candidate_seen cs _ c m'
  ]

-- The file of a candidate is not found after a sweep.
pub get_file-candidate :
    (root : PathBuf) (refused : Text → Bool) (ago ago' : ℕ → Text) (policy : RetentionPolicy)
    (d : Db) (store : Files) (c : PurgeCandidate)
    → IsKeyed d
    → Elem c (candidates ago ago' policy d)
    → get_file c.0 c.1 (purge_retired root refused ago ago' policy d store).1.0 ≡ none
unfolding purge_retired IsSwept
get_file-candidate root refused ago ago' policy d store c keyed m =
    let start : Sweep = record { seen = []; freed = []; frags = []; files = 0; db = d } in
    let cs = candidates ago ago' policy d in
    let swept =
      sweep-IsSwept d keyed cs start (candidates-IsNamed d keyed ago ago' policy)
        (λ x h. (h, unfold any in refl)) in
    get_file-none c.0 c.1 (sweep cs start).db (λ x at_x. elim (Bool-cases (is_row c.0 c.1 x)) [
      | inl row ↦
          let (_, unseen) = swept x at_x in
          let seen = candidate_seen d keyed cs start c m in
          let clash =
            sym (ap (λ t. any (eq_text t) (sweep cs start).seen) ((is_row→≡ c.0 c.1 x row).1)) in
          cc
      | inr other ↦ other
    ])
