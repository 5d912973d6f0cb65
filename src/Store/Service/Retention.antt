-- ===== src/Store/Service/Retention.antt =====
-- store/src/service.rs: the retention sweep, `purge_retired`.
pub mod Freed
pub mod Keeps
pub mod Reclaims
pub mod Rules
pub mod Expired
use p2pnas.Prelude.{ℕ, ◌+◌, min, Bool, true, false, List, [], ◌∷◌, ◌++◌, if◌then◌else◌}
use p2pnas.Prelude.Int.{ℤ, pos, negsuc}
use p2pnas.Prelude.Select.{any}
use p2pnas.Store.Chunkstore.{PathBuf, Files}
use p2pnas.Store.Manifest.{Text}
use p2pnas.Store.Manifest.Texts.{eq_text, le_text}
use p2pnas.Store.Manifest.Db.{Db}
use p2pnas.Store.Manifest.Retire.{
  PurgeCandidate, trashed_before, superseded_before, superseded_beyond, superseded_orphans,
  purge_file_row,
}
use p2pnas.Store.Service.Trash.{RemoteShard, purge_local_collect_remote}

pub record RetentionPolicy : Type 0 where
  pub trash_days : ℤ
  pub version_days : ℤ
  pub keep_versions : ℤ

-- `RetentionPolicy::default`
abbrev pub default : RetentionPolicy
default = record { trash_days = pos 30; version_days = pos 90; keep_versions = pos 3 }

-- `max(0)`
abbrev pub at_least_zero : ℤ → ℕ
at_least_zero (pos n) = n
at_least_zero (negsuc n) = 0

-- `ago n` is the written form of the instant `n` days before the call.
unfoldable pub cutoff : (ℕ → Text) → ℤ → Text
cutoff ago days = ago (min (at_least_zero days) 36_500)

-- User, plaintext and stored bytes, ordered by the user.
abbrev pub FreedPerUser : Type 0
FreedPerUser = Text × ℕ × ℕ

-- `entry(user).or_insert((0, 0))`, and the addition to it.
unfoldable pub give_back : Text → ℕ → ℕ → List FreedPerUser → List FreedPerUser
unfolding eq_text le_text
give_back user_id size stored [] = (user_id, size, stored) ∷ []
give_back user_id size stored ((u, s, t) ∷ freed) =
    let rest = give_back user_id size stored freed in
    if eq_text u user_id
    then (u, s + size, t + stored) ∷ freed
    else if le_text u user_id
    then (u, s, t) ∷ rest
    else (user_id, size, stored) ∷ ((u, s, t) ∷ freed)

-- What the loop of the sweep carries.
pub record Sweep : Type 0 where
  pub seen : List Text
  pub freed : List FreedPerUser
  pub frags : List RemoteShard
  pub files : ℕ
  pub db : Db

-- A candidate that was not seen yet.
unfoldable pub sweep_one : PurgeCandidate → Sweep → Sweep
unfolding purge_file_row give_back
sweep_one (user_id, file_id, size, stored) w =
    let purged = purge_file_row user_id file_id w.db in
    record {
      seen = file_id ∷ w.seen;
      freed = give_back user_id size stored w.freed;
      frags = w.frags ++ purged.0;
      files = w.files + 1;
      db = purged.1;
    }

unfoldable pub sweep : List PurgeCandidate → Sweep → Sweep
unfolding any eq_text sweep_one
sweep [] w = w
sweep (c ∷ cs) w = sweep cs (if any (eq_text c.1) w.seen then w else sweep_one c w)

unfoldable pub candidates : (ℕ → Text) → (ℕ → Text) → RetentionPolicy → Db → List PurgeCandidate
unfolding cutoff trashed_before superseded_before superseded_beyond superseded_orphans
candidates ago ago' policy d =
    trashed_before (cutoff ago policy.trash_days) d
    ++ (superseded_before (cutoff ago' policy.version_days) d
        ++ (superseded_beyond (at_least_zero policy.keep_versions) d ++ superseded_orphans d))

pub record PurgeReport : Type 0 where
  pub files : ℕ
  pub freed : List FreedPerUser
  pub remote : List RemoteShard

-- The clock is read twice.
unfoldable pub purge_retired :
    PathBuf
    → (Text → Bool)
    → (ℕ → Text)
    → (ℕ → Text)
    → RetentionPolicy
    → Db
    → Files
    → PurgeReport × (Db × Files)
unfolding candidates sweep purge_local_collect_remote
purge_retired root refused ago ago' policy d store =
    let w =
      sweep (candidates ago ago' policy d)
        (record { seen = []; freed = []; frags = []; files = 0; db = d }) in
    let (remote, store') = purge_local_collect_remote root refused w.frags store in
    (record { files = w.files; freed = w.freed; remote = remote }, (w.db, store'))
