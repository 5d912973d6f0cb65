-- ===== src/Store/Service/Trash/RoundTrip.antt =====
-- store/src/service.rs: a file comes back from the trash as it was.
use p2pnas.Prelude.{◌≡◌, ◌≢◌, ◌&&◌, [], none, if◌then◌else◌}
use p2pnas.Prelude.Select.{Elem}
use p2pnas.Store.Manifest.{Text}
use p2pnas.Store.Manifest.Texts.{trim}
use p2pnas.Store.Manifest.Db.{StoredFile, Db, is_none, is_row}
use p2pnas.Store.Manifest.Retire.{deleted, retire}
use p2pnas.Store.Manifest.Keys.{IsKeyed}

-- A file as the user sees it, at a path without slashes around it.
pub record IsCurrent (f : StoredFile) : Type 0 where
  pub kept : f.deleted_at ≡ none
  pub current : f.superseded_at ≡ none
  pub never_retired : f.retired_path ≡ none
  pub trimmed : trim f.path ≡ f.path
  pub named : f.path ≢ []

module _ (now : Text) (d : Db) (keyed : IsKeyed d) (f : StoredFile) (at_f : Elem f d.files)
    (cur : IsCurrent f) where
  -- The change of a row by `trash`.
  trashed : StoredFile → StoredFile
  unfolding retire
  trashed x =
      if is_row f.user_id f.file_id x && is_none x.deleted_at then retire deleted now x else x
