-- ===== src/Store/Manifest/Keys/Whole.antt =====
-- store/src/manifest.rs: the invariant of the manifest, in every database that the queries make.
use p2pnas.Store.Manifest.Db.{Db}
