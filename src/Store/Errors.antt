-- ===== src/Store/Errors.antt =====
-- store/src/error.rs: the errors of the crate, and the results that its `?` turns into them.
use Prim.Native.String.{String}
use p2pnas.Prelude.Results.{Result, ok, err, panic}
use p2pnas.Core.Errors.{CoreError, CoreResult}

pub data StoreError : Type 0 where
  sqlite : StoreError
  io : StoreError
  core : CoreError → StoreError
  not_found : StoreError
  integrity : String → StoreError
  invalid_fragment_id : StoreError

abbrev pub StoreResult {ℓ} : Type ℓ → Type ℓ
StoreResult A = Result StoreError A

-- `#[from]` of the errors of the crate `core`.
abbrev pub from_core {ℓ} : {A : Type ℓ} → CoreResult A → StoreResult A
from_core (ok a) = ok a
from_core (err e) = err (core e)
from_core panic = panic
