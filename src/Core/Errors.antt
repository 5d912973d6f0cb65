-- ===== src/Core/Errors.antt =====
-- core/src/error.rs: the errors of the crate. Their texts are the source's where it writes them out.
use Prim.Native.String.{String}
use p2pnas.Prelude.Results.{Result}

pub data CoreError : Type 0 where
  crypto : String → CoreError
  compression : String → CoreError
  erasure : String → CoreError
  io : String → CoreError

abbrev pub CoreResult {ℓ} : Type ℓ → Type ℓ
CoreResult A = Result CoreError A
