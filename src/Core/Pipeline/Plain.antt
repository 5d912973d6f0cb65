-- ===== src/Core/Pipeline/Plain.antt =====
-- core/src/pipeline.rs: packages that meet their laws, for examples.
use p2pnas.Prelude.{◌≡◌, Bool, true, false, Option, some}
use p2pnas.Prelude.Int.{pos}
use p2pnas.Core.Bytes.{Bytes}
use p2pnas.Core.Chunker.{Floats, Zstd, IsCodec}
use p2pnas.Core.Crypto.Framed.{framed}
use p2pnas.Core.Erasure.Copies.{copies}
use p2pnas.Core.Pipeline.{Tools, PipelineConfig}

-- A codec that changes nothing, and an entropy that is never high.
abbrev pub plain_codec : Zstd
plain_codec = record { encode_all = λ xs level. some xs; decode_all = λ xs. some xs }

pub plain_codec-IsCodec : IsCodec plain_codec
plain_codec-IsCodec = record { decode_encode = λ xs level c e. e' xs c e }
  where
    e' :
        (xs c : Bytes)
        → ◌≡◌ {A = Option Bytes} (some xs) (some c)
        → ◌≡◌ {A = Option Bytes} (some c) (some xs)
    e' xs c e = cc

abbrev pub low : Floats Bool
low = record {
  zero_point = false;
  of_usize = λ n. false;
  sub = λ a b. a;
  mul = λ a b. a;
  div = λ a b. a;
  log2 = λ a. a;
  ge = λ a b. a;
}

abbrev pub tools : Tools Bool
tools = record { prim = framed; code = copies; zstd = plain_codec; floats = low }

abbrev pub config : PipelineConfig Bool
config = record { chunk_size = 2; entropy_skip = true; zstd_level = pos 3 }
