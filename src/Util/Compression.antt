-- ===== src/Util/Compression.antt =====
-- src/util/compression.cpp and compression.h. zstd itself is a parameter, with what its manual says
-- of the calls that the code makes.
pub mod Laws
use fmesh_cli.Common.{
  ℕ, zero, suc, ◌+◌, ◌*◌, ◌≤◌, ◌<◌, ◌++◌, ◌≡◌, ◌≢◌, Bool, List, [], ◌∷◌, Option, none, some, Bytes,
  length, drop, ltb, leb, if◌then◌else◌,
}

-- ZSTD_getFrameContentSize
pub data FrameSize : Type 0 where
  invalid unknown : FrameSize
  known : ℕ → FrameSize

-- One call of ZSTD_decompressStream: an error, or what it wrote, the bytes of input that it took,
-- whether the frame is complete, and the stream's next state.
pub data StreamCall (Ctx : Type 0) : Type 0 where
  failed : StreamCall Ctx
  wrote : Bytes → ℕ → Bool → Ctx → StreamCall Ctx

-- The functions of zstd that the code calls; `none` is an error code.
pub record Zstd (Ctx : Type 0) : Type 0 where
  pub bound : ℕ → ℕ
  pub compress : (capacity level : ℕ) → Bytes → Option Bytes
  pub frame_size : Bytes → FrameSize
  pub decompress : (capacity : ℕ) → Bytes → Option Bytes
  pub create : Option Ctx
  pub stream : (capacity : ℕ) → Ctx → Bytes → StreamCall Ctx

abbrev pub min_compress_size : ℕ
min_compress_size = 64

abbrev pub max_decompressed_size : ℕ
max_decompressed_size = 10 * 1024 * 1024

abbrev pub default_level : ℕ
default_level = 3

abbrev pub chunk_size : ℕ
chunk_size = 8192

-- Each round takes input or writes output, up to the limit.
abbrev pub rounds : ℕ → Bytes → ℕ
rounds limit src = length src + limit + 1

module _ {Ctx : Type 0} (z : Zstd Ctx) where
  pub compress : Bytes → ℕ → Option Bytes
  compress [] level = some []
  compress (b ∷ bs) level = z.compress (z.bound (length (b ∷ bs))) level (b ∷ bs)

  -- A frame whose header tells its size.
  decompress_known : ℕ → ℕ → Bytes → Option Bytes
  decompress_known size limit src = if ltb limit size then none else z.decompress size src

  -- What follows one call of the streaming loop.
  after_call :
      StreamCall Ctx → ℕ → Bytes → Bytes → (Ctx → Bytes → Bytes → Option Bytes) → Option Bytes
  after_call failed limit input out loop = none
  after_call (wrote bytes taken done ctx) limit input out loop =
      let rest = loop ctx (drop taken input) (out ++ bytes) in
      if ltb limit (length out + length bytes)
      then none
      else if done
      then some (out ++ bytes)
      else rest

  -- The streaming loop over the input that is left. Fuel stands for its rounds.
  pub stream_loop : ℕ → ℕ → Ctx → Bytes → Bytes → Option Bytes
  unfolding after_call
  stream_loop zero limit ctx input out = none
  stream_loop (suc fuel) limit ctx [] out = some out
  stream_loop (suc fuel) limit ctx (b ∷ input) out =
      after_call (z.stream chunk_size ctx (b ∷ input)) limit (b ∷ input) out
        (stream_loop fuel limit)

  -- The streaming decompression, once ZSTD_createDCtx has answered.
  from_context : Option Ctx → ℕ → Bytes → Option Bytes
  unfolding stream_loop
  from_context none limit src = none
  from_context (some ctx) limit src = stream_loop (rounds limit src) limit ctx src []

  decompress_frame : FrameSize → ℕ → Bytes → Option Bytes
  unfolding decompress_known from_context
  decompress_frame invalid limit src = none
  decompress_frame (known size) limit src = decompress_known size limit src
  decompress_frame unknown limit src = from_context z.create limit src

  unfoldable pub decompress : Bytes → ℕ → Option Bytes
  unfolding decompress_frame
  decompress [] limit = some []
  decompress (b ∷ bs) limit = decompress_frame (z.frame_size (b ∷ bs)) limit (b ∷ bs)

  smaller : Option Bytes → Bytes → (raw comp : ℕ) → Bytes × ℕ
  smaller none src raw comp = (src, raw)
  smaller (some c) src raw comp = if ltb (length c) (length src) then (c, comp) else (src, raw)

  -- The bytes to send, and their frame type.
  unfoldable pub compress_adaptive : Bytes → (raw comp min_size level : ℕ) → Bytes × ℕ
  unfolding compress smaller
  compress_adaptive src raw comp min_size level =
      if ltb (length src) min_size then (src, raw) else smaller (compress src level) src raw comp
