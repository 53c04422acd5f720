-- ===== src/Util/Compression/Laws.antt =====
-- The limit on what is decompressed, and the round trip through the frame type.
use fmesh_cli.Common.{
  ℕ, zero, suc, ◌+◌, ◌-◌, ◌≤◌, ◌<◌, ◌++◌, ◌≡◌, refl, ◌≢◌, ◌⊎◌, inl, inr, Bool, [], ◌∷◌, Option,
  none, some, Bytes, length, length-append, length-drop, drop, ltb, arith, Bool-cases, ltb→lt,
  Option-cases, le→ltb_false,
}
use fmesh_cli.Util.Compression.{
  FrameSize, invalid, unknown, known, StreamCall, failed, wrote, Zstd, chunk_size, compress,
  decompress, decompress_frame, decompress_known, from_context, stream_loop, after_call, smaller,
  compress_adaptive, rounds,
}

module _ {Ctx : Type 0} (z : Zstd Ctx) where
  -- A call of ZSTD_decompressStream takes input or writes output.
  pub record Progresses : Type 0 where
    pub moves :
        (ctx : Ctx) (input bytes : Bytes) (taken : ℕ) (done : Bool) (ctx' : Ctx)
        → z.stream chunk_size ctx input ≡ wrote bytes taken done ctx'
        → 1 ≤ taken + length bytes

  -- ZSTD_decompress writes within the capacity that it is given.
  pub record Bounded : Type 0 where
    pub within :
        (capacity : ℕ) (src out : Bytes)
        → z.decompress capacity src ≡ some out
        → length out ≤ capacity

  -- A frame of ZSTD_compress is not empty, tells the size of its content and decompresses to it.
  pub record Lossless : Type 0 where
    pub restores :
        (level : ℕ) (src c : Bytes)
        → z.compress (z.bound (length src)) level src ≡ some c
        → (c ≢ [])
          × (z.frame_size c ≡ known (length src))
          × (z.decompress (length src) c ≡ some src)

  after_call-le :
      (call : StreamCall Ctx) (limit : ℕ) (input out : Bytes)
      (loop : Ctx → Bytes → Bytes → Option Bytes) {res : Bytes}
      → ((ctx : Ctx) (input out : Bytes)
          → length out ≤ limit
          → loop ctx input out ≡ some res
          → length res ≤ limit)
      → after_call z call limit input out loop ≡ some res
      → length res ≤ limit
  unfolding after_call
  after_call-le failed limit input out loop ih e = cc
  after_call-le (wrote bytes taken done ctx) limit input out loop ih e =
      ground (arith, length-append out bytes, ih ctx (drop taken input) (out ++ bytes))

  stream_loop-le :
      (fuel limit : ℕ) (ctx : Ctx) (input out : Bytes) {res : Bytes}
      → length out ≤ limit
      → stream_loop z fuel limit ctx input out ≡ some res
      → length res ≤ limit
  unfolding stream_loop
  stream_loop-le zero limit ctx input out h e = cc
  stream_loop-le (suc fuel) limit ctx [] out h e = ground arith
  stream_loop-le (suc fuel) limit ctx (b ∷ input) out h e =
      after_call-le (z.stream chunk_size ctx (b ∷ input)) limit (b ∷ input) out
        (stream_loop z fuel limit) (λ c i o. stream_loop-le fuel limit c i o) e

  known-le :
      Bounded
      → (size limit : ℕ) (src : Bytes) {out : Bytes} → decompress_known z size limit src ≡ some out
      → length out ≤ limit
  unfolding decompress_known
  known-le bd size limit src {out} e = ground (arith, bd.within size src out)

  opened-le :
      (opened : Option Ctx) (limit : ℕ) (src : Bytes) {out : Bytes}
      → from_context z opened limit src ≡ some out
      → length out ≤ limit
  unfolding from_context
  opened-le none limit src e = cc
  opened-le (some ctx) limit src e =
      stream_loop-le (rounds limit src) limit ctx src [] (omega arith) e

  after_call-cong :
      (call : StreamCall Ctx) (limit : ℕ) (input out : Bytes)
      (loop loop' : Ctx → Bytes → Bytes → Option Bytes)
      → ((bytes : Bytes) (taken : ℕ) (done : Bool) (ctx : Ctx)
          → call ≡ wrote bytes taken done ctx
          → length out + length bytes ≤ limit
          → loop ctx (drop taken input) (out ++ bytes)
            ≡ loop' ctx (drop taken input) (out ++ bytes))
      → after_call z call limit input out loop ≡ after_call z call limit input out loop'
  unfolding after_call
  after_call-cong failed limit input out loop loop' e = refl
  after_call-cong (wrote bytes taken done ctx) limit input out loop loop' e =
      ground (arith, e bytes taken done ctx refl)

  -- The streaming loop ends: with fuel for each byte of input and of room, more changes nothing.
  pub stream_loop-enough :
      Progresses
      → (fuel limit : ℕ) (ctx : Ctx) (input out : Bytes) → length out ≤ limit
      → length input + (limit - length out) < fuel
      → stream_loop z fuel limit ctx input out ≡ stream_loop z (suc fuel) limit ctx input out
  unfolding stream_loop
  stream_loop-enough pr zero limit ctx input out h lt = absurd (omega arith)
  stream_loop-enough pr (suc fuel) limit ctx [] out h lt = refl
  stream_loop-enough pr (suc fuel) limit ctx (b ∷ input) out h lt =
      after_call-cong (z.stream chunk_size ctx (b ∷ input)) limit (b ∷ input) out
        (stream_loop z fuel limit) (stream_loop z (suc fuel) limit)
        (λ bytes taken done ctx' e le.
          stream_loop-enough pr fuel limit ctx' (drop taken (b ∷ input)) (out ++ bytes)
            (omega (arith, length-append out bytes))
            (omega (
              arith,
              length-append out bytes,
              length-drop taken (b ∷ input),
              pr.moves ctx (b ∷ input) bytes taken done ctx' e,
            )))

  frame-le :
      Bounded
      → (size : FrameSize) (limit : ℕ) (src : Bytes) {out : Bytes}
      → decompress_frame z size limit src ≡ some out
      → length out ≤ limit
  unfolding decompress_frame
  frame-le bd invalid limit src e = cc
  frame-le bd (known size) limit src {out} e = known-le bd size limit src e
  frame-le bd unknown limit src e = opened-le z.create limit src e

  -- No call of `decompress` returns more than its limit, whatever bytes it is given.
  pub decompress-le :
      Bounded
      → (src : Bytes) (limit : ℕ) {out : Bytes} → decompress z src limit ≡ some out
      → length out ≤ limit
  unfolding decompress
  decompress-le bd [] limit e = ground arith
  decompress-le bd (b ∷ bs) limit e = frame-le bd (z.frame_size (b ∷ bs)) limit (b ∷ bs) e

  decompress_lem :
      (c : Bytes) (limit : ℕ)
      → c ≢ []
      → decompress z c limit ≡ decompress_frame z (z.frame_size c) limit c
  unfolding decompress
  decompress_lem [] limit ne = absurd (ne refl)
  decompress_lem (b ∷ bs) limit ne = refl

  decompress_restored :
      (src c : Bytes) (limit : ℕ)
      → length src ≤ limit
      → (c ≢ []) × (z.frame_size c ≡ known (length src)) × (z.decompress (length src) c ≡ some src)
      → decompress z c limit ≡ some src
  unfolding decompress_frame decompress_known
  decompress_restored src c limit h (ne, size, content) =
      rw (decompress_lem c limit ne, size, le→ltb_false limit (length src) h, content)

  abbrev Restores : Bytes → (raw comp limit : ℕ) → Bytes × ℕ → Type 0
  Restores src raw comp limit (sent, kind) =
      ((kind ≡ raw) × (sent ≡ src))
      ⊎ ((kind ≡ comp) × (decompress z sent limit ≡ some src) × (length sent < length src))

  whole-Restores :
      Lossless
      → (src : Bytes) (raw comp level limit : ℕ) → length src ≤ limit
      → Restores src raw comp limit (smaller z (compress z src level) src raw comp)
  unfolding compress smaller
  whole-Restores ll [] raw comp level limit h = inl (refl, refl)
  whole-Restores ll (b ∷ bs) raw comp level limit h =
      let src : Bytes = b ∷ bs in
      elim (Option-cases (z.compress (z.bound (length src)) level src)) [
        | inl error ↦ rw (error, smaller) (inl (refl, refl))
        | inr (c, e) ↦ elim (Bool-cases (ltb (length c) (length src))) [
          | inl less ↦
              rw (e, smaller, less)
                (inr (
                  refl,
                  decompress_restored src c limit h (ll.restores level src c e),
                  ltb→lt (length c) (length src) less,
                ))
          | inr more ↦ rw (e, smaller, more) (inl (refl, refl))
        ]
      ]

  -- A receiver that decompresses the frames of type `comp` gets back what was sent.
  pub compress_adaptive-restores :
      Lossless
      → (src : Bytes) (raw comp min_size level limit : ℕ) → length src ≤ limit
      → let (sent, kind) = compress_adaptive z src raw comp min_size level in
        ((kind ≡ raw) × (sent ≡ src))
        ⊎ ((kind ≡ comp) × (decompress z sent limit ≡ some src) × (length sent < length src))
  unfolding compress_adaptive
  compress_adaptive-restores ll src raw comp min_size level limit h =
      elim (Bool-cases (ltb (length src) min_size)) [
        | inl short ↦ rw short (inl (refl, refl))
        | inr long ↦ rw long (whole-Restores ll src raw comp level limit h)
      ]
