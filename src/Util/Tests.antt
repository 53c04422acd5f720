-- ===== src/Util/Tests.antt =====
-- A compressor that has the properties of zstd that are relied on, and runs of src/util/.
use fmesh_cli.Common.{
  ℕ, zero, suc, ◌+◌, ◌≤◌, ◌<◌, ◌++◌, ◌≡◌, ◌≢◌, ◌⊎◌, refl, ap, subst, Bool, true, false, ◌&&◌, List,
  [], ◌∷◌, Option, none, some, Bytes, length, leb, ◌==◌, if◌then◌else◌, arith, Bool-cases, inl, inr,
  le→leb,
}
use fmesh_cli.Util.Compression.{
  FrameSize, invalid, known, StreamCall, failed, wrote, Zstd, decompress, stream_loop,
  compress_adaptive,
}
use fmesh_cli.Util.Compression.Laws.{
  Progresses, Bounded, Lossless, decompress-le, stream_loop-enough, compress_adaptive-restores,
}
use fmesh_cli.Util.Queue.{Op, put, pop, drain, run, pushes, run-fifo}

abbrev pub run_of : ℕ → ℕ → Bytes
run_of zero b = []
run_of (suc n) b = b ∷ run_of n b

abbrev all_are : ℕ → Bytes → Bool
all_are b [] = true
all_are b (c ∷ cs) = c == b && all_are b cs

-- The length, and one byte for a text of equal bytes.
abbrev pub packed : Bytes → Bytes
packed [] = 0 ∷ []
packed (b ∷ bs) = if all_are b bs then suc (length bs) ∷ b ∷ [] else suc (length bs) ∷ b ∷ bs

abbrev pub unpacked : Bytes → Bytes
unpacked [] = []
unpacked (n ∷ []) = []
unpacked (n ∷ b ∷ []) = run_of n b
unpacked (n ∷ b ∷ c ∷ bs) = b ∷ c ∷ bs

abbrev pub size_of : Bytes → FrameSize
size_of [] = invalid
size_of (n ∷ bs) = known n

abbrev pub one_byte : Unit {0} → Bytes → StreamCall (Unit {0})
one_byte ctx [] = failed
one_byte ctx (b ∷ bs) = wrote (b ∷ []) 1 false ctx

abbrev pub toy : Zstd (Unit {0})
toy = record {
  bound = λ n. n + 1;
  compress = λ capacity level src. some (packed src);
  frame_size = size_of;
  decompress =
      λ capacity src. (if leb (length (unpacked src)) capacity then some (unpacked src) else none);
  create = some tt;
  stream = λ capacity. one_byte;
}

all_are_run : (b : ℕ) (bs : Bytes) → all_are b bs ≡ true → run_of (length bs) b ≡ bs
all_are_run b [] h = refl
all_are_run b (c ∷ cs) h = ground (arith, all_are_run b cs)

unpacked-packed : (src : Bytes) → unpacked (packed src) ≡ src
unpacked-packed [] = refl
unpacked-packed (b ∷ []) = refl
unpacked-packed (b ∷ c ∷ bs) = elim (Bool-cases (all_are b (c ∷ bs))) [
  | inl e ↦ rw e (ap (b ∷◌) (all_are_run b (c ∷ bs) e))
  | inr e ↦ rw e refl
]

size_of-packed : (src : Bytes) → size_of (packed src) ≡ known (length src)
size_of-packed [] = refl
size_of-packed (b ∷ bs) = ground arith

packed-nonempty : (src : Bytes) → packed src ≢ []
packed-nonempty [] e = cc
packed-nonempty (b ∷ bs) e = ground arith

toy_restored : (src : Bytes) → toy.decompress (length src) (packed src) ≡ some src
toy_restored src = rw (unpacked-packed src, le→leb (length src) (length src) (omega arith)) refl

value_of : Option Bytes → Bytes
value_of none = []
value_of (some c) = c

pub toy-Lossless : Lossless toy
unfolding value_of
toy-Lossless = record {
  restores = λ level src c e.
      subst
        (λ c.
          (c ≢ []) × (size_of c ≡ known (length src)) × (toy.decompress (length src) c ≡ some src))
        (ap value_of e) (packed-nonempty src, size_of-packed src, toy_restored src);
}

toy-Bounded : Bounded toy
toy-Bounded = record { within = λ capacity src out e. ground arith }

one_byte-moves :
    (ctx : Unit {0}) (input bytes : Bytes) (taken : ℕ) (done : Bool) (ctx' : Unit {0})
    → one_byte ctx input ≡ wrote bytes taken done ctx'
    → 1 ≤ taken + length bytes
one_byte-moves ctx [] bytes taken done ctx' e = cc
one_byte-moves ctx (b ∷ bs) bytes taken done ctx' e = ground arith

toy-Progresses : Progresses toy
toy-Progresses = record { moves = one_byte-moves }

ten_equal : decompress toy (10 ∷ 7 ∷ []) 10 ≡ some (run_of 10 7)
unfolding decompress
ten_equal = refl

decompress-le_example : length (run_of 10 7) ≤ 10
decompress-le_example = decompress-le toy toy-Bounded (10 ∷ 7 ∷ []) 10 ten_equal

stream_loop-enough_example :
    stream_loop toy 20 4 tt (1 ∷ 2 ∷ 3 ∷ []) [] ≡ stream_loop toy 21 4 tt (1 ∷ 2 ∷ 3 ∷ []) []
stream_loop-enough_example =
    stream_loop-enough toy toy-Progresses 20 4 tt (1 ∷ 2 ∷ 3 ∷ []) [] (omega arith) (omega arith)

compress_adaptive-restores_example :
    let (sent, kind) = compress_adaptive toy (run_of 70 b'a') 0xD0 0xD1 64 3 in
    ((kind ≡ 0xD0) × (sent ≡ run_of 70 b'a'))
    ⊎ ((kind ≡ 0xD1)
        × (decompress toy sent 100 ≡ some (run_of 70 b'a'))
        × (length sent < length (run_of 70 b'a')))
compress_adaptive-restores_example =
    compress_adaptive-restores toy toy-Lossless (run_of 70 b'a') 0xD0 0xD1 64 3 100 (omega arith)

abbrev three_threads : List (Op ℕ)
three_threads = put 1 ∷ put 2 ∷ pop ∷ put 3 ∷ drain ∷ pop ∷ put 4 ∷ []

run-fifo_example :
    let (left, outs) = run three_threads (0 ∷ []) in outs ++ left ≡ 0 ∷ pushes three_threads
run-fifo_example = run-fifo three_threads (0 ∷ [])
