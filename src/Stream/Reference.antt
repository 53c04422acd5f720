-- ===== src/Stream/Reference.antt =====
-- What the framing means: a decoder that reads one byte at a time and keeps no buffer.
use fmesh_cli.Common.{
  ℕ, zero, suc, ◌+◌, ◌*◌, ◌≤◌, ◌++◌, ◌≡◌, refl, List, [], ◌∷◌, none, some, Bytes, length, drop,
  ◌==◌, if◌then◌else◌, index_of, arith, append_assoc, ◌∙◌,
}
use fmesh_cli.Stream.{start1, is_start2}

-- `body t n got` waits for n + 1 more payload bytes.
pub data Rx : Type 0 where
  idle marker : Rx
  len_hi : ℕ → Rx
  len_lo : ℕ → ℕ → Rx
  body : ℕ → ℕ → Bytes → Rx

module _ {E : Type 0} (deliver : ℕ → Bytes → List E) where
  -- With both length bytes known: an empty payload is complete.
  abbrev pub rx_sized : ℕ → ℕ → List E × Rx
  rx_sized t zero = (deliver t [], idle)
  rx_sized t (suc n) = ([], body t n [])

  abbrev pub rx_byte : Rx → ℕ → List E × Rx
  rx_byte idle b = ([], (if b == start1 then marker else idle))
  rx_byte marker b = ([], (if is_start2 b then len_hi b else if b == start1 then marker else idle))
  rx_byte (len_hi t) b = ([], len_lo t (b * 256))
  rx_byte (len_lo t high) b = rx_sized t (high + b)
  rx_byte (body t zero got) b = (deliver t (got ++ (b ∷ [])), idle)
  rx_byte (body t (suc n) got) b = ([], body t n (got ++ (b ∷ [])))

  unfoldable pub decode : Rx → Bytes → List E
  decode s [] = []
  decode s (b ∷ bs) = (rx_byte s b).0 ++ decode (rx_byte s b).1 bs

  -- Bytes before the first START1 are noise.
  pub decode-skip :
      (buf rest : Bytes) (pos : ℕ)
      → index_of start1 buf ≡ some pos
      → decode idle (buf ++ rest) ≡ decode idle (drop pos buf ++ rest)
  unfolding decode index_of
  decode-skip [] rest pos h = cc
  decode-skip (x ∷ buf) rest zero h = refl
  decode-skip (x ∷ buf) rest (suc pos) h = ground (arith, decode-skip buf rest pos)

  pub decode-noise :
      (n : ℕ) (buf rest : Bytes)
      → index_of start1 buf ≡ none
      → decode idle (buf ++ rest) ≡ decode idle (drop n buf ++ rest)
  unfolding decode index_of
  decode-noise zero buf rest h = refl
  decode-noise (suc n) [] rest h = refl
  decode-noise (suc n) (x ∷ buf) rest h = ground (arith, decode-noise n buf rest)

  pub decode-none : (buf : Bytes) → index_of start1 buf ≡ none → decode idle buf ≡ []
  unfolding decode index_of
  decode-none [] h = refl
  decode-none (x ∷ buf) h = ground (arith, decode-none buf)

  -- A payload of n + 1 bytes, then what follows.
  pub decode-body :
      (t : ℕ) (got xs rest : Bytes) (n : ℕ)
      → length xs ≡ suc n
      → decode (body t n got) (xs ++ rest) ≡ deliver t (got ++ xs) ++ decode idle rest
  unfolding decode
  decode-body t got [] rest n h = absurd (omega arith)
  decode-body t got (x ∷ []) rest zero h = refl
  decode-body t got (x ∷ []) rest (suc n) h = absurd (omega arith)
  decode-body t got (x ∷ y ∷ xs) rest zero h = absurd (omega arith)
  decode-body t got (x ∷ y ∷ xs) rest (suc n) h =
      decode-body t (got ++ (x ∷ [])) (y ∷ xs) rest n (omega arith)
      ∙ rw (append_assoc got (x ∷ []) (y ∷ xs))

  -- A payload cut short delivers nothing.
  pub decode-partial :
      (t : ℕ) (got xs : Bytes) (n : ℕ) → length xs ≤ n → decode (body t n got) xs ≡ []
  unfolding decode
  decode-partial t got [] n h = refl
  decode-partial t got (x ∷ xs) zero h = absurd (omega arith)
  decode-partial t got (x ∷ xs) (suc n) h = decode-partial t (got ++ (x ∷ [])) xs n (omega arith)
