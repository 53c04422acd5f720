-- ===== src/App/Config/Atoi.antt =====
-- The numbers of src/app/config.cpp: what `std::atoi` and `std::to_string` of the C++ library do
-- with an `int` of 32 bits, `long` having 64.
use fmesh_cli.Common.{
  ℕ, zero, suc, ◌+◌, ◌-◌, ◌*◌, ◌/◌, ◌%◌, ◌^◌, ◌≤◌, ◌<◌, min, ◌≡◌, refl, sym, ap, ◌∙◌, Bool, true,
  false, ◌&&◌, ◌||◌, [], ◌∷◌, Bytes, ltb, leb, ◌==◌, if◌then◌else◌, arith, Bool-cases, inl, inr,
  ltb→lt, ltb_false→le, lt→ltb,
}

pub data ℤ : Type 0 where
  pos : ℕ → ℤ
  negsuc : ℕ → ℤ

-- `-n`
pub neg : ℕ → ℤ
neg zero = pos 0
neg (suc n) = negsuc n

-- The conversion of a `long` to `int` keeps the low 32 bits; `strtol` stops at the ends of `long`.
unfoldable pub to_int : Bool → ℕ → ℤ
unfolding neg
to_int false n =
    let m = (min n (2 ^ 63 - 1)) % 2 ^ 32 in if ltb m (2 ^ 31) then pos m else neg (2 ^ 32 - m)
to_int true n =
    let m = (min n (2 ^ 63)) % 2 ^ 32 in if leb m (2 ^ 31) then neg m else pos (2 ^ 32 - m)

-- The digits at the front, after the value `n` of those already read.
unfoldable pub digits_value : ℕ → Bytes → ℕ
digits_value n [] = n
digits_value n (c ∷ cs) = elim (leb b'0' c && leb c b'9') [
  | true ↦ digits_value (n * 10 + (c - b'0')) cs
  | false ↦ n
]

-- `isspace` in the C locale, in which the program runs atoi.
abbrev pub is_space : ℕ → Bool
is_space c = c == b' ' || (leb 9 c && leb c 13)

unfoldable pub signed : Bytes → ℤ
unfolding to_int digits_value
signed [] = pos 0
signed (c ∷ cs) =
    if c == b'-'
    then to_int true (digits_value 0 cs)
    else if c == b'+'
    then to_int false (digits_value 0 cs)
    else to_int false (digits_value 0 (c ∷ cs))

unfoldable pub atoi : Bytes → ℤ
unfolding signed
atoi [] = pos 0
atoi (c ∷ cs) = elim (is_space c) [ true ↦ atoi cs | false ↦ signed (c ∷ cs) ]

-- `std::to_string`: the digits of `n` before `acc`; the fuel `n` is enough, see digits_value-print.
unfoldable pub print : ℕ → ℕ → Bytes → Bytes
print zero n acc = (b'0' + n) ∷ acc
print (suc fuel) n acc = elim (ltb n 10) [
  | true ↦ (b'0' + n) ∷ acc
  | false ↦ print fuel (n / 10) ((b'0' + n % 10) ∷ acc)
]

unfoldable pub to_string : ℤ → Bytes
unfolding print
to_string (pos n) = print n n []
to_string (negsuc n) = b'-' ∷ print (suc n) (suc n) []

digit_step :
    (v d : ℕ) (acc : Bytes)
    → d < 10
    → digits_value v ((b'0' + d) ∷ acc) ≡ digits_value (v * 10 + d) acc
unfolding digits_value
digit_step v d acc h = ground (arith, ap (λ m. digits_value (v * 10 + m) acc) show_d)
  where
    show_d : b'0' + d - b'0' ≡ d
    show_d = omega arith

pub digits_value-print :
    (fuel n : ℕ) (acc : Bytes) → n ≤ fuel → digits_value 0 (print fuel n acc) ≡ digits_value n acc
unfolding print
digits_value-print zero n acc h =
    digit_step 0 n acc (omega arith) ∙ ap (λ m. digits_value m acc) (omega arith)
digits_value-print (suc fuel) n acc h = elim (Bool-cases (ltb n 10)) [
  | inl e ↦
      rw (e, print)
        (digit_step 0 n acc (ltb→lt n 10 e) ∙ ap (λ m. digits_value m acc) (omega arith))
  | inr e ↦
      rw (e, print)
        (digits_value-print fuel (n / 10) ((b'0' + n % 10) ∷ acc)
            (omega (arith, h, ltb_false→le n 10 e))
          ∙ digit_step (n / 10) (n % 10) acc (omega arith)
          ∙ ap (λ m. digits_value m acc) joined)
]
  where
    joined : n / 10 * 10 + n % 10 ≡ n
    joined = omega arith

-- The first digit.
pub print-head :
    (fuel n : ℕ) (acc : Bytes)
    → n ≤ fuel
    → (c : ℕ) × (rest : Bytes) × (print fuel n acc ≡ c ∷ rest) × (b'0' ≤ c) × (c ≤ b'9')
unfolding print
print-head zero n acc h = (b'0' + n, acc, refl, omega arith, omega arith)
print-head (suc fuel) n acc h = elim (Bool-cases (ltb n 10)) [
  | inl e ↦ rw (e, print) ((b'0' + n, acc, refl, omega arith, omega (arith, ltb→lt n 10 e)))
  | inr e ↦
      rw (e, print)
        (print-head fuel (n / 10) ((b'0' + n % 10) ∷ acc) (omega (arith, h, ltb_false→le n 10 e)))
]

to_int_small : (n : ℕ) → n < 2 ^ 31 → to_int false n ≡ pos n
unfolding to_int
to_int_small n h = rw (reduced, lt→ltb n (2 ^ 31) h) refl
  where
    reduced : (min n (2 ^ 63 - 1)) % 2 ^ 32 ≡ n
    reduced = omega arith

atoi_digit :
    (c : ℕ) (rest : Bytes) (n : ℕ)
    → b'0' ≤ c
    → c ≤ b'9'
    → n < 2 ^ 31
    → digits_value 0 (c ∷ rest) ≡ n
    → atoi (c ∷ rest) ≡ pos n
unfolding atoi signed
atoi_digit c rest n ge le h e = ground (arith, to_int_small n h)

-- A number that an `int` holds is read back.
pub atoi-to_string : (n : ℕ) → n < 2 ^ 31 → atoi (to_string (pos n)) ≡ pos n
unfolding to_string digits_value
atoi-to_string n h =
    let (c, rest, e, ge, le) = print-head n n [] (omega arith) in
    rw e (atoi_digit c rest n ge le h (rw (sym e) (digits_value-print n n [] (omega arith))))
