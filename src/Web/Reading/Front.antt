-- ===== src/Web/Reading/Front.antt =====
-- What std::string::find and substr find in the front of a text, for the reads of
-- src/web/http_server.cpp.
use fmesh_cli.Common.{
  ℕ, zero, suc, ◌+◌, ◌≤◌, ◌≡◌, refl, ap, true, ◌&&◌, [], ◌∷◌, ◌++◌, some, Bytes, length, take, ◌==◌,
  arith, Bool-cases, Option-cases, inl, inr,
}
use fmesh_cli.Tui.Window.{find, is_prefix}

is_prefix-append :
    (p a b : Bytes) → is_prefix p a ≡ true → (is_prefix p (a ++ b) ≡ true) × (length p ≤ length a)
unfolding is_prefix
is_prefix-append [] a b h = (refl, omega arith)
is_prefix-append (x ∷ p) [] b h = cc
is_prefix-append (x ∷ p) (y ∷ a) b h =
    let (e, lt) = is_prefix-append p a b (ground arith) in (ground arith, omega arith)

is_prefix-append_of_le :
    (p a b : Bytes) → length p ≤ length a → is_prefix p (a ++ b) ≡ is_prefix p a
unfolding is_prefix
is_prefix-append_of_le [] a b h = refl
is_prefix-append_of_le (x ∷ p) [] b h = absurd (omega arith)
is_prefix-append_of_le (x ∷ p) (y ∷ a) b h =
    ap (x == y &&◌) (is_prefix-append_of_le p a b (omega arith))

-- What is found in the front of a text is found in the text.
pub find-append :
    (p a b : Bytes) (i : ℕ)
    → find p a ≡ some i
    → (find p (a ++ b) ≡ some i) × (i + length p ≤ length a)
unfolding find
find-append p [] b i h = cc
find-append p (x ∷ a) b i h = elim (Bool-cases (is_prefix p (x ∷ a))) [
  | inl e ↦
      let (e', le) = is_prefix-append p (x ∷ a) b e in
      let z : 0 ≡ i = ground arith in (ground (arith, e'), omega (arith, le))
  | inr e ↦ elim (Option-cases (find p a)) [
    | inl f ↦ absurd (ground arith)
    | inr (j, f) ↦
        let (g, le) = find-append p a b j f in
        let z : suc j ≡ i = ground arith in
        (
          ground (arith, g, is_prefix-append_of_le p (x ∷ a) b (omega (arith, le))),
          omega (arith, le),
        )
  ]
]

pub take-append_of_le : (n : ℕ) (xs ys : Bytes) → n ≤ length xs → take n (xs ++ ys) ≡ take n xs
take-append_of_le zero xs ys h = refl
take-append_of_le (suc n) [] ys h = absurd (omega arith)
take-append_of_le (suc n) (x ∷ xs) ys h = ap (x ∷◌) (take-append_of_le n xs ys (omega arith))
