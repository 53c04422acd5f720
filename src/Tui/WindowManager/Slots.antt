-- ===== src/Tui/WindowManager/Slots.antt =====
-- The keys of the windows in their order, and where a key stands in them, for window_manager.cpp.
use fmesh_cli.Common.{
  ℕ, zero, suc, ◌-◌, ◌≡◌, refl, sym, ap, ◌∙◌, false, List, [], ◌∷◌, ◌++◌, Option, none, some, Bytes,
  length, get_elem?, ltb, ◌=?◌, =?_refl, =?→eq, if◌then◌else◌, arith, lookup_key,
}
use fmesh_cli.Tui.WindowManager.{shift_down}

-- The place of a key.
unfoldable pub slot : Bytes → List Bytes → Option ℕ
slot k [] = none
slot k (x ∷ xs) =
    if k =? x then some 0 else elim (slot k xs) [ none ↦ none | some i ↦ some (suc i) ]

-- No key stands twice.
abbrev pub Distinct : List Bytes → Type 0
Distinct [] = Unit {0}
Distinct (k ∷ ks) = (slot k ks ≡ none) × Distinct ks

unfoldable pub set_at : ℕ → Bytes → List Bytes → List Bytes
set_at i k [] = []
set_at zero k (x ∷ xs) = k ∷ xs
set_at (suc i) k (x ∷ xs) = x ∷ set_at i k xs

unfoldable pub remove_at : ℕ → List Bytes → List Bytes
remove_at i [] = []
remove_at zero (x ∷ xs) = xs
remove_at (suc i) (x ∷ xs) = x ∷ remove_at i xs

-- The number of the window at a place, and the place when the window at `i` is gone.
unfoldable pub numbered : Option ℕ → Option ℕ
numbered none = none
numbered (some i) = some (suc i)

unfoldable pub lowered : ℕ → Option ℕ → Option ℕ
lowered i none = none
lowered i (some j) = some (if ltb i j then j - 1 else j)

pub =?_sym : (a b : Bytes) → (a =? b) ≡ (b =? a)
=?_sym a b = grind (arith, =?→eq a b, =?→eq b a, =?_refl a)

slot-none :
    (n x : Bytes) (xs : List Bytes)
    → slot n (x ∷ xs) ≡ none
    → ((n =? x) ≡ false) × (slot n xs ≡ none)
unfolding slot
slot-none n x xs h = ground arith

slot_zero : (n x : Bytes) (xs : List Bytes) → slot n (x ∷ xs) ≡ some 0 → n ≡ x
unfolding slot
slot_zero n x xs h = ground (arith, =?→eq n x)

slot-suc :
    (n x : Bytes) (xs : List Bytes) (i : ℕ)
    → slot n (x ∷ xs) ≡ some (suc i)
    → ((n =? x) ≡ false) × (slot n xs ≡ some i)
unfolding slot
slot-suc n x xs i h = ground arith

pub slot-append :
    (k n : Bytes) (ks : List Bytes)
    → slot n ks ≡ none
    → slot k (ks ++ (n ∷ [])) ≡ (if k =? n then some (length ks) else slot k ks)
unfolding slot
slot-append k n [] h = ground arith
slot-append k n (x ∷ xs) h =
    grind (arith, slot-none n x xs h, slot-append k n xs, =?→eq k n, =?→eq k x, =?_refl k)

pub slot-set_at :
    (k old n : Bytes) (i : ℕ) (ks : List Bytes)
    → Distinct ks
    → slot old ks ≡ some i
    → slot n ks ≡ none
    → slot k (set_at i n ks) ≡ (if k =? n then some i else if k =? old then none else slot k ks)
unfolding slot set_at
slot-set_at k old n i [] d h e = cc
slot-set_at k old n zero (x ∷ xs) d h e = grind (arith, slot_zero old x xs h, d.0, =?→eq k old)
slot-set_at k old n (suc i) (x ∷ xs) d h e = grind (
  arith,
  slot-suc old x xs i h,
  slot-none n x xs e,
  slot-set_at k old n i xs d.1,
  =?→eq k n,
  =?→eq k old,
  =?→eq k x,
  =?_refl k,
)

pub slot-set_at-none :
    (k n : Bytes) (i : ℕ) (ks : List Bytes)
    → slot k ks ≡ none
    → (k =? n) ≡ false
    → slot k (set_at i n ks) ≡ none
unfolding slot set_at
slot-set_at-none k n i [] h e = refl
slot-set_at-none k n zero (x ∷ xs) h e = ground arith
slot-set_at-none k n (suc i) (x ∷ xs) h e = ground (arith, slot-set_at-none k n i xs)

pub set_at-Distinct :
    (n : Bytes) (i : ℕ) (ks : List Bytes)
    → Distinct ks
    → slot n ks ≡ none
    → Distinct (set_at i n ks)
unfolding slot set_at
set_at-Distinct n i [] d e = tt
set_at-Distinct n zero (x ∷ xs) d e = ((slot-none n x xs e).1, d.1)
set_at-Distinct n (suc i) (x ∷ xs) d e = (
  slot-set_at-none x n i xs d.0 (=?_sym x n ∙ (slot-none n x xs e).0),
  set_at-Distinct n i xs d.1 (slot-none n x xs e).1,
)

pub slot-remove_at :
    (k old : Bytes) (i : ℕ) (ks : List Bytes)
    → Distinct ks
    → slot old ks ≡ some i
    → slot k (remove_at i ks) ≡ (if k =? old then none else lowered i (slot k ks))
unfolding slot remove_at lowered
slot-remove_at k old i [] d h = cc
slot-remove_at k old zero (x ∷ xs) d h = grind (arith, slot_zero old x xs h, d.0, =?→eq k old)
slot-remove_at k old (suc i) (x ∷ xs) d h =
    grind (
      arith,
      slot-suc old x xs i h,
      slot-remove_at k old i xs d.1,
      =?→eq k old,
      =?→eq k x,
      =?_refl k,
    )

pub slot-remove_at-none :
    (k : Bytes) (i : ℕ) (ks : List Bytes) → slot k ks ≡ none → slot k (remove_at i ks) ≡ none
unfolding slot remove_at
slot-remove_at-none k i [] h = refl
slot-remove_at-none k zero (x ∷ xs) h = ground arith
slot-remove_at-none k (suc i) (x ∷ xs) h = ground (arith, slot-remove_at-none k i xs)

pub remove_at-Distinct : (i : ℕ) (ks : List Bytes) → Distinct ks → Distinct (remove_at i ks)
unfolding slot remove_at
remove_at-Distinct i [] d = tt
remove_at-Distinct zero (x ∷ xs) d = d.1
remove_at-Distinct (suc i) (x ∷ xs) d =
    (slot-remove_at-none x i xs d.0, remove_at-Distinct i xs d.1)

pub append-Distinct :
    (n : Bytes) (ks : List Bytes) → Distinct ks → slot n ks ≡ none → Distinct (ks ++ (n ∷ []))
unfolding slot
append-Distinct n [] d e = (refl, tt)
append-Distinct n (x ∷ xs) d e = (
  slot-append x n xs (slot-none n x xs e).1 ∙ grind (arith, d.0, =?_sym x n, slot-none n x xs e),
  append-Distinct n xs d.1 (slot-none n x xs e).1,
)

pub slot-get :
    (k : Bytes) (i : ℕ) (ks : List Bytes)
    → Distinct ks
    → get_elem? ks i ≡ some k
    → slot k ks ≡ some i
unfolding slot
slot-get k i [] d h = cc
slot-get k zero (x ∷ xs) d h = ground (arith, =?_refl x)
slot-get k (suc i) (x ∷ xs) d h = grind (arith, slot-get k i xs d.1 h, d.0, =?→eq k x)

pub get-slot : (k : Bytes) (i : ℕ) (ks : List Bytes) → slot k ks ≡ some i → get_elem? ks i ≡ some k
unfolding slot
get-slot k i [] h = cc
get-slot k zero (x ∷ xs) h = ap some (sym (slot_zero k x xs h))
get-slot k (suc i) (x ∷ xs) h = get-slot k i xs (slot-suc k x xs i h).1

pub lookup_key-shift_down :
    (k : Bytes) (i : ℕ) (m : List (Bytes × ℕ))
    → lookup_key k (shift_down i m)
      ≡ (elim (lookup_key k m) [ none ↦ none | some j ↦ some (if ltb i j then j - 1 else j) ])
unfolding shift_down lookup_key
lookup_key-shift_down k i [] = refl
lookup_key-shift_down k i (e ∷ m) = ground (arith, lookup_key-shift_down k i m)
