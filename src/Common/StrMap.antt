-- ===== src/Common/StrMap.antt =====
-- `std::map` with strings as keys: its entries, a key at most once where `put` made them, and their
-- positions in a list of keys.
use mathlib.Core.Path.{◌≡◌, refl}
use mathlib.Core.Bool.{◌||◌, ◌&&◌, true, Bool, false}
use mathlib.Core.List.{List, [], ◌∷◌}
use mathlib.Core.Option.{Option, none, some}
use native.Mathlib.Omega.{arith}
use fmesh_cli.Common.Tests.{◌==◌, Bytes, if◌then◌else◌, ◌=?◌, =?_refl, =?→eq, ltb}

pub =?-true : (a b : Bytes) → a ≡ b → (a =? b) ≡ true
=?-true a b e = rw e (=?_refl b)

module _ {ℓ} {A : Type ℓ} where
  -- `m[key] = value`
  unfoldable pub put_key : Bytes → A → List (Bytes × A) → List (Bytes × A)
  put_key key value [] = (key, value) ∷ []
  put_key key value (e ∷ m) =
      let rest = put_key key value m in if key =? e.0 then (key, value) ∷ m else e ∷ rest

  -- `m.find(key)`
  unfoldable pub lookup_key : Bytes → List (Bytes × A) → Option A
  lookup_key key [] = none
  lookup_key key (e ∷ m) = if key =? e.0 then some e.1 else lookup_key key m

  -- `m.erase(key)`
  unfoldable pub erase_key : Bytes → List (Bytes × A) → List (Bytes × A)
  erase_key key [] = []
  erase_key key (e ∷ m) = let rest = erase_key key m in if key =? e.0 then rest else e ∷ rest

  pub lookup_key-put_key :
      (other key : Bytes) (value : A) (m : List (Bytes × A))
      → lookup_key other (put_key key value m)
        ≡ (if other =? key then some value else lookup_key other m)
  unfolding put_key lookup_key
  lookup_key-put_key other key value [] = refl
  lookup_key-put_key other key value (e ∷ m) = grind (
    arith,
    lookup_key-put_key other key value m,
    =?→eq key e.0,
    =?→eq other e.0,
    =?→eq other key,
    =?_refl key,
  )

  pub lookup_key-erase_key :
      (other key : Bytes) (m : List (Bytes × A))
      → lookup_key other (erase_key key m) ≡ (if other =? key then none else lookup_key other m)
  unfolding erase_key lookup_key
  lookup_key-erase_key other key [] = ground arith
  lookup_key-erase_key other key (e ∷ m) = grind (
    arith,
    lookup_key-erase_key other key m,
    =?→eq key e.0,
    =?→eq other e.0,
    =?→eq other key,
    =?_refl key,
  )

-- `<` of `std::string`: the bytes one after the other.
unfoldable pub before : Bytes → Bytes → Bool
before [] [] = false
before [] (c ∷ cs) = true
before (b ∷ bs) [] = false
before (b ∷ bs) (c ∷ cs) = ltb b c || b == c && before bs cs

-- `m[key] = value`, the entries in the order of their keys.
unfoldable pub put_sorted {ℓ} : {A : Type ℓ} → Bytes → A → List (Bytes × A) → List (Bytes × A)
unfolding before
put_sorted key value [] = (key, value) ∷ []
put_sorted key value (e ∷ m) =
    let rest = put_sorted key value m in
    if key =? e.0
    then (key, value) ∷ m
    else if before key e.0
    then (key, value) ∷ e ∷ m
    else e ∷ rest
