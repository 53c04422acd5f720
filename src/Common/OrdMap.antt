-- ===== src/Common/OrdMap.antt =====
-- `std::map` with native numbers as keys: its entries in the order of their keys.
use Prim.Native.Nat.{ℕ, suc, ◌<◌}
use mathlib.Core.Path.{◌≡◌}
use mathlib.Core.List.{List, [], ◌∷◌}
use mathlib.Core.Option.{Option, none, some}
use native.Mathlib.Omega.{arith}
use fmesh_cli.Common.Tests.{ltb, ◌==◌, if◌then◌else◌}
use mathlib.Core.Logic.{◌≢◌}

module _ {ℓ} {A : Type ℓ} where
  -- `m[key] = value`
  unfoldable pub put : ℕ → A → List (ℕ × A) → List (ℕ × A)
  put key value [] = (key, value) ∷ []
  put key value (e ∷ m) =
      let rest = put key value m in
      if ltb key e.0
      then (key, value) ∷ e ∷ m
      else if key == e.0
      then (key, value) ∷ m
      else e ∷ rest

  unfoldable pub lookup : ℕ → List (ℕ × A) → Option A
  lookup key [] = none
  lookup key (e ∷ m) = if key == e.0 then some e.1 else lookup key m

  -- Every key is above the bound, and the keys ascend.
  abbrev pub AscendFrom : ℕ → List (ℕ × A) → Type 0
  AscendFrom bound [] = Unit {0}
  AscendFrom bound (e ∷ m) = (bound < suc e.0) × AscendFrom (suc e.0) m

  pub put-AscendFrom :
      (bound key : ℕ) (value : A) (m : List (ℕ × A))
      → bound < suc key
      → AscendFrom bound m
      → AscendFrom bound (put key value m)
  unfolding put
  put-AscendFrom bound key value [] h s = (h, tt)
  put-AscendFrom bound key value (e ∷ m) h s = ground (arith, put-AscendFrom (suc e.0) key value m)

  pub lookup-put :
      (key : ℕ) (value : A) (m : List (ℕ × A)) → lookup key (put key value m) ≡ some value
  unfolding put lookup
  lookup-put key value [] = ground arith
  lookup-put key value (e ∷ m) = ground (arith, lookup-put key value m)

  pub lookup-put_other :
      (other key : ℕ) (value : A) (m : List (ℕ × A))
      → other ≢ key
      → lookup other (put key value m) ≡ lookup other m
  unfolding put lookup
  lookup-put_other other key value [] h = ground arith
  lookup-put_other other key value (e ∷ m) h = ground (arith, lookup-put_other other key value m)

  pub put-put :
      (key : ℕ) (value : A) (m : List (ℕ × A)) → put key value (put key value m) ≡ put key value m
  unfolding put
  put-put key value [] = ground arith
  put-put key value (e ∷ m) = ground (arith, put-put key value m)
