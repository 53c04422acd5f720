-- ===== src/Tui/WindowManager/Found.antt =====
-- The windows that the loops of window_manager.cpp find by their kind.
use fmesh_cli.Common.{
  ℕ, suc, ◌+◌, ◌≡◌, ap, ◌∙◌, false, ◌&&◌, List, [], ◌∷◌, some, Bytes, codes, get_elem?, ◌==◌, ◌=?◌,
  =?→eq, arith, Bool-cases, inl, inr,
}
use fmesh_cli.Tui.Window.{Window}
use fmesh_cli.Tui.WindowManager.{key_of, target_key, status_target}
use fmesh_cli.Tui.WindowManager.Routing.{first_with, first_of_kind}
use fmesh_cli.Tui.WindowManager.Consistent.{keys, first_target, ListsAtZero, is_plain}

-- The window that first_with finds stands behind the first one and has the key of its device.
first_with_key :
    (kind : Bytes) (target i : ℕ) (ws : List Window) (r : ℕ × Bytes)
    → first_with kind target i ws ≡ some r
    → (j : ℕ) × (r.0 ≡ i + j) × (get_elem? (keys ws) j ≡ some (key_of r.1 kind target))
unfolding first_with keys target_key key_of
first_with_key kind target i [] r h = cc
first_with_key kind target i (w ∷ ws) r h =
    elim (Bool-cases (w.target.kind =? kind && w.target.target == target)) [
      | inl e ↦
          let q : (i, w.target.device) ≡ r = ground arith in
          (
            0,
            omega (arith, ap (λ q. q.0) q),
            grind (arith, ap (λ q. q.1) q, =?→eq w.target.kind kind),
          )
      | inr e ↦
          let (j, eq, at_j) = first_with_key kind target (suc i) ws r (ground arith) in
          (suc j, omega (arith, eq), at_j)
    ]

-- The list of nodes that first_of_kind finds has the key of its device.
listed_key :
    (i : ℕ) (ws : List Window) (r : ℕ × Bytes)
    → ListsAtZero ws
    → first_of_kind (codes "nodelist") i ws ≡ some r
    → (j : ℕ) × (r.0 ≡ i + j) × (get_elem? (keys ws) j ≡ some (key_of r.1 (codes "nodelist") 0))
unfolding first_of_kind keys target_key key_of is_plain
listed_key i [] r l h = cc
listed_key i (w ∷ ws) r l h = elim (Bool-cases (w.target.kind =? codes "nodelist")) [
  | inl e ↦
      let q : (i, w.target.device) ≡ r = ground arith in
      let zeroed : w.target.target ≡ 0 = ground (arith, l.0) in
      (
        0,
        omega (arith, ap (λ q. q.0) q),
        rw zeroed (grind (arith, ap (λ q. q.1) q, =?→eq w.target.kind (codes "nodelist"))),
      )
  | inr e ↦
      let (j, eq, at_j) = listed_key (suc i) ws r l.1 (ground arith) in
      (suc j, omega (arith, eq), at_j)
]

-- The windows begin with that of the status, whose kind is not sought.
pub first_with_later :
    (kind : Bytes) (target : ℕ) (ws : List Window) (r : ℕ × Bytes)
    → first_target ws ≡ some status_target
    → (codes "status" =? kind) ≡ false
    → first_with kind target 1 ws ≡ some r
    → (j : ℕ) × (r.0 ≡ suc (suc j)) × (get_elem? (keys ws) (suc j) ≡ some (key_of r.1 kind target))
unfolding first_with first_target keys
first_with_later kind target [] r f k h = cc
first_with_later kind target (w ∷ ws) r f k h =
    let t : w.target ≡ status_target = ground arith in
    let other : (w.target.kind =? kind) ≡ false = ap (λ t. t.kind =? kind) t ∙ k in
    let (j, e, at_j) = first_with_key kind target 2 ws r (ground (arith, other)) in
    (j, omega (arith, e), at_j)

pub listed_later :
    (ws : List Window) (r : ℕ × Bytes)
    → ListsAtZero ws
    → first_target ws ≡ some status_target
    → first_of_kind (codes "nodelist") 1 ws ≡ some r
    → (j : ℕ) × (r.0 ≡ suc (suc j))
      × (get_elem? (keys ws) (suc j) ≡ some (key_of r.1 (codes "nodelist") 0))
unfolding first_of_kind first_target keys ◌=?◌
listed_later [] r l f h = cc
listed_later (w ∷ ws) r l f h =
    let t : w.target ≡ status_target = ground arith in
    let other : (w.target.kind =? codes "nodelist") ≡ false =
      ap (λ t. t.kind =? codes "nodelist") t in
    let (j, e, at_j) = listed_key 2 ws r l.1 (ground (arith, other)) in (j, omega (arith, e), at_j)
