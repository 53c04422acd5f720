-- ===== src/Tui/WindowManager/Closing.antt =====
-- Closing a window of window_manager.cpp keeps the numbers and the table right.
use fmesh_cli.Common.{
  ℕ, zero, suc, ◌-◌, ◌<◌, ◌≡◌, refl, ap, ◌∙◌, List, [], ◌∷◌, some, length, get_elem?, arith,
  lt→leb_false, Option-cases, inl, inr, erase_key, lookup_key-erase_key,
}
use fmesh_cli.Tui.Window.{Window, mark_read}
use fmesh_cli.Tui.WindowManager.{
  WindowManager, target_key, at, erase_at, shift_down, current_after, close_window,
}
use fmesh_cli.Tui.WindowManager.Slots.{
  remove_at, numbered, lowered, slot-remove_at, remove_at-Distinct, slot-get, lookup_key-shift_down,
}
use fmesh_cli.Tui.WindowManager.Consistent.{
  keys, first_target, ListsAtZero, Consistent, on_window-Consistent,
}

first-erase_later :
    (i : ℕ) (ws : List Window) → first_target (erase_at (suc i) ws) ≡ first_target ws
unfolding erase_at first_target
first-erase_later i [] = refl
first-erase_later i (w ∷ ws) = refl

erase-ListsAtZero : (i : ℕ) (ws : List Window) → ListsAtZero ws → ListsAtZero (erase_at i ws)
unfolding erase_at
erase-ListsAtZero i [] l = tt
erase-ListsAtZero zero (w ∷ ws) l = l.1
erase-ListsAtZero (suc i) (w ∷ ws) l = (l.0, erase-ListsAtZero i ws l.1)

keys-erase_at : (i : ℕ) (ws : List Window) → keys (erase_at i ws) ≡ remove_at i (keys ws)
unfolding keys erase_at remove_at
keys-erase_at i [] = refl
keys-erase_at zero (w ∷ ws) = refl
keys-erase_at (suc i) (w ∷ ws) = ap (target_key w.target ∷◌) (keys-erase_at i ws)

pub get-keys :
    (i : ℕ) (ws : List Window) (w : Window)
    → get_elem? ws i ≡ some w
    → get_elem? (keys ws) i ≡ some (target_key w.target)
unfolding keys
get-keys i [] w h = cc
get-keys zero (v ∷ ws) w h = ground (arith, h)
get-keys (suc i) (v ∷ ws) w h = get-keys i ws w h

length-erase_at :
    (i : ℕ) (ws : List Window) (w : Window)
    → get_elem? ws i ≡ some w
    → (length ws ≡ suc (length (erase_at i ws))) × (i < length ws)
unfolding erase_at
length-erase_at i [] w h = cc
length-erase_at zero (v ∷ ws) w h = (refl, omega arith)
length-erase_at (suc i) (v ∷ ws) w h =
    let (e, lt) = length-erase_at i ws w h in (ap suc e, omega arith)

closed-Consistent :
    (j : ℕ) (w : Window) (m : WindowManager)
    → Consistent m
    → get_elem? m.windows (suc j) ≡ some w
    → Consistent record {
      windows = erase_at (suc j) m.windows;
      by_key = shift_down (suc (suc j)) (erase_key (target_key w.target) m.by_key);
      current = current_after (suc (suc j)) (length (erase_at (suc j) m.windows)) m.current;
    }
unfolding numbered lowered current_after
closed-Consistent j w m c h =
    let old = target_key w.target in
    let here = slot-get old (suc j) (keys m.windows) c.one_each (get-keys (suc j) m.windows w h) in
    let (count, lt) = length-erase_at (suc j) m.windows w h in
    record {
      lists = erase-ListsAtZero (suc j) m.windows c.lists;
      first = first-erase_later j m.windows ∙ c.first;
      one_each =
          rw (keys-erase_at (suc j) m.windows)
            (remove_at-Distinct (suc j) (keys m.windows) c.one_each);
      indexed = λ key. rw (keys-erase_at (suc j) m.windows) (
          grind (
            arith,
            lookup_key-shift_down key (suc (suc j)) (erase_key old m.by_key),
            lookup_key-erase_key key old m.by_key,
            slot-remove_at key old (suc j) (keys m.windows) c.one_each here,
            c.indexed key,
          ));
      current_from = ground (arith, c.current_from, c.current_to, count, lt);
      current_to = ground (arith, c.current_from, c.current_to, count, lt);
    }

minus_one : (n : ℕ) → suc n - 1 ≡ n
minus_one n = omega arith

pub mark_read_target : (w : Window) → (mark_read w).target ≡ w.target
unfolding mark_read
mark_read_target w = refl

pub close_window-Consistent :
    (i : ℕ) (m : WindowManager) → Consistent m → Consistent (close_window i m).0
unfolding close_window at
close_window-Consistent zero m c = c
close_window-Consistent (suc zero) m c = c
close_window-Consistent (suc (suc j)) m c = elim (Option-cases (get_elem? m.windows (suc j))) [
  | inl e ↦ rw (close_window, lt→leb_false (suc (suc j)) 1 (omega arith), e) c
  | inr (w, e) ↦
      rw
        (
          close_window,
          lt→leb_false (suc (suc j)) 1 (omega arith),
          e,
          ap (λ n. erase_at n m.windows) (minus_one (suc j)),
        )
        (on_window-Consistent
          (current_after (suc (suc j)) (length (erase_at (suc j) m.windows)) m.current) mark_read
          (record {
            windows = erase_at (suc j) m.windows;
            by_key = shift_down (suc (suc j)) (erase_key (target_key w.target) m.by_key);
            current = current_after (suc (suc j)) (length (erase_at (suc j) m.windows)) m.current;
          })
          mark_read_target (closed-Consistent j w m c e))
]
