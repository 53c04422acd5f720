-- ===== src/Tui/WindowManager/Consistent.antt =====
-- How the windows, their numbers and the table of window_manager.cpp fit together, and that the
-- changes its operations consist of keep them so.
use fmesh_cli.Common.{
  ℕ, zero, suc, ◌+◌, ◌≤◌, ◌≡◌, refl, ap, ◌∙◌, List, [], ◌∷◌, ◌++◌, Option, none, some, Bytes,
  length, arith, Option-cases, inl, inr, lookup_key, erase_key, lookup_key-put_key,
  lookup_key-erase_key, length-append, Bool, true, not, ◌=?◌, codes, ◌||◌, ◌==◌,
}
use fmesh_cli.App.Config.Atoi.{print}
use fmesh_cli.Tui.Window.{WindowTarget, Window}
use fmesh_cli.Tui.WindowManager.{
  WindowManager, key_of, target_key, status_target, fresh, change_at, change, on_window, set_target,
  add_window,
}
use fmesh_cli.Tui.WindowManager.Routing.{rekey}
use fmesh_cli.Tui.WindowManager.Slots.{
  slot, Distinct, set_at, numbered, slot-append, slot-set_at, set_at-Distinct, append-Distinct,
}

unfoldable pub keys : List Window → List Bytes
unfolding target_key
keys [] = []
keys (w ∷ ws) = target_key w.target ∷ keys ws

unfoldable pub first_target : List Window → Option WindowTarget
first_target [] = none
first_target (w ∷ ws) = some w.target

unfoldable pub is_plain : WindowTarget → Bool
is_plain t = not (t.kind =? codes "nodelist") || t.target == 0

-- Every list of nodes has the target 0.
abbrev pub ListsAtZero : List Window → Type 0
ListsAtZero [] = Unit {0}
ListsAtZero (w ∷ ws) = (is_plain w.target ≡ true) × ListsAtZero ws

-- Window 1 shows the status, every list of nodes has the target 0, no two windows have the same key, the table answers for every key the
-- number of the window that has it and nothing for a key that no window has, and the current number
-- is that of a window.
pub record Consistent (m : WindowManager) : Type 0 where
  pub first : first_target m.windows ≡ some status_target
  pub lists : ListsAtZero m.windows
  pub one_each : Distinct (keys m.windows)
  pub indexed : (key : Bytes) → lookup_key key m.by_key ≡ numbered (slot key (keys m.windows))
  pub current_from : 1 ≤ m.current
  pub current_to : m.current ≤ length m.windows

pub fresh-Consistent : Consistent fresh
unfolding is_plain fresh first_target keys slot numbered lookup_key target_key key_of print ◌=?◌
fresh-Consistent = record {
  first = refl;
  lists = (refl, tt);
  one_each = (refl, tt);
  indexed = λ key. ground arith;
  current_from = omega arith;
  current_to = omega arith;
}

-- A change of one window that keeps its target.
pub keys-change :
    (f : Window → Window) (i : ℕ) (ws : List Window)
    → ((w : Window) → (f w).target ≡ w.target)
    → keys (change_at i f ws) ≡ keys ws
unfolding keys change_at
keys-change f i [] h = refl
keys-change f zero (w ∷ ws) h = ap (λ t. target_key t ∷ keys ws) (h w)
keys-change f (suc i) (w ∷ ws) h = ap (target_key w.target ∷◌) (keys-change f i ws h)

pub length-change :
    (f : Window → Window) (i : ℕ) (ws : List Window) → length (change_at i f ws) ≡ length ws
unfolding change_at
length-change f i [] = refl
length-change f zero (w ∷ ws) = refl
length-change f (suc i) (w ∷ ws) = ap suc (length-change f i ws)

first-change :
    (f : Window → Window) (i : ℕ) (ws : List Window)
    → ((w : Window) → (f w).target ≡ w.target)
    → first_target (change_at i f ws) ≡ first_target ws
unfolding change_at first_target
first-change f i [] h = refl
first-change f zero (w ∷ ws) h = ap some (h w)
first-change f (suc i) (w ∷ ws) h = refl

change-ListsAtZero :
    (f : Window → Window) (i : ℕ) (ws : List Window)
    → ((w : Window) → (f w).target ≡ w.target)
    → ListsAtZero ws
    → ListsAtZero (change_at i f ws)
unfolding change_at
change-ListsAtZero f i [] h l = tt
change-ListsAtZero f zero (w ∷ ws) h l = (ap is_plain (h w) ∙ l.0, l.1)
change-ListsAtZero f (suc i) (w ∷ ws) h l = (l.0, change-ListsAtZero f i ws h l.1)

append-ListsAtZero :
    (w : Window) (ws : List Window)
    → is_plain w.target ≡ true
    → ListsAtZero ws
    → ListsAtZero (ws ++ (w ∷ []))
append-ListsAtZero w [] e l = (e, tt)
append-ListsAtZero w (v ∷ ws) e l = (l.0, append-ListsAtZero w ws e l.1)

set_target-ListsAtZero :
    (f : Window → Window) (t : WindowTarget) (i : ℕ) (ws : List Window)
    → ((w : Window) → (f w).target ≡ w.target)
    → is_plain t ≡ true
    → ListsAtZero ws
    → ListsAtZero (change_at i (λ w. f (set_target t w)) ws)
unfolding change_at set_target
set_target-ListsAtZero f t i [] h e l = tt
set_target-ListsAtZero f t zero (w ∷ ws) h e l = (ap is_plain (h (set_target t w)) ∙ e, l.1)
set_target-ListsAtZero f t (suc i) (w ∷ ws) h e l = (l.0, set_target-ListsAtZero f t i ws h e l.1)

pub on_window-Consistent :
    (i : ℕ) (f : Window → Window) (m : WindowManager)
    → ((w : Window) → (f w).target ≡ w.target)
    → Consistent m
    → Consistent (on_window i f m)
unfolding on_window change
on_window-Consistent zero f m h c = c
on_window-Consistent (suc i) f m h c = record {
  first = first-change f i m.windows h ∙ c.first;
  lists = change-ListsAtZero f i m.windows h c.lists;
  one_each = rw (keys-change f i m.windows h) c.one_each;
  indexed = λ key. rw (keys-change f i m.windows h) (c.indexed key);
  current_from = c.current_from;
  current_to = omega (arith, length-change f i m.windows, c.current_to);
}

keys-append :
    (ws : List Window) (w : Window) → keys (ws ++ (w ∷ [])) ≡ keys ws ++ (target_key w.target ∷ [])
unfolding keys
keys-append [] w = refl
keys-append (v ∷ ws) w = ap (target_key v.target ∷◌) (keys-append ws w)

pub length-keys : (ws : List Window) → length (keys ws) ≡ length ws
unfolding keys
length-keys [] = refl
length-keys (w ∷ ws) = ap suc (length-keys ws)

first-append :
    (ws : List Window) (w : Window) (t : WindowTarget)
    → first_target ws ≡ some t
    → first_target (ws ++ (w ∷ [])) ≡ some t
unfolding first_target
first-append [] w t h = cc
first-append (v ∷ ws) w t h = h

-- A key that the table does not hold is no window's.
pub slot_absent :
    (key : Bytes) (m : WindowManager)
    → Consistent m
    → lookup_key key m.by_key ≡ none
    → slot key (keys m.windows) ≡ none
unfolding numbered
slot_absent key m c h = ground (arith, c.indexed key)

pub slot_present :
    (key : Bytes) (i : ℕ) (m : WindowManager)
    → Consistent m
    → lookup_key key m.by_key ≡ some i
    → (j : ℕ) × (i ≡ suc j) × (slot key (keys m.windows) ≡ some j)
unfolding numbered
slot_present key i m c h = elim (Option-cases (slot key (keys m.windows))) [
  | inl e ↦ absurd (grind (arith, c.indexed key))
  | inr (j, e) ↦ (j, grind (arith, c.indexed key), e)
]

pub add_window-Consistent :
    (w : Window) (m : WindowManager)
    → Consistent m
    → is_plain w.target ≡ true
    → lookup_key (target_key w.target) m.by_key ≡ none
    → Consistent (add_window w m).0
unfolding add_window numbered
add_window-Consistent w m c e h =
    let absent = slot_absent (target_key w.target) m c h in
    record {
      first = first-append m.windows w status_target c.first;
      lists = append-ListsAtZero w m.windows e c.lists;
      one_each =
          rw (keys-append m.windows w)
            (append-Distinct (target_key w.target) (keys m.windows) c.one_each absent);
      indexed = λ key. rw (keys-append m.windows w) (
          grind (
            arith,
            lookup_key-put_key key (target_key w.target) (length m.windows + 1) m.by_key,
            slot-append key (target_key w.target) (keys m.windows) absent,
            c.indexed key,
            length-keys m.windows,
          ));
      current_from = c.current_from;
      current_to = omega (arith, length-append m.windows (w ∷ []), c.current_to);
    }

first-change_later :
    (f : Window → Window) (i : ℕ) (ws : List Window)
    → first_target (change_at (suc i) f ws) ≡ first_target ws
unfolding change_at first_target
first-change_later f i [] = refl
first-change_later f i (w ∷ ws) = refl

-- A window with another target and the title that `f` gives it.
keys-set_target :
    (f : Window → Window) (t : WindowTarget) (i : ℕ) (ws : List Window)
    → ((w : Window) → (f w).target ≡ w.target)
    → keys (change_at i (λ w. f (set_target t w)) ws) ≡ set_at i (target_key t) (keys ws)
unfolding keys change_at set_at set_target
keys-set_target f t i [] h = refl
keys-set_target f t zero (w ∷ ws) h = ap (λ t. target_key t ∷ keys ws) (h (set_target t w))
keys-set_target f t (suc i) (w ∷ ws) h = ap (target_key w.target ∷◌) (keys-set_target f t i ws h)

-- The window of one key, which is not the first, takes another key that is free.
pub rekey-Consistent :
    (j : ℕ) (old_device : Bytes) (t : WindowTarget) (f : Window → Window) (m : WindowManager)
    → ((w : Window) → (f w).target ≡ w.target)
    → Consistent m
    → is_plain t ≡ true
    → slot (key_of old_device t.kind t.target) (keys m.windows) ≡ some (suc j)
    → lookup_key (target_key t) m.by_key ≡ none
    → Consistent (rekey (suc (suc j)) old_device t f m)
unfolding rekey on_window change target_key numbered
rekey-Consistent j old_device t f m h c e here free =
    let absent = slot_absent (target_key t) m c free in
    let old = key_of old_device t.kind t.target in
    record {
      lists = set_target-ListsAtZero f t (suc j) m.windows h e c.lists;
      first = first-change_later (λ w. f (set_target t w)) j m.windows ∙ c.first;
      one_each =
          rw (keys-set_target f t (suc j) m.windows h)
            (set_at-Distinct (target_key t) (suc j) (keys m.windows) c.one_each absent);
      indexed = λ key. rw (keys-set_target f t (suc j) m.windows h) (
          grind (
            arith,
            lookup_key-put_key key (target_key t) (suc (suc j)) (erase_key old m.by_key),
            lookup_key-erase_key key old m.by_key,
            slot-set_at key old (target_key t) (suc j) (keys m.windows) c.one_each here absent,
            c.indexed key,
          ));
      current_from = c.current_from;
      current_to =
          omega (arith, length-change (λ w. f (set_target t w)) (suc j) m.windows, c.current_to);
    }
