-- ===== src/Tui/WindowManager/Selection.antt =====
-- What select of window_manager.cpp shows, although it may close the window that is left.
use fmesh_cli.Common.{
  ℕ, zero, suc, ◌+◌, ◌-◌, ◌≤◌, ◌<◌, ◌≡◌, ◌≢◌, ◌⊎◌, refl, ap, ◌∙◌, true, ◌&&◌, List, [], ◌∷◌, Option,
  some, length, get_elem?, ltb, ◌==◌, if◌then◌else◌, arith, Bool-cases, inl, inr, lt→leb_false,
  le→leb,
}
use fmesh_cli.Tui.Window.{Window, mark_read, scroll_to_bottom}
use fmesh_cli.Tui.WindowManager.{
  WindowManager, at, change_at, change, erase_at, is_closable, close_window, close_if_empty, go_to,
  select, current_window, current_after, on_window,
}
use fmesh_cli.Tui.WindowManager.Consistent.{Consistent}

-- The window, or the same marked as read.
abbrev Same : Option Window → Window → Type 0
Same o w = (o ≡ some w) ⊎ (o ≡ some (mark_read w))

get-change_at :
    (i j : ℕ) (ws : List Window) (w : Window)
    → get_elem? ws i ≡ some w
    → Same (get_elem? (change_at j mark_read ws) i) w
unfolding change_at
get-change_at i j [] w h = cc
get-change_at zero zero (v ∷ ws) w h = inr (ground (arith, ap mark_read))
get-change_at zero (suc j) (v ∷ ws) w h = inl h
get-change_at (suc i) zero (v ∷ ws) w h = inl h
get-change_at (suc i) (suc j) (v ∷ ws) w h = get-change_at i j ws w h

get-change :
    (i j : ℕ) (ws : List Window) (w : Window)
    → get_elem? ws i ≡ some w
    → Same (get_elem? (change j mark_read ws) i) w
unfolding change
get-change i zero ws w h = inl h
get-change i (suc j) ws w h = get-change_at i j ws w h

get-erase_before :
    (i j : ℕ) (ws : List Window) → i < j → get_elem? (erase_at j ws) i ≡ get_elem? ws i
unfolding erase_at
get-erase_before i j [] h = refl
get-erase_before i zero (w ∷ ws) h = absurd (omega arith)
get-erase_before zero (suc j) (w ∷ ws) h = refl
get-erase_before (suc i) (suc j) (w ∷ ws) h = get-erase_before i j ws (omega arith)

get-erase_after :
    (i j : ℕ) (ws : List Window) → j ≤ i → get_elem? (erase_at j ws) i ≡ get_elem? ws (suc i)
unfolding erase_at
get-erase_after i j [] h = refl
get-erase_after i zero (w ∷ ws) h = refl
get-erase_after zero (suc j) (w ∷ ws) h = absurd (omega arith)
get-erase_after (suc i) (suc j) (w ∷ ws) h = get-erase_after i j ws (omega arith)

get-changed :
    (f : Window → Window) (i : ℕ) (ws : List Window) (w : Window)
    → get_elem? ws i ≡ some w
    → get_elem? (change_at i f ws) i ≡ some (f w)
unfolding change_at
get-changed f i [] w h = cc
get-changed f zero (v ∷ ws) w h = let e : v ≡ w = ground arith in ap (λ v. some (f v)) e
get-changed f (suc i) (v ∷ ws) w h = get-changed f i ws w h

shows :
    (i : ℕ) (m : WindowManager) (w : Window)
    → get_elem? m.windows i ≡ some w
    → current_window (go_to (suc i) m) ≡ some (mark_read (scroll_to_bottom w))
unfolding current_window go_to at on_window change
shows i m w h = rw (go_to, h) (get-changed (λ w. mark_read (scroll_to_bottom w)) i m.windows w h)

minus_one : (n : ℕ) → suc n - 1 ≡ n
minus_one n = omega arith

shows_same :
    (i : ℕ) (m : WindowManager) (w : Window)
    → Same (get_elem? m.windows i) w
    → current_window (go_to (suc i) m) ≡ some (mark_read (scroll_to_bottom w))
unfolding mark_read scroll_to_bottom
shows_same i m w (inl h) = shows i m w h
shows_same i m w (inr h) = shows i m (mark_read w) h

get-erased :
    (i j : ℕ) (ws : List Window) (w : Window)
    → get_elem? ws i ≡ some w
    → j ≢ i
    → get_elem? (erase_at j ws) (if ltb j i then i - 1 else i) ≡ some w
get-erased zero j ws w h ne = elim (Bool-cases (ltb j zero)) [
  | inl e ↦ absurd (ground arith)
  | inr e ↦ rw e (get-erase_before zero j ws (omega arith) ∙ h)
]
get-erased (suc i) j ws w h ne = elim (Bool-cases (ltb j (suc i))) [
  | inl e ↦ rw (e, minus_one i) (get-erase_after i j ws (ground arith) ∙ h)
  | inr e ↦ rw e (get-erase_before (suc i) j ws (ground arith) ∙ h)
]

-- Where the window of number `i` stands when window `cur` is closed.
get-close_window :
    (i cur : ℕ) (m : WindowManager) (w v : Window)
    → get_elem? m.windows i ≡ some w
    → get_elem? m.windows (suc cur) ≡ some v
    → suc cur ≢ i
    → Same
        (get_elem?
          (close_window (suc (suc cur)) m).0.windows
          (if ltb (suc cur) i then i - 1 else i))
        w
      × ((close_window (suc (suc cur)) m).1 ≡ true)
unfolding close_window at on_window
get-close_window i cur m w v h hv ne =
    rw
      (
        close_window,
        lt→leb_false (suc (suc cur)) 1 (omega arith),
        hv,
        ap (λ n. erase_at n m.windows) (minus_one (suc cur)),
      )
      (
        get-change (if ltb (suc cur) i then i - 1 else i)
            (current_after (suc (suc cur)) (length (erase_at (suc cur) m.windows)) m.current)
            (erase_at (suc cur) m.windows) w (get-erased i (suc cur) m.windows w h ne),
        refl,
      )

-- A window that is in range.
get_present : (i : ℕ) (ws : List Window) → i < length ws → (w : Window) × (get_elem? ws i ≡ some w)
get_present i [] h = absurd (omega arith)
get_present zero (w ∷ ws) h = (w, refl)
get_present (suc i) (w ∷ ws) h = get_present i ws (omega arith)

lowered_number :
    (c i : ℕ)
    → (if ltb (suc (suc c)) (suc i) then suc i - 1 else suc i)
      ≡ suc (if ltb (suc c) i then i - 1 else i)
lowered_number c i = ground arith

-- Where the window of number `suc i` stands when the current one is left.
left :
    (cur i : ℕ) (m : WindowManager) (w : Window)
    → cur < length m.windows + 1
    → cur ≢ suc i
    → get_elem? m.windows i ≡ some w
    → (j : ℕ) × ((if (close_if_empty cur m).1 && ltb cur (suc i) then suc i - 1 else suc i) ≡ suc j)
      × Same (get_elem? (close_if_empty cur m).0.windows j) w
unfolding close_if_empty at
left zero i m w lt ne h = (i, ground arith, inl h)
left (suc zero) i m w lt ne h = (i, ground arith, inl h)
left (suc (suc c)) i m w lt ne h =
    let (v, hv) = get_present (suc c) m.windows (omega arith) in
    elim (Bool-cases (is_closable v)) [
      | inr k ↦
          rw (close_if_empty, lt→leb_false (suc (suc c)) 1 (omega arith), hv, k)
            (i, ground arith, inl h)
      | inl k ↦
          let (same, closed) = get-close_window i c m w v h hv (omega arith) in
          rw (close_if_empty, lt→leb_false (suc (suc c)) 1 (omega arith), hv, k)
            ((if ltb (suc c) i then i - 1 else i), rw closed (lowered_number c i), same)
    ]

-- If the windows and their table fit together, select on the number of a window shows that window,
-- read and scrolled to its end, also where it closes the window that was shown before and the
-- numbers change.
pub select-current_window :
    (i : ℕ) (m : WindowManager) (w : Window)
    → Consistent m
    → at i m.windows ≡ some w
    → current_window (select i m) ≡ some (mark_read (scroll_to_bottom w))
unfolding select at
select-current_window zero m w c h = cc
select-current_window (suc i) m w c h = elim (Bool-cases (m.current == suc i)) [
  | inl e ↦
      rw
        (
          select,
          le→leb 1 m.current c.current_from,
          le→leb m.current (length m.windows) c.current_to,
          e,
        )
        (shows i m w h)
  | inr e ↦
      let (j, number, same) = left m.current i m w (omega (arith, c.current_to)) (ground arith) h in
      rw
        (
          select,
          le→leb 1 m.current c.current_from,
          le→leb m.current (length m.windows) c.current_to,
          e,
          number,
        )
        (shows_same j (close_if_empty m.current m).0 w same)
]
