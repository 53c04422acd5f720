-- ===== src/Tui/WindowManager/Ensured.antt =====
-- The operations of window_manager.cpp that find or make a window keep the numbers and the table right.
use fmesh_cli.Common.{
  ℕ, zero, suc, ◌+◌, ◌≡◌, refl, sym, ap, ◌∙◌, Bool, true, false, not, List, [], ◌∷◌, Option, none,
  some, Bytes, codes, length, get_elem?, ◌=?◌, if◌then◌else◌, arith, Bool-cases, Option-cases, inl,
  inr, lookup_key, ◌⊎◌, =?_refl, ◌++◌,
}
use fmesh_cli.App.Config.Atoi.{print}
use fmesh_cli.App.Config.Spec.{is_empty}
use fmesh_cli.Mesh.NodeDb.{NodeDb}
use fmesh_cli.Tui.Window.{WindowTarget, Line, Window, new, append_line, is_repeated, Date}
use fmesh_cli.Tui.Signal.{Platform, Service, StoredMessage}
use fmesh_cli.Tui.WindowManager.{
  WindowManager, key_of, target_key, status_target, on_window, set_title, add_window,
}
use fmesh_cli.Tui.WindowManager.History.{
  show_messages, filled, load_history, history_line, channel_title, dm_title,
}
use fmesh_cli.Tui.WindowManager.Routing.{
  first_with, first_of_kind, rekey, set_title_if, ensure_other, ensure_channel, ensure_dm,
  renamed_to, retitle_key, ensure_raw, ensure_nodelist,
}
use fmesh_cli.Tui.WindowManager.Slots.{slot, slot-get, get-slot}
use fmesh_cli.Tui.WindowManager.Found.{first_with_later, listed_later}
use fmesh_cli.Tui.WindowManager.Consistent.{
  keys, first_target, Consistent, is_plain, on_window-Consistent, add_window-Consistent,
  rekey-Consistent, slot_present,
}

List-cases : (ls : List Line) → (ls ≡ []) ⊎ ((l : Line) × (ms : List Line) × (ls ≡ l ∷ ms))
List-cases [] = inl refl
List-cases (l ∷ ls) = inr (l, ls, refl)

pub append_line_target :
    (date : ℕ → Date) (l : Line) (w : Window) → (append_line date l w).target ≡ w.target
unfolding append_line
append_line_target date l w = elim (Bool-cases (is_repeated w.lines l)) [
  | inl e ↦ rw (append_line, e) refl
  | inr e ↦ rw (append_line, e) refl
]

show_messages_target :
    (p : Platform) (s : Service) (t : WindowTarget) (db : Option NodeDb) (ms : List StoredMessage)
    (w : Window)
    → (show_messages p s t db ms w).target ≡ w.target
unfolding show_messages
show_messages_target p s t db [] w = refl
show_messages_target p s t db (m ∷ ms) w = elim (Bool-cases (is_empty m.text)) [
  | inl e ↦ rw (show_messages, e) (show_messages_target p s t db ms w)
  | inr e ↦
      rw (show_messages, e)
        (show_messages_target p s t db ms (append_line p.local_date (history_line p s t db m) w)
          ∙ append_line_target p.local_date (history_line p s t db m) w)
]

filled_target : (p : Platform) (s : Service) (w : Window) → (filled p s w).target ≡ w.target
unfolding filled
filled_target p s w = elim (List-cases w.lines) [
  | inr (l, ls, e) ↦ simp (filled, e)
  | inl e ↦ elim (Bool-cases (w.target.kind =? codes "status")) [
    | inl k ↦ simp (filled, e, k)
    | inr k ↦ simp (filled, e, k, show_messages_target p s)
  ]
]

pub load_history-Consistent :
    (p : Platform) (s : Service) (i : ℕ) (m : WindowManager)
    → Consistent m
    → Consistent (load_history p s i m)
unfolding load_history
load_history-Consistent p s i m c = on_window-Consistent i (filled p s) m (filled_target p s) c

set_title_if_target :
    (b : Bool) (title : Bytes) (w : Window) → (set_title_if b title w).target ≡ w.target
unfolding set_title_if set_title
set_title_if_target true title w = refl
set_title_if_target false title w = refl

first_key :
    (ws : List Window)
    → first_target ws ≡ some status_target
    → get_elem? (keys ws) 0 ≡ some (codes "|status|0")
unfolding first_target keys target_key key_of print
first_key [] h = cc
first_key (w ∷ ws) h =
    let t : w.target ≡ status_target = ground arith in ap (λ t. some (target_key t)) t

not_first :
    (k : Bytes) (j : ℕ) (m : WindowManager)
    → Consistent m
    → (k =? codes "|status|0") ≡ false
    → slot k (keys m.windows) ≡ some j
    → (i : ℕ) × (j ≡ suc i)
not_first k zero m c h e =
    let same : k ≡ codes "|status|0" =
      grind (arith, get-slot k 0 (keys m.windows) e, first_key m.windows c.first) in
    absurd (grind (arith, same, =?_refl k))
not_first k (suc i) m c h e = (i, refl)

ensure_other-Consistent :
    (p : Platform) (s : Service) (t : WindowTarget) (named : Bool) (title : Bytes)
    (m : WindowManager)
    → Consistent m
    → is_plain t ≡ true
    → (codes "status" =? t.kind) ≡ false
    → (key_of [] t.kind t.target =? codes "|status|0") ≡ false
    → lookup_key (target_key t) m.by_key ≡ none
    → Consistent (ensure_other p s t named title m).0
unfolding ensure_other
ensure_other-Consistent p s t named title m c plain kind free_status free =
    elim (Option-cases (lookup_key (key_of [] t.kind t.target) m.by_key)) [
      | inr (i, e) ↦
          let (j, ei, here) = slot_present (key_of [] t.kind t.target) i m c e in
          let (k, ek) = not_first (key_of [] t.kind t.target) j m c free_status here in
          rw (ensure_other, e, ei, ek)
            (load_history-Consistent p s (suc (suc k))
              (rekey (suc (suc k)) [] t (set_title_if named title) m)
              (rekey-Consistent k [] t (set_title_if named title) m
                (set_title_if_target named title) c plain (rw (sym ek) here) free))
      | inl e ↦ elim (Option-cases (first_with t.kind t.target 1 m.windows)) [
        | inr (r, f) ↦
            let (k, ek, here) = first_with_later t.kind t.target m.windows r c.first kind f in
            rw (ensure_other, e, f, ek)
              (load_history-Consistent p s (suc (suc k))
                (rekey (suc (suc k)) r.1 t (set_title_if named title) m)
                (rekey-Consistent k r.1 t (set_title_if named title) m
                  (set_title_if_target named title) c plain
                  (slot-get (key_of r.1 t.kind t.target) (suc k) (keys m.windows) c.one_each here)
                  free))
        | inl f ↦
            rw (ensure_other, e, f)
              (load_history-Consistent p s (length m.windows + 1) (add_window (new t title) m).0
                (add_window-Consistent (new t title) m c plain free))
      ]
    ]

pub ensure_channel-Consistent :
    (p : Platform) (s : Service) (device : Bytes) (idx : ℕ) (name : Bytes) (m : WindowManager)
    → Consistent m
    → Consistent (ensure_channel p s device idx name m).0
unfolding ensure_channel is_plain ◌=?◌ key_of
ensure_channel-Consistent p s device idx name m c =
    let t : WindowTarget = record { device = device; kind = codes "channel"; target = idx } in
    let title = channel_title s device idx name in
    elim (Option-cases (lookup_key (target_key t) m.by_key)) [
      | inr (i, e) ↦
          rw (ensure_channel, e)
            (load_history-Consistent p s i
              (on_window i (set_title_if (not (is_empty name)) title) m)
              (on_window-Consistent i (set_title_if (not (is_empty name)) title) m
                (set_title_if_target (not (is_empty name)) title) c))
      | inl e ↦
          rw (ensure_channel, e)
            (ensure_other-Consistent p s t (not (is_empty name)) title m c refl refl refl e)
    ]

renamed_to_target : (nick title : Bytes) (w : Window) → (renamed_to nick title w).target ≡ w.target
unfolding renamed_to
renamed_to_target nick title w = set_title_if_target _ title w

pub ensure_dm-Consistent :
    (p : Platform) (s : Service) (device : Bytes) (peer : ℕ) (nick : Bytes) (m : WindowManager)
    → Consistent m
    → Consistent (ensure_dm p s device peer nick m).0
unfolding ensure_dm is_plain ◌=?◌ key_of
ensure_dm-Consistent p s device peer nick m c =
    let t : WindowTarget = record { device = device; kind = codes "dm"; target = peer } in
    let title = dm_title s device peer nick in
    elim (Option-cases (lookup_key (target_key t) m.by_key)) [
      | inr (i, e) ↦
          rw (ensure_dm, e)
            (load_history-Consistent p s i (on_window i (renamed_to nick title) m)
              (on_window-Consistent i (renamed_to nick title) m (renamed_to_target nick title) c))
      | inl e ↦
          rw (ensure_dm, e)
            (ensure_other-Consistent p s t (not (is_empty nick)) title m c refl refl refl e)
    ]

set_title_target : (title : Bytes) (w : Window) → (set_title title w).target ≡ w.target
unfolding set_title
set_title_target title w = refl

pub retitle_key-Consistent :
    (name key title : Bytes) (m : WindowManager)
    → Consistent m
    → Consistent (retitle_key name key title m)
unfolding retitle_key
retitle_key-Consistent [] key title m c = c
retitle_key-Consistent (b ∷ bs) key title m c = elim (Option-cases (lookup_key key m.by_key)) [
  | inl e ↦ rw (retitle_key, e) c
  | inr (i, e) ↦
      rw (retitle_key, e) (on_window-Consistent i (set_title title) m (set_title_target title) c)
]

pub ensure_raw-Consistent :
    (device : Bytes) (m : WindowManager) → Consistent m → Consistent (ensure_raw device m).0
unfolding ensure_raw is_plain ◌=?◌
ensure_raw-Consistent device m c =
    let t : WindowTarget = record { device = device; kind = codes "raw"; target = 0 } in
    elim (Option-cases (lookup_key (target_key t) m.by_key)) [
      | inr (i, e) ↦ rw (ensure_raw, e) c
      | inl e ↦ rw (ensure_raw, e) (add_window-Consistent (new t (codes "raw")) m c refl e)
    ]

pub ensure_nodelist-Consistent :
    (s : Service) (device : Bytes) (m : WindowManager)
    → Consistent m
    → Consistent (ensure_nodelist s device m).0
unfolding ensure_nodelist is_plain ◌=?◌
ensure_nodelist-Consistent s device m c =
    let t : WindowTarget = record { device = device; kind = codes "nodelist"; target = 0 } in
    let dname = s.display_name_for device in
    let title = (if is_empty dname then codes "Nodes" else codes "Nodes " ++ dname) in
    elim (Option-cases (lookup_key (target_key t) m.by_key)) [
      | inr (i, e) ↦ rw (ensure_nodelist, e) c
      | inl e ↦ elim (Option-cases (first_of_kind (codes "nodelist") 1 m.windows)) [
        | inr (r, f) ↦
            let (k, ek, here) = listed_later m.windows r c.lists c.first f in
            rw (ensure_nodelist, e, f, ek)
              (rekey-Consistent k r.1 t (set_title title) m (set_title_target title) c refl
                (slot-get (key_of r.1 t.kind t.target) (suc k) (keys m.windows) c.one_each here) e)
        | inl f ↦ rw (ensure_nodelist, e, f) (add_window-Consistent (new t title) m c refl e)
      ]
    ]
