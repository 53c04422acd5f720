-- ===== src/Tui/WindowManager/Operations.antt =====
-- The operations of window_manager.cpp one after the other, whatever the mesh service answers
-- meanwhile, and what holds after them.
use fmesh_cli.Common.{
  ℕ, zero, suc, ◌+◌, ◌-◌, ◌≤◌, ◌≡◌, refl, Bool, true, false, ◌&&◌, not, List, [], ◌∷◌, Option, some,
  Bytes, codes, length, get_elem?, leb, ltb, ◌==◌, if◌then◌else◌, arith, Bool-cases, Option-cases,
  inl, inr,
}
use fmesh_cli.App.Config.Atoi.{ℤ}
use fmesh_cli.Mesh.NodeDb.{NodeDb}
use fmesh_cli.Tui.Window.{Window, mark_read, scroll_to_bottom}
use fmesh_cli.Tui.Signal.{Platform, Service}
use fmesh_cli.Tui.WindowManager.{
  WindowManager, fresh, at, is_closable, close_window, close_if_empty, go_to, select, next_active,
  select_next_active, select_relative, clear, key_of, relative,
}
use fmesh_cli.Tui.WindowManager.History.{channel_title, dm_title}
use fmesh_cli.Tui.WindowManager.Routing.{
  ensure_channel, ensure_dm, update_channel_name, update_dm_nick, ensure_raw, ensure_nodelist,
}
use fmesh_cli.Tui.WindowManager.Messages.{
  append_status, append_meta, append_outgoing, append_text, rebuild_all_nicks, Received,
}
use fmesh_cli.Tui.WindowManager.Consistent.{Consistent, fresh-Consistent, on_window-Consistent}
use fmesh_cli.Tui.WindowManager.Closing.{close_window-Consistent}
use fmesh_cli.Tui.WindowManager.Ensured.{
  ensure_channel-Consistent, ensure_dm-Consistent, ensure_raw-Consistent,
  ensure_nodelist-Consistent, retitle_key-Consistent,
}
use fmesh_cli.Tui.WindowManager.Written.{
  append_status-Consistent, append_meta-Consistent, append_outgoing-Consistent,
  append_text-Consistent, rebuild_all_nicks-Consistent,
}

-- The operations that others call; a number is the time or a window's number.
pub data Op : Type 0 where
  reset : Op
  channel : Bytes → ℕ → Bytes → Op
  direct : Bytes → ℕ → Bytes → Op
  channel_name : Bytes → ℕ → Bytes → Op
  dm_nick : Bytes → ℕ → Bytes → Op
  raw : Bytes → Op
  nodelist : Bytes → Op
  status_line : ℕ → Bytes → ℕ → Op
  meta : ℕ → Bytes → Bytes → ℕ → Bytes → ℕ → Op
  outgoing : ℕ → Bytes → Bytes → ℕ → Bytes → Option NodeDb → Op
  received : ℕ → Option NodeDb → Received → Op
  nicks : ℕ → Bytes → Bytes → Op
  switch : ℕ → Op
  next : Op
  step : ℤ → Op
  close : ℕ → Op
  close_empty : ℕ → Op

unfoldable pub run : Platform → Service → Op → WindowManager → WindowManager
unfolding clear ensure_channel ensure_dm update_channel_name update_dm_nick ensure_raw
    ensure_nodelist append_status append_meta append_outgoing append_text rebuild_all_nicks select
    select_next_active select_relative close_window close_if_empty
run p s reset m = clear m
run p s (channel device idx name) m = (ensure_channel p s device idx name m).0
run p s (direct device peer nick) m = (ensure_dm p s device peer nick m).0
run p s (channel_name device idx name) m = update_channel_name s device idx name m
run p s (dm_nick device peer nick) m = update_dm_nick s device peer nick m
run p s (raw device) m = (ensure_raw device m).0
run p s (nodelist device) m = (ensure_nodelist s device m).0
run p s (status_line now text color) m = append_status p now text color m
run p s (meta now device kind target text color) m =
    append_meta p s now device kind target text color m
run p s (outgoing now device kind target text db) m =
    append_outgoing p s now device kind target text db m
run p s (received now db r) m = append_text p s now db r m
run p s (nicks node old_nick new_nick) m = rebuild_all_nicks node old_nick new_nick m
run p s (switch i) m = select i m
run p s next m = select_next_active m
run p s (step delta) m = select_relative delta m
run p s (close i) m = (close_window i m).0
run p s (close_empty i) m = (close_if_empty i m).0

-- Each operation with what the service answers while it runs.
unfoldable pub run_all : Platform → List (Service × Op) → WindowManager → WindowManager
unfolding run
run_all p [] m = m
run_all p (o ∷ os) m = run_all p os (run p o.0 o.1 m)

pub close_if_empty-Consistent :
    (i : ℕ) (m : WindowManager) → Consistent m → Consistent (close_if_empty i m).0
unfolding close_if_empty
close_if_empty-Consistent i m c = elim (Bool-cases (leb i 1)) [
  | inl e ↦ rw (close_if_empty, e) c
  | inr e ↦ elim (Option-cases (at i m.windows)) [
    | inl f ↦ rw (close_if_empty, e, f) c
    | inr (w, f) ↦ elim (Bool-cases (is_closable w)) [
      | inl g ↦ rw (close_if_empty, e, f, g) (close_window-Consistent i m c)
      | inr g ↦ rw (close_if_empty, e, f, g) c
    ]
  ]
]

get-bound : (i : ℕ) (ws : List Window) (w : Window) → get_elem? ws i ≡ some w → suc i ≤ length ws
get-bound i [] w h = cc
get-bound zero (v ∷ ws) w h = omega arith
get-bound (suc i) (v ∷ ws) w h = omega (arith, get-bound i ws w h)

shown_target : (w : Window) → (mark_read (scroll_to_bottom w)).target ≡ w.target
unfolding mark_read scroll_to_bottom
shown_target w = refl

pub go_to-Consistent : (i : ℕ) (m : WindowManager) → Consistent m → Consistent (go_to i m)
unfolding go_to at
go_to-Consistent zero m c = c
go_to-Consistent (suc i) m c = elim (Option-cases (get_elem? m.windows i)) [
  | inl e ↦ rw (go_to, e) c
  | inr (w, e) ↦
      rw (go_to, e)
        (on_window-Consistent (suc i) (λ w. mark_read (scroll_to_bottom w))
          (record m { current = suc i }) shown_target
          (record {
            first = c.first;
            lists = c.lists;
            one_each = c.one_each;
            indexed = c.indexed;
            current_from = omega arith;
            current_to = get-bound i m.windows w e;
          }))
]

if-Consistent :
    (b : Bool) (m m' : WindowManager)
    → Consistent m
    → Consistent m'
    → Consistent (if b then m else m')
if-Consistent true m m' c c' = c
if-Consistent false m m' c c' = c'

pub select-Consistent : (i : ℕ) (m : WindowManager) → Consistent m → Consistent (select i m)
unfolding select
select-Consistent i m c =
    let r = close_if_empty m.current m in
    if-Consistent (leb 1 m.current && (leb m.current (length m.windows) && not (m.current == i)))
      (go_to (if r.1 && ltb m.current i then i - 1 else i) r.0) (go_to i m)
      (go_to-Consistent (if r.1 && ltb m.current i then i - 1 else i) r.0
        (close_if_empty-Consistent m.current m c))
      (go_to-Consistent i m c)

select_next_active-Consistent :
    (m : WindowManager) → Consistent m → Consistent (select_next_active m)
unfolding select_next_active
select_next_active-Consistent m c =
    elim (Option-cases (next_active (length m.windows) (m.current - 1 + 1) m.windows)) [
      | inl e ↦ rw (select_next_active, e) c
      | inr (i, e) ↦ rw (select_next_active, e) (select-Consistent i m c)
    ]

select_relative-Consistent :
    (delta : ℤ) (m : WindowManager) → Consistent m → Consistent (select_relative delta m)
unfolding select_relative
select_relative-Consistent delta m c =
    elim m.windows
      as (λ ws. Consistent (elim ws [
        | [] ↦ m
        | w ∷ ws' ↦ select (relative (length m.windows) delta (m.current - 1) + 1) m
      ])) [
        | [] ↦ c
        | w ∷ ws ↦ select-Consistent (relative (length m.windows) delta (m.current - 1) + 1) m c
      ]

run-Consistent :
    (p : Platform) (s : Service) (o : Op) (m : WindowManager)
    → Consistent m
    → Consistent (run p s o m)
unfolding run clear update_channel_name update_dm_nick
run-Consistent p s reset m c = fresh-Consistent
run-Consistent p s (channel device idx name) m c = ensure_channel-Consistent p s device idx name m c
run-Consistent p s (direct device peer nick) m c = ensure_dm-Consistent p s device peer nick m c
run-Consistent p s (channel_name device idx name) m c =
    retitle_key-Consistent name (key_of device (codes "channel") idx)
      (channel_title s device idx name) m c
run-Consistent p s (dm_nick device peer nick) m c =
    retitle_key-Consistent nick (key_of device (codes "dm") peer) (dm_title s device peer nick) m c
run-Consistent p s (raw device) m c = ensure_raw-Consistent device m c
run-Consistent p s (nodelist device) m c = ensure_nodelist-Consistent s device m c
run-Consistent p s (status_line now text color) m c = append_status-Consistent p now text color m c
run-Consistent p s (meta now device kind target text color) m c =
    append_meta-Consistent p s now device kind target text color m c
run-Consistent p s (outgoing now device kind target text db) m c =
    append_outgoing-Consistent p s now device kind target text db m c
run-Consistent p s (received now db r) m c = append_text-Consistent p s now db r m c
run-Consistent p s (nicks node old_nick new_nick) m c =
    rebuild_all_nicks-Consistent node old_nick new_nick m c
run-Consistent p s (switch i) m c = select-Consistent i m c
run-Consistent p s next m c = select_next_active-Consistent m c
run-Consistent p s (step delta) m c = select_relative-Consistent delta m c
run-Consistent p s (close i) m c = close_window-Consistent i m c
run-Consistent p s (close_empty i) m c = close_if_empty-Consistent i m c

run_all-Consistent' :
    (p : Platform) (os : List (Service × Op)) (m : WindowManager)
    → Consistent m
    → Consistent (run_all p os m)
unfolding run_all
run_all-Consistent' p [] m c = c
run_all-Consistent' p (o ∷ os) m c =
    run_all-Consistent' p os (run p o.0 o.1 m) (run-Consistent p o.0 o.1 m c)

-- After any operations, whatever the mesh service and its database answer to each of them, window 1
-- is that of the status, no two windows have the same key, the table gives for every key the number
-- of the window that has it and nothing for the others, and the current number is that of a window.
pub run_all-Consistent : (p : Platform) (os : List (Service × Op)) → Consistent (run_all p os fresh)
run_all-Consistent p os = run_all-Consistent' p os fresh fresh-Consistent
