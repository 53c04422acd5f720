-- ===== src/Tui/WindowManager/Written.antt =====
-- The operations of window_manager.cpp that write into a window keep the numbers and the table right.
use fmesh_cli.Common.{
  ℕ, suc, ◌≡◌, refl, sym, ap, ◌∙◌, Bool, true, false, List, [], ◌∷◌, Option, some, Bytes, codes,
  length, ◌==◌, ◌=?◌, if◌then◌else◌, arith, Bool-cases, Option-cases, inl, inr, ap₂, ◌||◌,
}
use fmesh_cli.Tui.Window.{Line, Window, Date, append_line, mark_read, bump_activity, rebuild_nick}
use fmesh_cli.Tui.WindowManager.Ensured.{
  append_line_target, ensure_channel-Consistent, ensure_dm-Consistent,
}
use fmesh_cli.Tui.WindowManager.Routing.{ensure_channel, ensure_dm}
use fmesh_cli.Tui.WindowManager.Messages.{
  append_status, append_meta, append_outgoing, append_text, rename_all, rebuild_all_nicks,
  ensure_kind, ensure_for, Received, meta_line, outgoing_line, peer_of, show_text, received_line,
  notice,
}
use fmesh_cli.Mesh.NodeDb.{NodeDb}
use fmesh_cli.Tui.Signal.{Platform, Service, short_nick, is_mention}
use fmesh_cli.Tui.WindowManager.{WindowManager, on_window, is_empty, target_key}
use fmesh_cli.Tui.WindowManager.Consistent.{
  keys, first_target, Consistent, ListsAtZero, on_window-Consistent, is_plain,
}

-- A line, and then what `f` makes of the window.
written-Consistent :
    (date : ℕ → Date) (i : ℕ) (l : Line) (f : Window → Window) (m : WindowManager)
    → ((v : Window) → (f v).target ≡ v.target)
    → Consistent m
    → Consistent (on_window i (λ w. f (append_line date l w)) m)
written-Consistent date i l f m h c =
    on_window-Consistent i (λ w. f (append_line date l w)) m
      (λ w. h (append_line date l w) ∙ append_line_target date l w) c

bump_unless_target :
    (b : Bool) (level : ℕ) (w : Window) → (if b then w else bump_activity level w).target ≡ w.target
unfolding bump_activity
bump_unless_target true level w = refl
bump_unless_target false level w = refl

mark_if_target : (b : Bool) (w : Window) → (if b then mark_read w else w).target ≡ w.target
unfolding mark_read
mark_if_target true w = refl
mark_if_target false w = refl

pub append_status-Consistent :
    (p : Platform) (now : ℕ) (text : Bytes) (color : ℕ) (m : WindowManager)
    → Consistent m
    → Consistent (append_status p now text color m)
unfolding append_status
append_status-Consistent p now text color m c =
    written-Consistent p.local_date 1 (meta_line p now text color)
      (λ v. if m.current == 1 then v else bump_activity 1 v) m
      (bump_unless_target (m.current == 1) 1) c

pub ensure_kind-Consistent :
    (p : Platform) (s : Service) (device kind : Bytes) (target : ℕ) (m : WindowManager)
    (r : WindowManager × ℕ)
    → Consistent m
    → ensure_kind p s device kind target m ≡ some r
    → Consistent r.0
unfolding ensure_kind
ensure_kind-Consistent p s device kind target m r c h =
    elim (Bool-cases (kind =? codes "channel")) [
      | inl e ↦
          let q : ensure_channel p s device target [] m ≡ r = ground arith in
          rw (sym q) (ensure_channel-Consistent p s device target [] m c)
      | inr e ↦ elim (Bool-cases (kind =? codes "dm")) [
        | inl f ↦
            let q : ensure_dm p s device target [] m ≡ r = ground arith in
            rw (sym q) (ensure_dm-Consistent p s device target [] m c)
        | inr f ↦ absurd (ground arith)
      ]
    ]

pub append_meta-Consistent :
    (p : Platform) (s : Service) (now : ℕ) (device kind : Bytes) (target : ℕ) (text : Bytes)
    (color : ℕ) (m : WindowManager)
    → Consistent m
    → Consistent (append_meta p s now device kind target text color m)
unfolding append_meta
append_meta-Consistent p s now device kind target text color m c =
    elim (Option-cases (ensure_kind p s device kind target m)) [
      | inl e ↦ rw (append_meta, e) (append_status-Consistent p now text color m c)
      | inr (r, e) ↦
          rw (append_meta, e)
            (written-Consistent p.local_date r.1 (meta_line p now text color)
              (λ v. if r.1 == r.0.current then v else bump_activity 1 v) r.0
              (bump_unless_target (r.1 == r.0.current) 1)
              (ensure_kind-Consistent p s device kind target m r c e))
    ]

pub append_outgoing-Consistent :
    (p : Platform) (s : Service) (now : ℕ) (device kind : Bytes) (target : ℕ) (text : Bytes)
    (db : Option NodeDb) (m : WindowManager)
    → Consistent m
    → Consistent (append_outgoing p s now device kind target text db m)
unfolding append_outgoing
append_outgoing-Consistent p s now device kind target text db m c =
    elim (Option-cases (ensure_kind p s device kind target m)) [
      | inl e ↦ rw (append_outgoing, e) c
      | inr (r, e) ↦
          rw (append_outgoing, e)
            (written-Consistent p.local_date r.1 (outgoing_line p s now kind text db)
              (λ v. if r.1 == r.0.current then mark_read v else v) r.0
              (mark_if_target (r.1 == r.0.current))
              (ensure_kind-Consistent p s device kind target m r c e))
    ]

ensure_for-Consistent :
    (p : Platform) (s : Service) (db : Option NodeDb) (r : Received) (m : WindowManager)
    → Consistent m
    → Consistent (ensure_for p s db r m).0
unfolding ensure_for
ensure_for-Consistent p s db r m c = elim (Bool-cases r.broadcast) [
  | inl e ↦ simp (ensure_for, e) (ensure_channel-Consistent p s r.device r.channel_idx [] m c)
  | inr e ↦
      simp (ensure_for, e)
        (ensure_dm-Consistent p s r.device (peer_of db r) (short_nick s db (peer_of db r)) m c)
]

mark_read_target : (w : Window) → (mark_read w).target ≡ w.target
unfolding mark_read
mark_read_target w = refl

bump_target : (level : ℕ) (w : Window) → (bump_activity level w).target ≡ w.target
unfolding bump_activity
bump_target level w = refl

show_text-Consistent :
    (p : Platform) (s : Service) (now : ℕ) (db : Option NodeDb) (r : Received) (i : ℕ)
    (m : WindowManager)
    → Consistent m
    → Consistent (show_text p s now db r i m)
unfolding show_text
show_text-Consistent p s now db r i m c = elim (Bool-cases (i == m.current)) [
  | inl e ↦
      rw (show_text, e)
        (written-Consistent p.local_date i (received_line p s db r) mark_read m mark_read_target c)
  | inr e ↦
      rw (show_text, e)
        (append_status-Consistent p now (notice p s db r).0 (notice p s db r).1
          (on_window i
            (λ w.
              bump_activity (if is_mention db r.text then 2 else 1)
                (append_line p.local_date (received_line p s db r) w))
            m)
          (written-Consistent p.local_date i (received_line p s db r)
            (bump_activity (if is_mention db r.text then 2 else 1)) m
            (bump_target (if is_mention db r.text then 2 else 1)) c))
]

pub append_text-Consistent :
    (p : Platform) (s : Service) (now : ℕ) (db : Option NodeDb) (r : Received) (m : WindowManager)
    → Consistent m
    → Consistent (append_text p s now db r m)
unfolding append_text
append_text-Consistent p s now db r m c =
    show_text-Consistent p s now db r (ensure_for p s db r m).1 (ensure_for p s db r m).0
      (ensure_for-Consistent p s db r m c)

rebuild_nick_target :
    (node : ℕ) (old_nick new_nick : Bytes) (w : Window)
    → (rebuild_nick node old_nick new_nick w).target ≡ w.target
unfolding rebuild_nick
rebuild_nick_target node old_nick new_nick w =
    elim (Bool-cases (is_empty new_nick || old_nick =? new_nick)) [
      | inl e ↦ rw (rebuild_nick, e) refl
      | inr e ↦ rw (rebuild_nick, e) refl
    ]

keys-rename_all :
    (node : ℕ) (old_nick new_nick : Bytes) (ws : List Window)
    → keys (rename_all node old_nick new_nick ws) ≡ keys ws
unfolding rename_all keys
keys-rename_all node old_nick new_nick [] = refl
keys-rename_all node old_nick new_nick (w ∷ ws) =
    ap₂ (λ t ks. target_key t ∷ ks) (rebuild_nick_target node old_nick new_nick w)
      (keys-rename_all node old_nick new_nick ws)

rename_all_first :
    (node : ℕ) (old_nick new_nick : Bytes) (ws : List Window)
    → first_target (rename_all node old_nick new_nick ws) ≡ first_target ws
unfolding rename_all first_target
rename_all_first node old_nick new_nick [] = refl
rename_all_first node old_nick new_nick (w ∷ ws) =
    ap some (rebuild_nick_target node old_nick new_nick w)

rename_all-ListsAtZero :
    (node : ℕ) (old_nick new_nick : Bytes) (ws : List Window)
    → ListsAtZero ws
    → ListsAtZero (rename_all node old_nick new_nick ws)
unfolding rename_all
rename_all-ListsAtZero node old_nick new_nick [] l = tt
rename_all-ListsAtZero node old_nick new_nick (w ∷ ws) l = (
  ap is_plain (rebuild_nick_target node old_nick new_nick w) ∙ l.0,
  rename_all-ListsAtZero node old_nick new_nick ws l.1,
)

length-rename_all :
    (node : ℕ) (old_nick new_nick : Bytes) (ws : List Window)
    → length (rename_all node old_nick new_nick ws) ≡ length ws
unfolding rename_all
length-rename_all node old_nick new_nick [] = refl
length-rename_all node old_nick new_nick (w ∷ ws) =
    ap suc (length-rename_all node old_nick new_nick ws)

pub rebuild_all_nicks-Consistent :
    (node : ℕ) (old_nick new_nick : Bytes) (m : WindowManager)
    → Consistent m
    → Consistent (rebuild_all_nicks node old_nick new_nick m)
unfolding rebuild_all_nicks
rebuild_all_nicks-Consistent node old_nick new_nick m c = record {
  first = rename_all_first node old_nick new_nick m.windows ∙ c.first;
  lists = rename_all-ListsAtZero node old_nick new_nick m.windows c.lists;
  one_each = rw (keys-rename_all node old_nick new_nick m.windows) c.one_each;
  indexed = λ key. rw (keys-rename_all node old_nick new_nick m.windows) (c.indexed key);
  current_from = c.current_from;
  current_to = omega (arith, length-rename_all node old_nick new_nick m.windows, c.current_to);
}
