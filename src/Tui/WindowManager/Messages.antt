-- ===== src/Tui/WindowManager/Messages.antt =====
-- The operations of src/tui/window_manager.cpp that write a line into a window.
use fmesh_cli.Common.{
  ℕ, Bool, true, false, ◌&&◌, List, [], ◌∷◌, ◌++◌, Option, none, some, Bytes, codes, length, drop,
  get_or, ltb, ◌==◌, ◌=?◌, if◌then◌else◌,
}
use fmesh_cli.Mesh.NodeDb.{NodeDb}
use fmesh_cli.Tui.Window.{Line, Window, append_line, mark_read, bump_activity, rebuild_nick}
use fmesh_cli.Tui.Signal.{
  Platform, Reception, Service, fmt_time, short_nick, format_message_signal, is_mention,
}
use fmesh_cli.Tui.WindowManager.{WindowManager, on_window}
use fmesh_cli.Tui.WindowManager.History.{channel_title, my_num}
use fmesh_cli.Tui.WindowManager.Routing.{ensure_channel, ensure_dm}

-- A line about no message, at the time `now`.
unfoldable pub meta_line : Platform → ℕ → Bytes → ℕ → Line
unfolding fmt_time
meta_line p now text color_pair = record {
  text = codes "[" ++ (fmt_time p now ++ (codes "] " ++ text));
  color_pair = color_pair;
  is_meta = true;
  sender_node = 0;
  ts = now;
}

unfoldable pub append_status : Platform → ℕ → Bytes → ℕ → WindowManager → WindowManager
unfolding on_window append_line bump_activity meta_line
append_status p now text color_pair m =
    on_window 1
      (λ w.
        let w' = append_line p.local_date (meta_line p now text color_pair) w in
        if m.current == 1 then w' else bump_activity 1 w')
      m

-- The window of a channel or a direct chat; another kind has none.
unfoldable pub ensure_kind :
    Platform → Service → Bytes → Bytes → ℕ → WindowManager → Option (WindowManager × ℕ)
unfolding ensure_channel ensure_dm
ensure_kind p service device kind target m =
    if kind =? codes "channel"
    then some (ensure_channel p service device target [] m)
    else if kind =? codes "dm"
    then some (ensure_dm p service device target [] m)
    else none

unfoldable pub append_meta :
    Platform → Service → ℕ → Bytes → Bytes → ℕ → Bytes → ℕ → WindowManager → WindowManager
unfolding ensure_kind on_window append_line bump_activity meta_line append_status
append_meta p service now device kind target text color_pair m =
    elim (ensure_kind p service device kind target m) [
      | none ↦ append_status p now text color_pair m
      | some r ↦
          on_window r.1
            (λ w.
              let w' = append_line p.local_date (meta_line p now text color_pair) w in
              if r.1 == r.0.current then w' else bump_activity 1 w')
            r.0
    ]

unfoldable pub outgoing_line : Platform → Service → ℕ → Bytes → Bytes → Option NodeDb → Line
unfolding fmt_time short_nick my_num
outgoing_line p service now kind text db =
    let me = my_num db in
    record {
      text =
          codes "["
          ++ (fmt_time p now
              ++ (codes "] <" ++ (short_nick service db me ++ (codes "> " ++ text))));
      color_pair = (if kind =? codes "dm" then 3 else 2);
      is_meta = false;
      sender_node = me;
      ts = now;
    }

unfoldable pub append_outgoing :
    Platform
    → Service
    → ℕ
    → Bytes
    → Bytes
    → ℕ
    → Bytes
    → Option NodeDb
    → WindowManager
    → WindowManager
unfolding ensure_kind on_window append_line mark_read outgoing_line
append_outgoing p service now device kind target text db m =
    elim (ensure_kind p service device kind target m) [
      | none ↦ m
      | some r ↦
          on_window r.1
            (λ w.
              let w' = append_line p.local_date (outgoing_line p service now kind text db) w in
              if r.1 == r.0.current then mark_read w' else w')
            r.0
    ]

-- A received text message.
pub record Received : Type 0 where
  pub device : Bytes
  pub from_node : ℕ
  pub to_node : ℕ
  pub channel_idx : ℕ
  pub broadcast : Bool
  pub text : Bytes
  pub ts : ℕ
  pub reception : Reception

-- The other end of a direct message.
unfoldable pub peer_of : Option NodeDb → Received → ℕ
peer_of none r = r.from_node
peer_of (some db) r = if r.from_node == db.my_node_num then r.to_node else r.from_node

unfoldable pub ensure_for :
    Platform → Service → Option NodeDb → Received → WindowManager → WindowManager × ℕ
unfolding ensure_channel ensure_dm peer_of short_nick
ensure_for p service db r m =
    let peer = peer_of db r in
    if r.broadcast
    then ensure_channel p service r.device r.channel_idx [] m
    else ensure_dm p service r.device peer (short_nick service db peer) m

unfoldable pub is_action : Bytes → Bool
is_action text = ltb 2 (length text) && (get_or text 0 0 == b'*' && get_or text 1 0 == b' ')

unfoldable pub received_line : Platform → Service → Option NodeDb → Received → Line
unfolding fmt_time short_nick format_message_signal is_mention is_action
received_line p service db r =
    let nick = short_nick service db r.from_node in
    let sig = format_message_signal p service false r.reception db in
    record {
      text =
          codes "["
          ++ (fmt_time p r.ts
              ++ (if is_action r.text
                  then codes "] * " ++ (nick ++ (codes " " ++ (drop 2 r.text ++ sig)))
                  else codes "] <" ++ (nick ++ (codes "> " ++ (r.text ++ sig)))));
      color_pair = (if is_mention db r.text then 4 else if r.broadcast then 2 else 3);
      is_meta = is_action r.text;
      sender_node = r.from_node;
      ts = r.ts;
    }

-- What the status window says of a message to a window that is not shown, and its color.
unfoldable pub notice : Platform → Service → Option NodeDb → Received → Bytes × ℕ
unfolding short_nick format_message_signal channel_title
notice p service db r =
    let nick = short_nick service db r.from_node in
    let sig = format_message_signal p service false r.reception db in
    if r.broadcast
    then (
      codes "["
          ++ (channel_title service r.device r.channel_idx []
              ++ (codes "] <" ++ (nick ++ (codes "> " ++ (r.text ++ sig))))),
      2,
    )
    else (codes "*** New DM from " ++ (nick ++ (codes ": " ++ r.text)), 3)

-- The message goes into window `i`, with a notice if that is not shown.
unfoldable pub show_text :
    Platform → Service → ℕ → Option NodeDb → Received → ℕ → WindowManager → WindowManager
unfolding on_window append_line received_line bump_activity mark_read is_mention notice
    append_status
show_text p service now db r i m =
    let line = received_line p service db r in
    if i == m.current
    then on_window i (λ w. mark_read (append_line p.local_date line w)) m
    else append_status p now (notice p service db r).0 (notice p service db r).1 (
        on_window i
          (λ w.
            bump_activity (if is_mention db r.text then 2 else 1) (append_line p.local_date line w))
          m)

unfoldable pub append_text :
    Platform → Service → ℕ → Option NodeDb → Received → WindowManager → WindowManager
unfolding ensure_for show_text
append_text p service now db r m =
    let (m', i) = ensure_for p service db r m in show_text p service now db r i m'

unfoldable pub rename_all : ℕ → Bytes → Bytes → List Window → List Window
unfolding rebuild_nick
rename_all node old_nick new_nick [] = []
rename_all node old_nick new_nick (w ∷ ws) =
    rebuild_nick node old_nick new_nick w ∷ rename_all node old_nick new_nick ws

unfoldable pub rebuild_all_nicks : ℕ → Bytes → Bytes → WindowManager → WindowManager
unfolding rename_all
rebuild_all_nicks node old_nick new_nick m = record m {
  windows = rename_all node old_nick new_nick m.windows;
}
