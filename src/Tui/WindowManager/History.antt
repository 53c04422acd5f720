-- ===== src/Tui/WindowManager/History.antt =====
-- The titles of the windows and load_history of src/tui/window_manager.cpp: a window without lines is
-- filled with the messages that the database holds for it.
use fmesh_cli.Common.{
  ℕ, ◌%◌, ◌^◌, true, false, ◌&&◌, not, List, [], ◌∷◌, ◌++◌, Option, none, some, Bytes, codes,
  length, ltb, ◌=?◌, if◌then◌else◌,
}
use fmesh_cli.App.Config.Atoi.{print}
use fmesh_cli.App.Config.Spec.{is_empty}
use fmesh_cli.Mesh.NodeId.{node_num_to_id}
use fmesh_cli.Mesh.NodeDb.{NodeDb, all}
use fmesh_cli.Tui.Window.{WindowTarget, Line, Window, append_line}
use fmesh_cli.Tui.Signal.{
  Platform, StoredMessage, Reception, Service, fmt_time, short_nick, format_message_signal,
  is_mention,
}
use fmesh_cli.Tui.WindowManager.{WindowManager, on_window}

-- The title with the name of its device if there are several.
unfoldable pub with_device : Service → Bytes → Bytes → Bytes
with_device service device base =
    let dname = service.display_name_for device in
    if ltb 1 (length service.device_ids) && not (is_empty dname)
    then base ++ (codes " @" ++ dname)
    else base

unfoldable pub channel_title : Service → Bytes → ℕ → Bytes → Bytes
unfolding with_device
channel_title service device idx name =
    with_device service device
      (if not (is_empty name) then codes "#" ++ name else codes "#ch" ++ print idx idx [])

unfoldable pub dm_title : Service → Bytes → ℕ → Bytes → Bytes
unfolding with_device
dm_title service device node nick =
    with_device service device (if not (is_empty nick) then nick else node_num_to_id node)

-- `for (did : device_ids()) if (d = db_for(did)) if (!d->all().empty()) …`
unfoldable pub first_filled : Service → List Bytes → Option NodeDb → Option NodeDb
unfolding all
first_filled service [] db = db
first_filled service (did ∷ dids) db = elim (service.db_for did) [
  | none ↦ first_filled service dids db
  | some d ↦ elim (all d) [ [] ↦ first_filled service dids db | n ∷ ns ↦ some d ]
]

-- The node database by which a device's history is shown.
unfoldable pub history_db : Service → Bytes → Option NodeDb
unfolding first_filled all
history_db service device = elim (service.db_for device) [
  | none ↦ first_filled service service.device_ids none
  | some d ↦ elim (all d) [
    | [] ↦ first_filled service service.device_ids (some d)
    | n ∷ ns ↦ some d
  ]
]

unfoldable pub my_num : Option NodeDb → ℕ
my_num none = 0
my_num (some db) = db.my_node_num

unfoldable pub history_line :
    Platform → Service → WindowTarget → Option NodeDb → StoredMessage → Line
unfolding fmt_time short_nick format_message_signal is_mention my_num
history_line p service t db m =
    let is_out = m.direction =? codes "out" in
    let sender = (if is_out then my_num db else m.from_node) in
    let ts = m.ts % 2 ^ 32 in
    let reception : Reception = record {
      snr = m.rx_snr;
      rssi = m.rx_rssi;
      start = m.hop_start;
      limit = m.hop_limit;
      relay = m.relay_node;
    } in
    let sig = format_message_signal p service is_out reception db in
    record {
      text =
          codes "["
          ++ (fmt_time p ts
              ++ (codes "] <"
                  ++ (short_nick service db sender ++ (codes "> " ++ (m.text ++ sig)))));
      color_pair = (if is_mention db m.text then 4 else if t.kind =? codes "dm" then 3 else 2);
      is_meta = false;
      sender_node = sender;
      ts = ts;
    }

-- Messages without a text are left out.
unfoldable pub show_messages :
    Platform → Service → WindowTarget → Option NodeDb → List StoredMessage → Window → Window
unfolding history_line append_line
show_messages p service t db [] w = w
show_messages p service t db (m ∷ ms) w = elim (is_empty m.text) [
  | true ↦ show_messages p service t db ms w
  | false ↦
      show_messages p service t db ms (append_line p.local_date (history_line p service t db m) w)
]

unfoldable pub history_of : Service → WindowTarget → List StoredMessage
history_of service t =
    elim (service.recent_messages (record { device = t.device; kind = t.kind; target = t.target })
      200) [
        | m ∷ ms ↦ m ∷ ms
        | [] ↦
            (if is_empty t.device
              then []
              else service.recent_messages
                  (record { device = []; kind = t.kind; target = t.target }) 200)
      ]

unfoldable pub filled : Platform → Service → Window → Window
unfolding history_of history_db show_messages
filled p service w = elim w.lines [
  | l ∷ ls ↦ w
  | [] ↦
      (if w.target.kind =? codes "status"
        then w
        else show_messages p service w.target (history_db service w.target.device)
            (history_of service w.target) w)
]

unfoldable pub load_history : Platform → Service → ℕ → WindowManager → WindowManager
unfolding on_window filled
load_history p service i m = on_window i (filled p service) m
