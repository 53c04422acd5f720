-- ===== src/Tui/Command/Windows.antt =====
-- The commands of src/tui/command.cpp that close, show, make and clear windows.
use fmesh_cli.Common.{
  ℕ, suc, Bool, true, false, ◌&&◌, ◌||◌, not, List, [], ◌∷◌, ◌++◌, Option, none, some, Bytes, codes,
  length, take, leb, ◌==◌, ◌=?◌, if◌then◌else◌,
}
use fmesh_cli.App.Config.Atoi.{print}
use fmesh_cli.App.Config.Spec.{is_empty}
use fmesh_cli.Mesh.NodeId.{stoul, to_uint32}
use fmesh_cli.Mesh.NodeDb.{NodeDb, Channel, channel, place, occurs}
use fmesh_cli.Tui.Window.{Window, clear}
use fmesh_cli.Tui.Signal.{Platform, Service}
use fmesh_cli.Tui.WindowManager.{WindowManager, at, close_window, on_window, select}
use fmesh_cli.Tui.WindowManager.Routing.{ensure_channel, ensure_nodelist}
use fmesh_cli.Tui.Command.{
  Call, status, error, info, Outcome, stoi, window_number, no_devices, joined,
}

-- The number of the first window with a title or a kind, from number `i` on.
unfoldable pub titled : Bytes → ℕ → List Window → Option ℕ
titled query i [] = none
titled query i (w ∷ ws) =
    let rest = titled query (suc i) ws in
    if w.title =? query || w.target.kind =? query then some i else rest

-- The window that the argument means; without one it is the current window.
unfoldable pub to_close : List Bytes → WindowManager → Option ℕ
unfolding stoi window_number titled
to_close [] m = some m.current
to_close (query ∷ args) m = elim (stoi query) [
  | some n ↦ some (window_number n)
  | none ↦ titled query 1 m.windows
]

unfoldable pub cmd_close : List Bytes → WindowManager → Outcome
unfolding to_close at close_window
cmd_close args m = elim (to_close args m) [
  | none ↦ (m, status (codes "Invalid window number or name: " ++ joined (take 1 args)) error ∷ [])
  | some i ↦ elim (if leb i 1 then none else at i m.windows) [
    | none ↦ (m, status (codes "Cannot close the status window") error ∷ [])
    | some w ↦
        let closed = close_window i m in
        (
          closed.0,
          (if closed.1
                then status
                    (codes "Closed window "
                      ++ (print i i [] ++ (codes " (" ++ (w.title ++ codes ")"))))
                    info
                else status (codes "Failed to close window") error)
              ∷ [],
        )
  ]
]

unfoldable pub cmd_window : List Bytes → WindowManager → Outcome
unfolding stoi window_number select
cmd_window [] m = (m, status (codes "Usage: /window <N>") error ∷ [])
cmd_window (n ∷ args) m = elim (stoi n) [
  | none ↦ (m, status (codes "Invalid window number") error ∷ [])
  | some i ↦ (select (window_number i) m, [])
]

-- `if (auto* w = wm_.current_window()) w->clear();`
unfoldable pub cmd_clear : WindowManager → Outcome
unfolding on_window clear
cmd_clear m = (on_window m.current clear m, [])

-- The first device that has a node database.
unfoldable pub first_with_db : Service → List Bytes → Option Bytes
first_with_db service [] = none
first_with_db service (id ∷ ids) =
    let rest = first_with_db service ids in
    elim (service.db_for id) [ some db ↦ some id | none ↦ rest ]

unfoldable pub has_db : Option NodeDb → Bool
has_db none = false
has_db (some db) = true

-- The active device, if it is known; else the first known one.
unfoldable pub channel_device : Service → Bytes → Bytes → List Bytes → Bytes
unfolding has_db first_with_db
channel_device service active id ids =
    if not (is_empty active) && has_db (service.db_for active)
    then active
    else elim (first_with_db service (id ∷ ids)) [
      | some dev ↦ dev
      | none ↦ (if is_empty active then id else active)
    ]

unfoldable pub channel_in : Option NodeDb → ℕ → Option Channel
unfolding channel
channel_in none idx = none
channel_in (some db) idx = channel idx db

-- What the command says of the channel's role and name.
unfoldable pub channel_note : ℕ → Bytes → Bytes → List Call
channel_note idx name role =
    let head = codes "Note: channel " ++ print idx idx [] in
    if role =? codes "DISABLED"
    then status (head ++ codes " is DISABLED") error ∷ []
    else if is_empty name
    then status (head ++ codes " has no name") info ∷ []
    else []

unfoldable pub cmd_channel : Platform → Service → Bytes → List Bytes → WindowManager → Outcome
unfolding stoul to_uint32 channel_device channel_in ensure_channel select channel_note
cmd_channel p service active [] m = (m, status (codes "Usage: /channel <n>") error ∷ [])
cmd_channel p service active (n ∷ args) m = elim (to_uint32 (stoul 10 n)) [
  | none ↦ (m, status (codes "Invalid channel index") error ∷ [])
  | some idx ↦ elim service.device_ids [
    | [] ↦ (m, no_devices ∷ [])
    | id ∷ ids ↦
        let dev = channel_device service active id ids in
        let found = channel_in (service.db_for dev) idx in
        let name : Bytes = (elim found [ none ↦ [] | some c ↦ c.name ]) in
        let role : Bytes = (elim found [ none ↦ [] | some c ↦ c.role ]) in
        let made = ensure_channel p service dev idx name m in
        (select made.1 made.0, channel_note idx name role)
  ]
]

-- The device or its name is the query.
unfoldable pub is_named : Service → Bytes → Bytes → Bool
is_named service query id = id =? query || service.display_name_for id =? query

-- The query stands in the device or in its name.
unfoldable pub is_like : Service → Bytes → Bytes → Bool
unfolding occurs place
is_like service query id =
    occurs (place query id) || occurs (place query (service.display_name_for id))

unfoldable pub first_that : (Bytes → Bool) → List Bytes → Option Bytes
first_that test [] = none
first_that test (id ∷ ids) = let rest = first_that test ids in if test id then some id else rest

-- The only device, or "*" for all.
unfoldable pub all_devices : List Bytes → Bytes
all_devices [] = codes "*"
all_devices (id ∷ []) = id
all_devices (id ∷ i ∷ ids) = codes "*"

-- The device that the argument means.
unfoldable pub listed_device : Service → List Bytes → Option Bytes
unfolding is_named is_like first_that all_devices
listed_device service [] = some (all_devices service.device_ids)
listed_device service (query ∷ args) =
    if query =? codes "*" || query =? codes "all"
    then some (all_devices service.device_ids)
    else elim (first_that (is_named service query) service.device_ids) [
      | some id ↦ some id
      | none ↦ first_that (is_like service query) service.device_ids
    ]

unfoldable pub cmd_nodes : Service → List Bytes → WindowManager → Outcome
unfolding listed_device ensure_nodelist select
cmd_nodes service args m =
    if length service.device_ids == 0
    then (m, no_devices ∷ [])
    else elim (listed_device service args) [
      | none ↦ (m, status (codes "No device matched: " ++ joined (take 1 args)) error ∷ [])
      | some dev ↦
          let made = ensure_nodelist service dev m in
          let count = length service.device_ids in
          (
            select made.1 made.0,
            status
                  ((if dev =? codes "*"
                    then codes "Unified node list for "
                      ++ (print count count []
                          ++ codes " devices (arrows=select, enter=info, s=sort)")
                    else codes "Nodes for "
                      ++ (service.display_name_for dev
                          ++ codes " (arrows=select, enter=info, s=sort)")))
                  info
                ∷ [],
          )
    ]
