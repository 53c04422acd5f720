-- ===== src/Tui/Command.antt =====
-- CommandDispatcher of src/tui/command.cpp, as far as it sends text and acts on the windows: the line
-- that is no command, and the commands query, msg and me; nodes, close, window, channel and clear are
-- in Windows. What MeshService answers is a Service, the same while a command runs. The lines for the
-- status window and the texts to send are returned in their order.
pub mod Windows
mod Tests
use fmesh_cli.Common.{
  ℕ, suc, ◌-◌, ◌^◌, Bool, true, false, ◌&&◌, ◌||◌, not, List, [], ◌∷◌, ◌++◌, Option, none, some,
  Bytes, codes, length, take, ltb, leb, ◌==◌, ◌=?◌, if◌then◌else◌,
}
use fmesh_cli.App.Config.Atoi.{ℤ, neg, is_space, print}
use fmesh_cli.App.Config.Spec.{is_empty}
use fmesh_cli.Mesh.NodeId.{magnitude, stoul, to_uint32}
use fmesh_cli.Mesh.NodeDb.{Node, NodeDb, Channel, find_fuzzy, channel, place, occurs}
use fmesh_cli.Tui.Window.{Window, clear}
use fmesh_cli.Tui.Signal.{Platform, Service}
use fmesh_cli.Tui.WindowManager.{WindowManager, at, close_window, current_target, on_window, select}
use fmesh_cli.Tui.WindowManager.Messages.{append_outgoing}
use fmesh_cli.Tui.WindowManager.Routing.{ensure_channel, ensure_dm, ensure_nodelist}

pub data Call : Type 0 where
  status : Bytes → ℕ → Call
  send_text : Bytes → ℕ → ℕ → Bytes → Bool → Call

-- tui_color::ERROR and tui_color::INFO
abbrev pub error : ℕ
error = 5

abbrev pub info : ℕ
info = 6

-- What a command makes of the windows, and what it calls.
abbrev pub Outcome : Type 0
Outcome = WindowManager × List Call

-- The words that `>>` reads; `word` is what of the current one is read.
unfoldable pub words_from : Bytes → Bytes → List Bytes
words_from word [] = if is_empty word then [] else word ∷ []
words_from word (c ∷ cs) =
    let rest = words_from [] cs in
    elim (is_space c) [
      | true ↦ (if is_empty word then rest else word ∷ rest)
      | false ↦ words_from (word ++ (c ∷ [])) cs
    ]

unfoldable pub split : Bytes → List Bytes
unfolding words_from
split s = words_from [] s

-- A value out of the range of `int` is an exception, `none`.
unfoldable pub in_int : Bool → Option ℕ → Option ℤ
in_int negative none = none
in_int true (some n) = if leb n (2 ^ 31) then some (neg n) else none
in_int false (some n) = if ltb n (2 ^ 31) then some (ℤ.pos n) else none

-- `std::stoi`
unfoldable pub stoi : Bytes → Option ℤ
unfolding magnitude in_int
stoi [] = none
stoi (c ∷ cs) = elim (is_space c) [
  | true ↦ stoi cs
  | false ↦
      (if c == b'-'
        then in_int true (magnitude 10 cs)
        else if c == b'+'
        then in_int false (magnitude 10 cs)
        else in_int false (magnitude 10 (c ∷ cs)))
]

-- The number of a window; none has a negative one, and none has 0.
unfoldable pub window_number : ℤ → ℕ
window_number (ℤ.pos n) = n
window_number (ℤ.negsuc n) = 0

-- A line that is no command goes to the target of the current window.
unfoldable pub send_line : Platform → Service → ℕ → Bytes → WindowManager → Outcome
unfolding current_target append_outgoing
send_line p service now line m = elim (current_target m) [
  | none ↦ (
    m,
    status (codes "Cannot send text from the status window. Use /query <node> or /channel <n>.")
          error
        ∷ [],
  )
  | some t ↦ (
    append_outgoing p service now t.device t.kind t.target line (service.db_for t.device) m,
    if t.kind =? codes "channel"
        then send_text t.device (2 ^ 32 - 1) t.target line false ∷ []
        else if t.kind =? codes "dm"
        then send_text t.device t.target 0 line true ∷ []
        else [],
  )
]

-- The device of a node, its database and the node.
pub record Match : Type 0 where
  pub device : Bytes
  pub db : NodeDb
  pub node : Node

-- `try_device`, as far as it looks for the node.
unfoldable pub try_device : Service → Bytes → Bytes → Option Match
unfolding find_fuzzy
try_device service query id = elim (service.db_for id) [
  | none ↦ none
  | some db ↦ elim (find_fuzzy query db) [
    | none ↦ none
    | some n ↦ some (record { device = id; db = db; node = n })
  ]
]

-- The devices one after the other, but for the active one.
unfoldable pub try_others : Service → Bytes → Bytes → List Bytes → Option Match
unfolding try_device
try_others service query active [] = none
try_others service query active (id ∷ ids) =
    let rest = try_others service query active ids in
    if id =? active
    then rest
    else elim (try_device service query id) [ some found ↦ some found | none ↦ rest ]

-- The active device comes first.
unfoldable pub first_match : Service → Bytes → Bytes → Option Match
unfolding try_device try_others
first_match service active query =
    elim (if is_empty active then none else try_device service query active) [
      | some found ↦ some found
      | none ↦ try_others service query active service.device_ids
    ]

unfoldable pub no_match : Bytes → Call
no_match query = status (codes "No node matched '" ++ (query ++ codes "'")) error

abbrev pub no_devices : Call
no_devices = status (codes "(no devices connected)") error

-- The code selects the last window.
unfoldable pub cmd_query : Platform → Service → Bytes → List Bytes → WindowManager → Outcome
unfolding first_match no_match ensure_dm select
cmd_query p service active [] m = (m, status (codes "Usage: /query <node|nick>") error ∷ [])
cmd_query p service active (query ∷ args) m = elim service.device_ids [
  | [] ↦ (m, no_devices ∷ [])
  | id ∷ ids ↦ elim (first_match service active query) [
    | none ↦ (m, no_match query ∷ [])
    | some found ↦
        let n = found.node in
        let nick = (if is_empty n.short_name then n.long_name else n.short_name) in
        let m' = (ensure_dm p service found.device n.node_num nick m).0 in
        (
          select (length m'.windows) m',
          status
                (codes "Now talking to "
                  ++ (n.long_name ++ (codes " (" ++ (n.node_id ++ codes ")"))))
                info
              ∷ [],
        )
  ]
]

-- The words with a blank between them.
unfoldable pub joined : List Bytes → Bytes
joined [] = []
joined (w ∷ []) = w
joined (w ∷ v ∷ ws) = w ++ (b' ' ∷ joined (v ∷ ws))

unfoldable pub cmd_msg : Platform → Service → ℕ → Bytes → List Bytes → WindowManager → Outcome
unfolding first_match no_match joined append_outgoing
cmd_msg p service now active [] m = (m, status (codes "Usage: /msg <node|nick> <text>") error ∷ [])
cmd_msg p service now active (query ∷ []) m =
    (m, status (codes "Usage: /msg <node|nick> <text>") error ∷ [])
cmd_msg p service now active (query ∷ w ∷ ws) m =
    let text = joined (w ∷ ws) in
    elim (first_match service active query) [
      | none ↦ (m, no_match query ∷ [])
      | some found ↦ (
        append_outgoing p service now found.device (codes "dm") found.node.node_num text
            (some found.db) m,
        send_text found.device found.node.node_num 0 text true ∷ [],
      )
    ]

-- `/me`: a text after "* ", also to a window that is no channel's.
unfoldable pub cmd_me : Platform → Service → ℕ → List Bytes → WindowManager → Outcome
unfolding joined current_target append_outgoing
cmd_me p service now args m =
    let text = codes "* " ++ joined args in
    elim (current_target m) [
      | none ↦ (m, status (codes "Cannot /me from status window") error ∷ [])
      | some t ↦ (
        append_outgoing p service now t.device t.kind t.target text (service.db_for t.device) m,
        (if t.kind =? codes "channel"
              then send_text t.device (2 ^ 32 - 1) t.target text false
              else send_text t.device t.target 0 text true)
            ∷ [],
      )
    ]
