-- ===== src/Tui/Signal.antt =====
-- The helpers of src/tui/window_manager.cpp that make the text of a line: its time, the nick of its
-- sender and how it was received. The time zone and the printing of floating-point numbers are
-- parameters (a Platform); what the mesh service and the database answer is a Service.
use fmesh_cli.Common.{
  ℕ, ◌-◌, ◌%◌, ◌^◌, Bool, false, ◌&&◌, ◌||◌, not, List, [], ◌∷◌, ◌++◌, Option, none, some, Bytes,
  codes, take, ltb, leb, ◌==◌, if◌then◌else◌,
}
use fmesh_cli.App.Config.Atoi.{ℤ, print, to_string}
use fmesh_cli.App.Config.Spec.{is_empty, same_int}
use fmesh_cli.Mesh.NodeId.{node_num_to_id, hex_from}
use fmesh_cli.Mesh.NodeDb.{Node, NodeDb, get, all, occurs}
use fmesh_cli.Tui.Window.{Date, padded, find}

-- A time of the day.
pub record Clock : Type 0 where
  pub hour : ℕ
  pub min : ℕ
  pub sec : ℕ

-- `localtime_r` and "%.1f" of the bits of a floating-point number.
pub record Platform : Type 0 where
  pub local_date : ℕ → Date
  pub local_time : ℕ → Clock
  pub one_decimal : ℕ → Bytes

pub record WindowKey : Type 0 where
  pub device : Bytes
  pub kind : Bytes
  pub target : ℕ

-- The fields of a stored message that a window shows. `rx_snr` is the bits of a float.
pub record StoredMessage : Type 0 where
  pub direction : Bytes
  pub from_node : ℕ
  pub text : Bytes
  pub ts : ℕ
  pub rx_snr : ℕ
  pub rx_rssi : ℤ
  pub hop_start : ℕ
  pub hop_limit : ℕ
  pub relay_node : ℕ

-- What MeshService and its Database answer while an operation of the windows runs.
pub record Service : Type 0 where
  pub device_ids : List Bytes
  pub display_name_for : Bytes → Bytes
  pub find_node : ℕ → Option Node
  pub db_for : Bytes → Option NodeDb
  pub recent_messages : WindowKey → ℕ → List StoredMessage

unfoldable pub fmt_time : Platform → ℕ → Bytes
unfolding padded
fmt_time p ts =
    let t = p.local_time ts in
    if ts == 0
    then codes "??:??:??"
    else take 9
        (padded 2 t.hour ++ (codes ":" ++ (padded 2 t.min ++ (codes ":" ++ padded 2 t.sec))))

unfoldable pub is_nameless : Node → Bool
is_nameless n = is_empty n.short_name && is_empty n.long_name

-- The node, or what the service knows if there is none or it has no name.
unfoldable pub or_found : Option Node → Option Node → Option Node
unfolding is_nameless
or_found none found = found
or_found (some n) found = if is_nameless n then found else some n

unfoldable pub get_from : Option NodeDb → ℕ → Option Node
unfolding get
get_from none node = none
get_from (some db) node = get node db

unfoldable pub nick_of : Option Node → ℕ → Bytes
nick_of none node = take 10 (node_num_to_id node)
nick_of (some n) node =
    if not (is_empty n.short_name)
    then n.short_name
    else if not (is_empty n.long_name)
    then take 12 n.long_name
    else take 10 (node_num_to_id node)

unfoldable pub short_nick : Service → Option NodeDb → ℕ → Bytes
unfolding or_found get_from nick_of
short_nick service db node = nick_of (or_found (get_from db node) (service.find_node node)) node

-- Both zeros of a float.
unfoldable pub is_zero_float : ℕ → Bool
is_zero_float bits = bits == 0 || bits == 2 ^ 31

-- " %.1fdB" in a buffer of 16 bytes, and the received strength.
unfoldable pub levels : Platform → ℕ → ℤ → Bytes
unfolding is_zero_float
levels p rx_snr rx_rssi =
    (if is_zero_float rx_snr
      then []
      else take 15 (codes " " ++ (p.one_decimal rx_snr ++ codes "dB")))
    ++ (if same_int rx_rssi (ℤ.pos 0) then [] else codes " " ++ (to_string rx_rssi ++ codes "dBm"))

-- The first node whose number ends in the byte.
unfoldable pub ending_in : ℕ → List Node → Option Node
ending_in byte [] = none
ending_in byte (n ∷ ns) = if n.node_num % 256 == byte then some n else ending_in byte ns

unfoldable pub relay_in : Option NodeDb → ℕ → Option Node
unfolding get all ending_in
relay_in none relay = none
relay_in (some db) relay = elim (get relay db) [
  | some n ↦ some n
  | none ↦ (if leb relay 255 then ending_in relay (all db) else none)
]

-- "!*%02x" or "!%08x"
unfoldable pub relay_number : ℕ → Bytes
unfolding hex_from
relay_number relay =
    if leb relay 255 then codes "!*" ++ hex_from 2 relay [] else codes "!" ++ hex_from 8 relay []

unfoldable pub name_or_id : Node → Bytes
name_or_id n =
    let name = (if is_empty n.short_name then n.long_name else n.short_name) in
    if is_empty name then node_num_to_id n.node_num else name

unfoldable pub relay_name : Service → Option NodeDb → ℕ → Bytes
unfolding or_found relay_in relay_number name_or_id
relay_name service db relay = elim (or_found (relay_in db relay) (service.find_node relay)) [
  | none ↦ relay_number relay
  | some n ↦ name_or_id n
]

-- How a message came.
pub record Reception : Type 0 where
  pub snr : ℕ
  pub rssi : ℤ
  pub start : ℕ
  pub limit : ℕ
  pub relay : ℕ

-- The message went through `hops` relays, `hops` being positive.
unfoldable pub relayed_signal : Platform → Service → ℕ → Reception → Option NodeDb → Bytes
unfolding levels relay_name
relayed_signal p service hops r db =
    codes " [hops="
    ++ (print hops hops []
        ++ ((if r.relay == 0 then [] else codes " via " ++ relay_name service db r.relay)
            ++ (levels p r.snr r.rssi ++ codes "]")))

unfoldable pub format_message_signal : Platform → Service → Bool → Reception → Option NodeDb → Bytes
unfolding levels relayed_signal is_zero_float
format_message_signal p service is_out r db =
    let hops = (if ltb r.limit r.start then r.start - r.limit else 0) in
    if is_out
    then []
    else if hops == 0
    then if is_zero_float r.snr && (same_int r.rssi (ℤ.pos 0) && r.start == 0)
      then []
      else codes " [0-hop" ++ (levels p r.snr r.rssi ++ codes "]")
    else relayed_signal p service hops r db

unfoldable pub names : Bytes → Bytes → Bool
unfolding find occurs
names text name = not (is_empty name) && occurs (find name text)

-- The text names the node of this device.
unfoldable pub is_mention : Option NodeDb → Bytes → Bool
unfolding get names
is_mention none text = false
is_mention (some db) text = elim (get db.my_node_num db) [
  | none ↦ false
  | some me ↦ names text me.short_name || names text me.long_name
]
