-- ===== src/Mesh/DbSync.antt =====
-- src/mesh/db_sync.cpp: how two databases come to hold the same messages, locations and telemetry.
-- The database is a parameter, a Store; so are the texts of JSON: a payload here is what such a text
-- holds, with the defaults of its fields, and one whose fields have other types is left out. The
-- numbers that are floating-point are carried as their bits.
pub mod Again
use Prim.Native.Nat.{bit_or}
use fmesh_cli.Common.{
  ℕ, zero, suc, ◌+◌, ◌*◌, ◌-◌, ◌/◌, ◌%◌, ◌^◌, Bool, true, false, ◌&&◌, ◌||◌, not, List, [], ◌∷◌,
  ◌++◌, Option, none, some, Bytes, codes, length, take, ltb, leb, ◌==◌, ◌=?◌, if◌then◌else◌,
}
use fmesh_cli.App.Config.Atoi.{ℤ}
use fmesh_cli.App.Config.Spec.{is_empty}
use fmesh_cli.Mesh.NodeDb.{NodeDb}
use fmesh_cli.Tui.Window.{is_prefix}
use fmesh_cli.Mesh.Service.Virtual.{VirtualDevice}

-- The fields of a stored message that a payload carries.
pub record SyncMessage : Type 0 where
  pub device : Bytes
  pub window_kind : Bytes
  pub window_target : ℕ
  pub direction : Bytes
  pub from_node : ℕ
  pub to_node : ℕ
  pub channel_idx : ℕ
  pub text : Bytes
  pub ts : ℕ
  pub packet_id : ℕ
  pub ack_state : Bytes
  pub rx_snr : ℕ
  pub rx_rssi : ℤ
  pub hop_start : ℕ
  pub hop_limit : ℕ
  pub relay_node : ℕ

pub record LocationRow : Type 0 where
  pub device : Bytes
  pub node_num : ℕ
  pub latitude : ℕ
  pub longitude : ℕ
  pub altitude : ℤ
  pub ts : ℕ

pub record TelemetryRow : Type 0 where
  pub device : Bytes
  pub node_num : ℕ
  pub ts : ℕ
  pub battery_level : Option ℕ
  pub voltage : Option ℕ
  pub channel_util : Option ℕ
  pub air_util_tx : Option ℕ
  pub uptime_seconds : Option ℕ
  pub temperature : Option ℕ
  pub relative_humidity : Option ℕ
  pub barometric_pressure : Option ℕ
  pub gas_resistance : Option ℕ
  pub iaq : Option ℕ
  pub pm25 : Option ℕ
  pub co2 : Option ℕ
  pub current : Option ℕ
  pub snr : Option ℕ
  pub hops_away : Option ℕ

-- The latest times of messages, locations and telemetry.
pub record Times : Type 0 where
  pub message_ts : ℕ
  pub location_ts : ℕ
  pub telemetry_ts : ℕ

pub record Data : Type 0 where
  pub messages : List SyncMessage
  pub locations : List LocationRow
  pub telemetries : List TelemetryRow
  pub has_more : Bool

-- What a payload says, by its "type"; `unknown` is also a list of devices that is missing.
pub data Payload : Type 0 where
  inventory request : Times → Payload
  data_of : Data → Payload
  devices_of : List (Bytes × ℕ) → Payload
  send_raw : Bytes → Bytes → Payload
  unknown : Payload

-- The operations of the database, on its states `S`.
pub record Store (S : Type 0) : Type 0 where
  pub max_message_ts : S → ℕ
  pub max_location_ts : S → ℕ
  pub max_telemetry_ts : S → ℕ
  pub get_messages_after_ts : ℕ → ℕ → S → List SyncMessage
  pub get_locations_after : ℕ → ℕ → S → List LocationRow
  pub get_telemetry_after_ts : ℕ → ℕ → S → List TelemetryRow
  pub find_by_packet_id : ℕ → S → Bool
  pub insert_message : SyncMessage → S → S
  pub insert_location : LocationRow → S → S × Bool
  pub insert_telemetry : TelemetryRow → S → S × Bool

-- What the manager does beside changing the database: it sends a payload to the peers, shows a
-- message, sets the virtual devices of a stream, or sends bytes to a radio.
pub data Effect : Type 0 where
  sent : Payload → Effect
  shown : SyncMessage → Effect
  virtual_set : Bytes → List VirtualDevice → Effect
  to_physical : Bytes → Bytes → Effect

-- A payload with one row.
unfoldable pub push_message : SyncMessage → Effect
push_message m = sent (
    data_of (record {
      messages =
          record m { rx_snr = 0; rx_rssi = ℤ.pos 0; hop_start = 0; hop_limit = 0; relay_node = 0 }
          ∷ [];
      locations = [];
      telemetries = [];
      has_more = false;
    }))

unfoldable pub push_location : LocationRow → Effect
push_location loc =
    sent
      (data_of (record { messages = []; locations = loc ∷ []; telemetries = []; has_more = false }))

unfoldable pub push_telemetry : TelemetryRow → Effect
push_telemetry t =
    sent
      (data_of (record { messages = []; locations = []; telemetries = t ∷ []; has_more = false }))

unfoldable pub push_devices : List (Bytes × ℕ) → List Effect
push_devices [] = []
push_devices (d ∷ ds) = sent (devices_of (d ∷ ds)) ∷ []

-- The devices that are not virtual, with their own nodes.
unfoldable pub local_devices : (Bytes → Option NodeDb) → List Bytes → List (Bytes × ℕ)
unfolding is_prefix
local_devices db_for [] = []
local_devices db_for (id ∷ ids) =
    let rest = local_devices db_for ids in
    if is_prefix (codes "virtual:") id then rest else elim (db_for id) [
      | none ↦ rest
      | some db ↦ (if db.my_node_num == 0 then rest else (id, db.my_node_num) ∷ rest)
    ]

-- "0123456789ABCDEF"
unfoldable pub hex_char : ℕ → ℕ
hex_char d = if ltb d 10 then b'0' + d else b'A' + (d - 10)

unfoldable pub bytes_to_hex : Bytes → Bytes
unfolding hex_char
bytes_to_hex [] = []
bytes_to_hex (b ∷ bs) = hex_char (b / 16) ∷ hex_char (b % 16) ∷ bytes_to_hex bs

-- `c & ~0x20` of a byte below 128.
unfoldable pub fold_case : ℕ → ℕ
fold_case c = if c / 32 % 2 == 1 then c - 32 else c

-- A digit's value in 8 bits; a byte from 128 on is a negative `char`.
unfoldable pub nibble : ℕ → ℕ
unfolding fold_case
nibble c =
    if leb c b'9' || leb 128 c
    then (c + 256 - b'0') % 256
    else (fold_case c + 256 - b'A' + 10) % 256

unfoldable pub decode_pairs : Bytes → Bytes
unfolding nibble
decode_pairs [] = []
decode_pairs (h ∷ []) = []
decode_pairs (h ∷ l ∷ hex) = bit_or (nibble h * 16) (nibble l) % 256 ∷ decode_pairs hex

unfoldable pub hex_to_bytes : Bytes → Bytes
unfolding decode_pairs
hex_to_bytes hex = if length hex % 2 == 0 then decode_pairs hex else []

unfoldable pub virtual_of : Bytes → List (Bytes × ℕ) → List VirtualDevice
virtual_of device [] = []
virtual_of device (d ∷ ds) =
    let rest = virtual_of device ds in
    if is_empty d.0
    then rest
    else record {
      id = codes "virtual:" ++ (device ++ (codes ":" ++ d.0));
      original_id = d.0;
      stream_id = device;
      node_num = d.1;
    }
      ∷ rest

unfoldable pub handle_devices : Bytes → List (Bytes × ℕ) → List Effect
unfolding virtual_of
handle_devices device items = virtual_set device (virtual_of device items) ∷ []

unfoldable pub send_raw_to_device : Bytes → Bytes → Effect
unfolding bytes_to_hex
send_raw_to_device target bytes = sent (send_raw target (bytes_to_hex bytes))

-- `if (rows.size() > 20) rows.pop_back();`
unfoldable pub page {ℓ} : {A : Type ℓ} → List A → List A
page rows = if ltb 20 (length rows) then take (length rows - 1) rows else rows

module _ {S : Type 0} (store : Store S) (device_ids : List Bytes)
    (db_for : Bytes → Option NodeDb) where
  unfoldable pub times : S → Times
  times s = record {
    message_ts = store.max_message_ts s;
    location_ts = store.max_location_ts s;
    telemetry_ts = store.max_telemetry_ts s;
  }

  unfoldable pub initiate_sync : S → List Effect
  unfolding times push_devices local_devices
  initiate_sync s = sent (inventory (times s)) ∷ push_devices (local_devices db_for device_ids)

  -- A page of 20 rows of each kind, and whether there are more.
  unfoldable pub handle_request : Times → S → List Effect
  unfolding page
  handle_request after s =
      let msgs = store.get_messages_after_ts after.message_ts 21 s in
      let locs = store.get_locations_after after.location_ts 21 s in
      let telems = store.get_telemetry_after_ts after.telemetry_ts 21 s in
      if length msgs == 0 && (length locs == 0 && length telems == 0)
      then []
      else sent (
          data_of (record {
            messages = page msgs;
            locations = page locs;
            telemetries = page telems;
            has_more = ltb 20 (length msgs) || (ltb 20 (length locs) || ltb 20 (length telems));
          }))
        ∷ []

  -- Some of the first times is later.
  unfoldable pub is_ahead : Times → Times → Bool
  is_ahead a b =
      ltb b.message_ts a.message_ts
      || (ltb b.location_ts a.location_ts || ltb b.telemetry_ts a.telemetry_ts)

  unfoldable pub handle_inventory : Times → S → List Effect
  unfolding times is_ahead handle_request
  handle_inventory remote s =
      let asked = (if is_ahead remote (times s) then sent (request (times s)) ∷ [] else []) in
      if is_ahead (times s) remote then asked ++ handle_request remote s else asked

  -- A message that is known by its packet is passed over.
  unfoldable pub take_message : SyncMessage → S → S × List Effect
  unfolding push_message
  take_message m s =
      if not (m.packet_id == 0) && store.find_by_packet_id m.packet_id s
      then (s, [])
      else (store.insert_message m s, push_message m ∷ shown m ∷ [])

  unfoldable pub take_messages : List SyncMessage → S → S × List Effect
  unfolding take_message
  take_messages [] s = (s, [])
  take_messages (m ∷ ms) s =
      let (s1, out) = take_message m s in let (s2, outs) = take_messages ms s1 in (s2, out ++ outs)

  unfoldable pub take_locations : List LocationRow → S → S × List Effect
  unfolding push_location
  take_locations [] s = (s, [])
  take_locations (l ∷ ls) s =
      let (s1, is_new) = store.insert_location l s in
      let (s2, outs) = take_locations ls s1 in
      (s2, (if is_new then push_location l ∷ [] else []) ++ outs)

  unfoldable pub take_telemetries : List TelemetryRow → S → S × List Effect
  unfolding push_telemetry
  take_telemetries [] s = (s, [])
  take_telemetries (t ∷ ts) s =
      let (s1, is_new) = store.insert_telemetry t s in
      let (s2, outs) = take_telemetries ts s1 in
      (s2, (if is_new then push_telemetry t ∷ [] else []) ++ outs)

  unfoldable pub handle_data : Data → S → S × List Effect
  unfolding take_messages take_locations take_telemetries initiate_sync
  handle_data d s =
      let (s1, out1) = take_messages d.messages s in
      let (s2, out2) = take_locations d.locations s1 in
      let (s3, out3) = take_telemetries d.telemetries s2 in
      (s3, out1 ++ (out2 ++ (out3 ++ (if d.has_more then initiate_sync s3 else []))))

  unfoldable pub handle_send_raw : Bytes → Bytes → List Effect
  unfolding hex_to_bytes
  handle_send_raw target payload =
      if is_empty target || is_empty payload
      then []
      else to_physical target (hex_to_bytes payload) ∷ []

  unfoldable pub handle_sync_payload : Bytes → Payload → S → S × List Effect
  unfolding handle_inventory handle_request handle_data handle_devices handle_send_raw
  handle_sync_payload device (inventory remote) s = (s, handle_inventory remote s)
  handle_sync_payload device (request after) s = (s, handle_request after s)
  handle_sync_payload device (data_of d) s = handle_data d s
  handle_sync_payload device (devices_of items) s = (s, handle_devices device items)
  handle_sync_payload device (send_raw target payload) s = (s, handle_send_raw target payload)
  handle_sync_payload device unknown s = (s, [])
