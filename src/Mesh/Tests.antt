-- ===== src/Mesh/Tests.antt =====
-- Runs of src/mesh/ at small inputs.
use fmesh_cli.Mesh.DbSync.Again.{take_messages_twice}
use fmesh_cli.Mesh.DbSync.{Store, SyncMessage, hex_to_bytes, take_messages, bytes_to_hex}
use fmesh_cli.Mesh.Service.Identifier.Spellings.{
  is_hex, AllHex, written, capitals, normalize_device_identifier-written,
}
use fmesh_cli.Mesh.Service.Identifier.{normalize_device_identifier}
use fmesh_cli.Common.{
  ℕ, ◌≤◌, ◌<◌, ◌^◌, ◌≡◌, ◌≢◌, ◌⊎◌, refl, Bool, true, false, List, [], ◌∷◌, Option, none, some,
  Bytes, codes, length, arith, get_elem?, ◌++◌, ◌==◌, ◌||◌,
}
use fmesh_cli.App.Config.Atoi.{pos, ℤ}
use fmesh_cli.Mesh.NodeId.{node_num_to_id, parse_node_id}
use fmesh_cli.Mesh.NodeId.RoundTrip.{parse_node_id-node_num_to_id}
use fmesh_cli.Mesh.NodeDb.{Node, NodeDb, fresh_node, clear, all, to_lower, score, find_by_name}
use fmesh_cli.Mesh.NodeDb.Laws.{node, position, me, run, Ordered, run-Ordered}
use fmesh_cli.Mesh.NodeDb.Fields.{of_battery_level, number}
use fmesh_cli.Mesh.NodeDb.Latest.{latest}
use fmesh_cli.Mesh.NodeDb.Fuzzy.{score_of, find_by_name_best}
use fmesh_cli.Mesh.Service.Dedup.{key_of, seen_before, is_duplicate, see_all, is_duplicate_again}
use fmesh_cli.Mesh.Service.PacketId.{ids_after, packet_ids_differ}
use fmesh_cli.Mesh.Service.Virtual.{
  VirtualDevice, OnceEach, find_device, update_virtual_devices, newest, or_else, of_another,
  update_virtual_devices_fresh,
}

parse_node_id-node_num_to_id_example : parse_node_id (node_num_to_id 2882400001) ≡ some 2882400001
parse_node_id-node_num_to_id_example = parse_node_id-node_num_to_id 2882400001 (omega arith)

abbrev ann : Node
ann = record (fresh_node 7) { long_name = codes "Ann"; battery_level = some 80 }

abbrev empty_db : NodeDb
empty_db = record { nodes = (7, fresh_node 7) ∷ []; channels = []; my_node_num = 0 }

-- The second report leaves out the battery, the third one is about another node.
abbrev reports : List Node
reports =
    ann
    ∷ record (fresh_node 7) { voltage = some 4 }
    ∷ record (fresh_node 8) { battery_level = some 9 }
    ∷ []

battery_is_kept : latest of_battery_level 7 reports none ≡ some (number 80)
unfolding latest fresh_node
battery_is_kept = refl

run-Ordered_example :
    Ordered (run (node ann ∷ position 3 10 20 (pos 5) ∷ me 7 ∷ node ann ∷ []) (clear empty_db))
run-Ordered_example =
    run-Ordered (node ann ∷ position 3 10 20 (pos 5) ∷ me 7 ∷ node ann ∷ []) empty_db

abbrev ann_db : NodeDb
ann_db = record { nodes = (7, ann) ∷ []; channels = []; my_node_num = 0 }

ann_listed : get_elem? (all ann_db) 0 ≡ some ann
unfolding all
ann_listed = refl

find_by_name_best_example :
    score (to_lower (codes "an")) ann
    ≤ score_of (to_lower (codes "an")) (find_by_name (codes "an") ann_db)
find_by_name_best_example = find_by_name_best (codes "an") ann_db 0 ann ann_listed

new_to_window : seen_before (key_of 7 99) [] ≡ false
unfolding seen_before
new_to_window = refl

is_duplicate_again_example :
    let (seen', first) = is_duplicate 7 99 [] in
    (first ≡ false) × ((is_duplicate 7 99 (see_all ((7, 100) ∷ (8, 99) ∷ []) seen')).1 ≡ true)
is_duplicate_again_example =
    is_duplicate_again 7 99 ((7, 100) ∷ (8, 99) ∷ []) [] (λ e. absurd (omega arith)) new_to_window
      (omega arith)

packet_ids_differ_example : ids_after (5 ∷ 9 ∷ 1 ∷ []) 1023 ≢ 1023
packet_ids_differ_example = packet_ids_differ (5 ∷ 9 ∷ 1 ∷ []) 1023 (omega arith) (omega arith)

abbrev radio : VirtualDevice
radio = record {
  id = codes "virtual:serial:COM3";
  original_id = codes "serial:COM3";
  stream_id = codes "mesh:hub";
  node_num = 7;
}

abbrev other_radio : VirtualDevice
other_radio = record radio { id = codes "virtual:serial:COM4"; stream_id = codes "mesh:attic" }

radios_once : OnceEach (radio ∷ other_radio ∷ [])
unfolding find_device fmesh_cli.Common.◌=?◌
radios_once = (refl, (refl, tt))

update_virtual_devices_fresh_example :
    find_device
      (codes "virtual:serial:COM4")
      (update_virtual_devices (codes "mesh:hub") (radio ∷ []) (radio ∷ other_radio ∷ []))
    ≡ or_else (newest (codes "virtual:serial:COM4") (radio ∷ [])) (
        of_another
          (codes "mesh:hub")
          (find_device (codes "virtual:serial:COM4") (radio ∷ other_radio ∷ [])))
update_virtual_devices_fresh_example =
    update_virtual_devices_fresh (codes "virtual:serial:COM4") (codes "mesh:hub") (radio ∷ [])
      (radio ∷ other_radio ∷ []) radios_once

-- eb:de:dd:22:98:5D
abbrev octets : List (ℕ × ℕ)
octets = (b'd', b'e') ∷ (b'd', b'd') ∷ (b'2', b'2') ∷ (b'9', b'8') ∷ (b'5', b'D') ∷ []

all_hex : AllHex ((b'e', b'b') ∷ octets)
unfolding is_hex
all_hex = (refl, refl, (refl, refl, (refl, refl, (refl, refl, (refl, refl, (refl, refl, tt))))))

normalize_device_identifier-written_example :
    (normalize_device_identifier (written b'-' ((b'e', b'b') ∷ octets))
      ≡ written b':' (capitals ((b'e', b'b') ∷ octets)))
    × (normalize_device_identifier
          (codes "/org/bluez/hci0" ++ (codes "/dev_" ++ written b'_' ((b'e', b'b') ∷ octets)))
        ≡ written b':' (capitals ((b'e', b'b') ∷ octets)))
    × (normalize_device_identifier (codes "dev_" ++ written b'_' ((b'e', b'b') ∷ octets))
        ≡ written b':' (capitals ((b'e', b'b') ∷ octets)))
unfolding fmesh_cli.Mesh.Service.Identifier.is_separator
normalize_device_identifier-written_example =
    normalize_device_identifier-written b'-' (b'e', b'b') octets (codes "/org/bluez/hci0") refl
      all_hex refl

capitals_and_colons :
    normalize_device_identifier (codes "eb-de-dd-22-98-5D") ≡ codes "EB:DE:DD:22:98:5D"
unfolding normalize_device_identifier
capitals_and_colons = refl

-- A database that remembers its messages.
abbrev memory : Store (List SyncMessage)
memory = record {
  max_message_ts = λ s. 0;
  max_location_ts = λ s. 0;
  max_telemetry_ts = λ s. 0;
  get_messages_after_ts = λ ts limit s. [];
  get_locations_after = λ ts limit s. [];
  get_telemetry_after_ts = λ ts limit s. [];
  find_by_packet_id = knows;
  insert_message = λ m s. m ∷ s;
  insert_location = λ l s. (s, true);
  insert_telemetry = λ t s. (s, true);
}
  where
    knows : ℕ → List SyncMessage → Bool
    knows k [] = false
    knows k (m ∷ ms) = k == m.packet_id || knows k ms

abbrev numbered : ℕ → SyncMessage
numbered n = record {
  device = [];
  window_kind = codes "channel";
  window_target = 0;
  direction = codes "in";
  from_node = 7;
  to_node = 8;
  channel_idx = 0;
  text = codes "hi";
  ts = 9;
  packet_id = n;
  ack_state = [];
  rx_snr = 0;
  rx_rssi = ℤ.pos 0;
  hop_start = 0;
  hop_limit = 0;
  relay_node = 0;
}

abbrev batch : List SyncMessage
batch = numbered 5 ∷ numbered 6 ∷ numbered 5 ∷ []

take_messages_twice_example :
    take_messages memory [] (λ id. none) batch (take_messages memory [] (λ id. none) batch []).0
    ≡ ((take_messages memory [] (λ id. none) batch []).0, [])
take_messages_twice_example =
    take_messages_twice memory [] (λ id. none) (λ k m s. refl) batch [] (refl, (refl, (refl, tt)))

-- A message without a packet number is stored again each time.
stored_again :
    length
      (take_messages memory []
        (λ id. none)
        (numbered 0 ∷ [])
        (take_messages memory [] (λ id. none) (numbered 0 ∷ []) []).0).0
    ≡ 2
unfolding take_messages
stored_again = refl

hex_back : hex_to_bytes (bytes_to_hex (0 ∷ 171 ∷ 255 ∷ [])) ≡ 0 ∷ 171 ∷ 255 ∷ []
unfolding hex_to_bytes bytes_to_hex
hex_back = refl
