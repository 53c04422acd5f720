-- ===== src/Stream/Events.antt =====
-- What the two read loops emit for a complete frame: stream_client.cpp, from `if (frame_type ==`,
-- and stream_server.cpp, from `if (conn->frame_type ==`.
use fmesh_cli.Common.{ℕ, ◌++◌, List, [], ◌∷◌, Option, none, some, Bytes, codes, ◌==◌, if◌then◌else◌}
use fmesh_cli.Stream.{Parser, feed}
use fmesh_cli.Util.Compression.{Zstd, decompress, max_decompressed_size}

-- The events of src/mesh/event.h that the streams make. `decoded` carries an event of the protobuf
-- codec, of a type of its own.
pub data StreamEvent (Ev : Type 0) : Type 0 where
  raw_rx_bytes : (device bytes : Bytes) → StreamEvent Ev
  decoded : Ev → StreamEvent Ev
  db_sync_payload : (device payload : Bytes) → StreamEvent Ev
  send_raw_to_radio : (bytes : Bytes) → StreamEvent Ev

unfoldable pub server_device : Bytes → Bytes
server_device ip = codes "meshserver:" ++ ip

module _ {Ev : Type 0} where
  -- A sync payload that does not decompress is dropped.
  unfoldable pub sync_event : Bytes → Option Bytes → List (StreamEvent Ev)
  sync_event device none = []
  sync_event device (some payload) = db_sync_payload device payload ∷ []

  -- MeshCodec::decode_from_radio
  unfoldable pub radio_events : Bytes → Bytes → Option Ev → List (StreamEvent Ev)
  radio_events device payload none = raw_rx_bytes device payload ∷ []
  radio_events device payload (some ev) = raw_rx_bytes device payload ∷ decoded ev ∷ []

module _ {Ctx Ev : Type 0} (z : Zstd Ctx) where
  unfoldable pub deliver_server : Bytes → ℕ → Bytes → List (StreamEvent Ev)
  unfolding sync_event server_device
  deliver_server ip kind payload =
      if kind == 0xC3
      then send_raw_to_radio payload ∷ []
      else if kind == 0xD0
      then db_sync_payload (server_device ip) payload ∷ []
      else if kind == 0xD1
      then sync_event (server_device ip) (decompress z payload max_decompressed_size)
      else []

  unfoldable pub deliver_client :
      (Bytes → Bytes → Option Ev) → Bytes → ℕ → Bytes → List (StreamEvent Ev)
  unfolding sync_event radio_events
  deliver_client decode_from_radio device kind payload =
      if kind == 0xC3
      then radio_events device payload (decode_from_radio payload device)
      else if kind == 0xD0
      then db_sync_payload device payload ∷ []
      else if kind == 0xD1
      then sync_event device (decompress z payload max_decompressed_size)
      else []

  -- One read of the loop of StreamClient::read_loop.
  unfoldable pub client_feed :
      (Bytes → Bytes → Option Ev) → Bytes → Parser → Bytes → List (StreamEvent Ev) × Parser
  unfolding deliver_client
  client_feed decode_from_radio device = feed (deliver_client decode_from_radio device)

  -- One read of the loop of a client's thread in StreamServer::accept_loop, which is the same code
  -- over the thread's own variables.
  unfoldable pub server_feed : Bytes → Parser → Bytes → List (StreamEvent Ev) × Parser
  unfolding deliver_server
  server_feed ip = feed (deliver_server ip)
