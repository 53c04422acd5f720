-- ===== src/Lib.antt =====
-- fmesh-cli: a terminal client for Meshtastic radios.
--
-- The program reads a framed byte stream from radios and from other instances of itself
-- (src/stream/), decodes it into events that go through a queue (src/util/event_loop.h) to the
-- terminal interface (src/tui/), keeps what it hears of the mesh (src/mesh/), exchanges its database
-- with other instances in compressed sync payloads (src/util/compression.cpp,
-- MeshService::send_db_sync), and starts from arguments and a file (src/app/config.cpp).
--
-- Files, and the code that they model:
--   Common         shared names; tests on numbers, lists and byte strings, ordered maps, also with
--                  strings as keys (StrMap).
--   Stream         StreamClient::frame and the parser of StreamClient::read_loop, a state machine
--                  over a buffer. Each block of the loop's body is a function (seek, check_start2,
--                  len_hi, len_lo, take_payload), composed as in the code; drain is the inner loop
--                  and feed one read.
--   Stream/Reference  a decoder of one byte at a time, independent of the code. Stream/Steps,
--                  Stream/Refine and Stream/Delivery relate the parser to it.
--   Stream/Events  what the client's and the server's loop emit for a frame.
--   Stream/Send    StreamClient::send_to_radio, over a list of answers of the socket.
--   Stream/Server  the login line of StreamClient::start and its check, admission in
--                  StreamServer::accept_loop, the end of a client's thread and
--                  StreamServer::broadcast; Connections/Admission runs them after each other.
--   Stream/Sync    MeshService::send_db_sync as far as the stream.
--   Util           Compression (src/util/compression.cpp) and ConcurrentQueue.
--   Tui            InputLine::handle_key with the history (src/tui/input_line.cpp); Window and
--                  wrap_text (src/tui/window.cpp); Signal holds the texts that
--                  src/tui/window_manager.cpp makes of a message.
--   Tui/WindowManager  src/tui/window_manager.cpp: the windows and the table from "device|kind|target"
--                  to their numbers, with the operations that find, close and select a window. Its
--                  children History, Routing and Messages hold titles and load_history, the
--                  operations that find or make a window, and those that write a line. Operations
--                  runs the public ones after each other. Slots, Consistent, Closing, Found, Ensured,
--                  Written and Selection are about how table and windows fit together.
--   Tui/Command    of src/tui/command.cpp the line that is no command, and the commands that act on the
--                  windows; what they say and send is returned as a list of calls.
--   App            BleDeviceSpec, parse_device_spec, format_device_spec, parse_args, load_config,
--                  save_config and finalize_paths (src/app/config.cpp); Config/File/Lines is about
--                  the lines of the file and FirstRun about two runs after each other.
--   Mesh           node_num_to_id and parse_node_id, NodeDb (src/mesh/node_db.cpp), with the fields of
--                  a report in NodeDb/Fields and several reports in NodeDb/Latest; DbSync holds all
--                  of src/mesh/db_sync.cpp: what is sent to a peer and what becomes of what it sends.
--   Mesh/Service   of MeshService (src/mesh/mesh_service.cpp) is_duplicate, next_packet_id, the
--                  virtual devices, the spellings of a device's name (Identifier) and the lookups
--                  of devices by name (Devices).
--   Web            src/web/http_server.cpp: Request parses a request, Routes answers it from the
--                  handlers or the static files, Reading is handle_read over the answers of `recv`,
--                  Connection is handle_write and the broadcast of events, Worker is a round of
--                  worker_loop over all connections.
-- Each folder's Tests holds runs at small inputs.
--
-- State is a record or a list that an operation takes and returns. Where the code holds a mutex for
-- a whole operation, that operation is one step, and threads are sequences of steps. A string is the
-- list of its bytes. Numbers are natural numbers, with the wrap-around of a machine integer written
-- out where the code can reach it; a negative int is of the type of App/Config/Atoi. A
-- floating-point number is carried as its bits. `none` stands for a result `false` or an exception.
--
-- Fuel: drain has two rounds for each byte of the buffer and two more, since each round takes a
-- byte off it or leaves the payload phase. The streaming decompression has a round for each byte of
-- input and of room. wrap_rest has one for each byte left, since each round takes one. print, which
-- writes a number, has the number itself. The lookup of a device's database goes from a device behind a
-- server to its server; its fuel bounds the devices on the way, and is an argument.
--
-- Parameters: zstd (the record Zstd, with the properties Progresses, Bounded and Lossless that its
-- manual states), the protobuf codec, the answers of the socket, the key codes of ncurses and its
-- class of spaces, the local time zone and the printing of a floating-point number (Platform), the
-- files, the random password and the random numbers, the saved configuration, the handlers of the web
-- server and the text of a JSON error. The windows see the mesh service and its database through the
-- record Service, the exchange sees the database through the record Store; each operation may be
-- given another Service, so that what other threads do meanwhile is covered.
--
-- Not modelled: the drawing of the screen (src/tui/tui.cpp, status_bar.cpp), which calls ncurses; the
-- dispatch of commands and those that report, configure or connect (src/tui/command.cpp); the events that MeshService handles, and its
-- connecting and sending; the handlers that src/web/web_service.cpp registers; sockets, TLS and
-- Bluetooth; SQL (src/store/database.cpp); the protobuf messages (src/mesh/mesh_codec.cpp) and the text
-- of JSON, which are other libraries' formats.
pub mod Common
pub mod App
pub mod Mesh
pub mod Stream
pub mod Tui
pub mod Util
pub mod Web
