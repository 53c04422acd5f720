-- ===== src/Web/Connection.antt =====
-- The sending side of a connection of src/web/http_server.cpp: HttpServer::handle_write and
-- HttpServer::broadcast_sse_raw. What `send` answers is a parameter. A frame that is queued while
-- `send` runs counts as queued behind it: its size is tested against what `send` left in the buffer,
-- and not, as in the source, against the buffer before.
pub mod Sending
use fmesh_cli.App.Config.Spec.{is_empty}
use fmesh_cli.Common.{
  codes, ℕ, ◌+◌, ◌*◌, ◌++◌, Bool, true, false, ◌&&◌, List, [], ◌∷◌, Bytes, length, take, drop, ltb,
  leb, if◌then◌else◌,
}

pub data ConnState : Type 0 where
  reading_request writing_response streaming_sse closed : ConnState

-- The fields that sending uses; `has_fd` says that `fd` is a socket.
pub record Connection : Type 0 where
  pub has_fd : Bool
  pub state : ConnState
  pub out_buf : Bytes
  pub out_written : ℕ

-- What `send` answers: a count above 0, that it would block, or an error or 0.
pub data Answer : Type 0 where
  sent : ℕ → Answer
  would_block failed : Answer

abbrev pub max_queued : ℕ
max_queued = 1024 * 1024

unfoldable pub close : Connection → Connection
close c = record c { has_fd = false; state = closed }

-- What becomes of a connection whose buffer is written: a response closes it, a stream empties it.
unfoldable pub written : ConnState → Connection → Connection
unfolding close
written writing_response c = close c
written streaming_sse c = record c { out_buf = []; out_written = 0 }
written reading_request c = c
written closed c = c

-- A stream forgets the bytes that went out.
unfoldable pub compact : ConnState → Connection → Connection
compact streaming_sse c = record c { out_buf = drop c.out_written c.out_buf; out_written = 0 }
compact reading_request c = c
compact writing_response c = c
compact closed c = c

-- What follows the call of `send`: the connection, and the bytes that went out.
unfoldable pub after_send : Answer → Connection → Connection × Bytes
unfolding close written
after_send would_block c = (c, [])
after_send failed c = (close c, [])
after_send (sent n) c =
    let out = take n (drop c.out_written c.out_buf) in
    let c' = record c { out_written = c.out_written + n } in
    (if leb (length c.out_buf) (c.out_written + n) then written c.state c' else c', out)

unfoldable pub handle_write : Answer → Connection → Connection × Bytes
unfolding written compact after_send
handle_write answer c =
    if leb (length c.out_buf) c.out_written
    then (written c.state c, [])
    else after_send answer (compact c.state c)

-- A frame for one connection: only a stream takes it, and only below 1 MB of buffer.
unfoldable pub queue_frame : Bytes → ConnState → Connection → Connection
queue_frame frame streaming_sse c =
    if ltb (length c.out_buf) max_queued then record c { out_buf = c.out_buf ++ frame } else c
queue_frame frame reading_request c = c
queue_frame frame writing_response c = c
queue_frame frame closed c = c

unfoldable pub broadcast_sse_raw : Bytes → List Connection → List Connection
unfolding queue_frame
broadcast_sse_raw frame [] = []
broadcast_sse_raw frame (c ∷ cs) = queue_frame frame c.state c ∷ broadcast_sse_raw frame cs

-- The frame of an event with its data.
unfoldable pub sse_frame : Bytes → Bytes → Bytes
sse_frame event json_data =
    (if is_empty event then [] else codes "event: " ++ (event ++ codes "\n"))
    ++ (codes "data: " ++ (json_data ++ codes "\n\n"))

unfoldable pub broadcast_sse : Bytes → Bytes → List Connection → List Connection
unfolding sse_frame broadcast_sse_raw
broadcast_sse event json_data cs = broadcast_sse_raw (sse_frame event json_data) cs
