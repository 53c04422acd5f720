-- ===== src/Web/Worker.antt =====
-- One round of HttpServer::worker_loop and handle_accept of src/web/http_server.cpp. The sockets'
-- readiness and what `recv` and `send` answer are parameters.
use fmesh_cli.Common.{
  ℕ, Bool, true, false, ◌||◌, not, List, [], ◌∷◌, Option, none, some, Bytes, length, ltb,
  if◌then◌else◌,
}
use fmesh_cli.Web.Connection.{
  ConnState, reading_request, writing_response, streaming_sse, closed, Connection, Answer,
  handle_write, queue_frame,
}
use fmesh_cli.Web.Request.{no_request}
use fmesh_cli.Web.Routes.{HttpServer}
use fmesh_cli.Web.Reading.{Session, Recv, drop_connection, handle_read, is_polled}

-- A connection that was just accepted.
abbrev pub accepted : Session
accepted = record {
  conn = record { has_fd = true; state = reading_request; out_buf = []; out_written = 0 };
  in_buf = [];
  expected_content_length = 0;
  headers_complete = false;
  request = no_request;
}

unfoldable pub is_closed : ConnState → Bool
is_closed closed = true
is_closed reading_request = false
is_closed writing_response = false
is_closed streaming_sse = false

-- The connections that are closed or have no socket go.
unfoldable pub cleanup : List Session → List Session
unfolding is_closed
cleanup [] = []
cleanup (s ∷ sessions) =
    if is_closed s.conn.state || not s.conn.has_fd then cleanup sessions else s ∷ cleanup sessions

-- Whether the loop asks for readiness to read and to write.
unfoldable pub interest : ConnState → Connection → Bool × Bool
unfolding is_polled
interest reading_request c = (is_polled reading_request, false)
interest writing_response c = (is_polled writing_response, true)
interest streaming_sse c = (is_polled streaming_sse, ltb c.out_written (length c.out_buf))
interest closed c = (is_polled closed, false)

-- What poll reports of a socket: an error, and the answers of the calls for which it is ready.
pub record Ready : Type 0 where
  pub has_error : Bool
  pub input : Option Recv
  pub output : Option Answer

unfoldable pub broadcast_frame : Bytes → List Session → List Session
unfolding queue_frame
broadcast_frame frame [] = []
broadcast_frame frame (s ∷ sessions) =
    record s { conn = queue_frame frame s.conn.state s.conn } ∷ broadcast_frame frame sessions

module _ (error_text : Bytes → ℕ → Bytes) (files : Bytes → Option Bytes) (server : HttpServer) where
  -- The session afterwards, and the bytes that went out.
  unfoldable pub serve : Ready → Session → Session × Bytes
  unfolding drop_connection handle_read handle_write is_closed
  serve ready s =
      let s' : Session = (elim ready.input [
        | none ↦ s
        | some recv ↦ handle_read error_text files server recv s
      ]) in
      if ready.has_error then (drop_connection s, []) else elim ready.output [
        | none ↦ (s', [])
        | some answer ↦
            (if is_closed s'.conn.state
              then (s', [])
              else let (conn, out) = handle_write answer s'.conn in
                (record s' { conn = conn }, out))
      ]

  -- The sockets of one round, each with what poll reports of it.
  unfoldable pub serve_all : List (Ready × Session) → List Session
  unfolding serve
  serve_all [] = []
  serve_all (r ∷ rs) = (serve r.0 r.1).0 ∷ serve_all rs
