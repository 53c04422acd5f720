-- ===== src/Web/Reading.antt =====
-- The reading side of a connection of src/web/http_server.cpp: handle_read and process_request. What
-- `recv` answers is a list of events.
pub mod Front
pub mod Steps
pub mod Fragments
use fmesh_cli.Common.{
  ℕ, ◌+◌, Bool, true, false, ◌&&◌, List, [], ◌∷◌, ◌++◌, Option, none, some, Bytes, codes, length,
  take, drop, ltb, leb, ◌=?◌, if◌then◌else◌, put_sorted, lookup_key,
}
use fmesh_cli.App.Config.Atoi.{print}
use fmesh_cli.App.Config.Spec.{is_empty}
use fmesh_cli.Mesh.NodeId.{stoul}
use fmesh_cli.Tui.Window.{find}
use fmesh_cli.Web.Connection.{
  ConnState, reading_request, writing_response, streaming_sse, closed, Connection, close,
}
use fmesh_cli.Web.Request.{HttpRequest, get_header, parse_head}
use fmesh_cli.Web.Routes.{HttpResponse, HttpServer, blank, set_header, dispatch_route}

-- A connection with what it has read.
pub record Session : Type 0 where
  pub conn : Connection
  pub in_buf : Bytes
  pub expected_content_length : ℕ
  pub headers_complete : Bool
  pub request : HttpRequest

-- What `recv` answers: bytes, that it would block, or the end or an error.
pub data Recv : Type 0 where
  received : Bytes → Recv
  would_block ended : Recv

unfoldable pub header_lines : List (Bytes × Bytes) → Bytes
header_lines [] = []
header_lines (e ∷ headers) = e.0 ++ (codes ": " ++ (e.1 ++ (codes "\r\n" ++ header_lines headers)))

-- A header that is set if it is missing.
unfoldable pub with_default : Bytes → Bytes → List (Bytes × Bytes) → List (Bytes × Bytes)
unfolding lookup_key put_sorted
with_default key value headers = elim (lookup_key key headers) [
  | some v ↦ headers
  | none ↦ put_sorted key value headers
]

unfoldable pub serialize : HttpResponse → Bytes
unfolding header_lines with_default
serialize res =
    codes "HTTP/1.1 "
    ++ (print res.status res.status []
        ++ (codes " "
            ++ (res.status_text
                ++ (codes "\r\n"
                    ++ (header_lines (
                          with_default (codes "Connection") (codes "close") (
                            with_default (codes "Access-Control-Allow-Origin") (codes "*") (
                              with_default (codes "Content-Length")
                                (print (length res.body) (length res.body) []) res.headers)))
                        ++ (codes "\r\n" ++ res.body))))))

-- The answer to a preflight request.
abbrev pub preflight : HttpResponse
preflight = set_header (codes "Access-Control-Max-Age") (codes "86400") (
    set_header (codes "Access-Control-Allow-Headers") (codes "Content-Type, Authorization") (
      set_header (codes "Access-Control-Allow-Methods") (codes "GET, POST, OPTIONS, PUT, DELETE") (
        set_header (codes "Access-Control-Allow-Origin") (codes "*")
          (record blank { status = 204; status_text = codes "No Content" }))))

abbrev pub stream_head : Bytes
stream_head =
    codes "HTTP/1.1 200 OK\r\n"
    ++ (codes "Content-Type: text/event-stream\r\n"
        ++ (codes "Cache-Control: no-cache, no-transform\r\n"
            ++ (codes "Connection: keep-alive\r\n"
                ++ (codes "Access-Control-Allow-Origin: *\r\n" ++ codes "\r\n: connected\n\n"))))

unfoldable pub answer : ConnState → Bytes → Connection → Connection
answer state raw c = record c { state = state; out_buf = raw; out_written = 0 }

abbrev pub head_end : Bytes
head_end = codes "\r\n\r\n"

abbrev pub max_head : ℕ
max_head = 65536

unfoldable pub drop_connection : Session → Session
unfolding close
drop_connection s = record s { conn = close s.conn }

unfoldable pub content_length : HttpRequest → ℕ → ℕ
unfolding get_header stoul
content_length req before =
    let text = get_header (codes "Content-Length") req in
    if is_empty text then before else elim (stoul 10 text) [ none ↦ 0 | some n ↦ n ]

unfoldable pub is_streaming : ConnState → Bool
is_streaming streaming_sse = true
is_streaming reading_request = false
is_streaming writing_response = false
is_streaming closed = false

-- The connection waits for a request.
unfoldable pub is_reading : ConnState → Bool
is_reading reading_request = true
is_reading streaming_sse = false
is_reading writing_response = false
is_reading closed = false

-- Whether the worker loop asks for readiness to read. A stream is read to see that it ends.
unfoldable pub is_polled : ConnState → Bool
is_polled reading_request = true
is_polled streaming_sse = true
is_polled writing_response = false
is_polled closed = false

module _ (error_text : Bytes → ℕ → Bytes) (files : Bytes → Option Bytes) (server : HttpServer) where
  unfoldable pub respond : HttpRequest → Connection → Connection
  unfolding answer header_lines serialize dispatch_route
  respond req c =
      if req.method =? codes "OPTIONS"
      then answer writing_response
          (codes "HTTP/1.1 204 No Content\r\n"
            ++ (header_lines preflight.headers ++ codes "Content-Length: 0\r\n\r\n"))
          c
      else if req.method =? codes "GET" && req.path =? server.sse_endpoint
      then answer streaming_sse stream_head c
      else answer writing_response (serialize (dispatch_route error_text files server req)) c

  unfoldable pub process_request : Session → Session
  unfolding respond
  process_request s = record s { conn = respond s.request s.conn }

  -- The body is taken off the buffer.
  unfoldable pub take_body : Session → Session
  unfolding process_request
  take_body s = process_request (record s {
    request = record s.request { body = take s.expected_content_length s.in_buf };
    in_buf = drop s.expected_content_length s.in_buf;
  })

  -- The request is answered when its body is there.
  unfoldable pub check_body : Session → Session
  unfolding take_body
  check_body s = if leb s.expected_content_length (length s.in_buf) then take_body s else s

  -- The head ends at a place of the buffer.
  unfoldable pub take_head : ℕ → Session → Session
  unfolding parse_head content_length check_body drop_connection
  take_head header_end s = elim (parse_head (take header_end s.in_buf) s.request) [
    | none ↦ drop_connection s
    | some req ↦ check_body (record s {
      request = req;
      headers_complete = true;
      expected_content_length = content_length req s.expected_content_length;
      in_buf = drop (header_end + 4) s.in_buf;
    })
  ]

  unfoldable pub check_head : Session → Session
  unfolding find take_head drop_connection
  check_head s = elim (find head_end s.in_buf) [
    | none ↦ (if ltb max_head (length s.in_buf) then drop_connection s else s)
    | some header_end ↦ take_head header_end s
  ]

  unfoldable pub absorb : Bytes → Session → Session
  unfolding check_body check_head
  absorb bytes s =
      let s' = record s { in_buf = s.in_buf ++ bytes } in
      if s.headers_complete then check_body s' else check_head s'

  unfoldable pub handle_read : Recv → Session → Session
  unfolding absorb drop_connection is_streaming
  handle_read would_block s = s
  handle_read ended s = drop_connection s
  handle_read (received bytes) s =
      if is_streaming s.conn.state then drop_connection s else absorb bytes s

  -- The reads of the worker loop, which goes on as long as it asks for readiness to read.
  unfoldable pub read_all : List Bytes → Session → Session
  unfolding handle_read is_polled
  read_all [] s = s
  read_all (c ∷ cs) s = elim (is_polled s.conn.state) [
    | true ↦ read_all cs (handle_read (received c) s)
    | false ↦ s
  ]
