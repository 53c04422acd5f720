-- ===== src/Web/Tests.antt =====
-- Runs of src/web/ at small inputs.
use fmesh_cli.Web.Reading.Fragments.{AgreeOrHungUp, read_all-fragments}
use fmesh_cli.Web.Routes.Confined.{serve_static-confined}
use fmesh_cli.Web.Routes.{HttpServer, has_dots, serve_static, file}
use fmesh_cli.Web.Reading.{read_all}
use fmesh_cli.Common.{
  refl, drop, sym, ap, ◌∙◌, inl, inr, Bool-cases, =?→eq, ◌++◌, ◌≡◌, true, List, [], ◌∷◌, codes,
  arith, Bytes, Option, ℕ, if◌then◌else◌, ◌=?◌, some, none, codes, codes, concat, false, codes,
  codes, codes, codes,
}
use fmesh_cli.Web.Connection.{Connection, streaming_sse, sent, would_block}
use fmesh_cli.Web.Worker.{accepted}
use fmesh_cli.Web.Connection.Sending.{
  Event, writable, frame, pending, handle_all, taken, handle_all-pending,
}

abbrev stream : Connection
stream = record { has_fd = true; state = streaming_sse; out_buf = codes "hello"; out_written = 0 }

abbrev events : List Event
events = writable (sent 2) ∷ frame (codes "you") ∷ writable would_block ∷ []

handle_all-pending_example :
    let (c', outs) = handle_all events stream in
    outs ++ pending c' ≡ pending stream ++ taken events stream
handle_all-pending_example =
    handle_all-pending events stream (omega arith) ((omega arith, omega arith), (tt, tt))

-- The text of an error is its message.
abbrev error_text : Bytes → ℕ → Bytes
error_text msg status = msg

-- One page, and one file beside the directory.
abbrev files : Bytes → Option Bytes
files path =
    if path =? codes "www/index.html"
    then some (codes "page")
    else if path =? codes "www/../secret"
    then some (codes "secret")
    else none

-- The same without the file beside the directory.
abbrev page_only : Bytes → Option Bytes
page_only path = if path =? codes "www/index.html" then some (codes "page") else none

abbrev server : HttpServer
server = record { routes = []; static_dir = codes "www"; sse_endpoint = codes "/api/events" }

abbrev first_part : Bytes
first_part = codes "GET /index.html?x=%41 HT"

abbrev last_parts : List Bytes
last_parts = codes "TP/1.1\r\nHost: a\r" ∷ codes "\n\r" ∷ codes "\n" ∷ []

read_all-fragments_example :
    AgreeOrHungUp
      (read_all error_text files server (first_part ∷ last_parts) accepted)
      (read_all error_text files server ((first_part ++ concat last_parts) ∷ []) accepted)
unfolding fmesh_cli.Web.Reading.is_reading
read_all-fragments_example =
    read_all-fragments error_text files server first_part last_parts accepted refl (omega arith)

path_is_read :
    (read_all error_text files server (first_part ∷ last_parts) accepted).request.path
    ≡ codes "/index.html"
unfolding fmesh_cli.Web.Reading.read_all fmesh_cli.Common.get_lines fmesh_cli.Common.index_of ◌=?◌
path_is_read = refl

dots_there : has_dots (codes "/../secret") ≡ false → ⊥
unfolding has_dots
dots_there h = cc

-- Between the two only a file outside of the directory differs.
same_inside :
    (p : Bytes) → has_dots p ≡ false → files (codes "www" ++ p) ≡ page_only (codes "www" ++ p)
unfolding has_dots
same_inside p h = elim (Bool-cases (codes "www" ++ p =? codes "www/../secret")) [
  | inr e ↦ rw e refl
  | inl e ↦
      let q : p ≡ codes "/../secret" =
        ap (drop 3) (=?→eq (codes "www" ++ p) (codes "www/../secret") e) in
      absurd (dots_there (sym (ap has_dots q) ∙ h))
]

serve_static-confined_example :
    serve_static error_text files (codes "www/") (codes "/../secret")
    ≡ serve_static error_text page_only (codes "www/") (codes "/../secret")
unfolding fmesh_cli.Web.Routes.without_slash ◌=?◌
serve_static-confined_example =
    serve_static-confined error_text files page_only (codes "www/") (codes "/../secret") same_inside
      refl

-- A path that does not begin with a slash names what stands beside the directory.
abbrev sibling : Bytes → Option Bytes
sibling path = if path =? codes "www-private/key.txt" then some (codes "key") else none

sibling_is_served :
    serve_static error_text sibling (codes "www") (codes "-private/key.txt")
    ≡ file (codes "application/octet-stream") (codes "key")
unfolding serve_static ◌=?◌ fmesh_cli.Web.Routes.get_mime_type fmesh_cli.Tui.Window.rfind
    fmesh_cli.Mesh.NodeDb.to_lower
sibling_is_served = refl
