-- ===== src/Web/Routes.antt =====
-- HttpResponse, the routes and the static files of src/web/http_server.cpp. The text of a JSON error
-- is a parameter, and so are the files: what reading a path gives, if it can be opened.
pub mod Confined
use fmesh_cli.Common.{
  ℕ, suc, Bool, true, false, ◌&&◌, ◌||◌, not, List, [], ◌∷◌, ◌++◌, Option, none, some, Bytes, codes,
  length, take, drop, leb, ltb, ◌==◌, ◌=?◌, if◌then◌else◌, put_sorted, lookup_key, before,
}
use fmesh_cli.App.Config.Atoi.{print}
use fmesh_cli.App.Config.Spec.{is_empty}
use fmesh_cli.Mesh.NodeDb.{to_lower, occurs}
use fmesh_cli.Tui.Window.{find, rfind, is_prefix}
use fmesh_cli.Web.Request.{HttpRequest}

pub record HttpResponse : Type 0 where
  pub status : ℕ
  pub status_text : Bytes
  pub headers : List (Bytes × Bytes)
  pub body : Bytes

abbrev pub blank : HttpResponse
blank = record { status = 200; status_text = codes "OK"; headers = []; body = [] }

unfoldable pub set_header : Bytes → Bytes → HttpResponse → HttpResponse
unfolding put_sorted
set_header key value res = record res { headers = put_sorted key value res.headers }

unfoldable pub json : ℕ → Bytes → HttpResponse
unfolding set_header
json status text =
    set_header (codes "Access-Control-Allow-Headers") (codes "Content-Type, Authorization") (
      set_header (codes "Access-Control-Allow-Methods") (codes "GET, POST, OPTIONS") (
        set_header (codes "Access-Control-Allow-Origin") (codes "*") (
          set_header (codes "Content-Type") (codes "application/json; charset=utf-8")
            (record blank {
              status = status;
              status_text =
                  (if status == 200
                    then codes "OK"
                    else if status == 201
                    then codes "Created"
                    else codes "Error");
              body = text;
            }))))

unfoldable pub text : ℕ → Bytes → HttpResponse
unfolding set_header
text status msg = set_header (codes "Access-Control-Allow-Origin") (codes "*") (
    set_header (codes "Content-Type") (codes "text/plain; charset=utf-8") (record blank {
      status = status;
      status_text = (if status == 200 then codes "OK" else codes "Error");
      body = msg;
    }))

unfoldable pub html : Bytes → HttpResponse
unfolding set_header
html content =
    set_header (codes "Content-Type") (codes "text/html; charset=utf-8")
      (record blank { body = content })

unfoldable pub file : Bytes → Bytes → HttpResponse
unfolding set_header
file content_type content =
    set_header (codes "Cache-Control") (codes "no-cache")
      (set_header (codes "Content-Type") content_type (record blank { body = content }))

-- The type for a lower-case extension.
unfoldable pub mime_of : Bytes → Bytes
mime_of ext =
    if ext =? codes ".html" || ext =? codes ".htm"
    then codes "text/html; charset=utf-8"
    else if ext =? codes ".css"
    then codes "text/css; charset=utf-8"
    else if ext =? codes ".js"
    then codes "application/javascript; charset=utf-8"
    else if ext =? codes ".json"
    then codes "application/json; charset=utf-8"
    else if ext =? codes ".svg"
    then codes "image/svg+xml"
    else if ext =? codes ".png"
    then codes "image/png"
    else if ext =? codes ".jpg" || ext =? codes ".jpeg"
    then codes "image/jpeg"
    else if ext =? codes ".gif"
    then codes "image/gif"
    else if ext =? codes ".ico"
    then codes "image/x-icon"
    else if ext =? codes ".woff2"
    then codes "font/woff2"
    else if ext =? codes ".woff"
    then codes "font/woff"
    else if ext =? codes ".ttf"
    then codes "font/ttf"
    else codes "application/octet-stream"

unfoldable pub get_mime_type : Bytes → Bytes
unfolding mime_of
get_mime_type path = elim (rfind (codes ".") path) [
  | none ↦ codes "application/octet-stream"
  | some dot ↦ mime_of (to_lower (drop dot path))
]

-- What a handler does: it returns a response or throws an exception with a text.
pub data Outcome : Type 0 where
  returned : HttpResponse → Outcome
  threw : Bytes → Outcome

abbrev pub HttpHandler : Type 0
HttpHandler = HttpRequest → Outcome

-- An entry of the routes, with its method and its path.
pub record Route : Type 0 where
  pub method : Bytes
  pub path : Bytes
  pub handler : HttpHandler

pub record HttpServer : Type 0 where
  pub routes : List Route
  pub static_dir : Bytes
  pub sse_endpoint : Bytes

unfoldable pub is_route : Bytes → Bytes → Route → Bool
is_route method path r = r.method =? method && r.path =? path

-- `routes_[{method, path}] = handler`, in the order of the methods and then of the paths.
unfoldable pub put_route : Route → List Route → List Route
unfolding is_route before
put_route r [] = r ∷ []
put_route r (s ∷ routes) =
    let rest = put_route r routes in
    if is_route r.method r.path s
    then r ∷ routes
    else if before r.method s.method || r.method =? s.method && before r.path s.path
    then r ∷ s ∷ routes
    else s ∷ rest

unfoldable pub add : Bytes → Bytes → HttpHandler → HttpServer → HttpServer
unfolding put_route
add method path handler server = record server {
  routes = put_route (record { method = method; path = path; handler = handler }) server.routes;
}

unfoldable pub route_at : Bytes → Bytes → List Route → Option HttpHandler
unfolding is_route
route_at method path [] = none
route_at method path (r ∷ routes) =
    if is_route method path r then some r.handler else route_at method path routes

-- What stands before the star at the end of a path.
unfoldable pub before_star : Bytes → Option Bytes
before_star [] = none
before_star (c ∷ []) = if c == b'*' then some [] else none
before_star (c ∷ d ∷ cs) = elim (before_star (d ∷ cs)) [ none ↦ none | some p ↦ some (c ∷ p) ]

unfoldable pub matches : Bytes → Bytes → Route → Bool
unfolding is_prefix before_star
matches method path r =
    r.method =? method && (elim (before_star r.path) [ none ↦ false | some p ↦ is_prefix p path ])

unfoldable pub wildcard_at : Bytes → Bytes → List Route → Option HttpHandler
unfolding matches
wildcard_at method path [] = none
wildcard_at method path (r ∷ routes) =
    if matches method path r then some r.handler else wildcard_at method path routes

unfoldable pub handler_for : HttpRequest → List Route → Option HttpHandler
unfolding route_at wildcard_at
handler_for req routes = elim (route_at req.method req.path routes) [
  | some h ↦ some h
  | none ↦ wildcard_at req.method req.path routes
]

-- `if (full_path.back() == '/') full_path.pop_back();`
unfoldable pub without_slash : Bytes → Bytes
without_slash [] = []
without_slash (c ∷ []) = if c == b'/' then [] else c ∷ []
without_slash (c ∷ d ∷ cs) = c ∷ without_slash (d ∷ cs)

unfoldable pub has_dots : Bytes → Bool
unfolding find occurs
has_dots path = occurs (find (codes "..") path)

unfoldable pub clean : Bytes → Bytes
clean path = if is_empty path || path =? codes "/" then codes "/index.html" else path

module _ (error_text : Bytes → ℕ → Bytes) (files : Bytes → Option Bytes) where
  unfoldable pub not_found : Bytes → HttpResponse
  unfolding json
  not_found msg = record (json 404 (error_text msg 404)) { status_text = codes "Not Found" }

  unfoldable pub bad_request : Bytes → HttpResponse
  unfolding json
  bad_request msg = record (json 400 (error_text msg 400)) { status_text = codes "Bad Request" }

  unfoldable pub error : Bytes → HttpResponse
  unfolding json
  error msg = record (json 500 (error_text msg 500)) { status_text = codes "Internal Server Error" }

  -- What stands in for a path that cannot be opened: the page, unless the path names an asset.
  unfoldable pub fallback : Bytes → Bytes → HttpResponse
  unfolding not_found occurs find file
  fallback static_dir clean_path =
      if occurs (find (codes ".") clean_path)
      then not_found (codes "Not Found")
      else elim (files (static_dir ++ codes "/index.html")) [
        | none ↦ not_found (codes "Not Found")
        | some content ↦ file (codes "text/html; charset=utf-8") content
      ]

  unfoldable pub serve_static : Bytes → Bytes → HttpResponse
  unfolding not_found has_dots without_slash clean fallback file get_mime_type
  serve_static static_dir path =
      let clean_path = clean path in
      if has_dots clean_path
      then not_found (codes "Not Found")
      else elim (files (without_slash static_dir ++ clean_path)) [
        | none ↦ fallback static_dir clean_path
        | some content ↦ file (get_mime_type clean_path) content
      ]

  unfoldable pub dispatch_route : HttpServer → HttpRequest → HttpResponse
  unfolding handler_for error not_found serve_static
  dispatch_route server req = elim (handler_for req server.routes) [
    | some handler ↦ elim (handler req) [ returned res ↦ res | threw what ↦ error what ]
    | none ↦
        (if req.method =? codes "GET" && not (is_empty server.static_dir)
          then serve_static server.static_dir req.path
          else not_found (codes "Not Found"))
  ]
