-- ===== src/Web/Request.antt =====
-- HttpRequest of src/web/http_server.h and the parsing of a request in src/web/http_server.cpp.
use fmesh_cli.Common.{
  ℕ, ◌+◌, ◌*◌, Bool, true, false, ◌||◌, List, [], ◌∷◌, ◌++◌, Option, none, some, Bytes, take, drop,
  ◌==◌, ◌=?◌, if◌then◌else◌, index_of, put_sorted, lookup_key, get_lines,
}
use fmesh_cli.App.Config.Atoi.{is_space}
use fmesh_cli.App.Config.Spec.{is_empty}
use fmesh_cli.Mesh.NodeId.{digit_of}
use fmesh_cli.Mesh.NodeDb.{to_lower}

pub record HttpRequest : Type 0 where
  pub method : Bytes
  pub path : Bytes
  pub query_string : Bytes
  pub query_params : List (Bytes × Bytes)
  pub headers : List (Bytes × Bytes)
  pub body : Bytes

abbrev pub no_request : HttpRequest
no_request = record {
  method = [];
  path = [];
  query_string = [];
  query_params = [];
  headers = [];
  body = [];
}

-- The characters of " \t\r\n".
unfoldable pub is_blank : ℕ → Bool
is_blank c = (c == b' ' || c == b'\t') || (c == b'\r' || c == b'\n')

unfoldable pub trim_front : Bytes → Bytes
unfolding is_blank
trim_front [] = []
trim_front (c ∷ cs) = if is_blank c then trim_front cs else c ∷ cs

-- Without the blanks at the end.
unfoldable pub trim_back : Bytes → Bytes
unfolding is_blank
trim_back [] = []
trim_back (c ∷ cs) = elim (trim_back cs) [
  | [] ↦ (if is_blank c then [] else c ∷ [])
  | d ∷ ds ↦ c ∷ d ∷ ds
]

unfoldable pub trim : Bytes → Bytes
unfolding trim_front trim_back
trim str = trim_back (trim_front str)

unfoldable pub hex_val : ℕ → Option ℕ
hex_val c = digit_of c

-- The byte of two hexadecimal digits.
unfoldable pub escaped : ℕ → ℕ → Option ℕ
unfolding hex_val
escaped h1 h2 = elim (hex_val h1) [
  | none ↦ none
  | some v1 ↦ elim (hex_val h2) [ none ↦ none | some v2 ↦ some (v1 * 16 + v2) ]
]

unfoldable pub plain : ℕ → ℕ
plain c = if c == b'+' then b' ' else c

unfoldable pub url_decode : Bytes → Bytes
unfolding escaped plain
url_decode [] = []
url_decode (c ∷ []) = plain c ∷ []
url_decode (c ∷ d ∷ []) = plain c ∷ plain d ∷ []
url_decode (c ∷ h1 ∷ h2 ∷ rest) = elim (if c == b'%' then escaped h1 h2 else none) [
  | some b ↦ b ∷ url_decode rest
  | none ↦ plain c ∷ url_decode (h1 ∷ h2 ∷ rest)
]

-- The first header whose name differs from the key in the case of letters at most.
unfoldable pub header_from : Bytes → List (Bytes × Bytes) → Bytes
unfolding to_lower
header_from lower_key [] = []
header_from lower_key (e ∷ headers) =
    if to_lower e.0 =? lower_key then e.1 else header_from lower_key headers

unfoldable pub get_header : Bytes → HttpRequest → Bytes
unfolding header_from
get_header key req = header_from (to_lower key) req.headers

unfoldable pub get_query : Bytes → Bytes → HttpRequest → Bytes
get_query key default_val req = elim (lookup_key key req.query_params) [
  | none ↦ default_val
  | some v ↦ v
]

-- The parts that `std::getline` with a separator reads one after the other; `cur` is what of the
-- current one is read. An empty rest is no part.
unfoldable pub parts_from : ℕ → Bytes → Bytes → List Bytes
parts_from sep [] [] = []
parts_from sep (c ∷ cs) [] = (c ∷ cs) ∷ []
parts_from sep cur (x ∷ xs) = elim (x == sep) [
  | true ↦ cur ∷ parts_from sep [] xs
  | false ↦ parts_from sep (cur ++ (x ∷ [])) xs
]

unfoldable pub put_param : Bytes → List (Bytes × Bytes) → List (Bytes × Bytes)
unfolding url_decode
put_param pair params = elim (index_of b'=' pair) [
  | some eq ↦ put_sorted (url_decode (take eq pair)) (url_decode (drop (eq + 1) pair)) params
  | none ↦ (if is_empty pair then params else put_sorted (url_decode pair) [] params)
]

unfoldable pub put_params : List Bytes → List (Bytes × Bytes) → List (Bytes × Bytes)
unfolding put_param
put_params [] params = params
put_params (p ∷ ps) params = put_params ps (put_param p params)

-- A line without a colon is no header.
unfoldable pub put_header_line : Bytes → List (Bytes × Bytes) → List (Bytes × Bytes)
unfolding trim
put_header_line line headers = elim (index_of b':' line) [
  | none ↦ headers
  | some colon ↦ put_sorted (trim (take colon line)) (trim (drop (colon + 1) line)) headers
]

unfoldable pub put_headers : List Bytes → List (Bytes × Bytes) → List (Bytes × Bytes)
unfolding put_header_line
put_headers [] headers = headers
put_headers (l ∷ ls) headers = put_headers ls (put_header_line l headers)

-- `stream >> word`: the word, and what follows it.
unfoldable pub word_of : Bytes → Bytes × Bytes
word_of [] = ([], [])
word_of (c ∷ cs) =
    let (word, rest) = word_of cs in if is_space c then ([], c ∷ cs) else (c ∷ word, rest)

unfoldable pub skip_space : Bytes → Bytes
skip_space [] = []
skip_space (c ∷ cs) = if is_space c then skip_space cs else c ∷ cs

-- METHOD PATH: the request with its method, its path and its query, on the one of before.
unfoldable pub parse_request_line : Bytes → HttpRequest → HttpRequest
unfolding word_of skip_space parts_from put_params
parse_request_line line req =
    let (method, rest) = word_of (skip_space line) in
    let full_path = (word_of (skip_space rest)).0 in
    elim (index_of b'?' full_path) [
      | none ↦ record req { method = method; path = full_path }
      | some qpos ↦
          let query = drop (qpos + 1) full_path in
          record req {
            method = method;
            path = take qpos full_path;
            query_string = query;
            query_params = put_params (parts_from b'&' [] query) req.query_params;
          }
    ]

-- The head of a request; `none` where it has no first line.
unfoldable pub parse_head : Bytes → HttpRequest → Option HttpRequest
unfolding parse_request_line put_headers
parse_head raw_headers req = elim (get_lines raw_headers) [
  | [] ↦ none
  | line ∷ lines ↦
      let req' = parse_request_line line req in
      some (record req' { headers = put_headers lines req'.headers })
]
