-- ===== src/Web/Reading/Steps.antt =====
-- One step of the reading side of src/web/http_server.cpp, with fewer or with more bytes.
use fmesh_cli.Common.{
  ℕ, ◌+◌, ◌≤◌, ◌≡◌, ◌⊎◌, refl, sym, ap, ◌∙◌, true, false, ◌&&◌, ◌++◌, append_assoc, Option, none,
  some, Bytes, codes, length, take, drop, leb, ◌=?◌, arith, Bool-cases, Option-cases, inl, inr,
  length-append, length-drop, drop-append_of_le, le→leb, lt→leb_false, le→ltb_false, leb→le,
  leb_false→lt, ◌<◌,
}
use fmesh_cli.Tui.Window.{find}
use fmesh_cli.Web.Connection.{Connection, close}
use fmesh_cli.Web.Request.{HttpRequest, parse_head}
use fmesh_cli.Web.Routes.{HttpServer}
use fmesh_cli.Web.Reading.{
  Session, head_end, max_head, answer, content_length, drop_connection, is_reading, respond,
  process_request, check_body, take_head, check_head, absorb, take_body,
}
use fmesh_cli.Web.Reading.Front.{find-append, take-append_of_le}

-- Two sessions with the same request, state and answer.
pub record Agree (s t : Session) : Type 0 where
  pub same_conn : s.conn ≡ t.conn
  pub same_request : s.request ≡ t.request

-- A session with another buffer.
abbrev pub with_buf : Session → Bytes → Session
with_buf s b = record s { in_buf = b }

respond_done :
    (error_text : Bytes → ℕ → Bytes) (files : Bytes → Option Bytes) (server : HttpServer)
    (req : HttpRequest) (c : Connection)
    → is_reading (respond error_text files server req c).state ≡ false
unfolding respond answer is_reading
respond_done error_text files server req c = elim (Bool-cases (req.method =? codes "OPTIONS")) [
  | inl e ↦ rw (respond, e) refl
  | inr e ↦ elim (Bool-cases (req.method =? codes "GET" && req.path =? server.sse_endpoint)) [
    | inl f ↦ rw (respond, e, f) refl
    | inr f ↦ rw (respond, e, f) refl
  ]
]

module _ (error_text : Bytes → ℕ → Bytes) (files : Bytes → Option Bytes) (server : HttpServer) where
  -- `s1` is what a step makes of a buffer of `n` bytes, `s2` what it makes of it with the bytes
  -- `rest` behind it: `s1` is done and the same as `s2`, or goes on with the rest to `s2`, the
  -- connection being `c0` as before.
  abbrev pub Split : Session → Session → Bytes → ℕ → Connection → Type 0
  Split s1 s2 rest n c0 =
      ((is_reading s1.conn.state ≡ false) × Agree s1 s2)
      ⊎ ((absorb error_text files server rest s1 ≡ s2) × (length s1.in_buf ≤ n) × (s1.conn ≡ c0))

  weaken :
      (s1 s2 : Session) (rest : Bytes) (n m : ℕ) (c0 : Connection)
      → n ≤ m
      → Split s1 s2 rest n c0
      → Split s1 s2 rest m c0
  weaken s1 s2 rest n m c0 h (inl a) = inl a
  weaken s1 s2 rest n m c0 h (inr a) = inr (a.0, omega (arith, h, a.1), a.2)

  take_body_done :
      (s : Session) → is_reading (take_body error_text files server s).conn.state ≡ false
  unfolding take_body process_request
  take_body_done s =
      respond_done error_text files server
        (record s.request { body = take s.expected_content_length s.in_buf }) s.conn

  take_body-Agree :
      (s : Session) (b rest : Bytes)
      → s.expected_content_length ≤ length b
      → Agree
          (take_body error_text files server (with_buf s b))
          (take_body error_text files server (with_buf s (b ++ rest)))
  unfolding take_body process_request
  take_body-Agree s b rest h =
      let e = sym (take-append_of_le s.expected_content_length b rest h) in
      record {
        same_conn =
            ap (λ body. respond error_text files server (record s.request { body = body }) s.conn)
              e;
        same_request = ap (λ body. record s.request { body = body }) e;
      }

  check_body-enough :
      (s : Session)
      → s.expected_content_length ≤ length s.in_buf
      → check_body error_text files server s ≡ take_body error_text files server s
  unfolding check_body
  check_body-enough s h = rw (le→leb s.expected_content_length (length s.in_buf) h) refl

  check_body-short :
      (s : Session)
      → length s.in_buf < s.expected_content_length
      → check_body error_text files server s ≡ s
  unfolding check_body
  check_body-short s h = rw (lt→leb_false s.expected_content_length (length s.in_buf) h) refl

  absorb_complete :
      (s : Session) (bytes : Bytes)
      → s.headers_complete ≡ true
      → absorb error_text files server bytes s
        ≡ check_body error_text files server (with_buf s (s.in_buf ++ bytes))
  unfolding absorb
  absorb_complete s bytes h = rw h refl

  absorb_head :
      (s : Session) (bytes : Bytes)
      → s.headers_complete ≡ false
      → absorb error_text files server bytes s
        ≡ check_head error_text files server (with_buf s (s.in_buf ++ bytes))
  unfolding absorb
  absorb_head s bytes h = rw h refl

  check_body-Split :
      (s : Session) (b rest : Bytes)
      → s.headers_complete ≡ true
      → Split
          (check_body error_text files server (with_buf s b))
          (check_body error_text files server (with_buf s (b ++ rest)))
          rest
          (length b)
          s.conn
  check_body-Split s b rest done = elim (Bool-cases (leb s.expected_content_length (length b))) [
    | inl e ↦
        let h : s.expected_content_length ≤ length b =
          leb→le s.expected_content_length (length b) e in
        rw
          (
            check_body-enough (with_buf s b) h,
            check_body-enough (with_buf s (b ++ rest)) (omega (arith, length-append b rest)),
          )
          (inl (take_body_done (with_buf s b), take_body-Agree s b rest h))
    | inr e ↦
        rw (check_body-short (with_buf s b) (leb_false→lt s.expected_content_length (length b) e))
          (inr (absorb_complete (with_buf s b) rest done, omega arith, refl))
  ]

  -- The session when its head is read.
  abbrev headed : ℕ → HttpRequest → Session → Session
  headed i req s = record s {
    request = req;
    headers_complete = true;
    expected_content_length = content_length req s.expected_content_length;
    in_buf = drop (i + 4) s.in_buf;
  }

  take_head-none :
      (i : ℕ) (s : Session)
      → parse_head (take i s.in_buf) s.request ≡ none
      → take_head error_text files server i s ≡ drop_connection s
  unfolding take_head
  take_head-none i s h = rw (take_head, h) refl

  take_head-some :
      (i : ℕ) (s : Session) (req : HttpRequest)
      → parse_head (take i s.in_buf) s.request ≡ some req
      → take_head error_text files server i s ≡ check_body error_text files server (headed i req s)
  unfolding take_head
  take_head-some i s req h = rw (take_head, h) refl

  dropped_done : (s : Session) → is_reading (drop_connection s).conn.state ≡ false
  unfolding drop_connection close is_reading
  dropped_done s = refl

  drop_connection-Agree :
      (s : Session) (b c : Bytes)
      → Agree (drop_connection (with_buf s b)) (drop_connection (with_buf s c))
  unfolding drop_connection
  drop_connection-Agree s b c = record { same_conn = refl; same_request = refl }

  take_head-Split :
      (s : Session) (i : ℕ) (b rest : Bytes)
      → i + 4 ≤ length b
      → Split
          (take_head error_text files server i (with_buf s b))
          (take_head error_text files server i (with_buf s (b ++ rest)))
          rest
          (length b)
          s.conn
  take_head-Split s i b rest h =
      let same = take-append_of_le i b rest (omega arith) in
      elim (Option-cases (parse_head (take i b) s.request)) [
        | inl e ↦
            rw
              (
                take_head-none i (with_buf s b) e,
                take_head-none i (with_buf s (b ++ rest))
                    (ap (λ t. parse_head t s.request) same ∙ e),
              )
              (inl (dropped_done (with_buf s b), drop_connection-Agree s b (b ++ rest)))
        | inr (req, e) ↦
            rw
              (
                take_head-some i (with_buf s b) req e,
                take_head-some i (with_buf s (b ++ rest)) req
                    (ap (λ t. parse_head t s.request) same ∙ e),
                drop-append_of_le (i + 4) b rest h,
              )
              (weaken (check_body error_text files server (headed i req (with_buf s b)))
                (check_body error_text files server
                  (with_buf (headed i req (with_buf s b)) (drop (i + 4) b ++ rest)))
                rest (length (drop (i + 4) b)) (length b) s.conn
                (omega (arith, length-drop (i + 4) b))
                (check_body-Split (headed i req (with_buf s b)) (drop (i + 4) b) rest refl))
      ]

  check_head-found :
      (s : Session) (i : ℕ)
      → find head_end s.in_buf ≡ some i
      → check_head error_text files server s ≡ take_head error_text files server i s
  unfolding check_head
  check_head-found s i h = rw (check_head, h) refl

  check_head-missing :
      (s : Session)
      → find head_end s.in_buf ≡ none
      → length s.in_buf ≤ max_head
      → check_head error_text files server s ≡ s
  unfolding check_head
  check_head-missing s h le = rw (check_head, h, le→ltb_false max_head (length s.in_buf) le) refl

  check_head-Split :
      (s : Session) (b rest : Bytes)
      → s.headers_complete ≡ false
      → length b ≤ max_head
      → Split
          (check_head error_text files server (with_buf s b))
          (check_head error_text files server (with_buf s (b ++ rest)))
          rest
          (length b)
          s.conn
  check_head-Split s b rest open_head h = elim (Option-cases (find head_end b)) [
    | inl e ↦
        rw (check_head-missing (with_buf s b) e h)
          (inr (absorb_head (with_buf s b) rest open_head, omega arith, refl))
    | inr (i, e) ↦
        let (e', le) = find-append head_end b rest i e in
        rw (check_head-found (with_buf s b) i e, check_head-found (with_buf s (b ++ rest)) i e')
          (take_head-Split s i b rest le)
  ]

  pub absorb-Split :
      (s : Session) (c rest : Bytes)
      → length s.in_buf + length c ≤ max_head
      → Split
          (absorb error_text files server c s)
          (absorb error_text files server (c ++ rest) s)
          rest
          (length s.in_buf + length c)
          s.conn
  absorb-Split s c rest h = elim (Bool-cases s.headers_complete) [
    | inl e ↦
        rw
          (
            absorb_complete s c e,
            absorb_complete s (c ++ rest) e,
            sym (append_assoc s.in_buf c rest),
            sym (length-append s.in_buf c),
          )
          (check_body-Split s (s.in_buf ++ c) rest e)
    | inr e ↦
        rw
          (
            absorb_head s c e,
            absorb_head s (c ++ rest) e,
            sym (append_assoc s.in_buf c rest),
            sym (length-append s.in_buf c),
          )
          (check_head-Split s (s.in_buf ++ c) rest e (omega (arith, length-append s.in_buf c)))
  ]
