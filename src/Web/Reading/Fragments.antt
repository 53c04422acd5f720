-- ===== src/Web/Reading/Fragments.antt =====
-- A request that comes in pieces to the reading side of src/web/http_server.cpp.
use fmesh_cli.Common.{
  ℕ, ◌+◌, ◌≤◌, ◌≡◌, refl, sym, ap, ◌∙◌, ◌⊎◌, true, false, List, [], ◌∷◌, ◌++◌, append-nil, Option,
  Bytes, length, arith, inl, inr, length-append, concat, Bool-cases,
}
use fmesh_cli.Web.Connection.{
  ConnState, reading_request, writing_response, streaming_sse, closed, close,
}
use fmesh_cli.Web.Routes.{HttpServer}
use fmesh_cli.Web.Reading.{
  Session, received, max_head, is_streaming, is_reading, is_polled, absorb, handle_read, read_all,
  drop_connection,
}
use fmesh_cli.Web.Reading.Steps.{Agree, absorb-Split}

reading_is_not_streaming : (c : ConnState) → is_reading c ≡ true → is_streaming c ≡ false
unfolding is_reading is_streaming
reading_is_not_streaming reading_request h = refl
reading_is_not_streaming streaming_sse h = cc
reading_is_not_streaming writing_response h = refl
reading_is_not_streaming closed h = refl

reading_is_polled : (c : ConnState) → is_reading c ≡ true → is_polled c ≡ true
unfolding is_reading is_polled
reading_is_polled reading_request h = refl
reading_is_polled streaming_sse h = cc
reading_is_polled writing_response h = cc
reading_is_polled closed h = cc

done_is_not_polled :
    (c : ConnState) → is_reading c ≡ false → is_streaming c ≡ false → is_polled c ≡ false
unfolding is_reading is_streaming is_polled
done_is_not_polled reading_request h k = cc
done_is_not_polled streaming_sse h k = cc
done_is_not_polled writing_response h k = refl
done_is_not_polled closed h k = refl

streaming_is_polled : (c : ConnState) → is_streaming c ≡ true → is_polled c ≡ true
unfolding is_streaming is_polled
streaming_is_polled reading_request h = cc
streaming_is_polled streaming_sse h = refl
streaming_is_polled writing_response h = cc
streaming_is_polled closed h = cc

-- `s` is what `t` is, or `t` is an event stream, and `s` the same but for being closed.
abbrev pub AgreeOrHungUp : Session → Session → Type 0
AgreeOrHungUp s t =
    Agree s t
    ⊎ ((is_streaming t.conn.state ≡ true) × (s.conn ≡ close t.conn) × (s.request ≡ t.request))

module _ (error_text : Bytes → ℕ → Bytes) (files : Bytes → Option Bytes) (server : HttpServer) where
  handle_read-absorb :
      (c : Bytes) (s : Session)
      → is_reading s.conn.state ≡ true
      → handle_read error_text files server (received c) s ≡ absorb error_text files server c s
  unfolding handle_read
  handle_read-absorb c s h = rw (reading_is_not_streaming s.conn.state h) refl

  read_all-go :
      (c : Bytes) (cs : List Bytes) (s : Session)
      → is_reading s.conn.state ≡ true
      → read_all error_text files server (c ∷ cs) s
        ≡ read_all error_text files server cs (absorb error_text files server c s)
  unfolding read_all
  read_all-go c cs s h =
      rw (read_all, reading_is_polled s.conn.state h)
        (ap (read_all error_text files server cs) (handle_read-absorb c s h))

  read_all-nil : (s : Session) → read_all error_text files server [] s ≡ s
  unfolding read_all
  read_all-nil s = refl

  read_all-stop :
      (cs : List Bytes) (s : Session)
      → is_polled s.conn.state ≡ false
      → read_all error_text files server cs s ≡ s
  unfolding read_all
  read_all-stop [] s h = refl
  read_all-stop (c ∷ cs) s h = rw (read_all, h) refl

  dropped_is_not_polled : (s : Session) → is_polled (drop_connection s).conn.state ≡ false
  unfolding drop_connection close is_polled
  dropped_is_not_polled s = refl

  -- What comes on a stream closes it.
  read_all-stream :
      (c : Bytes) (cs : List Bytes) (s : Session)
      → is_streaming s.conn.state ≡ true
      → read_all error_text files server (c ∷ cs) s ≡ drop_connection s
  unfolding read_all handle_read
  read_all-stream c cs s h =
      rw (read_all, streaming_is_polled s.conn.state h, h)
        (read_all-stop cs (drop_connection s) (dropped_is_not_polled s))

  hung_up :
      (s t : Session)
      → is_streaming s.conn.state ≡ true
      → Agree s t
      → AgreeOrHungUp (drop_connection s) t
  unfolding drop_connection
  hung_up s t h a = inr (
    ap (λ conn. is_streaming conn.state) (sym a.same_conn) ∙ h,
    ap close a.same_conn,
    a.same_request,
  )

  -- The reads that follow when the request is answered.
  read_past :
      (c : Bytes) (cs : List Bytes) (s t : Session)
      → is_reading s.conn.state ≡ false
      → Agree s t
      → AgreeOrHungUp (read_all error_text files server (c ∷ cs) s) t
  read_past c cs s t h a = elim (Bool-cases (is_streaming s.conn.state)) [
    | inl e ↦ rw (read_all-stream c cs s e) (hung_up s t e a)
    | inr e ↦ rw (read_all-stop (c ∷ cs) s (done_is_not_polled s.conn.state h e)) (inl a)
  ]

  -- The reads `cs` that follow a first one.
  read_on :
      (c : Bytes) (cs : List Bytes) (s : Session)
      → is_reading s.conn.state ≡ true
      → length s.in_buf + length (c ++ concat cs) ≤ max_head
      → AgreeOrHungUp
          (read_all error_text files server cs (absorb error_text files server c s))
          (absorb error_text files server (c ++ concat cs) s)
  read_on c [] s r h =
      rw (append-nil c, read_all-nil (absorb error_text files server c s))
        (inl (record { same_conn = refl; same_request = refl }))
  read_on c (d ∷ ds) s r h =
      elim (absorb-Split error_text files server s c (d ++ concat ds)
        (omega (arith, length-append c (d ++ concat ds)))) [
          | inl (stopped, agree) ↦
              read_past d ds (absorb error_text files server c s) _ stopped agree
          | inr (onward, le, same) ↦
              let r' : is_reading (absorb error_text files server c s).conn.state ≡ true =
                ap (λ conn. is_reading conn.state) same ∙ r in
              rw (read_all-go d ds (absorb error_text files server c s) r', sym onward)
                (read_on d ds (absorb error_text files server c s) r'
                  (omega (arith, le, h, length-append c (d ++ concat ds))))
        ]

  -- A connection that waits for a request comes to the same request, the same state and the same
  -- answer, whether bytes come in one read or cut into reads in any way, if they and what it holds
  -- already are at most 65536 bytes; but where in one read they open an event stream, the reads may
  -- also leave it closed, with the same request and the same bytes to send. What is written between
  -- the reads is left aside.
  pub read_all-fragments :
      (c : Bytes) (cs : List Bytes) (s : Session)
      → is_reading s.conn.state ≡ true
      → length s.in_buf + length (c ++ concat cs) ≤ max_head
      → AgreeOrHungUp
          (read_all error_text files server (c ∷ cs) s)
          (read_all error_text files server ((c ++ concat cs) ∷ []) s)
  read_all-fragments c cs s r h =
      rw
        (
          read_all-go c cs s r,
          read_all-go (c ++ concat cs) [] s r,
          read_all-nil (absorb error_text files server (c ++ concat cs) s),
        )
        (read_on c cs s r h)
