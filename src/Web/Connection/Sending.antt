-- ===== src/Web/Connection/Sending.antt =====
-- What goes out on a connection.
use fmesh_cli.Common.{
  ℕ, zero, suc, ◌+◌, ◌-◌, ◌≤◌, ◌++◌, ◌≡◌, refl, sym, ap, ◌∙◌, List, [], ◌∷◌, Bytes, length, take,
  drop, ltb, leb, if◌then◌else◌, arith, append_assoc, append-nil, length-append, length-drop,
  take-append-drop, drop-append_of_le, Bool-cases, inl, inr, leb→le,
}
use fmesh_cli.Web.Connection.{
  ConnState, reading_request, writing_response, streaming_sse, closed, Connection, Answer, sent,
  would_block, failed, max_queued, close, written, compact, after_send, handle_write, queue_frame,
}

-- What is still to go out.
unfoldable pub pending : Connection → Bytes
pending c = drop c.out_written c.out_buf

-- The socket takes no more than it is given.
abbrev pub Honest : Answer → Connection → Type 0
Honest (sent n) c = (1 ≤ n) × (n ≤ length c.out_buf - c.out_written)
Honest would_block c = Unit {0}
Honest failed c = Unit {0}

drop-all : (n : ℕ) (xs : Bytes) → length xs ≤ n → drop n xs ≡ []
drop-all zero [] h = refl
drop-all zero (x ∷ xs) h = absurd (omega arith)
drop-all (suc n) [] h = refl
drop-all (suc n) (x ∷ xs) h = drop-all n xs (omega arith)

drop-nil : (n : ℕ) → drop {A = ℕ} n [] ≡ []
drop-nil zero = refl
drop-nil (suc n) = refl

drop-add : (m n : ℕ) (xs : Bytes) → drop n (drop m xs) ≡ drop (m + n) xs
drop-add zero n xs = ap (λ k. drop k xs) {x = n} (omega arith)
drop-add (suc m) n [] = drop-nil n ∙ sym (drop-nil (suc m + n))
drop-add (suc m) n (x ∷ xs) =
    drop-add m n xs ∙ ap (λ k. drop k (x ∷ xs)) {x = suc (m + n)} (omega arith)

written-pending :
    (s : ConnState) (c : Connection) → length c.out_buf ≤ c.out_written → pending (written s c) ≡ []
unfolding pending written close
written-pending reading_request c h = drop-all c.out_written c.out_buf h
written-pending writing_response c h = drop-all c.out_written c.out_buf h
written-pending streaming_sse c h = refl
written-pending closed c h = drop-all c.out_written c.out_buf h

compact-pending : (s : ConnState) (c : Connection) → pending (compact s c) ≡ pending c
unfolding pending compact
compact-pending reading_request c = refl
compact-pending writing_response c = refl
compact-pending streaming_sse c = refl
compact-pending closed c = refl

after_send-pending :
    (a : Answer) (c : Connection) → (after_send a c).1 ++ pending (after_send a c).0 ≡ pending c
unfolding after_send pending close
after_send-pending would_block c = refl
after_send-pending failed c = refl
after_send-pending (sent n) c = elim (Bool-cases (leb (length c.out_buf) (c.out_written + n))) [
  | inl e ↦
      rw (after_send, e)
        (ap (take n (drop c.out_written c.out_buf) ++◌) (
            written-pending c.state (record c { out_written = c.out_written + n })
              (leb→le (length c.out_buf) (c.out_written + n) e)
            ∙ sym (
                drop-all (c.out_written + n) c.out_buf
                  (leb→le (length c.out_buf) (c.out_written + n) e))
            ∙ sym (drop-add c.out_written n c.out_buf))
          ∙ take-append-drop n (drop c.out_written c.out_buf))
  | inr e ↦
      rw (after_send, e)
        (ap (take n (drop c.out_written c.out_buf) ++◌) (sym (drop-add c.out_written n c.out_buf))
          ∙ take-append-drop n (drop c.out_written c.out_buf))
]

handle_write-pending :
    (a : Answer) (c : Connection) → (handle_write a c).1 ++ pending (handle_write a c).0 ≡ pending c
unfolding handle_write pending
handle_write-pending a c = elim (Bool-cases (leb (length c.out_buf) c.out_written)) [
  | inl e ↦
      rw (handle_write, e)
        (written-pending c.state c (leb→le (length c.out_buf) c.out_written e)
          ∙ sym (drop-all c.out_written c.out_buf (leb→le (length c.out_buf) c.out_written e)))
  | inr e ↦
      rw (handle_write, e) (after_send-pending a (compact c.state c) ∙ compact-pending c.state c)
]

-- What happens to a connection: it becomes writable, or a frame is broadcast.
pub data Event : Type 0 where
  writable : Answer → Event
  frame : Bytes → Event

unfoldable pub handle : Event → Connection → Connection × Bytes
handle (writable a) c = handle_write a c
handle (frame f) c = (queue_frame f c.state c, [])

-- The connection after all of them, and all that went out.
unfoldable pub handle_all : List Event → Connection → Connection × Bytes
unfolding handle
handle_all [] c = (c, [])
handle_all (e ∷ es) c =
    let (c', out) = handle e c in let (c'', outs) = handle_all es c' in (c'', out ++ outs)

-- What a connection takes of a frame.
unfoldable pub accepted : Bytes → ConnState → Connection → Bytes
accepted f streaming_sse c = if ltb (length c.out_buf) max_queued then f else []
accepted f reading_request c = []
accepted f writing_response c = []
accepted f closed c = []

-- All that the connection took.
unfoldable pub taken : List Event → Connection → Bytes
unfolding handle accepted
taken [] c = []
taken (writable a ∷ es) c = taken es (handle_write a c).0
taken (frame f ∷ es) c = accepted f c.state c ++ taken es (queue_frame f c.state c)

abbrev pub AllHonest : List Event → Connection → Type 0
AllHonest [] c = Unit {0}
AllHonest (writable a ∷ es) c = Honest a c × AllHonest es (handle_write a c).0
AllHonest (frame f ∷ es) c = AllHonest es (queue_frame f c.state c)

-- No more has gone out than there was.
abbrev pub Within : Connection → Type 0
Within c = c.out_written ≤ length c.out_buf

written-Within : (s : ConnState) (c : Connection) → Within c → Within (written s c)
unfolding written close
written-Within reading_request c h = h
written-Within writing_response c h = h
written-Within streaming_sse c h = omega arith
written-Within closed c h = h

compact-room :
    (s : ConnState) (c : Connection)
    → length (compact s c).out_buf - (compact s c).out_written ≡ length c.out_buf - c.out_written
unfolding compact
compact-room reading_request c = refl
compact-room writing_response c = refl
compact-room streaming_sse c = omega (arith, length-drop c.out_written c.out_buf)
compact-room closed c = refl

compact-Within : (s : ConnState) (c : Connection) → Within c → Within (compact s c)
unfolding compact
compact-Within reading_request c h = h
compact-Within writing_response c h = h
compact-Within streaming_sse c h = omega arith
compact-Within closed c h = h

after_send-Within :
    (a : Answer) (c : Connection) → Honest a c → Within c → Within (after_send a c).0
unfolding after_send close
after_send-Within would_block c o h = h
after_send-Within failed c o h = h
after_send-Within (sent n) c o h =
    let more : Within (record c { out_written = c.out_written + n }) = omega (arith, o.1, h) in
    elim (Bool-cases (leb (length c.out_buf) (c.out_written + n))) [
      | inl e ↦
          rw (after_send, e)
            (written-Within c.state (record c { out_written = c.out_written + n }) more)
      | inr e ↦ rw (after_send, e) more
    ]

Honest-compact : (a : Answer) (c : Connection) → Honest a c → Honest a (compact c.state c)
Honest-compact would_block c o = tt
Honest-compact failed c o = tt
Honest-compact (sent n) c o = (o.0, omega (arith, o.1, compact-room c.state c))

handle_write-Within :
    (a : Answer) (c : Connection) → Honest a c → Within c → Within (handle_write a c).0
unfolding handle_write
handle_write-Within a c o h = elim (Bool-cases (leb (length c.out_buf) c.out_written)) [
  | inl e ↦ rw (handle_write, e) (written-Within c.state c h)
  | inr e ↦
      rw (handle_write, e)
        (after_send-Within a (compact c.state c) (Honest-compact a c o)
          (compact-Within c.state c h))
]

queue_frame-Within :
    (f : Bytes) (s : ConnState) (c : Connection) → Within c → Within (queue_frame f s c)
unfolding queue_frame
queue_frame-Within f reading_request c h = h
queue_frame-Within f writing_response c h = h
queue_frame-Within f closed c h = h
queue_frame-Within f streaming_sse c h = ground (arith, length-append c.out_buf f)

queue_frame-pending :
    (f : Bytes) (s : ConnState) (c : Connection)
    → Within c
    → pending (queue_frame f s c) ≡ pending c ++ accepted f s c
unfolding queue_frame pending accepted
queue_frame-pending f reading_request c h = sym (append-nil (pending c))
queue_frame-pending f writing_response c h = sym (append-nil (pending c))
queue_frame-pending f closed c h = sym (append-nil (pending c))
queue_frame-pending f streaming_sse c h = elim (Bool-cases (ltb (length c.out_buf) max_queued)) [
  | inl e ↦ rw (queue_frame, e) (drop-append_of_le c.out_written c.out_buf f h)
  | inr e ↦ rw (queue_frame, e) (sym (append-nil (pending c)))
]

-- Whatever the socket answers, as long as it takes no more than it is given, and however the writes
-- interleave with broadcasts: what has gone out, followed by what is still to go out, is what there
-- was to send followed by the frames that the connection took, in their order.
pub handle_all-pending :
    (es : List Event) (c : Connection)
    → Within c
    → AllHonest es c
    → let (c', outs) = handle_all es c in outs ++ pending c' ≡ pending c ++ taken es c
unfolding handle_all handle taken
handle_all-pending [] c h o = sym (append-nil (pending c))
handle_all-pending (writable a ∷ es) c h o =
    let d = (handle_write a c).0 in
    append_assoc (handle_write a c).1 (handle_all es d).1 (pending (handle_all es d).0)
    ∙ ap ((handle_write a c).1 ++◌) (handle_all-pending es d (handle_write-Within a c o.0 h) o.1)
    ∙ sym (append_assoc (handle_write a c).1 (pending d) (taken es d))
    ∙ ap (λ x. x ++ taken es d) (handle_write-pending a c)
handle_all-pending (frame f ∷ es) c h o =
    let d = queue_frame f c.state c in
    handle_all-pending es d (queue_frame-Within f c.state c h) o
    ∙ ap (λ x. x ++ taken es d) (queue_frame-pending f c.state c h)
    ∙ append_assoc (pending c) (accepted f c.state c) (taken es d)
