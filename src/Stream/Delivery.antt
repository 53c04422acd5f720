-- ===== src/Stream/Delivery.antt =====
-- What arrives of the frames that StreamClient::frame and StreamServer::broadcast write.
use fmesh_cli.Common.{
  index_of, ℕ, zero, suc, ◌+◌, ◌*◌, ◌/◌, ◌%◌, ◌≤◌, ◌<◌, ◌++◌, ◌≡◌, refl, sym, ap, ap₂, ◌∙◌,
  length-append, lt→leb_false, lt→ltb, inl, inr, List, [], ◌∷◌, true, Bytes, length, arith,
  append-nil, le→ltb_false, concat,
}
use fmesh_cli.Stream.{
  start1, break_loop, resume, take_payload, read_payload, seek, after_seek, check_start2, read_rest,
  max_payload, is_start2, frame, wait_start1, Parser, fresh, round, drain, feed, feed_all,
}
use fmesh_cli.Stream.Reference.{idle, rx_sized, decode, decode-body}
use fmesh_cli.Stream.Steps.{parser, ahead}
use fmesh_cli.Stream.Refine.{fresh-Runs}

-- A frame that the senders write: its type and its payload.
pub record Packet : Type 0 where
  pub kind : ℕ
  pub payload : Bytes

-- One of the three frame types, and a payload that fits.
pub record Fits (p : Packet) : Type 0 where
  pub known : is_start2 p.kind ≡ true
  pub small : length p.payload ≤ max_payload

abbrev pub AllFit : List Packet → Type 0
AllFit [] = Unit {0}
AllFit (p ∷ ps) = Fits p × AllFit ps

abbrev pub wire : List Packet → Bytes
wire [] = []
wire (p ∷ ps) = frame p.payload p.kind ++ wire ps

frame-small :
    (payload : Bytes) (kind : ℕ)
    → length payload ≤ max_payload
    → frame payload kind ≡ start1 ∷ kind ∷ (length payload / 256) ∷ (length payload % 256) ∷ payload
unfolding frame
frame-small payload kind h =
    rw (le→ltb_false max_payload (length payload) h)
      (ap₂ (λ hi lo. start1 ∷ kind ∷ hi ∷ lo ∷ payload) (omega arith) (omega arith))

pub frame_oversize :
    (payload : Bytes) (kind : ℕ) → max_payload < length payload → frame payload kind ≡ []
unfolding frame
frame_oversize payload kind h = rw (lt→ltb max_payload (length payload) h)

pub frame-nonempty :
    (payload : Bytes) (kind : ℕ) → length payload ≤ max_payload → 0 < length (frame payload kind)
frame-nonempty payload kind h = rw (frame-small payload kind h) (omega arith)

length-wire :
    (p : Packet) (ps : List Packet)
    → Fits p
    → length (wire (p ∷ ps)) ≡ 4 + length p.payload + length (wire ps)
length-wire p ps f =
    rw (frame-small p.payload p.kind f.small) (omega (arith, length-append p.payload (wire ps)))

module _ {E : Type 0} (deliver : ℕ → Bytes → List E) where
  abbrev pub deliver_all : List Packet → List E
  deliver_all [] = []
  deliver_all (p ∷ ps) = deliver p.kind p.payload ++ deliver_all ps

  decode-sized :
      (t : ℕ) (xs rest : Bytes) (n : ℕ)
      → length xs ≡ n
      → (rx_sized deliver t n).0 ++ decode deliver (rx_sized deliver t n).1 (xs ++ rest)
        ≡ deliver t xs ++ decode deliver idle rest
  decode-sized t [] rest zero h = refl
  decode-sized t (x ∷ xs) rest zero h = absurd (omega arith)
  decode-sized t xs rest (suc n) h = decode-body deliver t [] xs rest n h

  decode-frame :
      (p : Packet) (rest : Bytes)
      → Fits p
      → decode deliver idle (frame p.payload p.kind ++ rest)
        ≡ deliver p.kind p.payload ++ decode deliver idle rest
  unfolding decode
  decode-frame p rest f =
      rw (frame-small p.payload p.kind f.small, f.known)
        (decode-sized p.kind p.payload rest _ (omega arith))

  decode-wire : (ps : List Packet) → AllFit ps → decode deliver idle (wire ps) ≡ deliver_all ps
  unfolding decode
  decode-wire [] f = refl
  decode-wire (p ∷ ps) f =
      decode-frame p (wire ps) f.0 ∙ ap (deliver p.kind p.payload ++◌) (decode-wire ps f.1)

  -- Where the loop stops with four bytes or more, nothing complete is left.
  all_of_drained :
      (chunks : List Bytes)
      → 4 ≤ length (feed_all deliver fresh chunks).1.buf
      → ahead deliver (feed_all deliver fresh chunks).1 [] ≡ []
  all_of_drained chunks h = elim (fresh-Runs deliver chunks).stop [
    | inl few ↦ absurd (omega arith)
    | inr drained ↦ drained
  ]

  -- However the bytes are cut into reads, the loop emits what the byte-at-a-time decoder emits on
  -- all of them, in that order, but for what is still in its buffer.
  pub feed_all-eq-decode :
      (chunks : List Bytes)
      → decode deliver idle (concat chunks)
        ≡ (feed_all deliver fresh chunks).0 ++ ahead deliver (feed_all deliver fresh chunks).1 []
  unfolding fresh
  feed_all-eq-decode chunks =
      ap (decode deliver idle) (sym (append-nil (concat chunks)))
      ∙ (fresh-Runs deliver chunks).ahead_eq []

  -- However the bytes are cut into reads, if the loop ends with four bytes or more in its buffer it
  -- has emitted all that the byte-at-a-time decoder emits.
  pub feed_all_complete :
      (chunks : List Bytes)
      → 4 ≤ length (feed_all deliver fresh chunks).1.buf
      → (feed_all deliver fresh chunks).0 ≡ decode deliver idle (concat chunks)
  feed_all_complete chunks h = sym (
      feed_all-eq-decode chunks
      ∙ rw (all_of_drained chunks h) (append-nil (feed_all deliver fresh chunks).0))

  round-header :
      (n t kind hi lo : ℕ) (bs : Bytes)
      → is_start2 kind ≡ true
      → round deliver (parser wait_start1 n t (start1 ∷ kind ∷ hi ∷ lo ∷ bs))
        ≡ take_payload deliver read_payload (parser read_payload (hi * 256 + lo) kind bs)
  unfolding round seek after_seek check_start2 read_rest index_of
  round-header n t kind hi lo bs known = rw (known, after_seek, check_start2)

  -- Frames cut into reads in any way: the loop delivers their payloads, unchanged and in order,
  -- but for those that its last buffer holds back.
  pub feed_all-wire :
      (ps : List Packet) (chunks : List Bytes)
      → AllFit ps
      → concat chunks ≡ wire ps
      → deliver_all ps
        ≡ (feed_all deliver fresh chunks).0 ++ ahead deliver (feed_all deliver fresh chunks).1 []
  feed_all-wire ps chunks f e =
      sym (ap (decode deliver idle) e ∙ decode-wire ps f) ∙ feed_all-eq-decode chunks

  take_payload-short :
      (n t : ℕ) (xs : Bytes)
      → length xs < n
      → take_payload deliver read_payload (parser read_payload n t xs)
        ≡ record { out = []; flow = break_loop (parser read_payload n t xs) }
  unfolding take_payload
  take_payload-short n t xs h = rw (lt→leb_false n (length xs) h)

  feed-header :
      (kind n : ℕ)
      → 1 ≤ n
      → is_start2 kind ≡ true
      → feed deliver fresh (start1 ∷ kind ∷ 0 ∷ n ∷ [])
        ≡ ([], parser read_payload (0 * 256 + n) kind [])
  unfolding feed fresh drain resume
  feed-header kind n pos known = rw (
    round-header 0 0xC3 kind 0 n [] known,
    take_payload-short (0 * 256 + n) kind [] (omega arith),
  )

  drain-few : (fuel : ℕ) (p : Parser) → length p.buf < 4 → drain deliver fuel p ≡ ([], p)
  unfolding drain
  drain-few zero p h = refl
  drain-few (suc fuel) p h = rw (lt→leb_false 4 (length p.buf) h, drain)

  feed-few :
      (n t : ℕ) (xs : Bytes)
      → length xs < 4
      → feed deliver (parser read_payload n t []) xs ≡ ([], parser read_payload n t xs)
  unfolding feed
  feed-few n t xs h = drain-few _ (parser read_payload n t xs) h

  -- The header of a frame in one read and its payload of one, two or three bytes in the next: the
  -- frame is complete, and nothing is delivered.
  pub short_payload_waits :
      (p : Packet)
      → is_start2 p.kind ≡ true
      → 1 ≤ length p.payload
      → length p.payload ≤ 3
      → let header : Bytes = start1 ∷ p.kind ∷ 0 ∷ length p.payload ∷ [] in
        (header ++ p.payload ≡ frame p.payload p.kind)
        × ((feed_all deliver fresh (header ∷ p.payload ∷ [])).0 ≡ [])
  unfolding feed_all
  short_payload_waits p known pos small = (
    sym (
        frame-small p.payload p.kind (omega arith)
        ∙ ap₂ (λ hi lo. start1 ∷ p.kind ∷ hi ∷ lo ∷ p.payload) (omega arith) (omega arith)),
    rw (feed-header p.kind (length p.payload) pos known)
        (rw (feed-few (0 * 256 + length p.payload) p.kind p.payload (omega arith))),
  )
