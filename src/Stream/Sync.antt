-- ===== src/Stream/Sync.antt =====
-- MeshService::send_db_sync of src/mesh/mesh_service.cpp, as far as the stream: a sync payload is
-- compressed if that helps, framed with the type that tells so, and read by the other side.
use fmesh_cli.Common.{
  ℕ, ◌≤◌, ◌≡◌, sym, ◌∙◌, ◌⊎◌, inl, inr, List, [], ◌∷◌, Option, some, Bytes, length, append-nil,
  refl, zero, suc, ◌++◌, concat, arith,
}
use fmesh_cli.Util.Compression.{
  Zstd, decompress, compress_adaptive, min_compress_size, default_level, max_decompressed_size,
}
use fmesh_cli.Util.Compression.Laws.{Lossless, compress_adaptive-restores}
use fmesh_cli.Stream.{
  frame, fresh, feed_all, max_payload, Parser, Phase, wait_start1, wait_start2, read_len_hi,
  read_len_lo, read_payload,
}
use fmesh_cli.Stream.Reference.{decode}
use fmesh_cli.Stream.Steps.{view, Inv, InvAt, ahead}
use fmesh_cli.Stream.Refine.{fresh-Runs}
use fmesh_cli.Stream.Delivery.{Packet, Fits, feed_all-wire}
use fmesh_cli.Stream.Events.{
  StreamEvent, db_sync_payload, deliver_server, deliver_client, server_device,
}

module _ {Ctx : Type 0} (z : Zstd Ctx) where
  -- The bytes that go to a peer, and their frame type.
  unfoldable pub sync_packet : Bytes → Packet
  sync_packet payload =
      let (sent, marker) = compress_adaptive z payload 0xD0 0xD1 min_compress_size default_level in
      record { kind = marker; payload = sent }

  pub sync_frame : Bytes → Bytes
  unfolding sync_packet
  sync_frame payload = frame (sync_packet payload).payload (sync_packet payload).kind

  -- The two frame types of a packet that gives back the payload.
  abbrev Carries : Bytes → Packet → Type 0
  Carries payload p =
      ((p.kind ≡ 0xD0) × (p.payload ≡ payload))
      ⊎ ((p.kind ≡ 0xD1) × (decompress z p.payload max_decompressed_size ≡ some payload))

  sync_packet-Carries :
      Lossless z
      → (payload : Bytes) → length payload ≤ max_decompressed_size
      → Carries payload (sync_packet payload)
  unfolding sync_packet
  sync_packet-Carries ll payload h =
      elim (compress_adaptive-restores z ll payload 0xD0 0xD1 min_compress_size default_level
        max_decompressed_size h) [
          | inl raw ↦ inl raw
          | inr (kind, content, less) ↦ inr (kind, content)
        ]

  Carries-Fits :
      (payload : Bytes) (p : Packet) → Carries payload p → length p.payload ≤ max_payload → Fits p
  Carries-Fits payload p (inl (kind, same)) h = record { known = rw kind; small = h }
  Carries-Fits payload p (inr (kind, same)) h = record { known = rw kind; small = h }

Bytes-cases : (b : Bytes) → (b ≡ []) ⊎ (1 ≤ length b)
Bytes-cases [] = inl refl
Bytes-cases (c ∷ b) = inr (omega arith)

module _ {Ev : Type 0} where
  decode_nothing :
      (deliver : ℕ → Bytes → List (StreamEvent Ev)) (ph : Phase) (n t : ℕ) (buf : Bytes)
      → InvAt ph n buf
      → decode deliver (view ph t n) [] ≡ []
  unfolding decode
  decode_nothing deliver wait_start1 n t buf v = refl
  decode_nothing deliver wait_start2 n t buf v = refl
  decode_nothing deliver read_len_hi n t buf v = refl
  decode_nothing deliver read_len_lo n t buf v = refl
  decode_nothing deliver read_payload zero t buf v = refl
  decode_nothing deliver read_payload (suc n) t buf v = refl

  -- A loop whose buffer is empty holds no complete frame back.
  emptied :
      (deliver : ℕ → Bytes → List (StreamEvent Ev)) (p : Parser)
      → Inv p
      → p.buf ≡ []
      → ahead deliver p [] ≡ []
  unfolding decode
  emptied deliver p v e = rw e (decode_nothing deliver p.phase p.payload_len p.frame_type p.buf v)

  -- One event is emitted, or is still to come and 1 to 3 bytes are in the buffer.
  abbrev pub EmitsOrHolds : StreamEvent Ev → List (StreamEvent Ev) × Parser → Type 0
  EmitsOrHolds ev res =
      (res.0 ≡ ev ∷ []) ⊎ ((res.0 ≡ []) × (1 ≤ length res.1.buf) × (length res.1.buf ≤ 3))

  one_out :
      (ev : StreamEvent Ev) (out held : List (StreamEvent Ev))
      → ev ∷ [] ≡ out ++ held
      → (out ≡ ev ∷ []) ⊎ ((out ≡ []) × (held ≡ ev ∷ []))
  one_out ev [] held e = inr (refl, sym e)
  one_out ev (o ∷ []) held e = inl (cc)
  one_out ev (o ∷ o' ∷ out) held e = cc

  one_frame :
      (deliver : ℕ → Bytes → List (StreamEvent Ev)) (p : Packet) (ev : StreamEvent Ev)
      (chunks : List Bytes)
      → Fits p
      → deliver p.kind p.payload ≡ ev ∷ []
      → concat chunks ≡ frame p.payload p.kind
      → EmitsOrHolds ev (feed_all deliver fresh chunks)
  one_frame deliver p ev chunks f one e =
      let res = feed_all deliver fresh chunks in
      let k = fresh-Runs deliver chunks in
      let whole =
        sym one
        ∙ sym (append-nil (deliver p.kind p.payload))
        ∙ feed_all-wire deliver (p ∷ []) chunks (f, tt)
            (e ∙ sym (append-nil (frame p.payload p.kind))) in
      elim (one_out ev res.0 (ahead deliver res.1 []) whole) [
        | inl out ↦ inl out
        | inr (none_out, held) ↦ elim k.stop [
          | inr drained ↦ absurd (cc (drained, held))
          | inl few ↦ elim (Bytes-cases res.1.buf) [
            | inl empty ↦ absurd (cc (emptied deliver res.1 k.inv empty, held))
            | inr some_left ↦ inr (none_out, some_left, omega (arith, few))
          ]
        ]
      ]

module _ {Ctx Ev : Type 0} (z : Zstd Ctx) where
  Carries-server :
      (ip payload : Bytes) (p : Packet)
      → Carries z payload p
      → deliver_server {Ev = Ev} z ip p.kind p.payload
        ≡ db_sync_payload (server_device ip) payload ∷ []
  unfolding deliver_server
  Carries-server ip payload p (inl (kind, same)) = rw (kind, same)
  Carries-server ip payload p (inr (kind, content)) = rw (kind, content)

  Carries-client :
      (codec : Bytes → Bytes → Option Ev) (device payload : Bytes) (p : Packet)
      → Carries z payload p
      → deliver_client z codec device p.kind p.payload ≡ db_sync_payload device payload ∷ []
  unfolding deliver_client
  Carries-client codec device payload p (inl (kind, same)) = rw (kind, same)
  Carries-client codec device payload p (inr (kind, content)) = rw (kind, content)

  -- Whatever the compression did, and however the reads of a peer cut the frame that send_db_sync
  -- writes: the loop of the peer, server or client, emits the very payload that send_db_sync was
  -- given, once, and nothing else, or it has emitted nothing and still holds 1 to 3 bytes in
  -- its buffer. The payload keeps the limit of 10 MB, and the packet fits a frame.
  pub sync_delivered :
      Lossless z
      → (codec : Bytes → Bytes → Option Ev) (ip device payload : Bytes) (chunks : List Bytes)
      → length payload ≤ max_decompressed_size
      → length (sync_packet z payload).payload ≤ max_payload
      → concat chunks ≡ sync_frame z payload
      → EmitsOrHolds {Ev = Ev}
          (db_sync_payload (server_device ip) payload)
          (feed_all (deliver_server z ip) fresh chunks)
        × EmitsOrHolds
            (db_sync_payload device payload)
            (feed_all (deliver_client z codec device) fresh chunks)
  unfolding sync_frame
  sync_delivered ll codec ip device payload chunks h fits cut =
      let p : Packet = sync_packet z payload in
      let c : Carries z payload p = sync_packet-Carries z ll payload h in
      let f : Fits p = Carries-Fits z payload p c fits in
      (
        one_frame (deliver_server z ip) p _ chunks f (Carries-server ip payload p c) cut,
        one_frame (deliver_client z codec device) p _ chunks f
            (Carries-client codec device payload p c) cut,
      )
