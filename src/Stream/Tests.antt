-- ===== src/Stream/Tests.antt =====
-- Runs of the streams at small inputs.
use fmesh_cli.Common.{
  ℕ, zero, suc, ◌+◌, ◌≤◌, ◌<◌, ◌++◌, ◌≡◌, ◌↔◌, refl, Bool, true, false, List, [], ◌∷◌, Option, none,
  some, Bytes, codes, length, take, arith, if◌then◌else◌, ltb, concat, drop, ap, ◌∙◌, append-nil,
  take-append-drop, ◌==◌,
}
use fmesh_cli.Stream.{start1, frame, fresh, feed, feed_all, max_payload}
use fmesh_cli.Stream.Reference.{idle, decode}
use fmesh_cli.Stream.Steps.{ahead}
use fmesh_cli.Stream.Delivery.{
  Packet, wire, deliver_all, feed_all-eq-decode, feed_all_complete, feed_all-wire,
  short_payload_waits,
}
use fmesh_cli.Stream.Events.{db_sync_payload, deliver_server, deliver_client, server_device}
use fmesh_cli.Stream.Sync.{EmitsOrHolds, sync_packet, sync_frame, sync_delivered}
use fmesh_cli.Stream.Send.{wrote, would_block, returned, running, send_to_radio}
use fmesh_cli.Stream.Send.Laws.{
  Reports, replicate, send_to_radio-Reports, send_to_radio_oversize, zero_writes_never_end,
}
use fmesh_cli.Stream.Server.Login.{login}
use fmesh_cli.Stream.Server.Login.Accepts.{login_iff, long_credentials_fail}
use fmesh_cli.Stream.Server.Connections.Admission.{
  Visit, arrive, leave, cast, active_fds, visit_all, all_live, visit_all-live,
}
use fmesh_cli.Stream.Server.Connections.{max_clients}
use fmesh_cli.Util.Tests.{toy, toy-Lossless, run_of}

abbrev keep : ℕ → Bytes → List (ℕ × Bytes)
keep kind payload = (kind, payload) ∷ []

abbrev two_packets : List Packet
two_packets =
    record { kind = 0xC3; payload = 1 ∷ 2 ∷ 3 ∷ [] } ∷ record { kind = 0xD0; payload = 9 ∷ [] } ∷ []

abbrev cut_bytes : List Bytes
cut_bytes =
    (7 ∷ 0x94 ∷ 0xC3 ∷ [])
    ∷ (0 ∷ 2 ∷ 5 ∷ [])
    ∷ (6 ∷ 0x94 ∷ 0xD0 ∷ 0 ∷ 200 ∷ 1 ∷ 2 ∷ 3 ∷ 4 ∷ [])
    ∷ []

feed_all-eq-decode_example :
    decode keep idle (concat cut_bytes)
    ≡ (feed_all keep fresh cut_bytes).0 ++ ahead keep (feed_all keep fresh cut_bytes).1 []
feed_all-eq-decode_example = feed_all-eq-decode keep cut_bytes

four_left : length (feed_all keep fresh cut_bytes).1.buf ≡ 4
unfolding feed_all fresh fmesh_cli.Stream.round fmesh_cli.Common.index_of
four_left = refl

cut_bytes-left : 4 ≤ length (feed_all keep fresh cut_bytes).1.buf
cut_bytes-left = omega (arith, four_left)

feed_all_complete_example : (feed_all keep fresh cut_bytes).0 ≡ decode keep idle (concat cut_bytes)
feed_all_complete_example = feed_all_complete keep cut_bytes cut_bytes-left

abbrev two_reads : List Bytes
two_reads = (0x94 ∷ 0xC3 ∷ 0 ∷ 3 ∷ 1 ∷ []) ∷ (2 ∷ 3 ∷ 0x94 ∷ 0xD0 ∷ 0 ∷ 1 ∷ 9 ∷ []) ∷ []

two_reads-wire : concat two_reads ≡ wire two_packets
unfolding frame
two_reads-wire = refl

feed_all-wire_example :
    deliver_all keep two_packets
    ≡ (feed_all keep fresh two_reads).0 ++ ahead keep (feed_all keep fresh two_reads).1 []
feed_all-wire_example =
    feed_all-wire keep two_packets two_reads
      (
        record { known = refl; small = omega arith },
        (record { known = refl; small = omega arith }, tt),
      )
      two_reads-wire

abbrev short_packet : Packet
short_packet = record { kind = 0xC3; payload = 1 ∷ 2 ∷ [] }

short_payload_waits_example :
    let header : Bytes = start1 ∷ 0xC3 ∷ 0 ∷ 2 ∷ [] in
    (header ++ (1 ∷ 2 ∷ []) ≡ frame (1 ∷ 2 ∷ []) 0xC3)
    × ((feed_all keep fresh (header ∷ (1 ∷ 2 ∷ []) ∷ [])).0 ≡ [])
short_payload_waits_example = short_payload_waits keep short_packet refl (omega arith) (omega arith)

-- 70 equal bytes are worth compressing.
abbrev long_run : Bytes
long_run = run_of 70 b'a'

abbrev no_codec : Bytes → Bytes → Option Bytes
no_codec payload device = none

long_run-len : length (sync_packet toy long_run).payload ≡ 2
unfolding sync_packet fmesh_cli.Util.Compression.compress_adaptive
long_run-len = refl

long_run-packet : length (sync_packet toy long_run).payload ≤ max_payload
long_run-packet = omega (arith, long_run-len)

-- The frame in two reads.
abbrev cut_frame : List Bytes
cut_frame = take 3 (sync_frame toy long_run) ∷ drop 3 (sync_frame toy long_run) ∷ []

cut_frame-whole : concat cut_frame ≡ sync_frame toy long_run
cut_frame-whole =
    ap (take 3 (sync_frame toy long_run) ++◌) (append-nil (drop 3 (sync_frame toy long_run)))
    ∙ take-append-drop 3 (sync_frame toy long_run)

sync_delivered_example :
    EmitsOrHolds {Ev = Bytes}
      (db_sync_payload (server_device (codes "10.0.0.2")) long_run)
      (feed_all (deliver_server toy (codes "10.0.0.2")) fresh cut_frame)
    × EmitsOrHolds
        (db_sync_payload (codes "mesh") long_run)
        (feed_all (deliver_client toy no_codec (codes "mesh")) fresh cut_frame)
sync_delivered_example =
    sync_delivered toy toy-Lossless no_codec (codes "10.0.0.2") (codes "mesh") long_run cut_frame
      (omega arith) long_run-packet cut_frame-whole

seven_bytes : length (frame (1 ∷ 2 ∷ 3 ∷ []) 0xC3) ≡ 7
unfolding frame
seven_bytes = refl

send_to_radio-Reports_example :
    Reports
      (frame (1 ∷ 2 ∷ 3 ∷ []) 0xC3)
      (send_to_radio true (1 ∷ 2 ∷ 3 ∷ []) 0xC3 (wrote 3 ∷ would_block ∷ wrote 4 ∷ []))
send_to_radio-Reports_example =
    send_to_radio-Reports (1 ∷ 2 ∷ 3 ∷ []) 0xC3 (wrote 3 ∷ would_block ∷ wrote 4 ∷ [])
      (omega (arith, seven_bytes), (omega (arith, seven_bytes), tt))

length-run_of : (n b : ℕ) → length (run_of n b) ≡ n
length-run_of zero b = refl
length-run_of (suc n) b = omega (arith, length-run_of n b)

send_to_radio_oversize_example :
    send_to_radio true (run_of 65001 0) 0xC3 (wrote 5 ∷ []) ≡ returned true []
send_to_radio_oversize_example =
    send_to_radio_oversize (run_of 65001 0) 0xC3 (wrote 5 ∷ [])
      (omega (arith, length-run_of 65001 0))

zero_writes_never_end_example :
    send_to_radio true (1 ∷ []) 0xC3 (replicate 100 (wrote 0)) ≡ running []
zero_writes_never_end_example = zero_writes_never_end (1 ∷ []) 0xC3 100 (omega arith)

login_iff_example :
    (login (codes "admin") (codes "secret") (codes "admin") (codes "guess") ≡ true)
    ↔ (codes "admin" ++ (b' ' ∷ codes "guess") ≡ codes "admin" ++ (b' ' ∷ codes "secret"))
login_iff_example =
    login_iff (codes "admin") (codes "secret") (codes "admin") (codes "guess") (record {
      user_bytes = ground arith;
      password_bytes = ground arith;
      no_cr = refl;
      short = omega arith;
    })

long_credentials_fail_example :
    login (run_of 200 b'u') (run_of 50 b'p') (run_of 200 b'u') (run_of 50 b'p') ≡ false
long_credentials_fail_example =
    long_credentials_fail (run_of 200 b'u') (run_of 50 b'p')
      (omega (arith, length-run_of 200 b'u', length-run_of 50 b'p'))

-- A client comes, another one comes, the first does not take what is sent, and a third comes.
abbrev visits : List Visit
visits = arrive 4 ∷ arrive 5 ∷ cast true (λ fd. fd == 5) (1 ∷ []) 0xD0 ∷ arrive 6 ∷ leave 5 ∷ []

six_is_left :
    all_live visits [] ≡ (6 ∷ [], (4, frame (1 ∷ []) 0xD0) ∷ (5, frame (1 ∷ []) 0xD0) ∷ [])
unfolding all_live
six_is_left = refl

visit_all-live_example :
    (length (visit_all visits []).0 ≤ max_clients)
    × (active_fds (visit_all visits []).0 ≡ (all_live visits []).0)
    × ((visit_all visits []).1 ≡ (all_live visits []).1)
visit_all-live_example = visit_all-live visits
