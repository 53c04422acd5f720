-- ===== src/Stream/Send/Laws.antt =====
-- What the caller of send_to_radio may conclude from its answer.
use fmesh_cli.Common.{
  ℕ, zero, suc, ◌+◌, ◌≤◌, ◌<◌, ◌++◌, ◌≡◌, refl, inl, inr, Bool, true, false, ◌&&◌, List, [], ◌∷◌,
  Bytes, length, take, take-length, ltb, arith, lt→ltb, ◌-◌, take, drop, take-append-drop,
  length-take, Bool-cases, ltb→lt, ltb_false→le, subst, ap, ◌∙◌, sym,
}
use fmesh_cli.Stream.{frame, max_payload}
use fmesh_cli.Stream.Delivery.{frame_oversize, frame-nonempty}
use fmesh_cli.Stream.Send.{
  Write, wrote, would_block, failed, Sent, returned, running, finish, send_loop, send_to_radio,
  max_retries,
}

-- No write reports more bytes than it was given.
abbrev pub Honest : ℕ → List Write → Type 0
Honest room [] = Unit {0}
Honest room (wrote n ∷ more) = (n ≤ room) × Honest (room - n) more
Honest room (would_block ∷ more) = Honest room more
Honest room (failed ∷ more) = Unit {0}

-- True: the whole frame. False: less than the frame. Still running: less than the frame.
abbrev pub Reports : Bytes → Sent → Type 0
Reports framed (returned true out) = out ≡ framed
Reports framed (returned false out) =
    (length out < length framed) × ((rest : Bytes) × (out ++ rest ≡ framed))
Reports framed (running out) =
    (length out < length framed) × ((rest : Bytes) × (out ++ rest ≡ framed))

abbrev goes : Bytes → ℕ → ℕ → Bool
goes framed written retries = ltb written (length framed) && ltb retries max_retries

goes-lt :
    (framed : Bytes) (written retries : ℕ)
    → goes framed written retries ≡ true
    → written < length framed
goes-lt framed written retries h = ground arith

room-add : (total written n : ℕ) → total - written - n ≡ total - (written + n)
room-add total written n = omega arith

cut_short :
    (framed : Bytes) (written : ℕ)
    → written < length framed
    → (length (take written framed) < length framed)
      × ((rest : Bytes) × (take written framed ++ rest ≡ framed))
cut_short framed written h = (
  omega (arith, length-take written framed),
  (drop written framed, take-append-drop written framed),
)

finish-Reports :
    (framed : Bytes) (written : ℕ)
    → written ≤ length framed
    → Reports framed (finish framed (take written framed) written)
unfolding finish
finish-Reports framed written h = elim (Bool-cases (ltb written (length framed))) [
  | inl short ↦ rw short (cut_short framed written (ltb→lt written (length framed) short))
  | inr done ↦
      let e : written ≡ length framed = omega (arith, ltb_false→le written (length framed) done) in
      rw done (rw e (take-length framed))
]

take_of_nil : (n : ℕ) → take {A = ℕ} n [] ≡ []
take_of_nil zero = refl
take_of_nil (suc n) = refl

-- One more write.
take-grows :
    (written n m : ℕ) (framed : Bytes)
    → written + n ≡ m
    → take written framed ++ take n (drop written framed) ≡ take m framed
take-grows zero n m framed e = ap (λ k. take k framed) (omega (arith, e))
take-grows (suc written) n m [] e = take_of_nil n ∙ sym (take_of_nil m)
take-grows (suc written) n zero (b ∷ framed) e = absurd (omega arith)
take-grows (suc written) n (suc m) (b ∷ framed) e =
    ap (b ∷◌) (take-grows written n m framed (omega arith))

send_loop-Reports :
    (framed : Bytes) (written retries : ℕ) (outcomes : List Write)
    → written ≤ length framed
    → Honest (length framed - written) outcomes
    → Reports framed (send_loop framed (take written framed) written retries outcomes)
unfolding send_loop
send_loop-Reports framed written retries [] h hon =
    elim (Bool-cases (goes framed written retries)) [
      | inl go ↦ rw go (cut_short framed written (goes-lt framed written retries go))
      | inr stop ↦ rw stop (finish-Reports framed written h)
    ]
send_loop-Reports framed written retries (wrote n ∷ more) h hon =
    elim (Bool-cases (goes framed written retries)) [
      | inl go ↦
          rw (go, take-grows written n (written + n) framed refl)
            (send_loop-Reports framed (written + n) 0 more (omega arith)
              (subst (λ r. Honest r more) (room-add (length framed) written n) hon.1))
      | inr stop ↦ rw stop (finish-Reports framed written h)
    ]
send_loop-Reports framed written retries (would_block ∷ more) h hon =
    elim (Bool-cases (goes framed written retries)) [
      | inl go ↦ rw go (send_loop-Reports framed written (retries + 1) more h hon)
      | inr stop ↦ rw stop (finish-Reports framed written h)
    ]
send_loop-Reports framed written retries (failed ∷ more) h hon =
    elim (Bool-cases (goes framed written retries)) [
      | inl go ↦ rw go (cut_short framed written (goes-lt framed written retries go))
      | inr stop ↦ rw stop (finish-Reports framed written h)
    ]

send_empty : (outcomes : List Write) → send_loop [] [] 0 0 outcomes ≡ returned true []
unfolding send_loop finish
send_empty [] = refl
send_empty (wrote n ∷ more) = refl
send_empty (would_block ∷ more) = refl
send_empty (failed ∷ more) = refl

given_up :
    (framed out : Bytes) (written : ℕ) (outcomes : List Write)
    → written < length framed
    → send_loop framed out written max_retries outcomes ≡ returned false out
unfolding send_loop finish
given_up framed out written [] h = rw (lt→ltb written (length framed) h)
given_up framed out written (wrote n ∷ more) h = rw (lt→ltb written (length framed) h)
given_up framed out written (would_block ∷ more) h = rw (lt→ltb written (length framed) h)
given_up framed out written (failed ∷ more) h = rw (lt→ltb written (length framed) h)

-- On an open connection, with writes that report no more than they were given, and however many
-- they are: if the call answers true the whole frame has gone out, and if it answers false or
-- still runs, a part of the frame that is shorter than it.
pub send_to_radio-Reports :
    (bytes : Bytes) (marker : ℕ) (outcomes : List Write)
    → Honest (length (frame bytes marker)) outcomes
    → Reports (frame bytes marker) (send_to_radio true bytes marker outcomes)
unfolding send_to_radio
send_to_radio-Reports bytes marker outcomes hon =
    send_loop-Reports (frame bytes marker) 0 0 outcomes (omega arith)
      (subst (λ r. Honest r outcomes) (omega arith) hon)

-- A payload over the limit is dropped, and the call still answers true: whatever the socket does,
-- nothing goes out.
pub send_to_radio_oversize :
    (bytes : Bytes) (marker : ℕ) (outcomes : List Write)
    → max_payload < length bytes
    → send_to_radio true bytes marker outcomes ≡ returned true []
unfolding send_to_radio
send_to_radio_oversize bytes marker outcomes h =
    rw (frame_oversize bytes marker h) (send_empty outcomes)

abbrev pub replicate : ℕ → Write → List Write
replicate zero w = []
replicate (suc n) w = w ∷ replicate n w

zeros_run :
    (framed : Bytes) (k : ℕ)
    → 0 < length framed
    → send_loop framed [] 0 0 (replicate k (wrote 0)) ≡ running []
unfolding send_loop
zeros_run framed zero h = rw (lt→ltb 0 (length framed) h)
zeros_run framed (suc k) h = rw (lt→ltb 0 (length framed) h) (zeros_run framed k h)

-- Writes that return zero, as SSL_write may on a connection that was shut down, neither count as
-- retries nor end the call: it still runs after any number of them.
pub zero_writes_never_end :
    (bytes : Bytes) (marker k : ℕ)
    → length bytes ≤ max_payload
    → send_to_radio true bytes marker (replicate k (wrote 0)) ≡ running []
unfolding send_to_radio
zero_writes_never_end bytes marker k h =
    zeros_run (frame bytes marker) k (frame-nonempty bytes marker h)

-- Ten writes in a row that are to be tried again end the call: it answers false, and what had gone
-- out before them is all that went out.
ten_retries_give_up :
    (framed out : Bytes) (written : ℕ) (more : List Write)
    → written < length framed
    → send_loop framed out written 0 (replicate 10 would_block ++ more) ≡ returned false out
unfolding send_loop
ten_retries_give_up framed out written more h =
    rw (lt→ltb written (length framed) h) (given_up framed out written more h)
