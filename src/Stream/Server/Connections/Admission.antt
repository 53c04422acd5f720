-- ===== src/Stream/Server/Connections/Admission.antt =====
-- Who is on the server's list, whatever comes, goes and is broadcast.
use fmesh_cli.Common.{
  ℕ, ◌≤◌, ◌++◌, ◌≡◌, refl, sym, ap, ap₂, ◌∙◌, Bool, true, false, ◌&&◌, not, List, [], ◌∷◌, Bytes,
  length, length-append, ltb, leb, leb→le, leb_false→lt, ◌==◌, if◌then◌else◌, arith, inl, inr,
  Bool-cases,
}
use fmesh_cli.Stream.{frame, max_payload}
use fmesh_cli.Stream.Server.Connections.{
  ClientConn, max_clients, cleanup, accept, hang_up, write_all, broadcast,
}

-- A connection is accepted, the thread of one ends, or a frame is broadcast, the writes succeeding
-- on the sockets that the function says.
pub data Visit : Type 0 where
  arrive leave : ℕ → Visit
  cast : Bool → (ℕ → Bool) → Bytes → ℕ → Visit

-- The list afterwards, and what was written to whom.
unfoldable pub visit : Visit → List ClientConn → List ClientConn × List (ℕ × Bytes)
unfolding accept hang_up broadcast
visit (arrive fd) cs = ((accept cs fd).0, [])
visit (leave fd) cs = (hang_up fd cs, [])
visit (cast running ok bytes marker) cs = broadcast running ok cs bytes marker

unfoldable pub visit_all : List Visit → List ClientConn → List ClientConn × List (ℕ × Bytes)
unfolding visit
visit_all [] cs = (cs, [])
visit_all (v ∷ vs) cs =
    let (cs', out) = visit v cs in let (last, outs) = visit_all vs cs' in (last, out ++ outs)

-- The same for the plain list of the sockets that are connected: a socket that ends is gone at once.
unfoldable pub without_fd : ℕ → List ℕ → List ℕ
without_fd fd [] = []
without_fd fd (f ∷ fs) = if f == fd then without_fd fd fs else f ∷ without_fd fd fs

unfoldable pub those_with : (ℕ → Bool) → List ℕ → List ℕ
those_with ok [] = []
those_with ok (f ∷ fs) = if ok f then f ∷ those_with ok fs else those_with ok fs

unfoldable pub addressed : Bytes → List ℕ → List (ℕ × Bytes)
addressed framed [] = []
addressed framed (f ∷ fs) = (f, framed) ∷ addressed framed fs

unfoldable pub live : Visit → List ℕ → List ℕ × List (ℕ × Bytes)
unfolding without_fd those_with addressed
live (arrive fd) fs = (if ltb (length fs) max_clients then fs ++ (fd ∷ []) else fs, [])
live (leave fd) fs = (without_fd fd fs, [])
live (cast running ok bytes marker) fs =
    if running && leb (length bytes) max_payload
    then (those_with ok fs, addressed (frame bytes marker) fs)
    else (fs, [])

unfoldable pub all_live : List Visit → List ℕ → List ℕ × List (ℕ × Bytes)
unfolding live
all_live [] fs = (fs, [])
all_live (v ∷ vs) fs =
    let (fs', out) = live v fs in let (last, outs) = all_live vs fs' in (last, out ++ outs)

-- The sockets of the active clients.
unfoldable pub active_fds : List ClientConn → List ℕ
active_fds [] = []
active_fds (c ∷ cs) = if c.active then c.fd ∷ active_fds cs else active_fds cs

-- Every active client has TLS.
abbrev Secured : List ClientConn → Type 0
Secured [] = Unit {0}
Secured (c ∷ cs) = ((c.active && not c.has_ssl) ≡ false) × Secured cs

-- A list of the server stands for the sockets that are connected.
record Shows (cs : List ClientConn) (fs : List ℕ) : Type 0 where
  fds : active_fds cs ≡ fs
  few : length cs ≤ max_clients
  secured : Secured cs

active_fds-cleanup : (cs : List ClientConn) → active_fds (cleanup cs) ≡ active_fds cs
unfolding active_fds cleanup
active_fds-cleanup [] = refl
active_fds-cleanup (c ∷ cs) = ground (arith, active_fds-cleanup cs)

length-cleanup : (cs : List ClientConn) → length (cleanup cs) ≡ length (active_fds cs)
unfolding active_fds cleanup
length-cleanup [] = refl
length-cleanup (c ∷ cs) = ground (arith, length-cleanup cs)

length-active_fds-le : (cs : List ClientConn) → length (active_fds cs) ≤ length cs
unfolding active_fds
length-active_fds-le [] = omega arith
length-active_fds-le (c ∷ cs) = ground (arith, length-active_fds-le cs)

cleanup-Secured : (cs : List ClientConn) → Secured cs → Secured (cleanup cs)
unfolding cleanup
cleanup-Secured [] s = tt
cleanup-Secured (c ∷ cs) s = ground (arith, cleanup-Secured cs s.1)

active_fds-append :
    (cs ds : List ClientConn) → active_fds (cs ++ ds) ≡ active_fds cs ++ active_fds ds
unfolding active_fds
active_fds-append [] ds = refl
active_fds-append (c ∷ cs) ds = ground (arith, active_fds-append cs ds)

append-Secured : (cs ds : List ClientConn) → Secured cs → Secured ds → Secured (cs ++ ds)
append-Secured [] ds s t = t
append-Secured (c ∷ cs) ds s t = (s.0, append-Secured cs ds s.1 t)

active_fds-hang_up :
    (fd : ℕ) (cs : List ClientConn) → active_fds (hang_up fd cs) ≡ without_fd fd (active_fds cs)
unfolding active_fds hang_up without_fd
active_fds-hang_up fd [] = refl
active_fds-hang_up fd (c ∷ cs) = ground (arith, active_fds-hang_up fd cs)

length-hang_up : (fd : ℕ) (cs : List ClientConn) → length (hang_up fd cs) ≡ length cs
unfolding hang_up
length-hang_up fd [] = refl
length-hang_up fd (c ∷ cs) = omega (arith, length-hang_up fd cs)

hang_up-Secured : (fd : ℕ) (cs : List ClientConn) → Secured cs → Secured (hang_up fd cs)
unfolding hang_up
hang_up-Secured fd [] s = tt
hang_up-Secured fd (c ∷ cs) s = ground (arith, hang_up-Secured fd cs s.1)

active_fds-write_all :
    (ok : ℕ → Bool) (framed : Bytes) (cs : List ClientConn)
    → Secured cs
    → active_fds (write_all ok framed cs).0 ≡ those_with ok (active_fds cs)
unfolding active_fds write_all those_with
active_fds-write_all ok framed [] s = refl
active_fds-write_all ok framed (c ∷ cs) s =
    ground (arith, active_fds-write_all ok framed cs s.1, s.0)

write_all-addressed :
    (ok : ℕ → Bool) (framed : Bytes) (cs : List ClientConn)
    → Secured cs
    → (write_all ok framed cs).1 ≡ addressed framed (active_fds cs)
unfolding active_fds write_all addressed
write_all-addressed ok framed [] s = refl
write_all-addressed ok framed (c ∷ cs) s = ground (arith, write_all-addressed ok framed cs s.1, s.0)

length-write_all :
    (ok : ℕ → Bool) (framed : Bytes) (cs : List ClientConn)
    → length (write_all ok framed cs).0 ≡ length cs
unfolding write_all
length-write_all ok framed [] = refl
length-write_all ok framed (c ∷ cs) = ground (arith, length-write_all ok framed cs)

write_all-Secured :
    (ok : ℕ → Bool) (framed : Bytes) (cs : List ClientConn)
    → Secured cs
    → Secured (write_all ok framed cs).0
unfolding write_all
write_all-Secured ok framed [] s = tt
write_all-Secured ok framed (c ∷ cs) s = ground (arith, write_all-Secured ok framed cs s.1, s.0)

abbrev newcomer : ℕ → ClientConn
newcomer fd = record { fd = fd; active = true; has_ssl = true }

accept-Shows :
    (fd : ℕ) (cs : List ClientConn)
    → length cs ≤ max_clients
    → Secured cs
    → Shows (accept cs fd).0 (live (arrive fd) (active_fds cs)).0
unfolding accept live active_fds
accept-Shows fd cs few s = elim (Bool-cases (leb max_clients (length (cleanup cs)))) [
  | inl full ↦
      let no_room : ltb (length (active_fds cs)) max_clients ≡ false =
        ground (arith, length-cleanup cs, leb→le max_clients (length (cleanup cs)) full) in
      rw (accept, full, live, no_room)
        (record {
          fds = active_fds-cleanup cs;
          few = omega (arith, length-cleanup cs, length-active_fds-le cs);
          secured = cleanup-Secured cs s;
        })
  | inr room ↦
      let has_room : ltb (length (active_fds cs)) max_clients ≡ true =
        ground (arith, length-cleanup cs, leb_false→lt max_clients (length (cleanup cs)) room) in
      rw (accept, room, live, has_room)
        (record {
          fds =
              active_fds-append (cleanup cs) (newcomer fd ∷ [])
              ∙ ap (◌++ (fd ∷ [])) (active_fds-cleanup cs);
          few = omega (
            arith,
            length-append (cleanup cs) (newcomer fd ∷ []),
            leb_false→lt max_clients (length (cleanup cs)) room,
          );
          secured =
              append-Secured (cleanup cs) (newcomer fd ∷ []) (cleanup-Secured cs s) (refl, tt);
        })
]

-- Both lists after one event, and the same writes.
abbrev Step : Visit → List ClientConn → List ℕ → Type 0
Step v cs fs = Shows (visit v cs).0 (live v fs).0 × ((visit v cs).1 ≡ (live v fs).1)

cast-Step :
    (running : Bool) (ok : ℕ → Bool) (bytes : Bytes) (marker : ℕ) (cs : List ClientConn)
    → length cs ≤ max_clients
    → Secured cs
    → Step (cast running ok bytes marker) cs (active_fds cs)
unfolding visit live broadcast
cast-Step false ok bytes marker cs few s = (record { fds = refl; few = few; secured = s }, refl)
cast-Step true ok bytes marker cs few s = elim (Bool-cases (ltb max_payload (length bytes))) [
  | inl long ↦
      let no : leb (length bytes) max_payload ≡ false = ground arith in
      rw (visit, broadcast, long, live, no) (record { fds = refl; few = few; secured = s }, refl)
  | inr fits ↦
      let yes : leb (length bytes) max_payload ≡ true = ground arith in
      rw (visit, broadcast, fits, live, yes)
        (
          record {
            fds = active_fds-write_all ok (frame bytes marker) cs s;
            few = omega (arith, length-write_all ok (frame bytes marker) cs, few);
            secured = write_all-Secured ok (frame bytes marker) cs s;
          },
          write_all-addressed ok (frame bytes marker) cs s,
        )
]

visit-Step :
    (v : Visit) (cs : List ClientConn)
    → length cs ≤ max_clients
    → Secured cs
    → Step v cs (active_fds cs)
unfolding visit live active_fds
visit-Step (arrive fd) cs few s = (accept-Shows fd cs few s, refl)
visit-Step (leave fd) cs few s = (
  record {
    fds = active_fds-hang_up fd cs;
    few = omega (arith, length-hang_up fd cs, few);
    secured = hang_up-Secured fd cs s;
  },
  refl,
)
visit-Step (cast running ok bytes marker) cs few s = cast-Step running ok bytes marker cs few s

visit_all-live' :
    (vs : List Visit) (cs : List ClientConn)
    → length cs ≤ max_clients
    → Secured cs
    → Shows (visit_all vs cs).0 (all_live vs (active_fds cs)).0
      × ((visit_all vs cs).1 ≡ (all_live vs (active_fds cs)).1)
unfolding visit_all all_live
visit_all-live' [] cs few s = (record { fds = refl; few = few; secured = s }, refl)
visit_all-live' (v ∷ vs) cs few s =
    let now = visit-Step v cs few s in
    let later = visit_all-live' vs (visit v cs).0 now.0.few now.0.secured in
    rw (sym now.0.fds) (later.0, ap₂ ◌++◌ now.1 later.1)

-- Whatever connections are accepted, end and are sent to, in any order: the server's list, which
-- keeps the dead ones until it next accepts one, never holds more than 50 connections; its active
-- ones are those of a plain list from which a socket is gone as soon as it ends or a write to it
-- fails, and which takes a new one exactly if it has fewer than 50; and what a running server
-- broadcasts within the limit of a frame is written once to each socket of that list, in its order.
pub visit_all-live :
    (vs : List Visit)
    → (length (visit_all vs []).0 ≤ max_clients)
      × (active_fds (visit_all vs []).0 ≡ (all_live vs []).0)
      × ((visit_all vs []).1 ≡ (all_live vs []).1)
unfolding active_fds
visit_all-live vs =
    let all = visit_all-live' vs [] (omega arith) tt in (all.0.few, all.0.fds, all.1)
