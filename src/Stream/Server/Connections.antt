-- ===== src/Stream/Server/Connections.antt =====
-- The connections of StreamServer: admission in accept_loop, the end of a client's thread, and
-- broadcast, which writes to a copy of the list; here each of them is one step.
pub mod Admission
use fmesh_cli.Common.{
  ℕ, zero, suc, ◌+◌, ◌≤◌, ◌<◌, ◌++◌, ◌≡◌, refl, Bool, true, false, ◌&&◌, List, [], ◌∷◌, Bytes,
  length, length-append, ltb, leb, ◌==◌, if◌then◌else◌, arith, map,
}
use fmesh_cli.Stream.{frame, max_payload}

-- StreamServer::ClientConn, as far as the list is concerned.
pub record ClientConn : Type 0 where
  pub fd : ℕ
  pub active : Bool
  pub has_ssl : Bool

abbrev pub max_clients : ℕ
max_clients = 50

-- `clients_` without those that are no longer active.
unfoldable pub cleanup : List ClientConn → List ClientConn
cleanup [] = []
cleanup (c ∷ cs) = if c.active then c ∷ cleanup cs else cleanup cs

-- A connection that was accepted: refused at the limit, and else the last of the list.
unfoldable pub accept : List ClientConn → ℕ → List ClientConn × Bool
unfolding cleanup
accept clients fd =
    let live = cleanup clients in
    if leb max_clients (length live)
    then (live, false)
    else (live ++ (record { fd = fd; active = true; has_ssl = true } ∷ []), true)

-- What the thread of a client does when it ends; the number of the socket, which is no longer used,
-- is left as it is.
unfoldable pub hang_up : ℕ → List ClientConn → List ClientConn
hang_up fd [] = []
hang_up fd (c ∷ cs) =
    (if c.fd == fd then record c { active = false; has_ssl = false } else c) ∷ hang_up fd cs

-- One SSL_write for each client that is active and has TLS; `ok fd` says that it wrote something.
unfoldable pub write_all : (ℕ → Bool) → Bytes → List ClientConn → List ClientConn × List (ℕ × Bytes)
write_all ok framed [] = ([], [])
write_all ok framed (c ∷ cs) =
    let (cs', sent) = write_all ok framed cs in
    if c.active && c.has_ssl
    then (record c { active = ok c.fd } ∷ cs', (c.fd, framed) ∷ sent)
    else (c ∷ cs', sent)

-- The clients afterwards, and what was written to whom.
unfoldable pub broadcast :
    (running : Bool) → (ℕ → Bool) → List ClientConn → Bytes → ℕ → List ClientConn × List (ℕ × Bytes)
unfolding write_all
broadcast false ok clients bytes marker = (clients, [])
broadcast true ok clients bytes marker =
    if ltb max_payload (length bytes)
    then (clients, [])
    else write_all ok (frame bytes marker) clients
