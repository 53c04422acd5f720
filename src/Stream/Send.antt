-- ===== src/Stream/Send.antt =====
-- StreamClient::send_to_radio: the retrying write loop of src/stream/stream_client.cpp. What the
-- socket answers to each write is the environment's, a list of outcomes. There is one call at a time:
-- the write mutex is held for each write only.
pub mod Laws
use fmesh_cli.Common.{
  ℕ, suc, ◌+◌, ◌++◌, Bool, true, false, ◌&&◌, not, List, [], ◌∷◌, Bytes, length, take, drop, ltb,
  if◌then◌else◌,
}
use fmesh_cli.Stream.{frame}

-- A write (::write, or SSL_write with its WANT codes) returns a count, asks to be tried again
-- (EAGAIN, EWOULDBLOCK, EINTR), or fails.
pub data Write : Type 0 where
  wrote : ℕ → Write
  would_block failed : Write

-- The answer of the call, with the bytes that went out; or the loop still runs when the outcomes
-- are used up.
pub data Sent : Type 0 where
  returned : Bool → Bytes → Sent
  running : Bytes → Sent

abbrev pub max_retries : ℕ
max_retries = 10

-- The test of the loop, and the report behind it; `out` is what has gone out.
finish : Bytes → Bytes → ℕ → Sent
finish framed out written = returned (not (ltb written (length framed))) out

-- Each write is given the frame from `written` on, of which the count is what goes out.
pub send_loop : Bytes → Bytes → ℕ → ℕ → List Write → Sent
unfolding finish
send_loop framed out written retries [] =
    if ltb written (length framed) && ltb retries max_retries
    then running out
    else finish framed out written
send_loop framed out written retries (wrote n ∷ more) =
    let next = send_loop framed (out ++ take n (drop written framed)) (written + n) 0 more in
    if ltb written (length framed) && ltb retries max_retries
    then next
    else finish framed out written
send_loop framed out written retries (would_block ∷ more) =
    let next = send_loop framed out written (retries + 1) more in
    if ltb written (length framed) && ltb retries max_retries
    then next
    else finish framed out written
send_loop framed out written retries (failed ∷ more) =
    if ltb written (length framed) && ltb retries max_retries
    then returned false out
    else finish framed out written

pub send_to_radio : (connected : Bool) → Bytes → ℕ → List Write → Sent
unfolding send_loop
send_to_radio false bytes marker outcomes = returned false []
send_to_radio true bytes marker outcomes = send_loop (frame bytes marker) [] 0 0 outcomes
