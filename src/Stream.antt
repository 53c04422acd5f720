-- ===== src/Stream.antt =====
-- The framed byte stream between a client and a radio, or between two instances:
-- src/stream/stream_client.cpp and src/stream/stream_server.cpp.
-- `frame` is StreamClient::frame, and the framing of StreamServer::broadcast.
-- `drain` is the inner loop of StreamClient::read_loop, which StreamServer::accept_loop repeats
-- word for word: a state machine over a buffer that grows by what each read returns.
pub mod Reference
pub mod Steps
pub mod Refine
pub mod Delivery
pub mod Events
pub mod Send
pub mod Server
pub mod Sync
mod Tests
use fmesh_cli.Common.{
  ℕ, zero, suc, ◌+◌, ◌-◌, ◌*◌, ◌/◌, ◌%◌, ◌++◌, Bool, true, false, ◌&&◌, ◌||◌, List, [], ◌∷◌, none,
  some, Bytes, length, take, drop, ltb, leb, ◌==◌, if◌then◌else◌, index_of,
}

abbrev pub start1 : ℕ
start1 = 0x94

-- The largest payload that is framed.
abbrev pub max_payload : ℕ
max_payload = 65000

-- The four header bytes and the payload; nothing at all for a payload that is too large.
pub frame : Bytes → ℕ → Bytes
frame payload marker =
    if ltb max_payload (length payload)
    then []
    else start1 ∷ marker ∷ (len / 256 % 256) ∷ (len % 256) ∷ payload
  where
    -- `uint16_t len`
    len : ℕ
    len = length payload % 65536

pub data Phase : Type 0 where
  wait_start1 wait_start2 read_len_hi read_len_lo read_payload : Phase

-- The local variables of the read loop.
pub record Parser : Type 0 where
  pub phase : Phase
  pub payload_len : ℕ
  pub frame_type : ℕ
  pub buf : Bytes

unfoldable pub fresh : Parser
fresh = record { phase = wait_start1; payload_len = 0; frame_type = 0xC3; buf = [] }

abbrev pub max_buf : ℕ
max_buf = 65536

-- START2: a radio packet, a sync payload, a compressed sync payload.
abbrev pub is_start2 : ℕ → Bool
is_start2 b = b == 0xC3 || (b == 0xD0 || b == 0xD1)

-- How a block of the loop body ends: `break`, `continue`, or on to the next block.
pub data Flow : Type 0 where
  break_loop again next_block : Parser → Flow

-- No START1 in the buffer: its last byte is kept, or none of a buffer that is over the limit.
discard : Bytes → Bytes
discard buf =
    let n = length buf in
    if ltb 1 n && leb n max_buf then drop (n - 1) buf else if ltb max_buf n then [] else buf

seek : Phase → Parser → Flow
seek wait_start1 p = elim (index_of start1 p.buf) [
  | none ↦ break_loop (record p { buf = discard p.buf })
  | some pos ↦ next_block (record p { buf = drop pos p.buf; phase = wait_start2 })
]
seek _ p = next_block p

check_start2 : Phase → Bytes → Parser → Flow
check_start2 wait_start2 (b ∷ s2 ∷ rest) p =
    if is_start2 s2
    then next_block (record p { frame_type = s2; buf = rest; phase = read_len_hi })
    else again (record p { buf = s2 ∷ rest; phase = wait_start1 })
check_start2 _ _ p = next_block p

len_hi : Phase → Bytes → Parser → Parser
len_hi read_len_hi (b ∷ rest) p = record p {
  payload_len = b * 256;
  buf = rest;
  phase = read_len_lo;
}
len_hi _ _ p = p

-- `payload_len |= b`, whose low byte is zero here.
len_lo : Phase → Bytes → Parser → Parser
len_lo read_len_lo (b ∷ rest) p = record p {
  payload_len = p.payload_len + b;
  buf = rest;
  phase = read_payload;
}
len_lo _ _ p = p

-- What one round of the loop emits, and where it leaves the loop.
pub record Round (E : Type 0) : Type 0 where
  pub out : List E
  pub flow : Flow

-- Rounds that are enough: each takes bytes off the buffer, or leaves the payload phase.
abbrev pub rounds : Parser → ℕ
rounds p = 2 * length p.buf + 2

module _ {E : Type 0} (deliver : ℕ → Bytes → List E) where
  take_payload : Phase → Parser → Round E
  take_payload read_payload p =
      if leb p.payload_len (length p.buf)
      then record {
        out = deliver p.frame_type (take p.payload_len p.buf);
        flow = again (record p { buf = drop p.payload_len p.buf; phase = wait_start1 });
      }
      else record { out = []; flow = break_loop p }
  take_payload _ p = record { out = []; flow = again p }

  -- The blocks after START2.
  pub read_rest : Parser → Round E
  unfolding take_payload len_hi len_lo
  read_rest p =
      let q = len_hi p.phase p.buf p in let r = len_lo q.phase q.buf q in take_payload r.phase r

  after_seek : Flow → Round E
  unfolding check_start2 read_rest
  after_seek (next_block p) = elim (check_start2 p.phase p.buf p) [
    | next_block q ↦ read_rest q
    | other ↦ record { out = []; flow = other }
  ]
  after_seek other = record { out = []; flow = other }

  -- The body of the inner loop.
  pub round : Parser → Round E
  unfolding seek discard after_seek
  round p = after_seek (seek p.phase p)

  -- Back to the loop's test, or out of the loop.
  resume : Flow → List E → (Parser → List E × Parser) → List E × Parser
  resume (break_loop q) out loop = (out, q)
  resume (again q) out loop = let (out', r) = loop q in (out ++ out', r)
  resume (next_block q) out loop = let (out', r) = loop q in (out ++ out', r)

  -- `while (running_ && buf.size() >= 4)`, while the connection runs. Fuel stands for the rounds.
  pub drain : ℕ → Parser → List E × Parser
  unfolding resume
  drain zero p = ([], p)
  drain (suc fuel) p = elim (leb 4 (length p.buf)) [
    | false ↦ ([], p)
    | true ↦ resume (round p).flow (round p).out (drain fuel)
  ]

  -- One read of the outer loop: the bytes are appended, then the buffer is drained.
  pub feed : Parser → Bytes → List E × Parser
  unfolding drain
  feed p chunk = let q : Parser = record p { buf = p.buf ++ chunk } in drain (rounds q) q

  pub feed_all : Parser → List Bytes → List E × Parser
  unfolding feed
  feed_all p [] = ([], p)
  feed_all p (c ∷ cs) = let (out, q) = feed p c in let (out', r) = feed_all q cs in (out ++ out', r)
