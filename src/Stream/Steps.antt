-- ===== src/Stream/Steps.antt =====
-- One round of the read loop against the byte-at-a-time decoder.
use fmesh_cli.Common.{
  ℕ, zero, suc, ◌+◌, ◌-◌, ◌*◌, ◌≤◌, ◌<◌, ◌++◌, ◌≡◌, refl, sym, ap, ◌∙◌, List, [], ◌∷◌, none, some,
  Bytes, index_of-drop, length, take, drop, leb, index_of, arith, append_assoc, append-nil,
  Option-cases, le→leb, leb→le, leb_false→lt, Bool-cases, inl, inr, take-append-drop, length-take,
  length-drop, drop-length, ltb, ◌&&◌,
}
use fmesh_cli.Stream.{
  start1, max_buf, is_start2, Phase, wait_start1, wait_start2, read_len_hi, read_len_lo,
  read_payload, Parser, Flow, break_loop, again, next_block, Round, discard, seek, check_start2,
  take_payload, read_rest, after_seek, round,
}
use fmesh_cli.Stream.Reference.{
  Rx, idle, body, rx_sized, decode, decode-skip, decode-noise, decode-body, decode-partial,
  decode-none,
}

-- The decoder state that a phase stands for. START1 is still in the buffer in `wait_start2`.
abbrev pub view : Phase → ℕ → ℕ → Rx
view wait_start1 t n = idle
view wait_start2 t n = idle
view read_len_hi t n = Rx.len_hi t
view read_len_lo t n = Rx.len_lo t n
view read_payload t zero = idle
view read_payload t (suc n) = body t n []

abbrev pub parser : Phase → ℕ → ℕ → Bytes → Parser
parser ph n t buf = record { phase = ph; payload_len = n; frame_type = t; buf = buf }

-- The loop comes back to the payload phase only with bytes to wait for, and behind a START1 only
-- in front of it.
abbrev pub InvAt : Phase → ℕ → Bytes → Type 0
InvAt wait_start2 n buf = (rest : Bytes) × (buf ≡ start1 ∷ rest)
InvAt read_payload n buf = 0 < n
InvAt wait_start1 n buf = Unit
InvAt read_len_hi n buf = Unit
InvAt read_len_lo n buf = Unit

abbrev pub Inv : Parser → Type 0
Inv p = InvAt p.phase p.payload_len p.buf

abbrev phase_cost : Phase → ℕ
phase_cost read_payload = 1
phase_cost _ = 0

-- Falls with each round.
abbrev pub cost : Parser → ℕ
cost p = 2 * length p.buf + phase_cost p.phase

abbrev pub after : Flow → Parser
after (break_loop p) = p
after (again p) = p
after (next_block p) = p

discard-eq-drop : (buf : Bytes) → (n : ℕ) × (discard buf ≡ drop n buf)
unfolding discard
discard-eq-drop buf = elim (Bool-cases (ltb 1 (length buf) && leb (length buf) max_buf)) [
  | inl keep ↦ (length buf - 1, rw keep)
  | inr other ↦ elim (Bool-cases (ltb max_buf (length buf))) [
    | inl over ↦ (length buf, rw (other, over) (sym (drop-length buf)))
    | inr small ↦ (0, rw (other, small))
  ]
]

module _ {E : Type 0} (deliver : ℕ → Bytes → List E) where
  -- All that is still to be emitted, if `rest` comes in.
  abbrev pub ahead : Parser → Bytes → List E
  ahead p rest = decode deliver (view p.phase p.frame_type p.payload_len) (p.buf ++ rest)

  -- No complete frame is in the buffer.
  abbrev pub IsDrained : Parser → Type 0
  IsDrained p = ahead p [] ≡ []

  abbrev pub Goes : ℕ → Flow → Type 0
  Goes n (break_loop q) = IsDrained q
  Goes n (again q) = cost q < n
  Goes n (next_block q) = cost q < n

  -- What a round owes to the parser that it starts from.
  pub record Keeps (n : ℕ) (start : Bytes → List E) (r : Round E) : Type 0 where
    pub ahead_eq : (rest : Bytes) → start rest ≡ r.out ++ ahead (after r.flow) rest
    pub inv : Inv (after r.flow)
    pub goes : Goes n r.flow

  Keeps-from :
      {n : ℕ} {start start' : Bytes → List E} {r : Round E}
      → ((rest : Bytes) → start' rest ≡ start rest)
      → Keeps n start r
      → Keeps n start' r
  Keeps-from e k = record {
    ahead_eq = λ rest. e rest ∙ k.ahead_eq rest;
    inv = k.inv;
    goes = k.goes;
  }

  payload-Keeps :
      (n t : ℕ) (buf : Bytes) (k : ℕ)
      → 2 * length buf < k
      → Keeps k
          (λ rest.
            (rx_sized deliver t n).0 ++ decode deliver (rx_sized deliver t n).1 (buf ++ rest))
          (take_payload deliver read_payload (parser read_payload n t buf))
  unfolding take_payload
  payload-Keeps zero t buf k h =
      rw (le→leb 0 (length buf) (omega arith))
        (record { ahead_eq = λ rest. refl; inv = tt; goes = omega arith })
  payload-Keeps (suc n) t buf k h = elim (Bool-cases (leb (suc n) (length buf))) [
    | inl whole ↦ rw whole (record {
      ahead_eq = λ rest. whole_eq rest (leb→le (suc n) (length buf) whole);
      inv = tt;
      goes = omega (arith, length-drop (suc n) buf);
    })
    | inr short ↦ rw short (record {
      ahead_eq = λ rest. refl;
      inv = omega arith;
      goes =
          rw append-nil
            (decode-partial deliver t [] buf n (shorter (leb_false→lt (suc n) (length buf) short)));
    })
  ]
    where
      shorter : length buf < suc n → length buf ≤ n
      shorter lt = omega arith

      whole_eq :
          (rest : Bytes)
          → suc n ≤ length buf
          → decode deliver (body t n []) (buf ++ rest)
            ≡ deliver t (take (suc n) buf) ++ decode deliver idle (drop (suc n) buf ++ rest)
      whole_eq rest le =
          ap (λ xs. decode deliver (body t n []) (xs ++ rest)) (sym (take-append-drop (suc n) buf))
          ∙ ap (decode deliver (body t n []))
              (append_assoc (take (suc n) buf) (drop (suc n) buf) rest)
          ∙ decode-body deliver t [] (take (suc n) buf) (drop (suc n) buf ++ rest) n
              (omega (arith, length-take (suc n) buf))

  -- The blocks after START2, from each phase that can stand there.
  low-Keeps :
      (t base b : ℕ) (bs : Bytes) (k : ℕ)
      → 2 * length bs < k
      → Keeps k
          (λ rest. decode deliver (Rx.len_lo t base) (b ∷ bs ++ rest))
          (read_rest deliver (parser read_len_lo base t (b ∷ bs)))
  unfolding read_rest decode
  low-Keeps t base b bs k h = payload-Keeps (base + b) t bs k h

  high-Keeps :
      (t n b : ℕ) (bs : Bytes) (k : ℕ)
      → 2 * length bs < k
      → Keeps k
          (λ rest. decode deliver (Rx.len_hi t) (b ∷ bs ++ rest))
          (read_rest deliver (parser read_len_hi n t (b ∷ bs)))
  unfolding read_rest decode
  high-Keeps t n b [] k h = record { ahead_eq = λ rest. refl; inv = tt; goes = omega arith }
  high-Keeps t n b (c ∷ bs) k h = payload-Keeps (b * 256 + c) t bs k (omega arith)

  header-Keeps :
      (t n : ℕ) (bs : Bytes) (k : ℕ)
      → 2 * length bs < k
      → Keeps k
          (λ rest. decode deliver (Rx.len_hi t) (bs ++ rest))
          (read_rest deliver (parser read_len_hi n t bs))
  unfolding read_rest
  header-Keeps t n [] k h = record { ahead_eq = λ rest. refl; inv = tt; goes = omega arith }
  header-Keeps t n (b ∷ bs) k h = high-Keeps t n b bs k (omega arith)

  -- From START2 on, with a START1 in front.
  start2-Keeps :
      (t n : ℕ) (bs : Bytes) (k : ℕ)
      → 2 * length bs + 2 ≤ k
      → 2 < k
      → Keeps k
          (λ rest. decode deliver idle (start1 ∷ bs ++ rest))
          (after_seek deliver (next_block (parser wait_start2 n t (start1 ∷ bs))))
  unfolding after_seek decode
  start2-Keeps t n [] k h g = record {
    ahead_eq = λ rest. refl;
    inv = ([], refl);
    goes = omega arith;
  }
  start2-Keeps t n (s2 ∷ bs) k h g = elim (Bool-cases (is_start2 s2)) [
    | inl valid ↦ rw (valid, after_seek, check_start2) (header-Keeps s2 n bs k (omega arith))
    | inr invalid ↦
        rw (invalid, after_seek, check_start2)
          (record { ahead_eq = λ rest. refl; inv = tt; goes = omega arith })
  ]

  -- A buffer without START1 is noise, whatever is thrown away of it.
  decode-discard :
      (buf rest : Bytes)
      → index_of start1 buf ≡ none
      → decode deliver idle (buf ++ rest) ≡ decode deliver idle (discard buf ++ rest)
  decode-discard buf rest h =
      let (n, e) = discard-eq-drop buf in rw e (decode-noise deliver n buf rest h)

  seek-found :
      (t n : ℕ) (buf : Bytes) (pos : ℕ)
      → index_of start1 buf ≡ some pos
      → round deliver (parser wait_start1 n t buf)
        ≡ after_seek deliver (next_block (parser wait_start2 n t (drop pos buf)))
  unfolding round seek
  seek-found t n buf pos found = rw (found, seek)

  seek-missing :
      (t n : ℕ) (buf : Bytes)
      → index_of start1 buf ≡ none
      → round deliver (parser wait_start1 n t buf)
        ≡ record { out = []; flow = break_loop (parser wait_start1 n t (discard buf)) }
  unfolding round seek
  seek-missing t n buf missing = rw (missing, seek)

  -- The body of the loop, entered with at least four bytes.
  search-Keeps :
      (t n : ℕ) (buf : Bytes) (k : ℕ)
      → 4 ≤ length buf
      → 2 * length buf ≤ k
      → Keeps k
          (λ rest. decode deliver idle (buf ++ rest))
          (round deliver (parser wait_start1 n t buf))
  search-Keeps t n buf k h le = elim (Option-cases (index_of start1 buf)) [
    | inl missing ↦ rw (seek-missing t n buf missing) (record {
      ahead_eq = λ rest. decode-discard buf rest missing;
      inv = tt;
      goes = sym (decode-discard buf [] missing) ∙ rw append-nil (decode-none deliver buf missing);
    })
    | inr (pos, found) ↦
        let (bs, e, lt) = index_of-drop start1 buf pos found in
        rw (seek-found t n buf pos found, e)
          (Keeps-from (λ rest. rw (decode-skip deliver buf rest pos found, e) refl)
            (start2-Keeps t n bs k (omega arith) (omega arith)))
  ]

  phase-Keeps :
      (ph : Phase) (n t : ℕ) (buf : Bytes)
      → InvAt ph n buf
      → 4 ≤ length buf
      → Keeps
          (cost (parser ph n t buf))
          (ahead (parser ph n t buf))
          (round deliver (parser ph n t buf))
  unfolding round seek after_seek read_rest
  phase-Keeps wait_start1 n t buf v h = search-Keeps t n buf _ h (omega arith)
  phase-Keeps wait_start2 n t buf (rest, e) h =
      let len : length buf ≡ suc (length rest) = ap length e in
      rw e (start2-Keeps t n rest _ (omega arith) (omega (arith, len)))
  phase-Keeps read_len_hi n t [] v h = absurd (omega arith)
  phase-Keeps read_len_hi n t (b ∷ bs) v h = high-Keeps t n b bs _ (omega arith)
  phase-Keeps read_len_lo n t [] v h = absurd (omega arith)
  phase-Keeps read_len_lo n t (b ∷ bs) v h = low-Keeps t n b bs _ (omega arith)
  phase-Keeps read_payload zero t buf v h = absurd (omega arith)
  phase-Keeps read_payload (suc n) t buf v h = payload-Keeps (suc n) t buf _ (omega arith)

  pub round-Keeps :
      (p : Parser) → Inv p → 4 ≤ length p.buf → Keeps (cost p) (ahead p) (round deliver p)
  round-Keeps p v h = phase-Keeps p.phase p.payload_len p.frame_type p.buf v h
