-- ===== src/Stream/Refine.antt =====
-- The read loop against the byte-at-a-time decoder, for any way in which the bytes come in.
use fmesh_cli.Common.{
  ℕ, zero, suc, ◌<◌, ◌++◌, ◌≡◌, refl, sym, ap, ◌∙◌, ◌⊎◌, inl, inr, List, [], ◌∷◌, Bytes, length,
  leb, arith, append-nil, append_assoc, Bool-cases, leb→le, leb_false→lt, concat,
}
use fmesh_cli.Stream.{
  Phase, wait_start1, wait_start2, read_len_hi, read_len_lo, read_payload, Parser, fresh, Flow,
  break_loop, again, next_block, round, resume, drain, rounds, feed, feed_all,
}
use fmesh_cli.Stream.Reference.{decode}
use fmesh_cli.Stream.Steps.{view, InvAt, parser, Inv, cost, ahead, IsDrained, Keeps, round-Keeps}

-- All the bytes, in order.
InvAt-append : (ph : Phase) (n : ℕ) (buf chunk : Bytes) → InvAt ph n buf → InvAt ph n (buf ++ chunk)
InvAt-append wait_start1 n buf chunk v = tt
InvAt-append wait_start2 n buf chunk (rest, e) = (rest ++ chunk, ap (◌++ chunk) e)
InvAt-append read_len_hi n buf chunk v = tt
InvAt-append read_len_lo n buf chunk v = tt
InvAt-append read_payload n buf chunk v = v

cost-lt-rounds :
    (ph : Phase) (n t : ℕ) (buf : Bytes) → cost (parser ph n t buf) < rounds (parser ph n t buf)
cost-lt-rounds wait_start1 n t buf = omega arith
cost-lt-rounds wait_start2 n t buf = omega arith
cost-lt-rounds read_len_hi n t buf = omega arith
cost-lt-rounds read_len_lo n t buf = omega arith
cost-lt-rounds read_payload n t buf = omega arith

regroup : (a b c d : Bytes) → (a ++ (b ++ c)) ++ d ≡ (a ++ b) ++ (c ++ d)
regroup a b c d = simp append_assoc

module _ {E : Type 0} (deliver : ℕ → Bytes → List E) where
  -- What a run owes: nothing is lost, added or changed, and the loop stops only where fewer than
  -- four bytes, or no complete frame, are left.
  pub record Runs (p : Parser) (res : List E × Parser) : Type 0 where
    pub ahead_eq : (rest : Bytes) → ahead deliver p rest ≡ res.0 ++ ahead deliver res.1 rest
    pub inv : Inv res.1
    pub stop : (length res.1.buf < 4) ⊎ IsDrained deliver res.1

  chain :
      (p q : Parser) (out : List E) (res : List E × Parser)
      → ((rest : Bytes) → ahead deliver p rest ≡ out ++ ahead deliver q rest)
      → Runs q res
      → Runs p (out ++ res.0, res.1)
  chain p q out res e k = record {
    ahead_eq = λ rest.
        e rest
        ∙ ap (out ++◌) (k.ahead_eq rest)
        ∙ sym (append_assoc out res.0 (ahead deliver res.1 rest));
    inv = k.inv;
    stop = k.stop;
  }

  -- One round, then the others.
  resume-Runs :
      (p : Parser) (flow : Flow) (out : List E) (loop : Parser → List E × Parser) (n : ℕ)
      → Keeps deliver n (ahead deliver p) (record { out = out; flow = flow })
      → ((q : Parser) → Inv q → cost q < n → Runs q (loop q))
      → Runs p (resume deliver flow out loop)
  unfolding resume
  resume-Runs p (break_loop q) out loop n k rest = record {
    ahead_eq = k.ahead_eq;
    inv = k.inv;
    stop = inr k.goes;
  }
  resume-Runs p (again q) out loop n k rest =
      chain p q out (loop q) k.ahead_eq (rest q k.inv k.goes)
  resume-Runs p (next_block q) out loop n k rest =
      chain p q out (loop q) k.ahead_eq (rest q k.inv k.goes)

  drain-Runs : (fuel : ℕ) (p : Parser) → Inv p → cost p < fuel → Runs p (drain deliver fuel p)
  unfolding drain
  drain-Runs zero p v h = absurd (omega arith)
  drain-Runs (suc fuel) p v h = elim (Bool-cases (leb 4 (length p.buf))) [
    | inl enough ↦
        rw (enough, drain)
          (resume-Runs p (round deliver p).flow (round deliver p).out (drain deliver fuel) (cost p)
            (round-Keeps deliver p v (leb→le 4 (length p.buf) enough))
            (λ q w lt. drain-Runs fuel q w (omega arith)))
    | inr few ↦
        rw (few, drain)
          (record {
            ahead_eq = λ rest. refl;
            inv = v;
            stop = inl (leb_false→lt 4 (length p.buf) few);
          })
  ]

  -- One read: appended bytes keep the invariant, and the fuel is enough.
  feed-Runs :
      (p : Parser) (chunk : Bytes)
      → Inv p
      → Runs (record p { buf = p.buf ++ chunk }) (feed deliver p chunk)
  unfolding feed
  feed-Runs p chunk v =
      drain-Runs _ (record p { buf = p.buf ++ chunk })
        (InvAt-append p.phase p.payload_len p.buf chunk v)
        (cost-lt-rounds p.phase p.payload_len p.frame_type _)

  feed_all-Runs :
      (chunks : List Bytes) (p : Parser)
      → Inv p
      → (length p.buf < 4) ⊎ IsDrained deliver p
      → Runs (record p { buf = p.buf ++ concat chunks }) (feed_all deliver p chunks)
  unfolding feed_all
  feed_all-Runs [] p v s = record {
    ahead_eq = λ rest. ap (λ b. ahead deliver (record p { buf = b }) rest) (append-nil p.buf);
    inv = v;
    stop = s;
  }
  feed_all-Runs (c ∷ cs) p v s =
      let k = feed-Runs p c v in
      let q : Parser = (feed deliver p c).1 in
      let ks = feed_all-Runs cs q k.inv k.stop in
      chain (record p { buf = p.buf ++ (c ++ concat cs) }) (record q { buf = q.buf ++ concat cs })
        (feed deliver p c).0 (feed_all deliver q cs)
        (λ rest.
          ap (decode deliver (view p.phase p.frame_type p.payload_len))
            (regroup p.buf c (concat cs) rest)
          ∙ k.ahead_eq (concat cs ++ rest)
          ∙ ap
              (λ b.
                (feed deliver p c).0 ++ decode deliver (view q.phase q.frame_type q.payload_len) b)
              (sym (append_assoc q.buf (concat cs) rest)))
        ks

  pub fresh-Runs :
      (chunks : List Bytes)
      → Runs (record fresh { buf = concat chunks }) (feed_all deliver fresh chunks)
  unfolding fresh
  fresh-Runs chunks = feed_all-Runs chunks fresh tt (inl (omega arith))
