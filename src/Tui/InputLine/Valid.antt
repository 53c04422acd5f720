-- ===== src/Tui/InputLine/Valid.antt =====
-- The invariant of the input line, kept by every key.
use fmesh_cli.Common.{
  ℕ, zero, suc, ◌+◌, ◌-◌, ◌≤◌, ◌++◌, ◌≡◌, Bool, List, [], ◌∷◌, Bytes, length, take, drop, get_or,
  ltb, leb, arith, if◌then◌else◌, length-append, length-take, length-drop, not, Bool-cases, inl,
  inr, ◌&&◌, ltb→lt, leb_false→lt,
}
use fmesh_cli.Tui.InputLine.{
  InputLine, max_line_size, max_history, new, Keys, Action, submit, erase_before, erase_at, go_left,
  go_right, go_home, go_end, older, newer, erase_word, erase_line, erase_rest, ignore, insert,
  remember, back_over, word_start, show, cut_from, perform, handle_key, handle_keys, action_of,
}

-- A line that was submitted or loaded.
abbrev pub IsEntry : Bytes → Type 0
IsEntry line = (1 ≤ length line) × (length line ≤ max_line_size)

abbrev pub AllEntries : List Bytes → Type 0
AllEntries [] = Unit {0}
AllEntries (l ∷ ls) = IsEntry l × AllEntries ls

pub record IsValid (s : InputLine) : Type 0 where
  pub buf_in : length s.buf ≤ max_line_size
  pub cursor_in : s.cursor ≤ length s.buf
  pub history_in : length s.history ≤ max_history
  pub pos_in : s.history_pos ≤ length s.history
  pub entries : AllEntries s.history

AllEntries-append :
    (xs : List Bytes) (line : Bytes) → AllEntries xs → IsEntry line → AllEntries (xs ++ (line ∷ []))
AllEntries-append [] line h e = (e, tt)
AllEntries-append (x ∷ xs) line h e = (h.0, AllEntries-append xs line h.1 e)

AllEntries-drop : (n : ℕ) (xs : List Bytes) → AllEntries xs → AllEntries (drop n xs)
AllEntries-drop zero xs h = h
AllEntries-drop (suc n) [] h = tt
AllEntries-drop (suc n) (x ∷ xs) h = AllEntries-drop n xs h.1

pub entry-le : (xs : List Bytes) (i : ℕ) → AllEntries xs → length (get_or xs i []) ≤ max_line_size
entry-le [] i h = omega arith
entry-le (x ∷ xs) zero h = omega arith
entry-le (x ∷ xs) (suc i) h = entry-le xs i h.1

pub remember_valid :
    (history : List Bytes) (line : Bytes)
    → length history ≤ max_history
    → AllEntries history
    → IsEntry line
    → (length (remember history line) ≤ max_history) × AllEntries (remember history line)
unfolding remember
remember_valid history line h es e = ground (
  arith,
  length-append history (line ∷ []),
  length-drop 1 (history ++ (line ∷ [])),
  AllEntries-append history line es e,
  AllEntries-drop 1 (history ++ (line ∷ [])) (AllEntries-append history line es e),
)

pub back_over-le : (p : ℕ → Bool) (buf : Bytes) (n : ℕ) → back_over p buf n ≤ n
unfolding back_over
back_over-le p buf zero = omega arith
back_over-le p buf (suc n) = ground (arith, back_over-le p buf n)

pub word_start-le :
    (is_space : ℕ → Bool) (buf : Bytes) (cursor : ℕ) → word_start is_space buf cursor ≤ cursor
unfolding word_start
word_start-le is_space buf cursor = omega (
  arith,
  back_over-le is_space buf cursor,
  back_over-le (λ c. not (is_space c)) buf (back_over is_space buf cursor),
)

-- What a cut leaves.
cut-IsValid :
    (s : InputLine) (start : ℕ) → IsValid s → start ≤ s.cursor → IsValid (cut_from start s)
unfolding cut_from
cut-IsValid s start v h = record {
  buf_in = omega (arith, cut_len);
  cursor_in = omega (arith, cut_len);
  history_in = v.history_in;
  pos_in = v.pos_in;
  entries = v.entries;
}
  where
    cut_len : length (take start s.buf ++ drop s.cursor s.buf) ≡ start + (length s.buf - s.cursor)
    cut_len = omega (
      arith,
      length-append (take start s.buf) (drop s.cursor s.buf),
      length-take start s.buf,
      length-drop s.cursor s.buf,
      v.cursor_in,
    )

submit-IsValid :
    (s : InputLine) (line : Bytes)
    → IsValid s
    → IsEntry line
    → IsValid record {
      buf = [];
      cursor = 0;
      history = remember s.history line;
      history_pos = length (remember s.history line);
    }
submit-IsValid s line v e =
    let (le, es) = remember_valid s.history line v.history_in v.entries e in
    record {
      buf_in = omega arith;
      cursor_in = omega arith;
      history_in = le;
      pos_in = omega arith;
      entries = es;
    }

show-IsValid :
    (s : InputLine) (pos : ℕ) (line : Bytes)
    → IsValid s
    → length line ≤ max_line_size
    → pos ≤ length s.history
    → IsValid (show pos line s)
unfolding show
show-IsValid s pos line v h hp = record {
  buf_in = h;
  cursor_in = omega arith;
  history_in = v.history_in;
  pos_in = hp;
  entries = v.entries;
}

perform-IsValid :
    (is_space : ℕ → Bool) (a : Action) (s : InputLine)
    → IsValid s
    → IsValid (perform is_space a s).0
unfolding perform
perform-IsValid sp submit s v = elim (Bool-cases (leb (length s.buf) 0)) [
  | inl e ↦ rw e v
  | inr e ↦ elim (Bool-cases (ltb max_line_size (length s.buf))) [
    | inl l ↦
        rw (e, l)
          (submit-IsValid s (take max_line_size s.buf) v (
            omega (arith, ltb→lt max_line_size (length s.buf) l, length-take max_line_size s.buf),
            omega (arith, length-take max_line_size s.buf),
          ))
    | inr l ↦
        rw (e, l)
          (submit-IsValid s s.buf v (omega (arith, leb_false→lt (length s.buf) 0 e), v.buf_in))
  ]
]
perform-IsValid sp erase_before s v = ground (
  arith,
  length-append (take (s.cursor - 1) s.buf) (drop s.cursor s.buf),
  length-take (s.cursor - 1) s.buf,
  length-drop s.cursor s.buf,
)
perform-IsValid sp erase_at s v = ground (
  arith,
  length-append (take s.cursor s.buf) (drop (s.cursor + 1) s.buf),
  length-take s.cursor s.buf,
  length-drop (s.cursor + 1) s.buf,
)
perform-IsValid sp go_left s v = ground arith
perform-IsValid sp go_right s v = ground arith
perform-IsValid sp go_home s v = ground arith
perform-IsValid sp go_end s v = ground arith
perform-IsValid sp older s v = elim (Bool-cases (ltb 0 (length s.history) && ltb 0 s.history_pos)) [
  | inl e ↦ rw e (
      show-IsValid s (s.history_pos - 1) (get_or s.history (s.history_pos - 1) []) v
        (entry-le s.history (s.history_pos - 1) v.entries) (omega (arith, v.pos_in)))
  | inr e ↦ rw e v
]
perform-IsValid sp newer s v = elim (Bool-cases (ltb s.history_pos (length s.history))) [
  | inl e ↦ rw e (
      show-IsValid s (s.history_pos + 1)
        (if ltb (s.history_pos + 1) (length s.history)
          then get_or s.history (s.history_pos + 1) []
          else [])
        v (ground (arith, entry-le s.history (s.history_pos + 1) v.entries))
        (omega (arith, ltb→lt s.history_pos (length s.history) e)))
  | inr e ↦ rw e v
]
perform-IsValid sp erase_word s v = elim (Bool-cases (ltb 0 s.cursor)) [
  | inl e ↦ rw e (cut-IsValid s (word_start sp s.buf s.cursor) v (word_start-le sp s.buf s.cursor))
  | inr e ↦ rw e v
]
perform-IsValid sp erase_line s v = ground arith
perform-IsValid sp erase_rest s v = ground (arith, length-take s.cursor s.buf)
perform-IsValid sp (insert ch) s v = ground (
  arith,
  length-append (take s.cursor s.buf) (ch ∷ drop s.cursor s.buf),
  length-take s.cursor s.buf,
  length-drop s.cursor s.buf,
)
perform-IsValid sp ignore s v = v

-- What handle_key returns, when it returns a line, is a line of the history's kind.
pub handle_key-IsValid :
    (is_space : ℕ → Bool) (k : Keys) (ch : ℕ) (s : InputLine)
    → IsValid s
    → IsValid (handle_key is_space k ch s).0
unfolding handle_key
handle_key-IsValid sp k ch s v = perform-IsValid sp (action_of k ch) s v

-- Any sequence of keys keeps a valid input line valid: the line is at most 8192 bytes, the cursor
-- stands in it, and the history has at most 10000 entries, none of them empty or too long.
pub handle_keys-IsValid :
    (is_space : ℕ → Bool) (k : Keys) (chs : List ℕ) (s : InputLine)
    → IsValid s
    → IsValid (handle_keys is_space k chs s).0
unfolding handle_keys
handle_keys-IsValid sp k [] s v = v
handle_keys-IsValid sp k (ch ∷ chs) s v =
    handle_keys-IsValid sp k chs (handle_key sp k ch s).0 (handle_key-IsValid sp k ch s v)

pub new-IsValid : IsValid new
unfolding new
new-IsValid = record {
  buf_in = omega arith;
  cursor_in = omega arith;
  history_in = omega arith;
  pos_in = omega arith;
  entries = tt;
}
