-- ===== src/Tui/InputLine/Typing.antt =====
-- What is typed is what is submitted.
use fmesh_cli.Common.{
  ℕ, ◌+◌, ◌≤◌, ◌<◌, ◌≡◌, refl, sym, ap, ap₂, ◌∙◌, Bool, true, List, [], ◌∷◌, ◌++◌, none, Bytes,
  length, arith, length-append, take-length, drop-length, append_assoc, append-nil, le→ltb_false,
  lt→leb_false, ◌-◌, drop, drop-append_of_le, ltb, ltb→lt, ltb_false→le, Bool-cases, inl, inr,
}
use fmesh_cli.Tui.InputLine.{
  InputLine, max_line_size, max_history, Keys, insert, is_text, action_of, remember, perform,
  handle_key, handle_keys,
}

-- The codes of the special keys are none of a character's.
pub record AboveBytes (k : Keys) : Type 0 where
  pub enter_above : 256 ≤ k.enter
  pub backspace_above : 256 ≤ k.backspace
  pub dc_above : 256 ≤ k.dc
  pub left_above : 256 ≤ k.left
  pub right_above : 256 ≤ k.right
  pub home_above : 256 ≤ k.home
  pub end_above : 256 ≤ k.end
  pub up_above : 256 ≤ k.up
  pub down_above : 256 ≤ k.down

text_inserts : (k : Keys) (ch : ℕ) → AboveBytes k → is_text ch ≡ true → action_of k ch ≡ insert ch
unfolding action_of
text_inserts k ch a h = ground arith

abbrev pub AllText : Bytes → Type 0
AllText [] = Unit {0}
AllText (c ∷ cs) = (is_text c ≡ true) × AllText cs

-- A line that is typed so far, with the cursor behind it.
typed : Bytes → InputLine → InputLine
typed line s = record s { buf = line; cursor = length line }

insert_key :
    (sp : ℕ → Bool) (ch : ℕ) (line : Bytes) (s : InputLine)
    → length line < max_line_size
    → perform sp (insert ch) (typed line s) ≡ (typed (line ++ (ch ∷ [])) s, none)
unfolding perform typed
insert_key sp ch line s h =
    rw (perform, lt→leb_false max_line_size (length line) h, take-length line, drop-length line)
      (ap (λ n. (record s { buf = line ++ (ch ∷ []); cursor = n }, none))
        (omega (arith, length-append line (ch ∷ []))))

type_key :
    (sp : ℕ → Bool) (k : Keys) (ch : ℕ) (line : Bytes) (s : InputLine)
    → AboveBytes k
    → is_text ch ≡ true
    → length line < max_line_size
    → handle_key sp k ch (typed line s) ≡ (typed (line ++ (ch ∷ [])) s, none)
unfolding handle_key
type_key sp k ch line s a h hl =
    ap (λ x. perform sp x (typed line s)) (text_inserts k ch a h) ∙ insert_key sp ch line s hl

-- The line that Enter ends is remembered and handed out.
submitted : Bytes → InputLine → InputLine × List Bytes
submitted line s =
    let history = remember s.history line in
    (record { buf = []; cursor = 0; history = history; history_pos = length history }, line ∷ [])

enter_key :
    (sp : ℕ → Bool) (k : Keys) (line : Bytes) (s : InputLine)
    → 1 ≤ length line
    → length line ≤ max_line_size
    → handle_keys sp k (b'\n' ∷ []) (typed line s) ≡ submitted line s
unfolding handle_keys handle_key action_of perform typed submitted
enter_key sp k line s h hl =
    rw (perform, lt→leb_false (length line) 0 h, le→ltb_false max_line_size (length line) hl) refl

one_key :
    (sp : ℕ → Bool) (k : Keys) (ch : ℕ) (chs : Bytes) (s t : InputLine)
    → handle_key sp k ch s ≡ (t, none)
    → handle_keys sp k (ch ∷ chs) s ≡ handle_keys sp k chs t
unfolding handle_keys
one_key sp k ch chs s t e = rw (handle_keys, e, e) refl

type_keys :
    (sp : ℕ → Bool) (k : Keys) (chs line : Bytes) (s : InputLine)
    → AboveBytes k
    → AllText chs
    → 1 ≤ length line + length chs
    → length line + length chs ≤ max_line_size
    → handle_keys sp k (chs ++ (b'\n' ∷ [])) (typed line s) ≡ submitted (line ++ chs) s
unfolding handle_keys
type_keys sp k [] line s a h hl hm =
    enter_key sp k line s (omega (arith, hl)) (omega (arith, hm))
    ∙ ap (λ x. submitted x s) (sym (append-nil line))
type_keys sp k (ch ∷ chs) line s a h hl hm =
    one_key sp k ch (chs ++ (b'\n' ∷ [])) (typed line s) (typed (line ++ (ch ∷ [])) s)
      (type_key sp k ch line s a h.0 (omega (arith, hm)))
    ∙ type_keys sp k chs (line ++ (ch ∷ [])) s a h.1
        (omega (arith, hl, length-append line (ch ∷ [])))
        (omega (arith, hm, length-append line (ch ∷ [])))
    ∙ ap (λ x. submitted x s) (append_assoc line (ch ∷ []) chs)

length-push :
    (history : List Bytes) (line : Bytes) → length (history ++ (line ∷ [])) ≡ length history + 1
length-push history line = omega (arith, length-append history (line ∷ []))

-- The oldest entry goes where the history is full.
remember-newest :
    (history : List Bytes) (line : Bytes)
    → length history ≤ max_history
    → remember history line ≡ drop (length history + 1 - max_history) history ++ (line ∷ [])
unfolding remember
remember-newest history line h = elim (Bool-cases (ltb max_history (length history + 1))) [
  | inl full ↦
      let one : length history + 1 - max_history ≡ 1 =
        omega (arith, ltb→lt max_history _ full, h) in
      rw (length-push history line, full, one)
        (drop-append_of_le 1 history (line ∷ []) (omega (arith, ltb→lt max_history _ full)))
  | inr room ↦
      let none_goes : length history + 1 - max_history ≡ 0 =
        omega (arith, ltb_false→le max_history _ room) in
      rw (length-push history line, room, none_goes) refl
]

-- A text of 1 to 8192 bytes typed into an empty line and Enter: the text is handed out, once, the
-- line is empty again, and the history is what it was with the text behind it as the newest entry,
-- without the oldest one if there were 10000. There may be no more than these before.
pub typed_is_submitted :
    (sp : ℕ → Bool) (k : Keys) (text : Bytes) (s : InputLine)
    → AboveBytes k
    → AllText text
    → 1 ≤ length text
    → length text ≤ max_line_size
    → s.buf ≡ []
    → s.cursor ≡ 0
    → length s.history ≤ max_history
    → let history : List Bytes =
        drop (length s.history + 1 - max_history) s.history ++ (text ∷ []) in
      handle_keys sp k (text ++ (b'\n' ∷ [])) s ≡ (
        record { buf = []; cursor = 0; history = history; history_pos = length history },
        text ∷ [],
      )
unfolding typed submitted
typed_is_submitted sp k text s a h hl hm hb hc hh =
    ap₂ (λ b c. handle_keys sp k (text ++ (b'\n' ∷ [])) (record s { buf = b; cursor = c })) hb hc
    ∙ type_keys sp k text [] s a h (omega (arith, hl)) (omega (arith, hm))
    ∙ ap
        (λ history. (
          record { buf = []; cursor = 0; history = history; history_pos = length history },
          text ∷ [],
        ))
        (remember-newest s.history text hh)
