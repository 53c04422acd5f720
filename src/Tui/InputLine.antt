-- ===== src/Tui/InputLine.antt =====
-- src/tui/input_line.cpp and input_line.h. The key codes are ncurses', and the class of spaces is
-- the locale's: both are parameters.
pub mod Valid
pub mod Typing
pub mod History
use fmesh_cli.Common.{
  ℕ, zero, suc, ◌+◌, ◌-◌, ◌++◌, Bool, true, false, ◌&&◌, ◌||◌, not, List, [], ◌∷◌, Option, none,
  some, Bytes, length, take, drop, get_or, ltb, leb, ◌==◌, if◌then◌else◌, get_lines,
}

abbrev pub max_line_size : ℕ
max_line_size = 8192

abbrev pub max_history : ℕ
max_history = 10000

pub record InputLine : Type 0 where
  pub buf : Bytes
  pub cursor : ℕ
  pub history : List Bytes
  pub history_pos : ℕ

unfoldable pub new : InputLine
new = record { buf = []; cursor = 0; history = []; history_pos = 0 }

-- The codes that ncurses gives to the keys beyond the characters.
pub record Keys : Type 0 where
  pub enter : ℕ
  pub backspace : ℕ
  pub dc : ℕ
  pub left : ℕ
  pub right : ℕ
  pub home : ℕ
  pub end : ℕ
  pub up : ℕ
  pub down : ℕ

-- The branches of handle_key.
pub data Action : Type 0 where
  submit erase_before erase_at go_left go_right go_home go_end older newer : Action
  erase_word erase_line erase_rest ignore : Action
  insert : ℕ → Action

-- `(ch >= 0x20 && ch <= 0x7E) || (ch >= 0x80 && ch <= 0xFF)`
abbrev pub is_text : ℕ → Bool
is_text ch = (leb 0x20 ch && leb ch 0x7E) || (leb 0x80 ch && leb ch 0xFF)

-- The tests of handle_key, in their order.
pub action_of : Keys → ℕ → Action
action_of k ch =
    if ch == b'\n' || (ch == b'\r' || ch == k.enter)
    then submit
    else if ch == k.backspace || (ch == 127 || ch == 8)
    then erase_before
    else if ch == k.dc
    then erase_at
    else if ch == k.left
    then go_left
    else if ch == k.right
    then go_right
    else if ch == k.home || ch == 1
    then go_home
    else if ch == k.end || ch == 5
    then go_end
    else if ch == k.up
    then older
    else if ch == k.down
    then newer
    else if ch == 23
    then erase_word
    else if ch == 21
    then erase_line
    else if ch == 11
    then erase_rest
    else if is_text ch
    then insert ch
    else ignore

-- `history_.push_back(line); if (history_.size() > kMaxHistory) history_.erase(begin)`
pub remember : List Bytes → Bytes → List Bytes
remember history line =
    let longer = history ++ (line ∷ []) in
    if ltb max_history (length longer) then drop 1 longer else longer

-- `while (start > 0 && p(buf_[start - 1])) --start;`
pub back_over : (ℕ → Bool) → Bytes → ℕ → ℕ
back_over p buf zero = zero
back_over p buf (suc n) = if p (get_or buf n 0) then back_over p buf n else suc n

-- Where the word before the cursor begins.
unfoldable pub word_start : (ℕ → Bool) → Bytes → ℕ → ℕ
unfolding back_over
word_start is_space buf cursor =
    back_over (λ c. not (is_space c)) buf (back_over is_space buf cursor)

-- A history entry in place of the line, the cursor behind it.
pub show : ℕ → Bytes → InputLine → InputLine
show pos line s = record s { buf = line; cursor = length line; history_pos = pos }

-- `buf_.erase(start, cursor_ - start); cursor_ = start;`
pub cut_from : ℕ → InputLine → InputLine
cut_from start s = record s { buf = take start s.buf ++ drop s.cursor s.buf; cursor = start }

module _ (is_space : ℕ → Bool) where
  -- The body of each branch: the line afterwards, and the text if it was submitted.
  pub perform : Action → InputLine → InputLine × Option Bytes
  unfolding remember show cut_from
  perform submit s =
      if leb (length s.buf) 0
      then (s, none)
      else let out =
          (if ltb max_line_size (length s.buf) then take max_line_size s.buf else s.buf) in
        let history = remember s.history out in
        (record { buf = []; cursor = 0; history = history; history_pos = length history }, some out)
  perform erase_before s =
      if ltb 0 s.cursor
      then (
        record s { buf = take (s.cursor - 1) s.buf ++ drop s.cursor s.buf; cursor = s.cursor - 1 },
        none,
      )
      else (s, none)
  perform erase_at s =
      if ltb s.cursor (length s.buf)
      then (record s { buf = take s.cursor s.buf ++ drop (s.cursor + 1) s.buf }, none)
      else (s, none)
  perform go_left s =
      if ltb 0 s.cursor then (record s { cursor = s.cursor - 1 }, none) else (s, none)
  perform go_right s =
      if ltb s.cursor (length s.buf) then (record s { cursor = s.cursor + 1 }, none) else (s, none)
  perform go_home s = (record s { cursor = 0 }, none)
  perform go_end s = (record s { cursor = length s.buf }, none)
  perform older s =
      if ltb 0 (length s.history) && ltb 0 s.history_pos
      then (show (s.history_pos - 1) (get_or s.history (s.history_pos - 1) []) s, none)
      else (s, none)
  perform newer s =
      if ltb s.history_pos (length s.history)
      then (
        show (s.history_pos + 1)
            (if ltb (s.history_pos + 1) (length s.history)
              then get_or s.history (s.history_pos + 1) []
              else [])
            s,
        none,
      )
      else (s, none)
  perform erase_word s =
      if ltb 0 s.cursor then (cut_from (word_start is_space s.buf s.cursor) s, none) else (s, none)
  perform erase_line s = (record s { buf = []; cursor = 0 }, none)
  perform erase_rest s = (record s { buf = take s.cursor s.buf }, none)
  perform (insert ch) s = if leb max_line_size (length s.buf) then (s, none) else (
    record s { buf = take s.cursor s.buf ++ (ch ∷ drop s.cursor s.buf); cursor = s.cursor + 1 },
    none,
  )
  perform ignore s = (s, none)

  -- The text that comes out stands for the return value `true` with `out`.
  pub handle_key : Keys → ℕ → InputLine → InputLine × Option Bytes
  unfolding action_of perform
  handle_key k ch s = perform (action_of k ch) s

  -- A sequence of keys, and the lines that they submit.
  pub handle_keys : Keys → List ℕ → InputLine → InputLine × List Bytes
  unfolding handle_key
  handle_keys k [] s = (s, [])
  handle_keys k (ch ∷ chs) s =
      let (s', out) = handle_key k ch s in
      let (s'', outs) = handle_keys k chs s' in
      (s'', elim out [ none ↦ outs | some line ↦ line ∷ outs ])

unfoldable pub clear : InputLine → InputLine
clear s = record s { buf = []; cursor = 0; history_pos = length s.history }

-- The lines of the file are added one by one, the empty ones left out and the long ones cut.
pub load_lines : List Bytes → List Bytes → List Bytes
unfolding remember
load_lines history [] = history
load_lines history (line ∷ lines) =
    load_lines
      (if leb (length line) 0
        then history
        else remember history
            (if ltb max_line_size (length line) then take max_line_size line else line))
      lines

-- `none` is a file that cannot be opened.
pub load_history : Option Bytes → InputLine → InputLine
unfolding load_lines
load_history none s = s
load_history (some file) s =
    let history = load_lines s.history (get_lines file) in
    record s { history = history; history_pos = length history }

write_lines : List Bytes → Bytes
write_lines [] = []
write_lines (line ∷ lines) = line ++ (b'\n' ∷ write_lines lines)

-- What the file then holds.
pub save_history : InputLine → Bytes
unfolding write_lines
save_history s = write_lines (
    drop (if ltb max_history (length s.history) then length s.history - max_history else 0)
      s.history)

-- Columns before the cursor: the bytes that do not continue a UTF-8 sequence, `(b & 0xC0) != 0x80`.
count_starts : Bytes → ℕ
count_starts [] = 0
count_starts (b ∷ bs) =
    let rest = count_starts bs in if leb 0x80 b && ltb b 0xC0 then rest else rest + 1

pub cursor_visual : InputLine → ℕ
unfolding count_starts
cursor_visual s = count_starts (take s.cursor s.buf)
