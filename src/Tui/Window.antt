-- ===== src/Tui/Window.antt =====
-- src/tui/window.h and the Window of src/tui/window.cpp: the scrollback of one window. The local
-- time zone is a parameter, the date of a time stamp.
pub mod Bounds
pub mod Wrap
use fmesh_cli.Common.{
  ℕ, zero, suc, ◌+◌, ◌-◌, ◌%◌, ◌/◌, Bool, true, false, ◌&&◌, ◌||◌, not, List, [], ◌∷◌, ◌++◌, Option,
  none, some, Bytes, codes, length, take, drop, ltb, leb, ◌==◌, ◌=?◌, if◌then◌else◌,
}
use fmesh_cli.App.Config.Atoi.{ℤ, pos, negsuc, print}
use fmesh_cli.App.Config.Spec.{is_empty}
use fmesh_cli.Mesh.NodeId.{node_num_to_id}

pub record WindowTarget : Type 0 where
  pub device : Bytes
  pub kind : Bytes
  pub target : ℕ

pub record Line : Type 0 where
  pub text : Bytes
  pub color_pair : ℕ
  pub is_meta : Bool
  pub sender_node : ℕ
  pub ts : ℕ

pub record Window : Type 0 where
  pub target : WindowTarget
  pub title : Bytes
  pub lines : List Line
  pub unread : ℕ
  pub activity : ℕ
  pub scroll_offset : ℕ
  pub last_day_ts : ℕ

unfoldable pub new : WindowTarget → Bytes → Window
new t title = record {
  target = t;
  title = title;
  lines = [];
  unread = 0;
  activity = 0;
  scroll_offset = 0;
  last_day_ts = 0;
}

abbrev pub max_lines : ℕ
max_lines = 5000

-- A date of the calendar, as the line of a new day shows it.
pub record Date : Type 0 where
  pub year : ℕ
  pub month : ℕ
  pub day : ℕ

unfoldable pub is_prefix : Bytes → Bytes → Bool
is_prefix [] s = true
is_prefix (p ∷ ps) [] = false
is_prefix (p ∷ ps) (c ∷ cs) = p == c && is_prefix ps cs

-- `std::string::find` of a string that is not empty.
unfoldable pub find : Bytes → Bytes → Option ℕ
unfolding is_prefix
find pat [] = none
find pat (c ∷ cs) =
    if is_prefix pat (c ∷ cs)
    then some 0
    else elim (find pat cs) [ none ↦ none | some i ↦ some (suc i) ]

-- `std::string::rfind`
unfoldable pub rfind : Bytes → Bytes → Option ℕ
unfolding is_prefix
rfind pat [] = none
rfind pat (c ∷ cs) = elim (rfind pat cs) [
  | some i ↦ some (suc i)
  | none ↦ (if is_prefix pat (c ∷ cs) then some 0 else none)
]

-- `if (body.find(" [") != npos) body = body.substr(0, body.rfind(" ["));`
unfoldable pub strip_tag : Bytes → Bytes
unfolding rfind
strip_tag body = elim (rfind (codes " [") body) [ none ↦ body | some i ↦ take i body ]

-- What stands behind the nick; `none` where there is none.
unfoldable pub body_of : Bytes → Option Bytes
unfolding find strip_tag
body_of text = elim (find (codes "> ") text) [
  | none ↦ none
  | some i ↦ some (strip_tag (drop (i + 2) text))
]

unfoldable pub same_body : Option Bytes → Option Bytes → Bool
same_body none b = false
same_body (some a) none = false
same_body (some a) (some b) = a =? b

-- A line that repeats the last one of the window within two seconds.
unfoldable pub repeats : Line → Line → Bool
unfolding body_of same_body
repeats last line =
    not last.is_meta
    && (last.sender_node == line.sender_node
        && (same_body (body_of last.text) (body_of line.text)
            && leb (if leb last.ts line.ts then line.ts - last.ts else last.ts - line.ts) 2))

unfoldable pub last_of : List Line → Option Line
last_of [] = none
last_of (l ∷ []) = some l
last_of (l ∷ m ∷ ls) = last_of (m ∷ ls)

unfoldable pub is_repeated : List Line → Line → Bool
unfolding repeats last_of
is_repeated lines line = elim (last_of lines) [
  | none ↦ false
  | some last ↦ not line.is_meta && repeats last line
]

-- `%0*d`
unfoldable pub padded : ℕ → ℕ → Bytes
padded width n = let digits = print n n [] in zeros (width - length digits) digits
  where
    zeros : ℕ → Bytes → Bytes
    zeros zero s = s
    zeros (suc k) s = b'0' ∷ zeros k s

unfoldable pub date_line : Date → Line
unfolding padded
date_line d = record {
  text =
      codes "--- "
      ++ (padded 4 d.year
          ++ (codes "-" ++ (padded 2 d.month ++ (codes "-" ++ (padded 2 d.day ++ codes " ---")))));
  color_pair = 0;
  is_meta = true;
  sender_node = 0;
  ts = 0;
}

unfoldable pub same_day : Date → Date → Bool
same_day a b = a.day == b.day && (a.month == b.month && a.year == b.year)

-- The oldest lines beyond the limit go.
unfoldable pub cap : List Line → List Line
cap lines = if ltb max_lines (length lines) then drop (length lines - max_lines) lines else lines

module _ (local_date : ℕ → Date) where
  -- The lines with that of the day before a line of another day or the first one with a time.
  unfoldable pub with_date : ℕ → List Line → ℕ → List Line
  unfolding date_line same_day
  with_date last_day_ts lines ts =
      if not (ts == 0)
        && (last_day_ts == 0 || not (same_day (local_date last_day_ts) (local_date ts)))
      then lines ++ (date_line (local_date ts) ∷ [])
      else lines

  unfoldable pub append_line : Line → Window → Window
  unfolding is_repeated with_date cap
  append_line line w = if is_repeated w.lines line then w else record w {
    lines = cap (with_date w.last_day_ts w.lines line.ts ++ (line ∷ []));
    last_day_ts = (if line.ts == 0 then w.last_day_ts else line.ts);
  }

  unfoldable pub append_meta : Bytes → ℕ → Window → Window
  unfolding append_line
  append_meta text color_pair w =
      append_line
        record { text = text; color_pair = color_pair; is_meta = true; sender_node = 0; ts = 0 } w

-- `text.replace(pos, pat.size(), by)` at the first place of `pat`, if there is one.
unfoldable pub replace_first : Bytes → Bytes → Bytes → Option Bytes
unfolding find
replace_first pat by text = elim (find pat text) [
  | none ↦ none
  | some at ↦ some (take at text ++ (by ++ drop (at + length pat) text))
]

-- The first pattern that occurs is replaced.
unfoldable pub replace_any : List (Bytes × Bytes) → Bytes → Bytes
unfolding replace_first
replace_any [] text = text
replace_any (p ∷ ps) text = elim (replace_first p.0 p.1 text) [
  | none ↦ replace_any ps text
  | some text' ↦ text'
]

unfoldable pub said_by : Bytes → Bytes
said_by nick = codes "<" ++ (nick ++ codes "> ")

unfoldable pub done_by : Bytes → Bytes
done_by nick = codes " * " ++ (nick ++ codes " ")

-- The old patterns with the new ones, in the order in which they are tried. `raw_id` is the text of
-- the node's number.
unfoldable pub nick_patterns : Bytes → Bytes → Bytes → List (Bytes × Bytes)
unfolding said_by done_by
nick_patterns raw_id old_nick new_nick =
    if is_empty old_nick
    then (said_by raw_id, said_by new_nick) ∷ (done_by raw_id, done_by new_nick) ∷ []
    else (said_by old_nick, said_by new_nick)
      ∷ (said_by raw_id, said_by new_nick)
      ∷ (done_by old_nick, done_by new_nick)
      ∷ (done_by raw_id, done_by new_nick)
      ∷ []

unfoldable pub rename : ℕ → List (Bytes × Bytes) → List Line → List Line
unfolding replace_any
rename sender_node patterns [] = []
rename sender_node patterns (l ∷ ls) =
    (if l.sender_node == sender_node then record l { text = replace_any patterns l.text } else l)
    ∷ rename sender_node patterns ls

unfoldable pub rebuild_nick : ℕ → Bytes → Bytes → Window → Window
unfolding nick_patterns rename
rebuild_nick sender_node old_nick new_nick w =
    if is_empty new_nick || old_nick =? new_nick then w else record w {
      lines =
          rename sender_node
            (nick_patterns (take 10 (node_num_to_id sender_node)) old_nick new_nick) w.lines;
    }

unfoldable pub clear : Window → Window
clear w = record w { lines = []; scroll_offset = 0 }

unfoldable pub mark_read : Window → Window
mark_read w = record w { unread = 0; activity = 0 }

unfoldable pub bump_activity : ℕ → Window → Window
bump_activity level w = record w {
  activity = (if ltb w.activity level then level else w.activity);
  unread = w.unread + 1;
}

-- The sum below 0 is 0.
unfoldable pub scrolled : ℕ → ℤ → ℕ
scrolled offset (pos d) = offset + d
scrolled offset (negsuc d) = offset - suc d

unfoldable pub scroll_by : ℤ → Window → Window
unfolding scrolled
scroll_by delta w =
    let offset = scrolled w.scroll_offset delta in
    record w { scroll_offset = (if ltb (length w.lines) offset then length w.lines else offset) }

unfoldable pub scroll_to_bottom : Window → Window
scroll_to_bottom w = record w { scroll_offset = 0 }
