-- ===== src/Tui/WindowManager.antt =====
-- src/tui/window_manager.h and window_manager.cpp: the windows, their numbers and the table from
-- "device|kind|target" to them. Where the source indexes a vector with a number out of its range,
-- the model leaves the windows as they are.
pub mod History
pub mod Routing
pub mod Messages
pub mod Slots
pub mod Consistent
pub mod Closing
pub mod Found
pub mod Ensured
pub mod Written
pub mod Operations
pub mod Selection
mod Tests
use fmesh_cli.Common.{
  ℕ, zero, suc, ◌+◌, ◌-◌, ◌%◌, ◌^◌, Bool, true, false, ◌&&◌, ◌||◌, not, List, [], ◌∷◌, ◌++◌, Option,
  none, some, Bytes, codes, length, take, drop, get_or, get_elem?, ltb, leb, ◌==◌, ◌=?◌,
  if◌then◌else◌, max, put_key, lookup_key, erase_key,
}
use fmesh_cli.App.Config.Atoi.{ℤ, pos, negsuc, print}
use fmesh_cli.App.Config.Spec.{is_empty}
use fmesh_cli.Mesh.NodeId.{node_num_to_id}
use fmesh_cli.Mesh.NodeDb.{NodeDb, all}
use fmesh_cli.Tui.Window.{
  WindowTarget, Line, Window, new, is_prefix, append_line, mark_read, scroll_to_bottom,
}
use fmesh_cli.Tui.Signal.{
  Platform, WindowKey, StoredMessage, Reception, Service, fmt_time, short_nick,
  format_message_signal, is_mention,
}

pub record WindowManager : Type 0 where
  pub windows : List Window
  pub by_key : List (Bytes × ℕ)
  pub current : ℕ

-- "device|kind|target"
unfoldable pub key_of : Bytes → Bytes → ℕ → Bytes
key_of device kind target = device ++ (b'|' ∷ (kind ++ (b'|' ∷ print target target [])))

unfoldable pub target_key : WindowTarget → Bytes
unfolding key_of
target_key t = key_of t.device t.kind t.target

abbrev pub status_target : WindowTarget
status_target = record { device = []; kind = codes "status"; target = 0 }

-- The state of the constructor and of `clear`.
unfoldable pub fresh : WindowManager
unfolding new put_key
fresh = record {
  windows = new status_target (codes "status") ∷ [];
  by_key = put_key (codes "|status|0") 1 [];
  current = 1;
}

unfoldable pub clear : WindowManager → WindowManager
unfolding fresh
clear m = fresh

-- `windows_[i - 1]`
unfoldable pub at : ℕ → List Window → Option Window
at zero ws = none
at (suc i) ws = get_elem? ws i

unfoldable pub change_at : ℕ → (Window → Window) → List Window → List Window
change_at i f [] = []
change_at zero f (w ∷ ws) = f w ∷ ws
change_at (suc i) f (w ∷ ws) = w ∷ change_at i f ws

-- `f(*windows_[i - 1])`
unfoldable pub change : ℕ → (Window → Window) → List Window → List Window
unfolding change_at
change zero f ws = ws
change (suc i) f ws = change_at i f ws

unfoldable pub on_window : ℕ → (Window → Window) → WindowManager → WindowManager
unfolding change
on_window i f m = record m { windows = change i f m.windows }

unfoldable pub set_title : Bytes → Window → Window
set_title title w = record w { title = title }

unfoldable pub set_target : WindowTarget → Window → Window
set_target t w = record w { target = t }

unfoldable pub add_window : Window → WindowManager → WindowManager × ℕ
unfolding target_key put_key
add_window w m =
    let idx = length m.windows + 1 in
    (
      record m {
        windows = m.windows ++ (w ∷ []);
        by_key = put_key (target_key w.target) idx m.by_key;
      },
      idx,
    )

unfoldable pub erase_at : ℕ → List Window → List Window
erase_at i [] = []
erase_at zero (w ∷ ws) = ws
erase_at (suc i) (w ∷ ws) = w ∷ erase_at i ws

-- `if (idx > index) --idx;` for every entry.
unfoldable pub shift_down : ℕ → List (Bytes × ℕ) → List (Bytes × ℕ)
shift_down i [] = []
shift_down i (e ∷ m) = (e.0, if ltb i e.1 then e.1 - 1 else e.1) ∷ shift_down i m

-- The current window when window `i` is gone and `count` are left.
unfoldable pub current_after : ℕ → ℕ → ℕ → ℕ
current_after i count current =
    let moved =
      (if current == i then max 1 (i - 1) else if ltb i current then current - 1 else current) in
    if ltb count moved then count else moved

unfoldable pub close_window : ℕ → WindowManager → WindowManager × Bool
unfolding at target_key erase_key erase_at shift_down current_after on_window mark_read
close_window i m = if leb i 1 then (m, false) else elim (at i m.windows) [
  | none ↦ (m, false)
  | some w ↦
      let m' : WindowManager = record {
        windows = erase_at (i - 1) m.windows;
        by_key = shift_down i (erase_key (target_key w.target) m.by_key);
        current = current_after i (length (erase_at (i - 1) m.windows)) m.current;
      } in
      (on_window m'.current mark_read m', true)
]

-- A title that begins with "#ch" and a digit.
unfoldable pub is_unnamed : Bytes → Bool
unfolding is_prefix
is_unnamed title =
    is_prefix (codes "#ch") title
    && (ltb 3 (length title) && (leb b'0' (get_or title 3 0) && leb (get_or title 3 0) b'9'))

unfoldable pub is_closable : Window → Bool
unfolding is_unnamed
is_closable w = elim w.lines [
  | l ∷ ls ↦ false
  | [] ↦ w.target.kind =? codes "dm" || w.target.kind =? codes "channel" && is_unnamed w.title
]

unfoldable pub close_if_empty : ℕ → WindowManager → WindowManager × Bool
unfolding at is_closable close_window
close_if_empty i m = if leb i 1 then (m, false) else elim (at i m.windows) [
  | none ↦ (m, false)
  | some w ↦ (if is_closable w then close_window i m else (m, false))
]

-- `current_ = index` with what the window shows brought up to date.
unfoldable pub go_to : ℕ → WindowManager → WindowManager
unfolding at on_window mark_read scroll_to_bottom
go_to i m = elim (at i m.windows) [
  | none ↦ m
  | some w ↦ on_window i (λ w. mark_read (scroll_to_bottom w)) (record m { current = i })
]

-- A negative number names no window, as 0.
unfoldable pub select : ℕ → WindowManager → WindowManager
unfolding close_if_empty go_to
select i m =
    let (m', closed) = close_if_empty m.current m in
    if leb 1 m.current && (leb m.current (length m.windows) && not (m.current == i))
    then go_to (if closed && ltb m.current i then i - 1 else i) m'
    else go_to i m

-- The next window with activity, of `k` after number `i`.
unfoldable pub next_active : ℕ → ℕ → List Window → Option ℕ
unfolding at
next_active zero i ws = none
next_active (suc k) i ws =
    let n = length ws in
    let idx = i % n + 1 in
    elim (at idx ws) [
      | none ↦ next_active k (i + 1) ws
      | some w ↦ elim (ltb 0 w.activity) [ true ↦ some idx | false ↦ next_active k (i + 1) ws ]
    ]

unfoldable pub select_next_active : WindowManager → WindowManager
unfolding next_active select
select_next_active m = elim (next_active (length m.windows) (m.current - 1 + 1) m.windows) [
  | none ↦ m
  | some i ↦ select i m
]

-- The sum of the position and the step, wrapped around `n` windows.
unfoldable pub relative : ℕ → ℤ → ℕ → ℕ
relative n (pos d) i = (i + d) % n
relative n (negsuc d) i = if leb (suc d) i then (i - suc d) % n else (n - (suc d - i) % n) % n

unfoldable pub select_relative : ℤ → WindowManager → WindowManager
unfolding relative select
select_relative delta m = elim m.windows [
  | [] ↦ m
  | w ∷ ws ↦ select (relative (length m.windows) delta (m.current - 1) + 1) m
]

unfoldable pub current_window : WindowManager → Option Window
unfolding at
current_window m = at m.current m.windows

unfoldable pub current_target : WindowManager → Option WindowTarget
unfolding current_window
current_target m = elim (current_window m) [
  | none ↦ none
  | some w ↦ (if w.target.kind =? codes "status" then none else some w.target)
]
