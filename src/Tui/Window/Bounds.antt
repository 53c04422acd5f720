-- ===== src/Tui/Window/Bounds.antt =====
-- What holds of a window whatever is done to it: its scrollback is bounded and the view stays in it.
use fmesh_cli.Common.{
  ℕ, zero, suc, ◌-◌, ◌≤◌, ◌≡◌, refl, Bool, true, false, ◌||◌, List, [], ◌∷◌, ◌++◌, Option, none,
  some, Bytes, length, take, ◌==◌, ◌=?◌, if◌then◌else◌, arith, length-append, length-drop,
  get_elem?, Bool-cases, inl, inr, ◌⊎◌,
}
use fmesh_cli.App.Config.Atoi.{ℤ}
use fmesh_cli.App.Config.Spec.{is_empty}
use fmesh_cli.Mesh.NodeId.{node_num_to_id}
use fmesh_cli.Tui.Window.{
  WindowTarget, Line, Window, Date, new, max_lines, is_repeated, with_date, cap, append_line,
  append_meta, nick_patterns, rename, rebuild_nick, clear, mark_read, bump_activity, scroll_by,
  scroll_to_bottom,
}

-- The operations of a window.
pub data Op : Type 0 where
  add : Line → Op
  add_meta : Bytes → ℕ → Op
  nick : ℕ → Bytes → Bytes → Op
  empty : Op
  read : Op
  bump : ℕ → Op
  scroll : ℤ → Op
  bottom : Op

unfoldable pub run : (ℕ → Date) → Op → Window → Window
run date (add l) w = append_line date l w
run date (add_meta text color) w = append_meta date text color w
run date (nick n old_nick new_nick) w = rebuild_nick n old_nick new_nick w
run date empty w = clear w
run date read w = mark_read w
run date (bump level) w = bump_activity level w
run date (scroll delta) w = scroll_by delta w
run date bottom w = scroll_to_bottom w

unfoldable pub run_all : (ℕ → Date) → List Op → Window → Window
unfolding run
run_all date [] w = w
run_all date (o ∷ os) w = run_all date os (run date o w)

pub record Bounded (w : Window) : Type 0 where
  pub lines_in : length w.lines ≤ max_lines
  pub view_in : w.scroll_offset ≤ length w.lines

-- The lines are as many as before and those that are added, or the most there can be.
cap_len :
    (ls : List Line)
    → (length (cap ls) ≤ max_lines)
      × ((length (cap ls) ≡ length ls) ⊎ (length (cap ls) ≡ max_lines))
unfolding cap
cap_len ls = ground (arith, length-drop (length ls - max_lines) ls)

grow_len :
    (b : Bool) (ls : List Line) (x : Line) → length ls ≤ length (if b then ls ++ (x ∷ []) else ls)
grow_len true ls x = omega (arith, length-append ls (x ∷ []))
grow_len false ls x = omega arith

cap-Bounded :
    (w : Window) (ls : List Line) (l : Line) (ts : ℕ)
    → Bounded w
    → length w.lines ≤ length ls
    → Bounded (record w { lines = cap (ls ++ (l ∷ [])); last_day_ts = ts })
cap-Bounded w ls l ts v h = record {
  lines_in = (cap_len (ls ++ (l ∷ []))).0;
  view_in = elim (cap_len (ls ++ (l ∷ []))).1 [
    | inl e ↦ omega (arith, e, h, v.view_in, length-append ls (l ∷ []))
    | inr e ↦ omega (arith, e, v.view_in, v.lines_in)
  ];
}

with_date_len :
    (date : ℕ → Date) (last : ℕ) (ls : List Line) (ts : ℕ)
    → length ls ≤ length (with_date date last ls ts)
unfolding with_date
with_date_len date last ls ts = grow_len _ ls _

append_line-Bounded :
    (date : ℕ → Date) (l : Line) (w : Window) → Bounded w → Bounded (append_line date l w)
unfolding append_line
append_line-Bounded date l w v = elim (Bool-cases (is_repeated w.lines l)) [
  | inl e ↦ rw (append_line, e) v
  | inr e ↦
      rw (append_line, e)
        (cap-Bounded w (with_date date w.last_day_ts w.lines l.ts) l
          (if l.ts == 0 then w.last_day_ts else l.ts) v
          (with_date_len date w.last_day_ts w.lines l.ts))
]

rename_len :
    (n : ℕ) (ps : List (Bytes × Bytes)) (ls : List Line) → length (rename n ps ls) ≡ length ls
unfolding rename
rename_len n ps [] = refl
rename_len n ps (l ∷ ls) = omega (arith, rename_len n ps ls)

renamed-Bounded :
    (n : ℕ) (ps : List (Bytes × Bytes)) (w : Window)
    → Bounded w
    → Bounded (record w { lines = rename n ps w.lines })
renamed-Bounded n ps w v = record {
  lines_in = omega (arith, rename_len n ps w.lines, v.lines_in);
  view_in = omega (arith, rename_len n ps w.lines, v.view_in);
}

run-Bounded : (date : ℕ → Date) (o : Op) (w : Window) → Bounded w → Bounded (run date o w)
unfolding run append_meta rebuild_nick clear mark_read bump_activity scroll_by scroll_to_bottom
run-Bounded date (add l) w v = append_line-Bounded date l w v
run-Bounded date (add_meta text color) w v =
    append_line-Bounded date
      (record { text = text; color_pair = color; is_meta = true; sender_node = 0; ts = 0 }) w v
run-Bounded date (nick n old_nick new_nick) w v =
    elim (Bool-cases (is_empty new_nick || old_nick =? new_nick)) [
      | inl e ↦ rw (rebuild_nick, e) v
      | inr e ↦
          rw (rebuild_nick, e)
            (renamed-Bounded n (nick_patterns (take 10 (node_num_to_id n)) old_nick new_nick) w v)
    ]
run-Bounded date empty w v = record { lines_in = omega arith; view_in = omega arith }
run-Bounded date read w v = record { lines_in = v.lines_in; view_in = v.view_in }
run-Bounded date (bump level) w v = record { lines_in = v.lines_in; view_in = v.view_in }
run-Bounded date (scroll delta) w v = record { lines_in = v.lines_in; view_in = ground arith }
run-Bounded date bottom w v = record { lines_in = v.lines_in; view_in = omega arith }

run_all-Bounded' :
    (date : ℕ → Date) (os : List Op) (w : Window) → Bounded w → Bounded (run_all date os w)
unfolding run_all
run_all-Bounded' date [] w v = v
run_all-Bounded' date (o ∷ os) w v =
    run_all-Bounded' date os (run date o w) (run-Bounded date o w v)

new-Bounded : (t : WindowTarget) (title : Bytes) → Bounded (new t title)
unfolding new
new-Bounded t title = record { lines_in = omega arith; view_in = omega arith }

-- Whatever is done to a new window, in any order and in any time zone, it keeps at most 5000 lines
-- and the offset of the view is at most their number.
pub run_all-Bounded :
    (date : ℕ → Date) (os : List Op) (t : WindowTarget) (title : Bytes)
    → Bounded (run_all date os (new t title))
run_all-Bounded date os t title = run_all-Bounded' date os (new t title) (new-Bounded t title)

-- A line as rebuild_nick leaves it: another sender's is the same, and of the sender's only the text
-- can be another.
pub Renamed : ℕ → Option Line → Option Line → Type 0
Renamed n none after = after ≡ none
Renamed n (some l) none = ⊥
Renamed n (some l) (some m) = m ≡ (if l.sender_node == n then record l { text = m.text } else l)

rename-Renamed :
    (n : ℕ) (ps : List (Bytes × Bytes)) (ls : List Line) (i : ℕ)
    → Renamed n (get_elem? ls i) (get_elem? (rename n ps ls) i)
unfolding rename Renamed
rename-Renamed n ps [] i = refl
rename-Renamed n ps (l ∷ ls) zero = ground arith
rename-Renamed n ps (l ∷ ls) (suc i) = rename-Renamed n ps ls i

same-Renamed : (n : ℕ) (o : Option Line) → Renamed n o o
unfolding Renamed
same-Renamed n none = refl
same-Renamed n (some l) = ground arith

-- A new nick of a node changes no line of another sender, and nothing but the text of the lines of
-- that node; no line comes or goes.
pub rebuild_nick-Renamed :
    (n : ℕ) (old_nick new_nick : Bytes) (w : Window) (i : ℕ)
    → Renamed n (get_elem? w.lines i) (get_elem? (rebuild_nick n old_nick new_nick w).lines i)
unfolding rebuild_nick
rebuild_nick-Renamed n old_nick new_nick w i =
    elim (Bool-cases (is_empty new_nick || old_nick =? new_nick)) [
      | inl e ↦ rw (rebuild_nick, e) (same-Renamed n (get_elem? w.lines i))
      | inr e ↦
          rw (rebuild_nick, e)
            (rename-Renamed n (nick_patterns (take 10 (node_num_to_id n)) old_nick new_nick) w.lines
              i)
    ]
