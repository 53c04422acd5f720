-- ===== src/Tui/Tests.antt =====
-- Runs of src/tui/ at small inputs.
use fmesh_cli.Tui.InputLine.{max_history}
use fmesh_cli.Common.{
  ℕ, ◌++◌, ◌≡◌, refl, Bool, false, [], ◌∷◌, some, codes, length, ◌==◌, arith, get_elem?, List,
  Bytes, drop, ◌+◌, ◌-◌,
}
use fmesh_cli.App.Config.Atoi.{pos}
use fmesh_cli.Tui.InputLine.{
  InputLine, Keys, new, handle_keys, load_history, save_history, max_history,
}
use fmesh_cli.Tui.InputLine.Valid.{IsValid, handle_keys-IsValid, new-IsValid}
use fmesh_cli.Tui.InputLine.Typing.{typed_is_submitted}
use fmesh_cli.Tui.InputLine.History.{load_history-save_history}
use fmesh_cli.Tui.Window.{WindowTarget, Line, Window, Date, rebuild_nick}
use fmesh_cli.Tui.Window
use fmesh_cli.Tui.Window.Bounds.{
  add, scroll, empty, run_all, Bounded, run_all-Bounded, Renamed, rebuild_nick-Renamed,
}
use fmesh_cli.Tui.Window.Wrap.{wrap_text}
use fmesh_cli.Tui.Window.Wrap.Width.{AllWithin, wrap_text-fits}
use fmesh_cli.Tui.Window.Wrap.Ink.{ink, ink_all, wrap_text-ink}

abbrev is_blank : ℕ → Bool
is_blank c = c == b' '

-- The codes of ncurses.
abbrev keys : Keys
keys = record {
  enter = 343;
  backspace = 263;
  dc = 330;
  left = 260;
  right = 261;
  home = 262;
  end = 360;
  up = 259;
  down = 258;
}

handle_keys-IsValid_example :
    IsValid (handle_keys is_blank keys (codes "hello you" ++ (23 ∷ 10 ∷ 259 ∷ [])) new).0
handle_keys-IsValid_example =
    handle_keys-IsValid is_blank keys (codes "hello you" ++ (23 ∷ 10 ∷ 259 ∷ [])) new new-IsValid

abbrev after_one : InputLine
after_one = record { buf = []; cursor = 0; history = codes "one" ∷ []; history_pos = 1 }

typed_is_submitted_example :
    let history : List Bytes =
      drop (length after_one.history + 1 - max_history) after_one.history
      ++ (codes "hi there" ∷ []) in
    handle_keys is_blank keys (codes "hi there" ++ (10 ∷ [])) after_one ≡ (
      record { buf = []; cursor = 0; history = history; history_pos = length history },
      codes "hi there" ∷ [],
    )
typed_is_submitted_example =
    typed_is_submitted is_blank keys (codes "hi there") after_one
      (record {
        enter_above = omega arith;
        backspace_above = omega arith;
        dc_above = omega arith;
        left_above = omega arith;
        right_above = omega arith;
        home_above = omega arith;
        end_above = omega arith;
        up_above = omega arith;
        down_above = omega arith;
      })
      (refl, (refl, (refl, (refl, (refl, (refl, (refl, (refl, tt)))))))) (omega arith) (omega arith)
      refl refl (omega arith)

load_history-save_history_example :
    load_history (some (save_history after_one)) new
    ≡ record new { history = after_one.history; history_pos = 1 }
load_history-save_history_example =
    load_history-save_history after_one
      (record {
        buf_in = omega arith;
        cursor_in = omega arith;
        history_in = omega arith;
        pos_in = omega arith;
        entries = ((omega arith, omega arith), tt);
      })
      ((refl, (refl, (refl, tt))), tt)

abbrev one_day : ℕ → Date
one_day ts = record { year = 2024; month = 5; day = 17 }

abbrev said : Line
said = record {
  text = codes "<ann> hello [5.0dB]";
  color_pair = 0;
  is_meta = false;
  sender_node = 7;
  ts = 1000;
}

abbrev status : WindowTarget
status = record { device = []; kind = codes "status"; target = 0 }

run_all-Bounded_example : Bounded (
    run_all one_day
      (add said ∷ scroll (pos 9) ∷ add said ∷ empty ∷ [])
      (Window.new status (codes "status")))
run_all-Bounded_example =
    run_all-Bounded one_day (add said ∷ scroll (pos 9) ∷ add said ∷ empty ∷ []) status
      (codes "status")

abbrev one_line : Window
one_line = record {
  target = status;
  title = [];
  lines = said ∷ [];
  unread = 0;
  activity = 0;
  scroll_offset = 0;
  last_day_ts = 1000;
}

rebuild_nick-Renamed_example :
    Renamed 7
      (get_elem? one_line.lines 0)
      (get_elem? (rebuild_nick 7 (codes "ann") (codes "bob") one_line).lines 0)
rebuild_nick-Renamed_example = rebuild_nick-Renamed 7 (codes "ann") (codes "bob") one_line 0

wrap_text-fits_example : AllWithin 4 (wrap_text (codes "ab cdefgh") (pos 4))
wrap_text-fits_example =
    wrap_text-fits (codes "ab cdefgh") 4
      (refl, (refl, (refl, (refl, (refl, (refl, (refl, (refl, (refl, tt)))))))))

wrap_text-ink_example : ink_all (wrap_text (codes "ab cdefgh") (pos 4)) ≡ ink (codes "ab cdefgh")
wrap_text-ink_example = wrap_text-ink (codes "ab cdefgh") 4 (omega arith)
