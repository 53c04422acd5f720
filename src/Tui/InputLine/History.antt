-- ===== src/Tui/InputLine/History.antt =====
-- The history is read back from its file.
use fmesh_cli.Common.{
  ◌+◌, ◌≤◌, ◌<◌, ◌≡◌, refl, sym, ap, ◌∙◌, false, List, [], ◌∷◌, ◌++◌, some, Bytes, length, ◌==◌,
  arith, length-append, append_assoc, append-nil, le→ltb_false, lt→leb_false, lines_from, get_lines,
}
use fmesh_cli.Tui.InputLine.{
  InputLine, max_line_size, max_history, new, remember, load_lines, load_history, write_lines,
  save_history,
}
use fmesh_cli.Tui.InputLine.Valid.{AllEntries, IsValid}

-- No newline stands in it.
abbrev pub OneLine : Bytes → Type 0
OneLine [] = Unit {0}
OneLine (c ∷ cs) = ((c == b'\n') ≡ false) × OneLine cs

abbrev pub AllOneLine : List Bytes → Type 0
AllOneLine [] = Unit {0}
AllOneLine (l ∷ ls) = OneLine l × AllOneLine ls

lines_from-line :
    (cur line rest : Bytes)
    → OneLine line
    → lines_from cur (line ++ (b'\n' ∷ rest)) ≡ (cur ++ line) ∷ lines_from [] rest
unfolding lines_from
lines_from-line [] [] rest h = refl
lines_from-line (c ∷ cur) [] rest h = ap (λ x. (c ∷ x) ∷ lines_from [] rest) (sym (append-nil cur))
lines_from-line cur (x ∷ line) rest h =
    rw (lines_from, h.0)
      (lines_from-line (cur ++ (x ∷ [])) line rest h.1
        ∙ ap (λ y. y ∷ lines_from [] rest) (append_assoc cur (x ∷ []) line))

get_lines-write_lines : (ls : List Bytes) → AllOneLine ls → lines_from [] (write_lines ls) ≡ ls
unfolding lines_from write_lines
get_lines-write_lines [] h = refl
get_lines-write_lines (l ∷ ls) h =
    lines_from-line [] l (write_lines ls) h.0 ∙ ap (l ∷◌) (get_lines-write_lines ls h.1)

remember_short :
    (history : List Bytes) (line : Bytes)
    → length history < max_history
    → remember history line ≡ history ++ (line ∷ [])
unfolding remember
remember_short history line h =
    rw
      (le→ltb_false max_history (length (history ++ (line ∷ [])))
        (omega (arith, length-append history (line ∷ []), h)))
      refl

load_lines-all :
    (ls history : List Bytes)
    → AllEntries ls
    → length history + length ls ≤ max_history
    → load_lines history ls ≡ history ++ ls
unfolding load_lines
load_lines-all [] history h hl = sym (append-nil history)
load_lines-all (l ∷ ls) history h hl =
    rw
      (
        lt→leb_false (length l) 0 h.0.0,
        le→ltb_false max_line_size (length l) h.0.1,
        remember_short history l (omega (arith, hl)),
      )
      (load_lines-all ls (history ++ (l ∷ [])) h.1
          (omega (arith, hl, length-append history (l ∷ [])))
        ∙ append_assoc history (l ∷ []) ls)

-- The history of a valid input line whose entries hold no newline, saved and loaded into a new input
-- line, is the same history, with the position behind its end.
pub load_history-save_history :
    (s : InputLine)
    → IsValid s
    → AllOneLine s.history
    → load_history (some (save_history s)) new
      ≡ record new { history = s.history; history_pos = length s.history }
unfolding load_history save_history new get_lines
load_history-save_history s v h =
    rw
      (
        le→ltb_false max_history (length s.history) v.history_in,
        get_lines-write_lines s.history h,
        load_lines-all s.history [] v.entries (omega (arith, v.history_in)),
      )
      refl
