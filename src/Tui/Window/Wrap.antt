-- ===== src/Tui/Window/Wrap.antt =====
-- wrap_text of src/tui/window.cpp. The segment is kept as what is left of it, where the source keeps
-- a position in it.
pub mod Width
pub mod Ink
use fmesh_cli.Common.{
  ℕ, zero, suc, ◌+◌, ◌-◌, Bool, true, false, ◌&&◌, not, List, [], ◌∷◌, ◌++◌, Option, none, some,
  Bytes, codes, length, take, drop, get_or, index_of, ltb, leb, ◌==◌, if◌then◌else◌,
}
use fmesh_cli.App.Config.Atoi.{ℤ, pos, negsuc}

-- `(b & 0xC0) == 0x80`
abbrev pub continues : ℕ → Bool
continues b = leb 0x80 b && ltb b 0xC0

-- `while (max_chunk > 0 && continues(seg[max_chunk])) max_chunk--;`
unfoldable pub back_to_start : Bytes → ℕ → ℕ
back_to_start s zero = zero
back_to_start s (suc n) =
    let rest = back_to_start s n in if continues (get_or s (suc n) 0) then rest else suc n

-- `n` and the bytes behind it that continue a character.
unfoldable pub past_char : ℕ → Bytes → ℕ
past_char n [] = n
past_char n (b ∷ bs) = elim (continues b) [ true ↦ past_char (suc n) bs | false ↦ n ]

-- The bytes that one line takes, a whole number of characters.
unfoldable pub chunk_len : Bytes → ℕ → ℕ
unfolding back_to_start past_char
chunk_len s avail = let n = back_to_start s avail in if n == 0 then past_char 1 (drop 1 s) else n

-- The last space at or before a position; `none` where there is none behind the first byte.
unfoldable pub last_space : Bytes → ℕ → Option ℕ
last_space s zero = none
last_space s (suc n) =
    let rest = last_space s n in if get_or s (suc n) 0 == b' ' then some (suc n) else rest

unfoldable pub skip_spaces : Bytes → Bytes
skip_spaces [] = []
skip_spaces (b ∷ bs) = elim (b == b' ') [ true ↦ skip_spaces bs | false ↦ b ∷ bs ]

-- The part for one line, and what is left.
unfoldable pub split_line : Bytes → ℕ → Bytes × Bytes
unfolding chunk_len last_space skip_spaces
split_line s avail =
    let n = chunk_len s avail in
    elim (last_space s n) [
      | some brk ↦ (take brk s, skip_spaces (drop brk s))
      | none ↦ (take n s, drop n s)
    ]

abbrev pub indent_of : ℕ → Bytes
indent_of width = if ltb 15 width then codes "  " else []

-- `if (avail <= 0) avail = 1;`
abbrev pub room : ℕ → ℕ → ℕ
room width used = if leb width used then 1 else width - used

-- The lines of a segment from the second on, or from the first where `indent` is empty. Every round
-- takes a byte, so that the length is fuel enough.
unfoldable pub wrap_rest : ℕ → ℕ → Bytes → Bytes → List Bytes
unfolding split_line
wrap_rest fuel width indent [] = []
wrap_rest zero width indent (b ∷ bs) = []
wrap_rest (suc fuel) width indent (b ∷ bs) =
    let avail = room width (length indent) in
    elim (leb (length (b ∷ bs)) avail) [
      | true ↦ (indent ++ (b ∷ bs)) ∷ []
      | false ↦
          (let (part, left) = split_line (b ∷ bs) avail in
            (indent ++ part) ∷ wrap_rest fuel width indent left)
    ]

unfoldable pub wrap_segment : ℕ → Bytes → List Bytes
unfolding split_line wrap_rest
wrap_segment width s =
    if leb (length s) width
    then s ∷ []
    else let (part, left) = split_line s width in
      part ∷ wrap_rest (length left) width (indent_of width) left

-- The text is cut at its newlines; what follows the last one is a segment too.
unfoldable pub segments : Bytes → Bytes → List Bytes
segments cur [] = cur ∷ []
segments cur (b ∷ bs) = elim (b == b'\n') [
  | true ↦ cur ∷ segments [] bs
  | false ↦ segments (cur ++ (b ∷ [])) bs
]

unfoldable pub wrap_all : ℕ → List Bytes → List Bytes
unfolding wrap_segment
wrap_all width [] = []
wrap_all width (s ∷ ss) = wrap_segment width s ++ wrap_all width ss

unfoldable pub is_single : Bytes → ℕ → Bool
is_single text width = elim (index_of b'\n' text) [
  | some i ↦ false
  | none ↦ leb (length text) width
]

unfoldable pub wrap_text : Bytes → ℤ → List Bytes
unfolding is_single segments wrap_all
wrap_text text (negsuc n) = []
wrap_text text (pos zero) = []
wrap_text [] (pos (suc n)) = [] ∷ []
wrap_text (b ∷ bs) (pos (suc n)) =
    if is_single (b ∷ bs) (suc n) then (b ∷ bs) ∷ [] else wrap_all (suc n) (segments [] (b ∷ bs))
