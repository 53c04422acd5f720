-- ===== src/Tui/Window/Wrap/Width.antt =====
-- The lines that wrap_text makes fit the window.
use fmesh_cli.Common.{
  ℕ, zero, suc, ◌+◌, ◌≤◌, ◌<◌, ◌≡◌, refl, true, false, List, [], ◌∷◌, ◌++◌, some, Bytes, length,
  drop, get_or, leb, ◌==◌, arith, length-append, length-take, length-drop, Bool-cases, Option-cases,
  inl, inr, leb→le, leb_false→lt,
}
use fmesh_cli.App.Config.Atoi.{pos}
use fmesh_cli.Tui.Window.Wrap.{
  continues, back_to_start, chunk_len, last_space, skip_spaces, split_line, indent_of, room,
  wrap_rest, wrap_segment, segments, is_single, wrap_all, wrap_text,
}

abbrev pub AllWithin : ℕ → List Bytes → Type 0
AllWithin width [] = Unit {0}
AllWithin width (l ∷ ls) = (length l ≤ width) × AllWithin width ls

AllWithin-append :
    (width : ℕ) (xs ys : List Bytes)
    → AllWithin width xs
    → AllWithin width ys
    → AllWithin width (xs ++ ys)
AllWithin-append width [] ys h k = k
AllWithin-append width (x ∷ xs) ys h k = (h.0, AllWithin-append width xs ys h.1 k)

-- No byte continues another, as in ASCII.
abbrev pub AllStart : Bytes → Type 0
AllStart [] = Unit {0}
AllStart (b ∷ bs) = (continues b ≡ false) × AllStart bs

AllStart-get : (s : Bytes) (i : ℕ) → AllStart s → continues (get_or s i 0) ≡ false
AllStart-get [] i h = refl
AllStart-get (b ∷ bs) zero h = h.0
AllStart-get (b ∷ bs) (suc i) h = AllStart-get bs i h.1

AllStart-drop : (n : ℕ) (s : Bytes) → AllStart s → AllStart (drop n s)
AllStart-drop zero s h = h
AllStart-drop (suc n) [] h = tt
AllStart-drop (suc n) (b ∷ bs) h = AllStart-drop n bs h.1

AllStart-skip : (s : Bytes) → AllStart s → AllStart (skip_spaces s)
unfolding skip_spaces
AllStart-skip [] h = tt
AllStart-skip (b ∷ bs) h = elim (Bool-cases (b == b' ')) [
  | inl e ↦ rw (skip_spaces, e) (AllStart-skip bs h.1)
  | inr e ↦ rw (skip_spaces, e) h
]

chunk_len_start : (s : Bytes) (n : ℕ) → AllStart s → chunk_len s (suc n) ≡ suc n
unfolding chunk_len back_to_start
chunk_len_start s n h = ground (arith, AllStart-get s (suc n) h)

last_space_le : (s : Bytes) (n : ℕ) (brk : ℕ) → last_space s n ≡ some brk → (1 ≤ brk) × (brk ≤ n)
unfolding last_space
last_space_le s zero brk h = cc
last_space_le s (suc n) brk h = ground (arith, last_space_le s n brk)

skip_spaces_le : (s : Bytes) → length (skip_spaces s) ≤ length s
unfolding skip_spaces
skip_spaces_le [] = omega arith
skip_spaces_le (b ∷ bs) = ground (arith, skip_spaces_le bs)

-- One round: the part fits, and what is left is shorter and again has no continuing byte.
split_line_fits :
    (s : Bytes) (n : ℕ)
    → AllStart s
    → suc n < length s
    → (length (split_line s (suc n)).0 ≤ suc n)
      × (length (split_line s (suc n)).1 < length s)
      × AllStart (split_line s (suc n)).1
unfolding split_line
split_line_fits s n h hl = elim (Option-cases (last_space s (suc n))) [
  | inl e ↦
      rw (split_line, chunk_len_start s n h, e, chunk_len_start s n h)
        (
          omega (arith, length-take (suc n) s),
          omega (arith, length-drop (suc n) s, hl),
          AllStart-drop (suc n) s h,
        )
  | inr (brk, e) ↦
      rw (split_line, chunk_len_start s n h, e)
        (
          omega (arith, length-take brk s, last_space_le s (suc n) brk e),
          omega (
            arith,
            length-drop brk s,
            skip_spaces_le (drop brk s),
            last_space_le s (suc n) brk e,
            hl,
          ),
          AllStart-skip (drop brk s) (AllStart-drop brk s h),
        )
]

split_fits :
    (s : Bytes) (avail : ℕ)
    → AllStart s
    → 1 ≤ avail
    → avail < length s
    → (length (split_line s avail).0 ≤ avail) × AllStart (split_line s avail).1
split_fits s zero h ha hl = absurd (omega arith)
split_fits s (suc n) h ha hl = let (fits, less, start) = split_line_fits s n h hl in (fits, start)

-- The room beside the indent.
room_fits :
    (width used : ℕ) → used + 1 ≤ width → (1 ≤ room width used) × (used + room width used ≤ width)
room_fits width used h = ground arith

wrap_rest_fits :
    (fuel width : ℕ) (indent s : Bytes)
    → AllStart s
    → length indent + 1 ≤ width
    → AllWithin width (wrap_rest fuel width indent s)
unfolding wrap_rest
wrap_rest_fits zero width indent [] h hi = tt
wrap_rest_fits (suc fuel) width indent [] h hi = tt
wrap_rest_fits zero width indent (b ∷ bs) h hi = tt
wrap_rest_fits (suc fuel) width indent (b ∷ bs) h hi =
    let avail = room width (length indent) in
    let (one, beside) = room_fits width (length indent) hi in
    elim (Bool-cases (leb (length (b ∷ bs)) avail)) [
      | inl e ↦
          rw (wrap_rest, e)
            (
              omega
                  (arith, beside, length-append indent (b ∷ bs), leb→le (length (b ∷ bs)) avail e),
              tt,
            )
      | inr e ↦
          (let (fits, start) =
              split_fits (b ∷ bs) avail h one (leb_false→lt (length (b ∷ bs)) avail e) in
            rw (wrap_rest, e)
              (
                omega (arith, beside, fits, length-append indent (split_line (b ∷ bs) avail).0),
                wrap_rest_fits fuel width indent (split_line (b ∷ bs) avail).1 start hi,
              ))
    ]

indent_fits : (width : ℕ) → 1 ≤ width → length (indent_of width) + 1 ≤ width
indent_fits width h = ground arith

wrap_segment_fits :
    (width : ℕ) (s : Bytes) → AllStart s → 1 ≤ width → AllWithin width (wrap_segment width s)
unfolding wrap_segment
wrap_segment_fits width s h hw = elim (Bool-cases (leb (length s) width)) [
  | inl e ↦ rw (wrap_segment, e) (leb→le (length s) width e, tt)
  | inr e ↦
      (let (fits, start) = split_fits s width h hw (leb_false→lt (length s) width e) in
        rw (wrap_segment, e)
          (
            fits,
            wrap_rest_fits (length (split_line s width).1) width (indent_of width)
                (split_line s width).1 start (indent_fits width hw),
          ))
]

abbrev pub AllSegments : List Bytes → Type 0
AllSegments [] = Unit {0}
AllSegments (s ∷ ss) = AllStart s × AllSegments ss

wrap_all_fits :
    (width : ℕ) (ss : List Bytes) → AllSegments ss → 1 ≤ width → AllWithin width (wrap_all width ss)
unfolding wrap_all
wrap_all_fits width [] h hw = tt
wrap_all_fits width (s ∷ ss) h hw =
    AllWithin-append width (wrap_segment width s) (wrap_all width ss)
      (wrap_segment_fits width s h.0 hw) (wrap_all_fits width ss h.1 hw)

AllStart-snoc :
    (cur : Bytes) (b : ℕ) → AllStart cur → continues b ≡ false → AllStart (cur ++ (b ∷ []))
AllStart-snoc [] b h e = (e, tt)
AllStart-snoc (c ∷ cur) b h e = (h.0, AllStart-snoc cur b h.1 e)

segments_start : (cur bs : Bytes) → AllStart cur → AllStart bs → AllSegments (segments cur bs)
unfolding segments
segments_start cur [] h k = (h, tt)
segments_start cur (b ∷ bs) h k = elim (Bool-cases (b == b'\n')) [
  | inl e ↦ rw (segments, e) (h, segments_start [] bs tt k.1)
  | inr e ↦ rw (segments, e) (segments_start (cur ++ (b ∷ [])) bs (AllStart-snoc cur b h k.0) k.1)
]

is_single_fits : (text : Bytes) (width : ℕ) → is_single text width ≡ true → length text ≤ width
unfolding is_single
is_single_fits text width h = ground arith

-- The lines of a text without multi-byte characters are at most as long as the window is wide.
pub wrap_text-fits :
    (text : Bytes) (width : ℕ) → AllStart text → AllWithin width (wrap_text text (pos width))
unfolding wrap_text
wrap_text-fits text zero h = tt
wrap_text-fits [] (suc n) h = (omega arith, tt)
wrap_text-fits (b ∷ bs) (suc n) h = elim (Bool-cases (is_single (b ∷ bs) (suc n))) [
  | inl e ↦ rw (wrap_text, e) (is_single_fits (b ∷ bs) (suc n) e, tt)
  | inr e ↦
      rw (wrap_text, e)
        (wrap_all_fits (suc n) (segments [] (b ∷ bs)) (segments_start [] (b ∷ bs) tt h)
          (omega arith))
]
