-- ===== src/Tui/Window/Wrap/Ink.antt =====
-- What wrap_text leaves of a text: everything but spaces and newlines.
use fmesh_cli.Common.{
  ℕ, zero, suc, ◌≤◌, ◌≡◌, refl, sym, ap, ap₂, ◌∙◌, Bool, true, false, ◌||◌, List, [], ◌∷◌, ◌++◌,
  some, Bytes, length, take, drop, leb, ◌==◌, if◌then◌else◌, arith, length-drop, take-append-drop,
  append_assoc, append-nil, Bool-cases, Option-cases, inl, inr,
}
use fmesh_cli.App.Config.Atoi.{pos}
use fmesh_cli.Tui.Window.Wrap.{
  past_char, chunk_len, last_space, skip_spaces, split_line, indent_of, room, wrap_rest,
  wrap_segment, segments, is_single, wrap_all, wrap_text,
}

-- The bytes that are neither a space nor a newline.
unfoldable pub ink : Bytes → Bytes
ink [] = []
ink (b ∷ bs) = let rest = ink bs in if b == b' ' || b == b'\n' then rest else b ∷ rest

unfoldable pub ink_all : List Bytes → Bytes
unfolding ink
ink_all [] = []
ink_all (l ∷ ls) = ink l ++ ink_all ls

ink-append : (xs ys : Bytes) → ink (xs ++ ys) ≡ ink xs ++ ink ys
unfolding ink
ink-append [] ys = refl
ink-append (x ∷ xs) ys = elim (Bool-cases (x == b' ' || x == b'\n')) [
  | inl e ↦ rw (ink, e) (ink-append xs ys)
  | inr e ↦ rw (ink, e) (ap (x ∷◌) (ink-append xs ys))
]

ink_all-append : (xs ys : List Bytes) → ink_all (xs ++ ys) ≡ ink_all xs ++ ink_all ys
unfolding ink_all
ink_all-append [] ys = refl
ink_all-append (x ∷ xs) ys =
    ap (ink x ++◌) (ink_all-append xs ys) ∙ sym (append_assoc (ink x) (ink_all xs) (ink_all ys))

ink-skip_spaces : (s : Bytes) → ink (skip_spaces s) ≡ ink s
unfolding ink skip_spaces
ink-skip_spaces [] = refl
ink-skip_spaces (b ∷ bs) = ground (arith, ink-skip_spaces bs)

ink-indent : (width : ℕ) → ink (indent_of width) ≡ []
unfolding ink
ink-indent width = ground arith

past_char_ge : (n : ℕ) (bs : Bytes) → n ≤ past_char n bs
unfolding past_char
past_char_ge n [] = omega arith
past_char_ge n (b ∷ bs) = ground (arith, past_char_ge (suc n) bs)

chunk_len_ge : (s : Bytes) (avail : ℕ) → 1 ≤ chunk_len s avail
unfolding chunk_len
chunk_len_ge s avail = ground (arith, past_char_ge 1 (drop 1 s))

last_space_ge : (s : Bytes) (n brk : ℕ) → last_space s n ≡ some brk → 1 ≤ brk
unfolding last_space
last_space_ge s zero brk h = cc
last_space_ge s (suc n) brk h = ground (arith, last_space_ge s n brk)

skip_spaces_le : (s : Bytes) → length (skip_spaces s) ≤ length s
unfolding skip_spaces
skip_spaces_le [] = omega arith
skip_spaces_le (b ∷ bs) = ground (arith, skip_spaces_le bs)

-- One round keeps the ink and takes a byte.
split_line-ink :
    (b : ℕ) (bs : Bytes) (avail : ℕ)
    → (ink (split_line (b ∷ bs) avail).0 ++ ink (split_line (b ∷ bs) avail).1 ≡ ink (b ∷ bs))
      × (length (split_line (b ∷ bs) avail).1 ≤ length bs)
unfolding split_line
split_line-ink b bs avail =
    let n = chunk_len (b ∷ bs) avail in
    elim (Option-cases (last_space (b ∷ bs) n)) [
      | inl e ↦
          rw (split_line, e)
            (parts n, omega (arith, length-drop n (b ∷ bs), chunk_len_ge (b ∷ bs) avail))
      | inr (brk, e) ↦
          rw (split_line, e)
            (
              ap (ink (take brk (b ∷ bs)) ++◌) (ink-skip_spaces (drop brk (b ∷ bs))) ∙ parts brk,
              omega (
                arith,
                length-drop brk (b ∷ bs),
                skip_spaces_le (drop brk (b ∷ bs)),
                last_space_ge (b ∷ bs) n brk e,
              ),
            )
    ]
  where
    parts : (n : ℕ) → ink (take n (b ∷ bs)) ++ ink (drop n (b ∷ bs)) ≡ ink (b ∷ bs)
    parts n =
        sym (ink-append (take n (b ∷ bs)) (drop n (b ∷ bs))) ∙ ap ink (take-append-drop n (b ∷ bs))

wrap_rest-ink :
    (fuel width : ℕ) (indent s : Bytes)
    → ink indent ≡ []
    → length s ≤ fuel
    → ink_all (wrap_rest fuel width indent s) ≡ ink s
unfolding wrap_rest ink_all ink
wrap_rest-ink zero width indent [] hi h = refl
wrap_rest-ink (suc fuel) width indent [] hi h = refl
wrap_rest-ink zero width indent (b ∷ bs) hi h = absurd (omega arith)
wrap_rest-ink (suc fuel) width indent (b ∷ bs) hi h =
    let avail = room width (length indent) in
    elim (Bool-cases (leb (length (b ∷ bs)) avail)) [
      | inl e ↦ rw (wrap_rest, e, append-nil (ink (indent ++ (b ∷ bs)))) (indented (b ∷ bs))
      | inr e ↦
          (let (kept, less) = split_line-ink b bs avail in
            rw (wrap_rest, e)
              (ap₂ (λ x y. x ++ y) (indented (split_line (b ∷ bs) avail).0)
                  (wrap_rest-ink fuel width indent (split_line (b ∷ bs) avail).1 hi
                    (omega (arith, less, h)))
                ∙ kept))
    ]
  where
    indented : (s : Bytes) → ink (indent ++ s) ≡ ink s
    indented s = ink-append indent s ∙ ap (λ x. x ++ ink s) hi

wrap_segment-ink : (width : ℕ) (s : Bytes) → ink_all (wrap_segment width s) ≡ ink s
unfolding wrap_segment ink_all
wrap_segment-ink width s = elim (Bool-cases (leb (length s) width)) [
  | inl e ↦ rw (wrap_segment, e) (append-nil (ink s))
  | inr e ↦
      rw (wrap_segment, e)
        (ap (ink (split_line s width).0 ++◌) (
            wrap_rest-ink (length (split_line s width).1) width (indent_of width)
              (split_line s width).1 (ink-indent width) (omega arith))
          ∙ kept s e)
]
  where
    kept :
        (s : Bytes)
        → leb (length s) width ≡ false
        → ink (split_line s width).0 ++ ink (split_line s width).1 ≡ ink s
    kept [] e = absurd (ground arith)
    kept (b ∷ bs) e = (split_line-ink b bs width).0

wrap_all-ink : (width : ℕ) (ss : List Bytes) → ink_all (wrap_all width ss) ≡ ink_all ss
unfolding wrap_all ink_all
wrap_all-ink width [] = refl
wrap_all-ink width (s ∷ ss) =
    ink_all-append (wrap_segment width s) (wrap_all width ss)
    ∙ ap₂ (λ x y. x ++ y) (wrap_segment-ink width s) (wrap_all-ink width ss)

segments_on :
    (cur : Bytes) (b : ℕ) (bs : Bytes)
    → (b == b'\n') ≡ false
    → segments cur (b ∷ bs) ≡ segments (cur ++ (b ∷ [])) bs
unfolding segments
segments_on cur b bs e = rw (segments, e) refl

segments-ink : (cur bs : Bytes) → ink_all (segments cur bs) ≡ ink cur ++ ink bs
unfolding segments ink_all ink
segments-ink cur [] = refl
segments-ink cur (b ∷ bs) = elim (Bool-cases (b == b'\n')) [
  | inl e ↦ rw (segments, e, ink, or_true (b == b' ')) (ap (ink cur ++◌) (segments-ink [] bs))
  | inr e ↦
      ap ink_all (segments_on cur b bs e)
      ∙ segments-ink (cur ++ (b ∷ [])) bs
      ∙ sym (ink-append (cur ++ (b ∷ [])) bs)
      ∙ ap ink (append_assoc cur (b ∷ []) bs)
      ∙ ink-append cur (b ∷ bs)
]
  where
    or_true : (a : Bool) → (a || true) ≡ true
    or_true true = refl
    or_true false = refl

-- Nothing is lost: in a window of any width but none, the lines hold every byte of the text but
-- spaces and newlines, in their order.
pub wrap_text-ink :
    (text : Bytes) (width : ℕ) → 1 ≤ width → ink_all (wrap_text text (pos width)) ≡ ink text
unfolding wrap_text ink_all ink
wrap_text-ink text zero h = absurd (omega arith)
wrap_text-ink [] (suc n) h = refl
wrap_text-ink (b ∷ bs) (suc n) h = elim (Bool-cases (is_single (b ∷ bs) (suc n))) [
  | inl e ↦ rw (wrap_text, e) (append-nil (ink (b ∷ bs)))
  | inr e ↦
      rw (wrap_text, e) (wrap_all-ink (suc n) (segments [] (b ∷ bs)) ∙ segments-ink [] (b ∷ bs))
]
