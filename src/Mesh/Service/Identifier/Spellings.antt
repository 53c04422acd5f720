-- ===== src/Mesh/Service/Identifier/Spellings.antt =====
-- The spellings of a Bluetooth address that normalize_device_identifier of src/mesh/mesh_service.cpp
-- takes for one.
use fmesh_cli.Common.{
  ℕ, suc, ◌+◌, ◌*◌, ◌≡◌, refl, sym, ap, ◌∙◌, Bool, true, false, ◌&&◌, List, [], ◌∷◌, ◌++◌, none,
  some, Bytes, codes, length, drop, ◌==◌, arith, Bool-cases, inl, inr, length-append,
  drop-length-append, ◌||◌, append_assoc,
}
use fmesh_cli.App.Config.Spec.{is_empty}
use fmesh_cli.Mesh.NodeId.{digit_of}
use fmesh_cli.Tui.Window.{is_prefix, rfind}
use fmesh_cli.Mesh.Service.Identifier.{
  upper, from_path, is_separator, mac_char, mac_of, colons, as_mac, normalize_device_identifier,
}

unfoldable pub is_hex : ℕ → Bool
unfolding digit_of
is_hex c = elim (digit_of c) [ none ↦ false | some d ↦ true ]

-- The octets of an address, each with its two digits, are hexadecimal.
abbrev pub AllHex : List (ℕ × ℕ) → Type 0
AllHex [] = Unit {0}
AllHex (o ∷ os) = (is_hex o.0 ≡ true) × (is_hex o.1 ≡ true) × AllHex os

-- The octets with a separator between them.
unfoldable pub written : ℕ → List (ℕ × ℕ) → Bytes
written sep [] = []
written sep (o ∷ []) = o.0 ∷ o.1 ∷ []
written sep (o ∷ p ∷ os) = o.0 ∷ o.1 ∷ sep ∷ written sep (p ∷ os)

unfoldable pub capitals : List (ℕ × ℕ) → List (ℕ × ℕ)
unfolding upper
capitals [] = []
capitals (o ∷ os) = (upper o.0, upper o.1) ∷ capitals os

unfoldable pub has_slash : Bytes → Bool
has_slash [] = false
has_slash (c ∷ cs) = c == b'/' || has_slash cs

hex_facts :
    (c : ℕ)
    → is_hex c ≡ true
    → (mac_char c ≡ some (upper c))
      × (is_separator c ≡ false)
      × ((c == b'/') ≡ false)
      × ((c == b'_') ≡ false)
unfolding is_hex digit_of mac_char is_separator upper
hex_facts c h = ground arith

sep_facts : (c : ℕ) → is_separator c ≡ true → (mac_char c ≡ some b':') × ((c == b'/') ≡ false)
unfolding is_separator mac_char
sep_facts c h = ground arith

mac_of-cons :
    (c d : ℕ) (cs ds : Bytes)
    → mac_char c ≡ some d
    → mac_of cs ≡ some ds
    → mac_of (c ∷ cs) ≡ some (d ∷ ds)
unfolding mac_of
mac_of-cons c d cs ds e f = rw (mac_of, e, f) refl

mac_of-nil : mac_of [] ≡ some []
unfolding mac_of
mac_of-nil = refl

mac_of-written :
    (sep : ℕ) (os : List (ℕ × ℕ))
    → is_separator sep ≡ true
    → AllHex os
    → mac_of (written sep os) ≡ some (written b':' (capitals os))
unfolding written capitals
mac_of-written sep [] s h = mac_of-nil
mac_of-written sep (o ∷ []) s h =
    mac_of-cons o.0 (upper o.0) (o.1 ∷ []) (upper o.1 ∷ []) (hex_facts o.0 h.0).0
      (mac_of-cons o.1 (upper o.1) [] [] (hex_facts o.1 h.1).0 mac_of-nil)
mac_of-written sep (o ∷ p ∷ os) s h = mac_of-cons o.0 (upper o.0) _ _ (hex_facts o.0 h.0).0 (
    mac_of-cons o.1 (upper o.1) _ _ (hex_facts o.1 h.1).0
      (mac_of-cons sep b':' _ _ (sep_facts sep s).0 (mac_of-written sep (p ∷ os) s h.2)))

from_path-written :
    (os : List (ℕ × ℕ)) → AllHex os → from_path (written b'_' os) ≡ written b':' (capitals os)
unfolding from_path written capitals
from_path-written [] h = refl
from_path-written (o ∷ []) h = rw ((hex_facts o.0 h.0).3, (hex_facts o.1 h.1).3) refl
from_path-written (o ∷ p ∷ os) h =
    rw ((hex_facts o.0 h.0).3, (hex_facts o.1 h.1).3)
      (ap (λ t. upper o.0 ∷ upper o.1 ∷ b':' ∷ t) (from_path-written (p ∷ os) h.2))

colons-written :
    (sep : ℕ) (o : ℕ × ℕ) (os : List (ℕ × ℕ))
    → is_separator sep ≡ true
    → AllHex (o ∷ os)
    → colons (written sep (o ∷ os)) ≡ length os
unfolding colons written
colons-written sep o [] s h = rw ((hex_facts o.0 h.0).1, (hex_facts o.1 h.1).1) refl
colons-written sep o (p ∷ os) s h =
    rw ((hex_facts o.0 h.0).1, (hex_facts o.1 h.1).1, s) (ap suc (colons-written sep p os s h.2))

length-written :
    (sep : ℕ) (o : ℕ × ℕ) (os : List (ℕ × ℕ)) → length (written sep (o ∷ os)) ≡ 3 * length os + 2
unfolding written
length-written sep o [] = omega arith
length-written sep o (p ∷ os) = omega (arith, length-written sep p os)

length-capitals : (os : List (ℕ × ℕ)) → length (capitals os) ≡ length os
unfolding capitals
length-capitals [] = refl
length-capitals (o ∷ os) = ap suc (length-capitals os)

has_slash-written :
    (sep : ℕ) (os : List (ℕ × ℕ))
    → is_separator sep ≡ true
    → AllHex os
    → has_slash (written sep os) ≡ false
unfolding has_slash written
has_slash-written sep [] s h = refl
has_slash-written sep (o ∷ []) s h = rw ((hex_facts o.0 h.0).2, (hex_facts o.1 h.1).2) refl
has_slash-written sep (o ∷ p ∷ os) s h =
    rw ((hex_facts o.0 h.0).2, (hex_facts o.1 h.1).2, (sep_facts sep s).1)
      (has_slash-written sep (p ∷ os) s h.2)

-- A text without a slash holds no "/dev_".
rfind-none : (t : Bytes) → has_slash t ≡ false → rfind (codes "/dev_") t ≡ none
unfolding rfind is_prefix has_slash
rfind-none [] h = refl
rfind-none (c ∷ cs) h =
    let other : (b'/' == c) ≡ false = ground arith in
    rw (rfind, rfind-none cs (ground arith), other) refl

rfind-append :
    (pat a b : Bytes) (i : ℕ) → rfind pat b ≡ some i → rfind pat (a ++ b) ≡ some (length a + i)
unfolding rfind
rfind-append pat [] b i h = h ∙ ap some (omega arith)
rfind-append pat (c ∷ a) b i h = rw (rfind, rfind-append pat a b i h) (ap some (omega arith))

rfind-here : (t : Bytes) → has_slash t ≡ false → rfind (codes "/dev_") (codes "/dev_" ++ t) ≡ some 0
unfolding rfind is_prefix has_slash
rfind-here t h = rw (rfind, rfind-none t h) refl

as_mac-written :
    (sep : ℕ) (o : ℕ × ℕ) (os : List (ℕ × ℕ))
    → is_separator sep ≡ true
    → AllHex (o ∷ os)
    → length os ≡ 5
    → as_mac (written sep (o ∷ os)) ≡ written b':' (capitals (o ∷ os))
unfolding as_mac capitals
as_mac-written sep o os s h n =
    let five : colons (written sep (o ∷ os)) ≡ 5 = colons-written sep o os s h ∙ n in
    let all : length (written b':' (capitals (o ∷ os))) ≡ 17 =
      omega
        (arith, length-written b':' (upper o.0, upper o.1) (capitals os), length-capitals os, n) in
    rw (as_mac, mac_of-written sep (o ∷ os) s h, five, all) refl

underscore : is_separator b'_' ≡ true
unfolding is_separator
underscore = refl

at_path :
    (raw : Bytes) (at : ℕ)
    → is_empty raw ≡ false
    → rfind (codes "/dev_") raw ≡ some at
    → normalize_device_identifier raw ≡ from_path (drop (at + 5) raw)
unfolding normalize_device_identifier
at_path raw at e f = rw (normalize_device_identifier, e, f) refl

at_dev :
    (raw : Bytes)
    → is_empty raw ≡ false
    → rfind (codes "/dev_") raw ≡ none
    → (is_prefix (codes "dev_") raw && length raw == 21) ≡ true
    → normalize_device_identifier raw ≡ from_path (drop 4 raw)
unfolding normalize_device_identifier
at_dev raw e f g = rw (normalize_device_identifier, e, f, g) refl

at_mac :
    (raw : Bytes)
    → is_empty raw ≡ false
    → rfind (codes "/dev_") raw ≡ none
    → (length raw == 21) ≡ false
    → normalize_device_identifier raw ≡ as_mac raw
unfolding normalize_device_identifier
at_mac raw e f g = elim (Bool-cases (is_prefix (codes "dev_") raw)) [
  | inl i ↦ rw (normalize_device_identifier, e, f, i, g) refl
  | inr i ↦ rw (normalize_device_identifier, e, f, i) refl
]

drop_path : (path t : Bytes) → drop (length path + 0 + 5) (path ++ (codes "/dev_" ++ t)) ≡ t
drop_path path t =
    let e : length path + 0 + 5 ≡ length (path ++ codes "/dev_") =
      omega (arith, length-append path (codes "/dev_")) in
    rw (e, sym (append_assoc path (codes "/dev_") t)) (drop-length-append (path ++ codes "/dev_") t)

path_not_empty : (path t : Bytes) → is_empty (path ++ (codes "/dev_" ++ t)) ≡ false
path_not_empty [] t = refl
path_not_empty (c ∷ cs) t = refl

written_not_empty :
    (sep : ℕ) (o : ℕ × ℕ) (os : List (ℕ × ℕ)) → is_empty (written sep (o ∷ os)) ≡ false
unfolding written
written_not_empty sep o [] = refl
written_not_empty sep o (p ∷ os) = refl

dev_slash : (t : Bytes) → has_slash t ≡ false → has_slash (codes "dev_" ++ t) ≡ false
unfolding has_slash
dev_slash t h = h

dev_prefix :
    (t : Bytes)
    → length t ≡ 17
    → (is_prefix (codes "dev_") (codes "dev_" ++ t) && length (codes "dev_" ++ t) == 21) ≡ true
unfolding is_prefix
dev_prefix t h = rw h refl

-- An address of six octets is one to normalize_device_identifier whatever its separator is, with
-- colons, hyphens or underscores, in capitals or not, and also at the end of a path of BlueZ or
-- behind "dev_": the result is the address with colons and in capitals.
pub normalize_device_identifier-written :
    (sep : ℕ) (o : ℕ × ℕ) (os : List (ℕ × ℕ)) (path : Bytes)
    → is_separator sep ≡ true
    → AllHex (o ∷ os)
    → length os ≡ 5
    → (normalize_device_identifier (written sep (o ∷ os)) ≡ written b':' (capitals (o ∷ os)))
      × (normalize_device_identifier (path ++ (codes "/dev_" ++ written b'_' (o ∷ os)))
          ≡ written b':' (capitals (o ∷ os)))
      × (normalize_device_identifier (codes "dev_" ++ written b'_' (o ∷ os))
          ≡ written b':' (capitals (o ∷ os)))
normalize_device_identifier-written sep o os path s h n =
    let t = written b'_' (o ∷ os) in
    let slashless : has_slash t ≡ false = has_slash-written b'_' (o ∷ os) underscore h in
    let long : (sep : ℕ) → length (written sep (o ∷ os)) ≡ 17 =
      λ sep. omega (arith, length-written sep o os, n) in
    (
      at_mac (written sep (o ∷ os)) (written_not_empty sep o os)
            (rfind-none (written sep (o ∷ os)) (has_slash-written sep (o ∷ os) s h))
            (rw (long sep) refl)
          ∙ as_mac-written sep o os s h n,
      at_path (path ++ (codes "/dev_" ++ t)) (length path + 0) (path_not_empty path t)
            (rfind-append (codes "/dev_") path (codes "/dev_" ++ t) 0 (rfind-here t slashless))
          ∙ (ap from_path (drop_path path t) ∙ from_path-written (o ∷ os) h),
      at_dev (codes "dev_" ++ t) refl (rfind-none (codes "dev_" ++ t) (dev_slash t slashless))
            (dev_prefix t (long b'_'))
          ∙ from_path-written (o ∷ os) h,
    )
