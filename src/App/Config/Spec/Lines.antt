-- ===== src/App/Config/Spec/Lines.antt =====
-- What parse_device_spec of src/app/config.cpp reads from the line of each kind of specification.
use fmesh_cli.Common.{
  ℕ, zero, suc, ◌+◌, ◌^◌, ◌≤◌, ◌<◌, ◌++◌, ◌≡◌, refl, sym, ap, ◌∙◌, true, false, [], ◌∷◌, none, some,
  Bytes, length, take, drop, get_or, index_of, ltb, ◌=?◌, arith, take-length-append, Bool-cases,
  inl, inr, =?→eq, append-nil, length-append, ◌⊎◌,
}
use fmesh_cli.App.Config.Atoi.{pos, to_string, atoi-to_string}
use fmesh_cli.App.Config.Spec.{
  BleDeviceSpec, default_pin, fresh_spec, is_empty, cut, baud_of, kind_of, ble, addr, tcp, serial,
  mesh, parse_mesh, parse_kind, parse_device_spec, pin_suffix,
}

abbrev pub NoColon : Bytes → Type 0
NoColon s = index_of b':' s ≡ none

-- The fields that the kinds of specification fill.
unfoldable pub ble_spec : Bytes → Bytes → BleDeviceSpec
unfolding fresh_spec
ble_spec name pin = record fresh_spec { name = name; pin = pin }

unfoldable pub addr_spec : Bytes → Bytes → BleDeviceSpec
unfolding fresh_spec
addr_spec address pin = record fresh_spec { address = address; pin = pin }

unfoldable pub tcp_spec : Bytes → BleDeviceSpec
unfolding fresh_spec
tcp_spec host = record fresh_spec { tcp_host = host }

unfoldable pub serial_spec : Bytes → ℕ → BleDeviceSpec
unfolding fresh_spec
serial_spec path baud = record fresh_spec { serial_port = path; serial_baud = pos baud }

unfoldable pub mesh_spec : Bytes → Bytes → Bytes → BleDeviceSpec
unfolding fresh_spec
mesh_spec host user password = record fresh_spec {
  mesh_host = host;
  mesh_user = user;
  mesh_password = password;
}

index_of-append :
    (xs ys : Bytes) → NoColon xs → index_of b':' (xs ++ (b':' ∷ ys)) ≡ some (length xs)
unfolding index_of
index_of-append [] ys h = refl
index_of-append (x ∷ xs) ys h = ground (arith, index_of-append xs ys)

pub cut-none : (xs : Bytes) → NoColon xs → cut xs ≡ (xs, none)
unfolding cut
cut-none xs h = rw (h, cut) refl

drop_past : (us vs : Bytes) → drop (length us + 1) (us ++ (b':' ∷ vs)) ≡ vs
drop_past [] vs = refl
drop_past (u ∷ us) vs =
    ap (λ n. drop n (u ∷ (us ++ (b':' ∷ vs)))) {y = suc (length us + 1)} (omega arith)
    ∙ drop_past us vs

at_end : (us vs : Bytes) → get_or (us ++ (b':' ∷ vs)) (length us) 0 ≡ b':'
at_end [] vs = refl
at_end (u ∷ us) vs = at_end us vs

pub cut_colon : (xs ys : Bytes) → NoColon xs → cut (xs ++ (b':' ∷ ys)) ≡ (xs, some ys)
unfolding cut
cut_colon xs ys h =
    rw (index_of-append xs ys h, cut, take-length-append xs (b':' ∷ ys), drop_past xs ys) refl

-- A kind's text, without a colon, and what it says.
pub parse_tag :
    (tag rest : Bytes) (out : BleDeviceSpec)
    → NoColon tag
    → parse_device_spec (tag ++ (b':' ∷ rest)) out ≡ parse_kind (kind_of tag) rest out
unfolding parse_device_spec
parse_tag tag rest out h = rw (parse_device_spec, cut_colon tag rest h, cut_colon tag rest h) refl

pub nonempty : (xs : Bytes) → 1 ≤ length xs → is_empty xs ≡ false
nonempty [] h = absurd (omega arith)
nonempty (x ∷ xs) h = refl

-- The suffix is absent for the default pin only.
suffix_cases :
    (pin : Bytes)
    → 1 ≤ length pin
    → ((pin_suffix pin ≡ []) × (pin ≡ default_pin)) ⊎ (pin_suffix pin ≡ b':' ∷ pin)
unfolding pin_suffix
suffix_cases pin h = elim (Bool-cases (pin =? default_pin)) [
  | inl e ↦ rw (nonempty pin h, e) (inl (refl, =?→eq pin default_pin e))
  | inr e ↦ rw (nonempty pin h, e) (inr refl)
]

ble_plain :
    (name : Bytes)
    → 1 ≤ length name
    → NoColon name
    → parse_kind ble name fresh_spec ≡ (ble_spec name default_pin, true)
unfolding parse_kind ble_spec fresh_spec
ble_plain name hn hc = rw (parse_kind, cut-none name hc, nonempty name hn) refl

ble_pin :
    (name pin : Bytes)
    → 1 ≤ length name
    → NoColon name
    → parse_kind ble (name ++ (b':' ∷ pin)) fresh_spec ≡ (ble_spec name pin, true)
unfolding parse_kind ble_spec fresh_spec
ble_pin name pin hn hc =
    rw (parse_kind, cut_colon name pin hc, cut_colon name pin hc, nonempty name hn) refl

pub ble_line :
    (name pin : Bytes)
    → 1 ≤ length name
    → NoColon name
    → 1 ≤ length pin
    → parse_kind ble (name ++ pin_suffix pin) fresh_spec ≡ (ble_spec name pin, true)
ble_line name pin hn hc hp = elim (suffix_cases pin hp) [
  | inl (e, d) ↦ rw (e, append-nil name, d) (ble_plain name hn hc)
  | inr e ↦ rw e (ble_pin name pin hn hc)
]

pub addr_line :
    (address pin : Bytes)
    → length address ≡ 17
    → 1 ≤ length pin
    → parse_kind addr (address ++ pin_suffix pin) fresh_spec ≡ (addr_spec address pin, true)
unfolding parse_kind addr_spec fresh_spec
addr_line address pin ha hp = elim (suffix_cases pin hp) [
  | inl (e, d) ↦ rw (e, append-nil address, ha, d) (rw (nonempty address (omega (arith, ha))) refl)
  | inr e ↦
      rw (e, length-append address (b':' ∷ pin), ha, long, at_17 address ha, take_17, drop_18)
        (rw (nonempty address (omega (arith, ha))) refl)
]
  where
    long : ltb 17 (17 + suc (length pin)) ≡ true
    long = ground arith

    at_17 : (xs : Bytes) → length xs ≡ 17 → get_or (xs ++ (b':' ∷ pin)) 17 0 ≡ b':'
    at_17 xs h = ap (λ n. get_or (xs ++ (b':' ∷ pin)) n 0) (sym h) ∙ at_end xs pin

    take_17 : take 17 (address ++ (b':' ∷ pin)) ≡ address
    take_17 =
        ap (λ n. take n (address ++ (b':' ∷ pin))) (sym ha)
        ∙ take-length-append address (b':' ∷ pin)

    drop_18 : drop 18 (address ++ (b':' ∷ pin)) ≡ pin
    drop_18 =
        ap (λ n. drop n (address ++ (b':' ∷ pin))) {x = 18} (omega (arith, ha))
        ∙ drop_past address pin

baud_kept : (n : ℕ) → 1 ≤ n → baud_of (pos n) ≡ pos n
unfolding baud_of
baud_kept zero h = absurd (omega arith)
baud_kept (suc n) h = refl

pub serial_line :
    (path : Bytes) (baud : ℕ)
    → 1 ≤ length path
    → NoColon path
    → 1 ≤ baud
    → baud < 2 ^ 31
    → parse_kind serial (path ++ (b':' ∷ to_string (pos baud))) fresh_spec
      ≡ (serial_spec path baud, true)
unfolding parse_kind serial_spec fresh_spec
serial_line path baud hp hc hb hi =
    rw
      (
        parse_kind,
        cut_colon path (to_string (pos baud)) hc,
        cut_colon path (to_string (pos baud)) hc,
        atoi-to_string baud hi,
        baud_kept baud hb,
        nonempty path hp,
      )
      refl

pub parse_mesh_host :
    (host port : Bytes)
    → NoColon host
    → NoColon port
    → parse_mesh (host ++ (b':' ∷ port)) fresh_spec ≡ mesh_spec (host ++ (b':' ∷ port)) [] []
unfolding parse_mesh mesh_spec fresh_spec
parse_mesh_host host port hh hp = rw (parse_mesh, cut_colon host port hh, cut-none port hp) refl

pub parse_mesh_login :
    (host port user password : Bytes)
    → NoColon host
    → NoColon port
    → NoColon user
    → parse_mesh (host ++ (b':' ∷ (port ++ (b':' ∷ (user ++ (b':' ∷ password)))))) fresh_spec
      ≡ mesh_spec (host ++ (b':' ∷ port)) user password
unfolding parse_mesh mesh_spec fresh_spec
parse_mesh_login host port user password hh hp hu =
    rw
      (
        parse_mesh,
        cut_colon host (port ++ (b':' ∷ (user ++ (b':' ∷ password)))) hh,
        cut_colon port (user ++ (b':' ∷ password)) hp,
        cut_colon user password hu,
        cut_colon host (port ++ (b':' ∷ (user ++ (b':' ∷ password)))) hh,
        cut_colon port (user ++ (b':' ∷ password)) hp,
        cut_colon user password hu,
      )
      refl

pub tcp_line :
    (host : Bytes) → 1 ≤ length host → parse_kind tcp host fresh_spec ≡ (tcp_spec host, true)
unfolding parse_kind tcp_spec
tcp_line host h = rw (nonempty host h) refl

pub mesh_line :
    (rest : Bytes) (spec : BleDeviceSpec)
    → parse_mesh rest fresh_spec ≡ spec
    → is_empty spec.mesh_host ≡ false
    → parse_kind mesh rest fresh_spec ≡ (spec, true)
unfolding parse_kind
mesh_line rest spec e h = rw (e, h) refl

pub host_nonempty : (host port : Bytes) → is_empty (host ++ (b':' ∷ port)) ≡ false
host_nonempty [] port = refl
host_nonempty (h ∷ host) port = refl
