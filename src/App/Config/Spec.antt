-- ===== src/App/Config/Spec.antt =====
-- BleDeviceSpec of src/ble/ble_client.h, parse_device_spec and format_device_spec of
-- src/app/config.cpp.
pub mod Lines
pub mod RoundTrip
use fmesh_cli.Common.{
  ℕ, zero, suc, ◌+◌, Bool, true, false, ◌&&◌, ◌||◌, not, List, [], ◌∷◌, ◌++◌, Option, none, some,
  Bytes, codes, length, take, drop, get_or, index_of, ltb, ◌==◌, ◌=?◌, if◌then◌else◌,
}
use fmesh_cli.App.Config.Atoi.{ℤ, pos, negsuc, atoi, to_string}

pub record BleDeviceSpec : Type 0 where
  pub name : Bytes
  pub address : Bytes
  pub pin : Bytes
  pub tcp_host : Bytes
  pub serial_port : Bytes
  pub serial_baud : ℤ
  pub mesh_host : Bytes
  pub mesh_user : Bytes
  pub mesh_password : Bytes

abbrev pub default_pin : Bytes
default_pin = codes "123456"

-- `BleDeviceSpec spec;`
unfoldable pub fresh_spec : BleDeviceSpec
fresh_spec = record {
  name = [];
  address = [];
  pin = default_pin;
  tcp_host = [];
  serial_port = [];
  serial_baud = pos 115200;
  mesh_host = [];
  mesh_user = [];
  mesh_password = [];
}

unfoldable pub same_int : ℤ → ℤ → Bool
same_int (pos a) (pos b) = a == b
same_int (negsuc a) (negsuc b) = a == b
same_int (pos a) (negsuc b) = false
same_int (negsuc a) (pos b) = false

-- operator==
unfoldable pub same_spec : BleDeviceSpec → BleDeviceSpec → Bool
unfolding same_int
same_spec a b =
    a.name =? b.name
    && (a.address =? b.address
        && (a.pin =? b.pin
            && (a.tcp_host =? b.tcp_host
                && (a.serial_port =? b.serial_port
                    && (same_int a.serial_baud b.serial_baud
                        && (a.mesh_host =? b.mesh_host
                            && (a.mesh_user =? b.mesh_user
                                && a.mesh_password =? b.mesh_password)))))))

abbrev pub is_empty : Bytes → Bool
is_empty [] = true
is_empty (b ∷ bs) = false

-- A string at the first colon: what is before it and, if there is one, what follows.
unfoldable pub cut : Bytes → Bytes × Option Bytes
cut s = elim (index_of b':' s) [ none ↦ (s, none) | some i ↦ (take i s, some (drop (i + 1) s)) ]

unfoldable pub baud_of : ℤ → ℤ
baud_of (pos zero) = pos 115200
baud_of (pos (suc n)) = pos (suc n)
baud_of (negsuc n) = pos 115200

-- The kinds of specification, by the text before the first colon.
pub data Kind : Type 0 where
  ble addr tcp serial mesh unknown : Kind

unfoldable pub kind_of : Bytes → Kind
kind_of t =
    if t =? codes "ble"
    then ble
    else if t =? codes "addr"
    then addr
    else if t =? codes "tcp"
    then tcp
    else if t =? codes "serial"
    then serial
    else if t =? codes "mesh"
    then mesh
    else unknown

-- The third colon divides user and password; the second one ends the host, port and all.
unfoldable pub parse_mesh : Bytes → BleDeviceSpec → BleDeviceSpec
unfolding cut
parse_mesh rest out =
    let (host, after_host) = cut rest in
    elim after_host [
      | none ↦ record out { mesh_host = rest }
      | some port_on ↦
          (let (port, after_port) = cut port_on in
            elim after_port [
              | none ↦ record out { mesh_host = rest }
              | some user_on ↦
                  (let (user, after_user) = cut user_on in
                    elim after_user [
                      | none ↦ record out { mesh_host = host ++ (b':' ∷ port); mesh_user = user_on }
                      | some password ↦ record out {
                        mesh_host = host ++ (b':' ∷ port);
                        mesh_user = user;
                        mesh_password = password;
                      }
                    ])
            ])
    ]

-- The branches by the kind: `out` as it is left, and the result.
unfoldable pub parse_kind : Kind → Bytes → BleDeviceSpec → BleDeviceSpec × Bool
unfolding cut baud_of parse_mesh
parse_kind ble rest out =
    let (name, pin) = cut rest in
    elim pin [
      | none ↦ (record out { name = rest }, not (is_empty rest))
      | some p ↦ (record out { name = name; pin = p }, not (is_empty name))
    ]
parse_kind addr rest out =
    if ltb 17 (length rest) && get_or rest 17 0 == b':'
    then (record out { address = take 17 rest; pin = drop 18 rest }, not (is_empty (take 17 rest)))
    else (record out { address = rest }, not (is_empty rest))
parse_kind tcp rest out = (record out { tcp_host = rest }, not (is_empty rest))
parse_kind serial rest out =
    let (path, baud) = cut rest in
    elim baud [
      | none ↦ (record out { serial_port = rest }, not (is_empty rest))
      | some b ↦
          (record out { serial_port = path; serial_baud = baud_of (atoi b) }, not (is_empty path))
    ]
parse_kind mesh rest out = let out' = parse_mesh rest out in (out', not (is_empty out'.mesh_host))
parse_kind unknown rest out = (out, false)

unfoldable pub parse_device_spec : Bytes → BleDeviceSpec → BleDeviceSpec × Bool
unfolding cut kind_of parse_kind
parse_device_spec spec out =
    let (type, rest) = cut spec in
    elim rest [ none ↦ (out, false) | some r ↦ parse_kind (kind_of type) r out ]

-- `":" + pin` where it is neither empty nor the default.
unfoldable pub pin_suffix : Bytes → Bytes
pin_suffix pin = if not (is_empty pin) && not (pin =? default_pin) then b':' ∷ pin else []

unfoldable pub format_device_spec : BleDeviceSpec → Bytes
unfolding pin_suffix
format_device_spec spec =
    if not (is_empty spec.mesh_host)
    then (if not (is_empty spec.mesh_user) || not (is_empty spec.mesh_password)
        then codes "mesh:"
          ++ (spec.mesh_host ++ (b':' ∷ (spec.mesh_user ++ (b':' ∷ spec.mesh_password))))
        else codes "mesh:" ++ spec.mesh_host)
    else if not (is_empty spec.tcp_host)
    then codes "tcp:" ++ spec.tcp_host
    else if not (is_empty spec.serial_port)
    then codes "serial:" ++ (spec.serial_port ++ (b':' ∷ to_string spec.serial_baud))
    else if not (is_empty spec.address)
    then codes "addr:" ++ (spec.address ++ pin_suffix spec.pin)
    else if not (is_empty spec.name)
    then codes "ble:" ++ (spec.name ++ pin_suffix spec.pin)
    else []
