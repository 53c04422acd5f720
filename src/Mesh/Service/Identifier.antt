-- ===== src/Mesh/Service/Identifier.antt =====
-- The names of devices in src/mesh/mesh_service.cpp: parse_tcp_host, normalize_device_identifier and
-- DeviceRuntime::matches_identifier.
pub mod Spellings
use fmesh_cli.Common.{
  ℕ, zero, suc, ◌+◌, ◌-◌, ◌%◌, ◌^◌, Bool, true, false, ◌&&◌, ◌||◌, not, List, [], ◌∷◌, ◌++◌, Option,
  none, some, Bytes, codes, length, take, drop, ltb, leb, ◌==◌, ◌=?◌, if◌then◌else◌,
}
use fmesh_cli.App.Config.Spec.{BleDeviceSpec, is_empty}
use fmesh_cli.Mesh.NodeId.{node_num_to_id, digit_of, stoul}
use fmesh_cli.Mesh.NodeDb.{NodeDb, to_lower}
use fmesh_cli.Tui.Window.{is_prefix, rfind}

-- The port of the text behind the last colon; `none` is an exception.
unfoldable pub port_of : Bytes → Option ℕ
unfolding stoul
port_of text =
    if is_empty text
    then some 4403
    else elim (stoul 10 text) [ none ↦ none | some n ↦ some (n % 2 ^ 16) ]

unfoldable pub parse_tcp_host : Bytes → Option (Bytes × ℕ)
unfolding rfind port_of
parse_tcp_host tcp_host = elim (rfind (codes ":") tcp_host) [
  | none ↦ some (tcp_host, 4403)
  | some colon ↦ elim (port_of (drop (colon + 1) tcp_host)) [
    | none ↦ none
    | some port ↦ some (take colon tcp_host, port)
  ]
]

-- toupper in the C locale.
unfoldable pub upper : ℕ → ℕ
upper c = if leb b'a' c && leb c b'z' then c - 32 else c

-- The address at the end of a path of BlueZ.
unfoldable pub from_path : Bytes → Bytes
unfolding upper
from_path [] = []
from_path (c ∷ cs) = (if c == b'_' then b':' else upper c) ∷ from_path cs

unfoldable pub is_separator : ℕ → Bool
is_separator c = c == b':' || (c == b'-' || c == b'_')

-- One character of an address, if it is one.
unfoldable pub mac_char : ℕ → Option ℕ
unfolding is_separator digit_of upper
mac_char c =
    if is_separator c
    then some b':'
    else elim (digit_of c) [ none ↦ none | some d ↦ some (upper c) ]

-- The text with colons and capitals; `none` where a character belongs to no address.
unfoldable pub mac_of : Bytes → Option Bytes
unfolding mac_char
mac_of [] = some []
mac_of (c ∷ cs) = elim (mac_char c) [
  | none ↦ none
  | some d ↦ elim (mac_of cs) [ none ↦ none | some ds ↦ some (d ∷ ds) ]
]

-- How many of the characters are separators.
unfoldable pub colons : Bytes → ℕ
unfolding is_separator
colons [] = 0
colons (c ∷ cs) = if is_separator c then suc (colons cs) else colons cs

unfoldable pub as_mac : Bytes → Bytes
unfolding mac_of colons
as_mac raw = elim (mac_of raw) [
  | none ↦ raw
  | some mac ↦ (if colons raw == 5 && length mac == 17 then mac else raw)
]

unfoldable pub normalize_device_identifier : Bytes → Bytes
unfolding rfind from_path is_prefix as_mac
normalize_device_identifier raw = if is_empty raw then [] else elim (rfind (codes "/dev_") raw) [
  | some pos ↦ from_path (drop (pos + 5) raw)
  | none ↦
      (if is_prefix (codes "dev_") raw && length raw == 21
        then from_path (drop 4 raw)
        else as_mac raw)
]

-- The fields of a device that the lookups use.
pub record DeviceRuntime : Type 0 where
  pub id : Bytes
  pub spec : BleDeviceSpec
  pub db : NodeDb
  pub display_name : Bytes
  pub my_node_num : ℕ
  pub my_long_name : Bytes
  pub my_short_name : Bytes
  pub firmware_version : Bytes
  pub hw_model : Bytes
  pub config_lines : List Bytes
  pub aliases : List Bytes
  pub raw_packets : List Bytes

-- `!a.empty() && a == query`
unfoldable pub named : Bytes → Bytes → Bool
named a query = not (is_empty a) && a =? query

unfoldable pub has : Bytes → List Bytes → Bool
has query [] = false
has query (a ∷ aliases) = a =? query || has query aliases

unfoldable pub has_normalized : Bytes → List Bytes → Bool
unfolding normalize_device_identifier
has_normalized norm [] = false
has_normalized norm (a ∷ aliases) =
    normalize_device_identifier a =? norm || has_normalized norm aliases

unfoldable pub matches_exactly : Bytes → DeviceRuntime → Bool
unfolding named has
matches_exactly query rt =
    rt.id =? query
    || (named rt.spec.address query
        || (named rt.spec.name query
            || (named rt.display_name query
                || (named rt.my_long_name query
                    || (named rt.my_short_name query
                        || (not (rt.my_node_num == 0) && node_num_to_id rt.my_node_num =? query
                            || has query rt.aliases))))))

unfoldable pub matches_normalized : Bytes → DeviceRuntime → Bool
unfolding normalize_device_identifier has_normalized
matches_normalized norm rt =
    not (is_empty norm)
    && (normalize_device_identifier rt.id =? norm
        || (not (is_empty rt.spec.address) && normalize_device_identifier rt.spec.address =? norm
            || has_normalized norm rt.aliases))

-- Equal but for the case of letters.
unfoldable pub eq_ci : Bytes → Bytes → Bool
unfolding to_lower
eq_ci a b = length a == length b && to_lower a =? to_lower b

unfoldable pub matches_identifier : Bytes → DeviceRuntime → Bool
unfolding matches_exactly matches_normalized eq_ci
matches_identifier query rt =
    not (is_empty query)
    && (matches_exactly query rt
        || (matches_normalized (normalize_device_identifier query) rt
            || (not (is_empty rt.spec.name) && eq_ci rt.spec.name query
                || not (is_empty rt.display_name) && eq_ci rt.display_name query)))
